-- ===== src/Lists/LinkedList/Unlink.antt =====
-- `LinkedList::remove`, seen at each address: the removed box loses its links, and its two
-- neighbours are joined.
use rust_cc.Prelude.{◌≡◌, ◌≢◌, refl, Bool, false, Option, none, some, ◌==◌, if◌then◌else◌, arith}
use mathlib.Core.Option
use rust_cc.Heap.{Ptr, CcBox, Heap, write}
use rust_cc.Lists.Chain.{unlinked}
use rust_cc.Lists.LinkedList.{unlink}

abbrev pub points_to : Option Ptr → Ptr → Bool
points_to none q = false
points_to (some p) q = q == p

-- A box at `q` when the box between `prev` and `next` is taken out.
abbrev pub rejoin : Option Ptr → Option Ptr → Ptr → CcBox → CcBox
rejoin next prev q c = record c {
  prev = if points_to next q then prev else c.prev;
  next = if points_to prev q then next else c.next;
}

abbrev pub unlink_at : Heap → Ptr → CcBox → Heap
unlink_at h p b q = if q == p then some (unlinked b) else Option.map (rejoin b.next b.prev q) (h q)

-- A neighbour that is there lies in another box.
abbrev pub IsNeighbour : Heap → Ptr → Option Ptr → Type 0
IsNeighbour h p none = Unit
IsNeighbour h p (some n) = (n ≢ p) × (c : CcBox) × (h n ≡ some c)

abbrev pub first_after : Option Ptr → Option Ptr → Option Ptr → Option Ptr
first_after next none first = next
first_after next (some _) first = first

module _ (h : Heap) (p : Ptr) (first : Option Ptr) where
  pub unlink-at :
      (next prev : Option Ptr) (b : CcBox)
      → h p ≡ some b
      → b.next ≡ next
      → b.prev ≡ prev
      → IsNeighbour h p next
      → IsNeighbour h p prev
      → (g : Heap) × (unlink next prev p (record { first = first }) h
          ≡ some (record { first = first_after next prev first }, g))
        × ((q : Ptr) → g q ≡ unlink_at h p b q)
  unfolding unlink write
  unlink-at none none b at e e' hn hp = (h, refl, λ q. ground arith)
  unlink-at (some n) none b at e e' (ne, cn, atn) hp = (
    write (write h n (some (record cn { prev = none }))) p (some (record b { next = none })),
    ground arith,
    λ q. ground arith,
  )
  unlink-at none (some m) b at e e' hn (ne, cm, atm) = (
    write (write h m (some (record cm { next = none }))) p (some (record b { prev = none })),
    ground arith,
    λ q. ground arith,
  )
  unlink-at (some n) (some m) b at e e' (ne, cn, atn) (me, cm, atm) =
      let h1 : Heap = write h n (some (record cn { prev = some m })) in
      let c' : CcBox = (if m == n then record cn { prev = some m } else cm) in
      let h2 : Heap = write h1 m (some (record c' { next = some n })) in
      (
        write (write h2 p (some (record b { next = none }))) p (some (unlinked b)),
        ground arith,
        λ q. ground arith,
      )
