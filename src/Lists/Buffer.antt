-- ===== src/Lists/Buffer.antt =====
-- `PossibleCycles` of src/lists.rs, by way of `LinkedList`, and its size.
use rust_cc.Prelude.{
  ℕ, ◌+◌, ◌^◌, ◌<◌, ◌≡◌, refl, Option, none, some, List, [], ◌∷◌, ◌==◌, arith, Bool-cases, inl, inr,
  ◌∙◌, ap, length, usize_add, usize_sub, Option-cases,
}
use mathlib.Core.Option
use rust_cc.Heap.{Ptr, CcBox, Heap, ◌>>=◌}
use rust_cc.Lists.Chain.{Chain, ◌∈◌, ◌∉◌, IsLoose, erase, Relinked}
use rust_cc.Lists.LinkedList
use rust_cc.Lists.LinkedList.{LinkedList, link_front}
use rust_cc.Lists.LinkedList.Add.{add-Added}
use rust_cc.Lists.LinkedList.Remove.{remove-Removed}
use rust_cc.Lists.LinkedList.First.{IsTaken, detach-Taken}
use rust_cc.Lists.PossibleCycles
use rust_cc.Lists.PossibleCycles.{PossibleCycles}

abbrev with_size : ℕ → LinkedList × Heap → PossibleCycles × Heap
with_size n (l, g) = (record { first = l.first; size = n }, g)

add-as_list :
    (p : Ptr) (h : Heap) (pc : PossibleCycles)
    → PossibleCycles.add p pc h
      ≡ Option.map
          (with_size (usize_add pc.size 1))
          (LinkedList.add p (record { first = pc.first }) h)
unfolding PossibleCycles.add LinkedList.add
add-as_list p h pc = ground arith

unlink-as_list :
    (n m : Option Ptr) (p : Ptr) (h : Heap) (pc : PossibleCycles)
    → PossibleCycles.unlink n m p pc h
      ≡ Option.map (with_size pc.size) (LinkedList.unlink n m p (record { first = pc.first }) h)
unfolding PossibleCycles.unlink LinkedList.unlink
unlink-as_list none none p h pc = refl
unlink-as_list (some n) none p h pc = ground arith
unlink-as_list none (some m) p h pc = ground arith
unlink-as_list (some n) (some m) p h pc = ground arith

remove-as_list :
    (p : Ptr) (h : Heap) (pc : PossibleCycles)
    → PossibleCycles.remove p pc h
      ≡ Option.map
          (with_size (usize_sub pc.size 1))
          (LinkedList.remove p (record { first = pc.first }) h)
remove-as_list p h pc = elim (Option-cases (h p)) [
  | inl e ↦ unfold PossibleCycles.remove LinkedList.remove in ground arith
  | inr (b, e) ↦ remove-step b e
]
  where
    remove-step :
        (b : CcBox)
        → h p ≡ some b
        → PossibleCycles.remove p pc h
          ≡ Option.map
              (with_size (usize_sub pc.size 1))
              (LinkedList.remove p (record { first = pc.first }) h)
    remove-step b e =
        unfold PossibleCycles.remove LinkedList.remove in
        rw (e, ◌>>=◌) (unlink-as_list b.next b.prev p h (record pc { size = usize_sub pc.size 1 }))

detach_first-as_list :
    (p : Ptr) (h : Heap) (pc : PossibleCycles)
    → PossibleCycles.detach_first p pc h
      ≡ Option.map (with_size (usize_sub pc.size 1)) (LinkedList.detach_first p h)
unfolding PossibleCycles.detach_first LinkedList.detach_first
detach_first-as_list p h pc = ground arith

-- The buffer holds `xs`, and its size is their number.
pub record IsBuffer (h : Heap) (pc : PossibleCycles) (xs : List Ptr) : Type 0 where
  pub chain : Chain h none pc.first xs
  pub counted : pc.size ≡ length xs

length-erase : (p : Ptr) (xs : List Ptr) → p ∈ xs → length (erase p xs) + 1 ≡ length xs
length-erase p [] i = cc
length-erase p (x ∷ xs) i = elim (Bool-cases (p == x)) [
  | inl hit ↦ rw hit (omega arith)
  | inr miss ↦ rw miss (omega (arith, length-erase p xs (ground arith)))
]

-- Adding a box without links to the buffer puts it in front and counts it, if the size does not
-- reach 2 ^ 64.
pub add-IsBuffer :
    (h : Heap) (p : Ptr) (pc : PossibleCycles) (xs : List Ptr)
    → IsBuffer h pc xs
    → IsLoose h p
    → p ∉ xs
    → length xs + 1 < 2 ^ 64
    → (pc' : PossibleCycles) × (g : Heap) × (PossibleCycles.add p pc h ≡ some (pc', g))
      × IsBuffer g pc' (p ∷ xs)
      × Relinked (p ∷ xs) h g
add-IsBuffer h p pc xs is loose o fits =
    let (g, ran, c, r) = add-Added h p pc.first xs is.chain loose o in
    (
      record { first = some p; size = usize_add pc.size 1 },
      g,
      add-as_list p h pc ∙ ap (Option.map (with_size (usize_add pc.size 1))) ran,
      record { chain = c; counted = omega (arith, is.counted) },
      r,
    )

-- Removing a box from the buffer, wherever it stands, leaves the others in their order and the box
-- without links, and the size is the number of those left.
pub remove-IsBuffer :
    (h : Heap) (p : Ptr) (pc : PossibleCycles) (xs : List Ptr)
    → IsBuffer h pc xs
    → p ∈ xs
    → length xs < 2 ^ 64
    → (pc' : PossibleCycles) × (g : Heap) × (PossibleCycles.remove p pc h ≡ some (pc', g))
      × IsBuffer g pc' (erase p xs)
      × IsLoose g p
      × Relinked xs h g
remove-IsBuffer h p pc xs is i fits =
    let (first, g, ran, c, loose, r) = remove-Removed h p pc.first xs is.chain i in
    (
      record { first = first; size = usize_sub pc.size 1 },
      g,
      remove-as_list p h pc ∙ ap (Option.map (with_size (usize_sub pc.size 1))) ran,
      record { chain = c; counted = omega (arith, is.counted, length-erase p xs i) },
      loose,
      r,
    )

-- Taking the first box off a buffer that is not empty.
pub remove_first-IsBuffer :
    (h : Heap) (p : Ptr) (pc : PossibleCycles) (xs : List Ptr)
    → IsBuffer h pc (p ∷ xs)
    → length xs + 1 < 2 ^ 64
    → (pc' : PossibleCycles) × (g : Heap) × (PossibleCycles.remove_first pc h
        ≡ some ((some p, pc'), g))
      × IsBuffer g pc' xs
      × IsTaken p xs h g
unfolding PossibleCycles.remove_first
remove_first-IsBuffer h p pc xs is fits =
    let (e, o, b, at, pre, rest) = is.chain in
    let (g, ran, c, t) = detach-Taken h p b xs at pre o rest in
    let got = detach_first-as_list p h pc ∙ ap (Option.map (with_size (usize_sub pc.size 1))) ran in
    (
      record { first = b.next; size = usize_sub pc.size 1 },
      g,
      rw (e, got, ◌>>=◌),
      record { chain = c; counted = omega (arith, is.counted) },
      t,
    )
