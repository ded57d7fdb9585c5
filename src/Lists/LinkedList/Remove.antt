-- ===== src/Lists/LinkedList/Remove.antt =====
-- `LinkedList::remove` of src/lists.rs, on the sequence that the list stands for.
use rust_cc.Prelude.{
  ◌≡◌, ◌≢◌, refl, false, Option, none, some, List, [], ◌∷◌, ◌==◌, if◌then◌else◌, arith, Bool-cases,
  inl, inr, ==→eq, ne→==, eq→==, ◌∙◌, ap,
}
use mathlib.Core.Option
use rust_cc.Heap.{Ptr, CcBox, Heap, ◌>>=◌}
use rust_cc.Lists.Chain.{
  Chain, ◌∈◌, ◌∉◌, Relinked, IsLoose, Chain-frame, unlinked, erase, not-mem-erase, Within, Outside,
  next-Within, prev-Within, prev-Within_behind, Chain-at,
}
use rust_cc.Lists.LinkedList.{LinkedList, remove, unlink}
use rust_cc.Lists.LinkedList.Unlink.{
  points_to, rejoin, unlink_at, IsNeighbour, first_after, unlink-at,
}

module _ (h : Heap) (p : Ptr) (b : CcBox) (at : h p ≡ some b) where
  rejoin-id :
      (next prev : Option Ptr) (q : Ptr) (o : Option CcBox)
      → points_to next q ≡ false
      → points_to prev q ≡ false
      → Option.map (rejoin next prev q) o ≡ o
  rejoin-id next prev q none e e' = refl
  rejoin-id next prev q (some c) e e' = ground arith

  not-points :
      (xs : List Ptr) (o : Option Ptr) (q : Ptr) → Within h p xs o → q ∉ xs → points_to o q ≡ false
  not-points xs none q w o = refl
  not-points xs (some n) q (i, ne, _, _) o = ground arith

  Outside-points :
      (xs : List Ptr) (o : Option Ptr) (q : Ptr) → Outside xs o → q ∈ xs → points_to o q ≡ false
  Outside-points xs none q w o = refl
  Outside-points xs (some n) q w i = ground arith

  -- Only the box itself and its neighbours change.
  unlink_at-same :
      (q : Ptr)
      → q ≢ p
      → points_to b.next q ≡ false
      → points_to b.prev q ≡ false
      → unlink_at h p b q ≡ h q
  unlink_at-same q ne en ep = rw (ne→== q p ne) (rejoin-id b.next b.prev q (h q) en ep)

  rejoined :
      (q : Ptr) (d : CcBox)
      → q ≢ p
      → h q ≡ some d
      → unlink_at h p b q ≡ some (rejoin b.next b.prev q d)
  rejoined q d ne e = rw (ne→== q p ne, e)

  -- What follows the removed box gets its predecessor.
  successor-Chain :
      (before first : Option Ptr) (xs : List Ptr)
      → Chain h (some p) first xs
      → p ∉ xs
      → Outside xs before
      → b.prev ≡ before
      → b.next ≡ first
      → Chain (unlink_at h p b) before first xs
  successor-Chain before first [] e o out pre nx = e
  successor-Chain before first (y ∷ ys) (e, oy, d, aty, _, rest) o out pre nx = (
    e,
    oy,
    rejoin b.next b.prev y d,
    rejoined y d (ground arith) aty,
    rw (nx, e, pre, eq→== y y refl) refl,
    rw (outer y (ground arith)) (
        Chain-frame (some y) d.next ys
          (λ q i.
            unlink_at-same q (ground arith) (rw (nx, e) (ground arith)) (outer q (ground arith)))
          rest),
  )
    where
      outer : (q : Ptr) → q ∈ (y ∷ ys) → points_to b.prev q ≡ false
      outer q i = rw pre (Outside-points (y ∷ ys) before q out i)

  -- The predecessor of the removed box, and no other, gets a new successor.
  predecessor-points :
      (x : Ptr) (first : Option Ptr) (xs : List Ptr)
      → Chain h (some x) first xs
      → p ∈ xs
      → x ∉ xs
      → points_to b.prev x ≡ points_to first p
  predecessor-points x first [] c i o = cc
  predecessor-points x first (y ∷ ys) (e, oy, d, aty, pre, rest) i o = elim (Bool-cases (p == y)) [
    | inl hit ↦ let b-d : b ≡ d = ground arith in rw (b-d, pre, e, eq→== x x refl, hit)
    | inr miss ↦
        let w = prev-Within_behind h p b at y d d.next ys aty (ground arith) rest (ground arith) in
        rw (not-points (y ∷ ys) b.prev x w o, e, miss)
  ]

  Outside-tail : (x : Ptr) (xs : List Ptr) (o : Option Ptr) → Outside (x ∷ xs) o → Outside xs o
  Outside-tail x xs none w = tt
  Outside-tail x xs (some m) w = ground arith

  abbrev first_without : Option Ptr → Option Ptr
  first_without first = if points_to first p then b.next else first

  remove-Chain :
      (before first : Option Ptr) (xs : List Ptr)
      → Chain h before first xs
      → p ∈ xs
      → Outside xs before
      → Chain (unlink_at h p b) before (first_without first) (erase p xs)
  remove-Chain before first [] c i out = cc
  remove-Chain before first (x ∷ xs) (e, o, d, atx, pre, rest) i out = elim (Bool-cases (p == x)) [
    | inl hit ↦
        let p-x : p ≡ x = ==→eq p x hit in
        let b-d : b ≡ d = ground arith in
        let rest' : Chain h (some p) b.next xs = rw (b-d, p-x) rest in
        let now : first_without first ≡ b.next = ground arith in
        rw (hit, now)
          (successor-Chain before b.next xs rest' (rw p-x o) (Outside-tail x xs before out)
            (rw (b-d) pre) refl)
    | inr miss ↦
        let i' : p ∈ xs = ground arith in
        let kept = not-points xs b.next x (next-Within h p b at (some x) d.next xs rest i') o in
        rw miss (
          ground arith,
          not-mem-erase x p xs o,
          rejoin b.next b.prev x d,
          rejoined x d (ground arith) atx,
          rw kept pre,
          rw (predecessor-points x d.next xs rest i' o) (remove-Chain (some x) d.next xs rest i' o),
        )
  ]

  prev-ne-none :
      (y : Ptr) (first : Option Ptr) (xs : List Ptr)
      → Chain h (some y) first xs
      → p ∈ xs
      → b.prev ≢ none
  prev-ne-none y first [] c i = cc
  prev-ne-none y first (x ∷ xs) (e, o, d, atx, pre, rest) i = elim (Bool-cases (p == x)) [
    | inl hit ↦ let b-d : b ≡ d = ground arith in rw (b-d, pre) (ground arith)
    | inr miss ↦ prev-ne-none x d.next xs rest (ground arith)
  ]

  first_after_some :
      (next prev first : Option Ptr) → prev ≢ none → first_after next prev first ≡ first
  first_after_some next none first ne = absurd (ne refl)
  first_after_some next (some m) first ne = refl

  first-agree :
      (first : Option Ptr) (xs : List Ptr)
      → Chain h none first xs
      → p ∈ xs
      → first_after b.next b.prev first ≡ first_without first
  first-agree first [] c i = cc
  first-agree first (x ∷ xs) (e, o, d, atx, pre, rest) i = elim (Bool-cases (p == x)) [
    | inl hit ↦ let b-d : b ≡ d = ground arith in rw (e, hit, b-d, pre)
    | inr miss ↦
        rw (e, miss)
          (first_after_some b.next b.prev (some x) (prev-ne-none x d.next xs rest (ground arith)))
  ]

  unlink_at-payload :
      (q : Ptr) → Option.map unlinked (unlink_at h p b q) ≡ Option.map unlinked (h q)
  unlink_at-payload q = elim (Bool-cases (q == p)) [
    | inl hit ↦ rw (hit, ==→eq q p hit, at)
    | inr miss ↦ rw miss (payload (h q))
  ]
    where
      payload :
          (o : Option CcBox)
          → Option.map unlinked (Option.map (rejoin b.next b.prev q) o) ≡ Option.map unlinked o
      payload none = refl
      payload (some c) = refl

  Within-IsNeighbour : (xs : List Ptr) (o : Option Ptr) → Within h p xs o → IsNeighbour h p o
  Within-IsNeighbour xs none w = tt
  Within-IsNeighbour xs (some n) (i, ne, c, e) = (ne, c, e)

abbrev pub Removed : Heap → Ptr → List Ptr → Option (LinkedList × Heap) → Type 0
Removed h p xs r =
    (first : Option Ptr) × (g : Heap) × (r ≡ some (record { first = first }, g))
    × Chain g none first (erase p xs)
    × IsLoose g p
    × Relinked xs h g

module _ (h : Heap) (p : Ptr) (b : CcBox) (at : h p ≡ some b) (first : Option Ptr) (xs : List Ptr)
    (c : Chain h none first xs) (i : p ∈ xs) where
  remove-step : (l : LinkedList) → remove p l h ≡ unlink b.next b.prev p l h
  unfolding remove
  remove-step l = rw (at, ◌>>=◌)

  next-in : Within h p xs b.next
  next-in = next-Within h p b at none first xs c i

  prev-in : Within h p xs b.prev
  prev-in = prev-Within h p b at first xs c i

  untouched : (q : Ptr) → q ∉ xs → unlink_at h p b q ≡ h q
  untouched q o =
      unlink_at-same h p b at q (ground arith) (not-points h p b at xs b.next q next-in o)
        (not-points h p b at xs b.prev q prev-in o)

  remove_at-Removed : Removed h p xs (remove p (record { first = first }) h)
  remove_at-Removed =
      let (g, ran, agree) =
        unlink-at h p first b.next b.prev b at refl refl
          (Within-IsNeighbour h p b at xs b.next next-in)
          (Within-IsNeighbour h p b at xs b.prev prev-in) in
      (
        first_without h p b at first,
        g,
        remove-step (record { first = first })
            ∙ ran
            ∙ ap (λ (f : Option Ptr). some (record { first = f }, g))
                (first-agree h p b at first xs c i),
        Chain-frame none (first_without h p b at first) (erase p xs) (λ q _. agree q)
            (remove-Chain h p b at none first xs c i tt),
        (unlinked b, agree p ∙ (rw (eq→== p p refl) refl), refl, refl),
        record {
          same = λ q o. agree q ∙ untouched q o;
          payload = λ q. ap (Option.map unlinked) (agree q) ∙ unlink_at-payload h p b at q;
        },
      )

-- Wherever `p` stands on a well-linked list, `remove` does not fault, leaves a well-linked list of
-- the other elements in their order and `p` without links, and changes nothing but links, those of
-- the elements of the list.
pub remove-Removed :
    (h : Heap) (p : Ptr) (first : Option Ptr) (xs : List Ptr)
    → Chain h none first xs
    → p ∈ xs
    → Removed h p xs (remove p (record { first = first }) h)
remove-Removed h p first xs c i =
    let (b, at) = Chain-at h p none first xs c i in remove_at-Removed h p b at first xs c i
