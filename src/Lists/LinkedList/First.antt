-- ===== src/Lists/LinkedList/First.antt =====
-- `LinkedList::remove_first`, the `Drop` of the list, and its iteration.
use rust_cc.Prelude.{
  ℕ, zero, suc, ◌<◌, ◌≡◌, ◌≢◌, refl, Option, none, some, List, [], ◌∷◌, ◌==◌, if◌then◌else◌, arith,
  Bool-cases, inl, inr, ==→eq, eq→==, ◌∙◌, length,
}
use mathlib.Core.Option
use rust_cc.CounterMarker.{non_marked_mark, mark}
use rust_cc.Heap.{Ptr, CcBox, Heap, write, ◌>>=◌}
use rust_cc.Lists.Chain.{Chain, ◌∉◌, has, Chain-frame, unlinked}
use rust_cc.Lists.LinkedList.{
  LinkedList, remove_first, detach_first, drop_loop, collect_iter, contains,
}

-- A box that was taken off the front of a list: no links, and not marked.
abbrev pub taken : CcBox → CcBox
taken b = record b {
  next = none;
  prev = none;
  counter_marker = mark non_marked_mark b.counter_marker;
}

-- `g` is `h` after the first box `p` of the list `p ∷ xs` was taken off.
pub record IsTaken (p : Ptr) (xs : List Ptr) (h g : Heap) : Type 0 where
  pub same : (q : Ptr) → q ≢ p → q ∉ xs → g q ≡ h q
  pub payload : (q : Ptr) → q ≢ p → Option.map unlinked (g q) ≡ Option.map unlinked (h q)
  pub front : g p ≡ Option.map taken (h p)

abbrev pub FirstRemoved : Heap → Ptr → List Ptr → Option ((Option Ptr × LinkedList) × Heap) → Type 0
FirstRemoved h p xs r =
    (next : Option Ptr) × (g : Heap) × (r ≡ some ((some p, record { first = next }), g))
    × Chain g none next xs
    × IsTaken p xs h g

pub detach-Taken :
    (h : Heap) (p : Ptr) (b : CcBox) (xs : List Ptr)
    → h p ≡ some b
    → b.prev ≡ none
    → p ∉ xs
    → Chain h (some p) b.next xs
    → (g : Heap) × (detach_first p h ≡ some (record { first = b.next }, g))
      × Chain g none b.next xs
      × IsTaken p xs h g
unfolding detach_first write
detach-Taken h p b [] at pre o e = (
  write (write h p (some (record b { next = none }))) p
      (some (record b { next = none; counter_marker = mark non_marked_mark b.counter_marker })),
  ground arith,
  e,
  record { same = λ q ne o. ground arith; payload = λ q ne. ground arith; front = ground arith },
)
detach-Taken h p b (x ∷ xs) at pre o (e, ox, d, atx, prex, rest) =
    let h1 : Heap = write h x (some (record d { prev = none })) in
    (
      write (write h1 p (some (record b { next = none }))) p
          (some (record b { next = none; counter_marker = mark non_marked_mark b.counter_marker })),
      ground arith,
      (
        e,
        ox,
        record d { prev = none },
        ground arith,
        refl,
        Chain-frame (some x) d.next xs (λ q i. ground arith) rest,
      ),
      record {
        same = λ q ne o. ground arith;
        payload = λ q ne. ground arith;
        front = ground arith;
      },
    )

-- On a well-linked list that is not empty, `remove_first` hands out the first element, without
-- links and not marked, and leaves a well-linked list of the others; nothing else changes but the
-- back link of the new first element.
pub remove_first-FirstRemoved :
    (h : Heap) (first : Option Ptr) (p : Ptr) (xs : List Ptr)
    → Chain h none first (p ∷ xs)
    → FirstRemoved h p xs (remove_first (record { first = first }) h)
unfolding remove_first
remove_first-FirstRemoved h first p xs (e, o, b, at, pre, rest) =
    let (g, ran, c, t) = detach-Taken h p b xs at pre o rest in
    (b.next, g, rw (e, ran, ◌>>=◌), c, t)

pub remove_first-nil :
    (h : Heap)
    → remove_first (record { first = none }) h ≡ some ((none, record { first = none }), h)
unfolding remove_first
remove_first-nil h = refl

taken-unlinked : (o : Option CcBox) → Option.map taken o ≡ Option.map taken (Option.map unlinked o)
taken-unlinked none = refl
taken-unlinked (some b) = refl

taken-step :
    {h g : Heap} (p : Ptr) (xs : List Ptr)
    → IsTaken p xs h g
    → p ∉ xs
    → (q : Ptr)
    → (if has q xs then Option.map taken (g q) else g q)
      ≡ (if has q (p ∷ xs) then Option.map taken (h q) else h q)
taken-step {h} {g} p xs t o q = elim (Bool-cases (q == p)) [
  | inl hit ↦ rw (==→eq q p hit, o, eq→== p p refl) t.front
  | inr miss ↦ ground (arith, t.same q, t.payload q, taken-unlinked (g q), taken-unlinked (h q))
]

-- With more fuel than elements, dropping a well-linked list ends without a fault; then every
-- element has no links and is not marked, and every other box is as it was.
pub drop_loop-taken :
    (fuel : ℕ) (h : Heap) (first : Option Ptr) (xs : List Ptr)
    → Chain h none first xs
    → length xs < fuel
    → (g : Heap) × (drop_loop fuel (record { first = first }) h ≡ some (record { first = none }, g))
      × ((q : Ptr) → g q ≡ (if has q xs then Option.map taken (h q) else h q))
unfolding drop_loop
drop_loop-taken zero h first xs c f = absurd (omega arith)
drop_loop-taken (suc fuel) h first [] c f = (h, rw (c, remove_first-nil h, ◌>>=◌), λ q. refl)
drop_loop-taken (suc fuel) h first (p ∷ xs) c f =
    let (next, g, ran, c', t) = remove_first-FirstRemoved h first p xs c in
    let (k, done, at) = drop_loop-taken fuel g next xs c' (omega arith) in
    (k, rw (ran, ◌>>=◌) done, λ q. at q ∙ taken-step p xs t c.1 q)

pub collect_iter_lem :
    (fuel : ℕ) (h : Heap) (before first : Option Ptr) (xs : List Ptr)
    → Chain h before first xs
    → length xs < fuel
    → collect_iter fuel first h ≡ some (xs, h)
unfolding collect_iter
collect_iter_lem zero h before first xs c f = absurd (omega arith)
collect_iter_lem (suc fuel) h before first [] c f = rw c
collect_iter_lem (suc fuel) h before first (x ∷ xs) (e, o, b, at, pre, rest) f =
    let ih = collect_iter_lem fuel h (some x) b.next xs rest (omega arith) in ground arith

-- With more fuel than elements, `contains` on a well-linked list ends and says whether the address
-- is on it, and changes nothing.
contains-has :
    (fuel : ℕ) (ptr : Ptr) (h : Heap) (before first : Option Ptr) (xs : List Ptr)
    → Chain h before first xs
    → length xs < fuel
    → contains fuel ptr first h ≡ some (has ptr xs, h)
unfolding contains
contains-has zero ptr h before first xs c f = absurd (omega arith)
contains-has (suc fuel) ptr h before first [] c f = rw c
contains-has (suc fuel) ptr h before first (x ∷ xs) (e, o, b, at, pre, rest) f =
    let ih = contains-has fuel ptr h (some x) b.next xs rest (omega arith) in ground arith
