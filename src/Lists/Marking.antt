-- ===== src/Lists/Marking.antt =====
-- The marking of the objects that were finalized, in `mark_self_and_append` of src/lists.rs.
use mathlib.Core.Option
use rust_cc.Prelude.{
  ℕ, zero, suc, ◌<◌, ◌≡◌, refl, Option, some, List, [], ◌∷◌, ◌==◌, if◌then◌else◌, arith, Bool-cases,
  inl, inr, ==→eq, eq→==, ◌∙◌, length,
}
use rust_cc.CounterMarker.{Mark, mark, reset_tracing_counter}
use rust_cc.Heap.{Ptr, CcBox, Heap, write, update_marker, as_ref, store}
use rust_cc.Lists.Chain.{Chain, ◌∉◌, has, SameLinks, Chain-SameLinks}
use rust_cc.Lists.LinkedList.{iter_next}
use rust_cc.Lists.PossibleCycles.{mark_loop}

-- A box with the mark `m` and a tracing counter of zero.
abbrev pub marked : Mark → CcBox → CcBox
marked m b = record b { counter_marker = mark m (reset_tracing_counter b.counter_marker) }

-- The last address, `p` where there is none.
abbrev pub last_from : Ptr → List Ptr → Ptr
last_from p [] = p
last_from p (x ∷ xs) = last_from x xs

module _ (m : Mark) (h : Heap) (x : Ptr) (b : CcBox) (at : h x ≡ some b) where
  abbrev step : Heap
  step =
      write
        (write h x (some (record b { counter_marker = reset_tracing_counter b.counter_marker }))) x
        (some (marked m b))

  step-links : SameLinks h step
  unfolding write
  step-links q = ground arith

  step-at :
      (xs : List Ptr) (q : Ptr)
      → x ∉ xs
      → (if has q xs then Option.map (marked m) (step q) else step q)
        ≡ (if has q (x ∷ xs) then Option.map (marked m) (h q) else h q)
  unfolding write
  step-at xs q o = elim (Bool-cases (q == x)) [
    | inl hit ↦ rw (==→eq q x hit, o, eq→== x x refl, at) refl
    | inr miss ↦ ground arith
  ]

  mark_step :
      (fuel : ℕ) (prev : Ptr)
      → mark_loop (suc fuel) m prev (some x) h ≡ mark_loop fuel m x b.next step
  unfolding mark_loop iter_next update_marker as_ref store write
  mark_step fuel prev = ground arith

-- With more fuel than elements, the loop ends without a fault at the last element; every element
-- has the mark and a tracing counter of zero, and every other box is as it was.
pub mark_loop-marked :
    (fuel : ℕ) (m : Mark) (prev : Ptr) (h : Heap) (before first : Option Ptr) (xs : List Ptr)
    → Chain h before first xs
    → length xs < fuel
    → (g : Heap) × (mark_loop fuel m prev first h ≡ some (last_from prev xs, g))
      × ((q : Ptr) → g q ≡ (if has q xs then Option.map (marked m) (h q) else h q))
unfolding mark_loop
mark_loop-marked zero m prev h before first xs c f = absurd (omega arith)
mark_loop-marked (suc fuel) m prev h before first [] c f = (h, rw c refl, λ q. refl)
mark_loop-marked (suc fuel) m prev h before first (x ∷ xs) (e, o, b, at, pre, rest) f =
    let (g, ran, all) =
      mark_loop-marked fuel m x (step m h x b at) (some x) b.next xs
        (Chain-SameLinks h (step m h x b at) (some x) b.next xs (step-links m h x b at) rest)
        (omega arith) in
    (g, rw e (mark_step m h x b at fuel prev ∙ ran), λ q. all q ∙ step-at m h x b at xs q o)
