-- ===== src/Sweep/Finalize.antt =====
-- The fold of `__collect` in src/lib.rs that finalizes the garbage, where finalizers leave the state of
-- the crate as it is.
use mathlib.Core.Option
use rust_cc.Prelude.{
  ℕ, zero, suc, ◌+◌, ◌<◌, ◌^◌, ◌≡◌, refl, Bool, true, false, ◌||◌, Option, none, some, List, [],
  ◌∷◌, ◌==◌, if◌then◌else◌, arith, Bool-cases, inl, inr, ==→eq, eq→==, ◌∙◌, ap, sym, length,
  usize_add,
}
use rust_cc.CounterMarker.{needs_finalization, set_finalized}
use rust_cc.Heap.{Ptr, CcBox, Heap, write}
use rust_cc.Lists.LinkedList
use rust_cc.Lists.Chain.{has, ◌∈◌, ◌∉◌, SameLinks, links}
use rust_cc.World.{World, Run, Client, ok}
use rust_cc.CcBox.{finalize_inner}
use rust_cc.Collector.{finalize_loop}
use rust_cc.Buffered.Marker.{remarked, update_marker-remarked}
use rust_cc.Tracing.Graph.{HasLayout, Distinct}
use rust_cc.Tracing.Reads.{box_at_run}
use rust_cc.Tracing.Layout.{vtable_of_at, LayoutOf-kept}
use rust_cc.Sweep.{Nexts}
use rust_cc.Sweep.Drops.{iter_next_at}

-- Finalizers that change nothing that the crate keeps.
abbrev pub IsInert : Client → Type 0
IsInert client = (p : Ptr) (u : World) → client.finalize p u ≡ ok tt u

-- The box behind its finalization.
abbrev pub finalized : CcBox → CcBox
finalized b =
    if needs_finalization b.counter_marker
    then record b { counter_marker = set_finalized true b.counter_marker }
    else b

-- `g` is `h` with the boxes at `xs` finalized.
abbrev pub Finalized : List Ptr → Heap → Heap → Type 0
Finalized xs h g = (q : Ptr) → g q ≡ (if has q xs then Option.map finalized (h q) else h q)

pub HasLayout-heap :
    (u : World) (g : Heap) (b : CcBox) → HasLayout u b → HasLayout (record u { heap = g }) b
HasLayout-heap u g b l =
    LayoutOf-kept u (record u { heap = g }) b b _ (λ q m held at. (m, at)) refl l

Nexts-frame :
    (h g : Heap) (first : Option Ptr) (xs : List Ptr)
    → ((q : Ptr) → q ∈ xs → g q ≡ h q)
    → Nexts h first xs
    → Nexts g first xs
Nexts-frame h g first [] same e = e
Nexts-frame h g first (p ∷ xs) same (e, b, at, words, inside, rest) = (
  e,
  b,
  same p (ground (arith, eq→== p p refl)) ∙ at,
  words,
  inside,
  Nexts-frame h g b.next xs (λ q i. same q (ground (arith, i))) rest,
)

-- Finalizing leaves the links.
pub Finalized-SameLinks : (xs : List Ptr) (h g : Heap) → Finalized xs h g → SameLinks h g
Finalized-SameLinks xs h g all q = ap (λ o. Option.map links o) (all q) ∙ go (has q xs) (h q)
  where
    go :
        (t : Bool) (o : Option CcBox)
        → Option.map links (if t then Option.map finalized o else o) ≡ Option.map links o
    go true none = refl
    go true (some c) = ground arith
    go false o = refl

mem-apart : (q p : Ptr) (xs : List Ptr) → q ∈ xs → p ∉ xs → (q == p) ≡ false
mem-apart q p xs i out = elim (Bool-cases (q == p)) [
  | inl hit ↦ absurd (ground (arith, i, out, ap (λ (r : Ptr). has r xs) (==→eq q p hit)))
  | inr miss ↦ miss
]

module _ (client : Client) (inert : IsInert client) where
  -- The run ends normally, and finalizes the box at `p` alone.
  abbrev Finalizes : World → Ptr → CcBox → Run Bool → Type 0
  Finalizes u p b r =
      (g : Heap) × (r ≡ ok (needs_finalization b.counter_marker) (record u { heap = g }))
      × Finalized (p ∷ []) u.heap g

  finalize_inner-Finalizes :
      (u : World) (p : Ptr) (b : CcBox)
      → u.heap p ≡ some b
      → HasLayout u b
      → Finalizes u p b (finalize_inner client p u)
  unfolding finalize_inner write
  finalize_inner-Finalizes u p b at l = elim (Bool-cases (needs_finalization b.counter_marker)) [
    | inl needs ↦
        let g = remarked u.heap p b (set_finalized true b.counter_marker) in
        let u1 : World = record u { heap = g } in
        let (table, called) = vtable_of_at u1 b (HasLayout-heap u g b l) in
        (
          g,
          rw (box_at_run u p b at) (
              rw needs (
                rw (update_marker-remarked u.heap p b (set_finalized true) at)
                  (rw called (rw (inert p u1) refl)))),
          λ q. ground (arith, needs, at),
        )
    | inr calm ↦ (u.heap, rw (box_at_run u p b at) (rw calm refl), λ q. ground (arith, calm, at))
  ]

  -- The loop ends normally, with whether anything was finalized and the number of boxes.
  abbrev Folds : World → List Ptr → Bool → ℕ → Run (Bool × ℕ) → Type 0
  Folds u xs flag size r =
      (any : Bool) × (n : ℕ) × (g : Heap) × (r ≡ ok (any, n) (record u { heap = g }))
      × Finalized xs u.heap g
      × (size + length xs < 2 ^ 64 → n ≡ size + length xs)
      × (any ≡ false
          → (flag ≡ false)
            × ((p : Ptr) (b : CcBox)
                → p ∈ xs
                → u.heap p ≡ some b
                → needs_finalization b.counter_marker ≡ false))

  Finalized-cons :
      (p : Ptr) (xs : List Ptr) (h g k : Heap)
      → p ∉ xs
      → Finalized (p ∷ []) h g
      → Finalized xs g k
      → Finalized (p ∷ xs) h k
  Finalized-cons p xs h g k out one rest q = elim (Bool-cases (q == p)) [
    | inl hit ↦ ground (arith, rest q, one q, out, hit, ap (λ (r : Ptr). has r xs) (==→eq q p hit))
    | inr miss ↦ ground (arith, rest q, one q, miss)
  ]

  pub finalize_loop-Folds :
      (fuel k : ℕ) (xs : List Ptr) (first : Option Ptr) (u : World) (flag : Bool) (size : ℕ)
      → length xs < k
      → Nexts u.heap first xs
      → Distinct xs
      → ((p : Ptr) (b : CcBox) → p ∈ xs → u.heap p ≡ some b → HasLayout u b)
      → Folds u xs flag size (finalize_loop fuel client k first flag size u)
  unfolding finalize_loop LinkedList.iter_next
  finalize_loop-Folds fuel zero xs first u flag size enough line distinct layouts =
      absurd (ground (arith, enough))
  finalize_loop-Folds fuel (suc k) [] first u flag size enough line distinct layouts = (
    flag,
    size,
    u.heap,
    rw line refl,
    λ q. refl,
    λ fits. ground arith,
    λ calm. (calm, λ p b i. absurd (ground (arith, i))),
  )
  finalize_loop-Folds fuel (suc k) (p ∷ xs) first u flag size enough (e, b, at, words, inside, rest)
        (out, distinct) layouts =
      let (g, ran, one) =
        finalize_inner-Finalizes u p b at (layouts p b (ground (arith, eq→== p p refl)) at) in
      let u1 : World = record u { heap = g } in
      let kept : (q : Ptr) → q ∈ xs → g q ≡ u.heap q =
        (λ q i. ground (arith, one q, mem-apart q p xs i out)) in
      let (any, n, h, ran2, all, counted, calm) =
        finalize_loop-Folds fuel k xs b.next u1 (needs_finalization b.counter_marker || flag)
          (usize_add size 1) (ground (arith, enough)) (Nexts-frame u.heap g b.next xs kept rest)
          distinct
          (λ q d i atq.
            HasLayout-heap u g d (layouts q d (ground (arith, i)) (sym (kept q i) ∙ atq))) in
      (
        any,
        n,
        h,
        rw e (rw (iter_next_at u.heap p b at) (rw ran ran2)),
        Finalized-cons p xs u.heap g h out one all,
        λ fits. ground (arith, counted, fits),
        λ none_any. (
          ground (arith, (calm none_any).0),
          λ q d i atq. elim (Bool-cases (q == p)) [
            | inl hit ↦
                let same : b ≡ d = ground (arith, at, atq, ap u.heap (==→eq q p hit)) in
                sym (ap (λ (x : CcBox). needs_finalization x.counter_marker) same)
                ∙ ground (arith, (calm none_any).0)
            | inr miss ↦
                let j : q ∈ xs = ground (arith, i, miss) in (calm none_any).1 q d j (kept q j ∙ atq)
          ],
        ),
      )
