-- ===== src/Sweep/Passes.antt =====
-- A pass of the collection in src/lib.rs where finalizers leave the state of the crate as it is: it
-- frees the garbage, or finalizes it and puts it back.
use rust_cc.Prelude.{
  ℕ, ◌<◌, ◌^◌, ◌≡◌, ◌⊎◌, refl, true, false, none, some, List, [], ◌∷◌, ◌==◌, arith, Bool-cases,
  Option-cases, inl, inr, eq→==, ==→eq, ◌∙◌, ap, sym, length,
}
use rust_cc.CounterMarker.{needs_finalization}
use rust_cc.Heap.{Ptr, CcBox}
use rust_cc.Lists.Chain.{◌∈◌}
use rust_cc.World.{World, Client, ok}
use rust_cc.Collector.{collect_once}
use rust_cc.Tracing.{Snapshot}
use rust_cc.Tracing.Graph.{IsTraceable}
use rust_cc.Tracing.Finite.{Distinct-length}
use rust_cc.Tracing.Garbage.{IsTraced}
use rust_cc.Tracing.Start.{IsReady, start-live, tracing-IsTraced}
use rust_cc.Sweep.{IsQuiet}
use rust_cc.Sweep.Frees.{IsUnshared}
use rust_cc.Sweep.Dealloc.{Distinct-Chain}
use rust_cc.Sweep.Finalize.{IsInert}
use rust_cc.Sweep.PutBack.{Returns}
use rust_cc.Sweep.Refill.{finalize_and_deallocate-Returns}
use rust_cc.Sweep.Again.{Finds}
use rust_cc.Sweep.Collect.{
  Swept, begun, garbage_live, garbage_bound, garbage_short, garbage_line, collect_once-then,
  finalize_and_deallocate-Swept,
}

-- Either some box of the list has to be finalized, or none.
abbrev Needy : World → List Ptr → Type 0
Needy w xs =
    (p : Ptr) × (b : CcBox) × (p ∈ xs)
    × (w.heap p ≡ some b)
    × (needs_finalization b.counter_marker ≡ true)

abbrev Calm : World → List Ptr → Type 0
Calm w xs =
    (p : Ptr) (b : CcBox) → p ∈ xs → w.heap p ≡ some b → needs_finalization b.counter_marker ≡ false

needs_any : (w : World) (xs : List Ptr) → Needy w xs ⊎ Calm w xs
needs_any w [] = inr (λ p b i e. absurd (ground (arith, i)))
needs_any w (x ∷ xs) = elim (needs_any w xs) [
  | inl found ↦ let (p, b, i, e, n) = found in inl (p, b, ground (arith, i), e, n)
  | inr calm ↦ elim (Option-cases (w.heap x)) [
    | inl none_there ↦ inr (λ p b i e. elim (Bool-cases (p == x)) [
      | inl hit ↦ absurd (ground (arith, none_there, e, ap w.heap (==→eq p x hit)))
      | inr miss ↦ calm p b (ground (arith, i, miss)) e
    ])
    | inr (d, at) ↦ elim (Bool-cases (needs_finalization d.counter_marker)) [
      | inl needs ↦ inl (x, d, ground (arith, eq→== x x refl), at, needs)
      | inr quiet ↦ inr (λ p b i e. elim (Bool-cases (p == x)) [
        | inl hit ↦
            let same : d ≡ b = ground (arith, at, e, ap w.heap (==→eq p x hit)) in
            ap (λ (c : CcBox). needs_finalization c.counter_marker) (sym same) ∙ quiet
        | inr miss ↦ calm p b (ground (arith, i, miss)) e
      ])
    ]
  ]
]

-- A list of the collector can be begun in front of any pass.
pub begun-IsReady : (w : World) (start : List Ptr) → IsReady w start → IsReady (begun w) start
begun-IsReady w start k = record {
  buffered = k.buffered;
  unlisted = k.unlisted;
  reset = k.reset;
  no_lists = refl;
}

pub begun-Returns :
    (env v : World) (garbage : List Ptr) → Returns env garbage v → Returns env garbage (begun v)
begun-Returns env v garbage k = record {
  ready = begun-IsReady v garbage k.ready;
  boxes = k.boxes;
  gone = k.gone;
  framed = k.framed;
}

pub IsTraced-Finds :
    (env : World) (start done : List Ptr) (s : Snapshot)
    → IsTraced env start done s
    → Finds env start done s.non_roots
IsTraced-Finds env start done s k = record {
  distinct = k.distinct;
  counted = k.counted;
  found = k.garbage;
}

module _ (all : List Ptr) (fuel : ℕ) (client : Client) (enough : length all < fuel)
    (word : length all < 2 ^ 64) (inert : IsInert client) where
  module _ (w : World) (start : List Ptr) (ready : IsReady (begun w) start)
      (good : IsTraceable (begun w)) (finite : (p : Ptr) (b : CcBox) → w.heap p ≡ some b → p ∈ all)
      (quiet : IsQuiet (begun w) start client) (unshared : IsUnshared (begun w)) where
    pub fits_start : length start < 2 ^ 64
    fits_start =
        let bound =
          Distinct-length start all
            (Distinct-Chain w.heap none w.possible_cycles.first start ready.buffered.buffer.chain)
            (λ p i. let (b, e) = start-live (begun w) start ready p i in finite p b e) in
        omega (arith, bound, word)

    -- The pass frees the garbage, or puts it back.
    pub collect_once-Passed :
        (v : World) × (done : List Ptr) × (garbage : List Ptr) × (collect_once fuel client w
          ≡ ok tt v)
        × Finds (begun w) start done garbage
        × (Swept (begun w) start done garbage v ⊎ Returns (begun w) garbage v)
    collect_once-Passed =
        let (u, done, s, ran, is, traced) =
          tracing-IsTraced (begun w) start ready fuel all good finite fits_start enough in
        let result = λ (x : World).
          Swept (begun w) start done s.non_roots x ⊎ Returns (begun w) s.non_roots x in
        let short =
          garbage_short w start all fuel client ready good finite fits_start enough quiet unshared u
            done s is traced in
        let bound =
          garbage_bound w start all fuel client ready good finite fits_start enough quiet unshared u
            done s is traced in
        let (v, ran2, outcome) =
          collect_once-then w start all fuel client ready good finite fits_start enough quiet
            unshared u done s is traced result ran inl
            (elim (needs_any w s.non_roots) [
              | inl found ↦
                  let (p, b, i, e, needs) = found in
                  let (v, ran2, back) =
                    finalize_and_deallocate-Returns (begun w) u start done s is traced good fuel
                      client short (omega (arith, bound, word)) inert
                      (garbage_line w start all fuel client ready good finite fits_start enough
                        quiet unshared u done s is traced)
                      (garbage_live w start all fuel client ready good finite fits_start enough
                        quiet unshared u done s is traced)
                      p b i e needs in
                  (v, ran2, inr back)
              | inr calm ↦
                  let (v, ran2, swept) =
                    finalize_and_deallocate-Swept w start all fuel client ready good finite
                      fits_start enough quiet unshared u done s is traced calm in
                  (v, ran2, inl swept)
            ]) in
        (v, done, s.non_roots, ran2, IsTraced-Finds (begun w) start done s traced, outcome)
