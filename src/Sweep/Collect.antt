-- ===== src/Sweep/Collect.antt =====
-- A whole pass of the collector: `__collect` of src/lib.rs.
use rust_cc.Prelude.{
  ℕ, ◌≤◌, ◌<◌, ◌^◌, ◌≡◌, ◌↔◌, refl, true, false, not, Option, none, some, List, [], ◌∷◌, arith, ◌∙◌,
  ap, sym, subst, length,
}
use rust_cc.CounterMarker.{Mark, needs_finalization, is_in_list, in_list_mark}
use rust_cc.CounterMarker.View.{is_mark, View, IsWords}
use rust_cc.CounterMarker.Laws.{needs_finalization-view}
use rust_cc.Heap.{Ptr, CcBox}
use rust_cc.Lists.LinkedList
use rust_cc.Lists.LinkedList.{LinkedList}
use rust_cc.Lists.Chain.{◌∈◌, ◌∉◌, Chain}
use rust_cc.State
use rust_cc.World.{World, Client, no_locals, ok, replace_finalizing, ◌>>◌}
use rust_cc.Collector.{trace_counting, trace_roots, collect_once, finalize_and_deallocate}
use rust_cc.Tracing.{Snapshot, Looks, IsSnapshot}
use rust_cc.Tracing.Graph.{IsTraceable}
use rust_cc.Tracing.Reads.{is_in_list-Looks}
use rust_cc.Tracing.Layout.{HasLayout-Looks}
use rust_cc.Tracing.Finite.{Distinct-length}
use rust_cc.Tracing.Counting.{Origin}
use rust_cc.Tracing.Counting.Round.{Origin-live}
use rust_cc.Tracing.Rooting.{IsHeld}
use rust_cc.Tracing.Garbage.{IsTraced}
use rust_cc.Tracing.Start.{IsReady, start-live}
use rust_cc.Sweep.{Nexts, IsQuiet, Readable, Keeps}
use rust_cc.Sweep.Frees.{IsUnshared}
use rust_cc.Sweep.Drops.{Readable-Spares}
use rust_cc.Sweep.Dealloc.{
  state-Spares, Nexts-Chain, Distinct-Chain, finalize_loop-idle, deallocate_list-Frees,
}

-- From `env` to `v`, exactly the objects that are reached from `start`, but not held from elsewhere,
-- are freed; all others are there, with their values.
pub record Swept (env : World) (start done garbage : List Ptr) (v : World) : Type 0 where
  pub counted : (p : Ptr) → (p ∈ done) ↔ Origin env start p
  pub found : (p : Ptr) → (p ∈ garbage) ↔ ((p ∈ done) × ¬ IsHeld env done p)
  pub freed : (p : Ptr) → p ∈ garbage → v.heap p ≡ none
  pub kept :
      (p : Ptr) (b : CcBox)
      → p ∉ garbage
      → env.heap p ≡ some b
      → (d : CcBox) × (v.heap p ≡ some d) × (d.elem ≡ b.elem) × (d.metadata ≡ b.metadata)

is_empty_at :
    (l : LinkedList) (first : Option Ptr)
    → l.first ≡ first
    → LinkedList.is_empty l ≡ elim first [ none ↦ true | some p ↦ false ]
unfolding LinkedList.is_empty
is_empty_at l first e = rw e refl

-- The lists of `__collect` are new.
abbrev pub begun : World → World
begun w = record w { locals = no_locals }

module _ (env w : World) (s : Snapshot) (is : IsSnapshot env w s) (good : IsTraceable env) where
  idle_now :
      (p : Ptr) (before b d : CcBox)
      → env.heap p ≡ some before
      → w.heap p ≡ some d
      → d ≡ b
      → Looks s p before b
      → needs_finalization before.counter_marker ≡ false
      → needs_finalization d.counter_marker ≡ false
  idle_now p before b d e at same looks calm =
      ap (λ (x : CcBox). needs_finalization x.counter_marker) same
      ∙ needs_finalization-view looks.words
      ∙ ap (λ (v : View). not v.finalized) looks.shown
      ∙ sym (needs_finalization-view (good.words p before e))
      ∙ calm

  now-Readable : (p : Ptr) (before : CcBox) → env.heap p ≡ some before → Readable env w p
  now-Readable p before e =
      let (b, at, looks) = is.boxes p before e in
      (
        before,
        b,
        e,
        at,
        looks.metadata,
        looks.words,
        HasLayout-Looks env w s is good p before b e looks,
      )

  now-Keeps : Keeps env w
  now-Keeps q before e = let (b, at, looks) = is.boxes q before e in (b, at, looks.elem)

module _ (w : World) (start all : List Ptr) (fuel : ℕ) (client : Client)
    (ready : IsReady (begun w) start) (good : IsTraceable (begun w))
    (finite : (p : Ptr) (b : CcBox) → w.heap p ≡ some b → p ∈ all) (fits : length start < 2 ^ 64)
    (enough : length all < fuel) (quiet : IsQuiet (begun w) start client)
    (unshared : IsUnshared (begun w)) where
  -- Behind the tracing phases.
  module _ (u : World) (done : List Ptr) (s : Snapshot) (is : IsSnapshot (begun w) u s)
      (traced : IsTraced (begun w) start done s) where
    pub garbage_live : (p : Ptr) → p ∈ s.non_roots → (b : CcBox) × (w.heap p ≡ some b)
    garbage_live p i =
        let (j, unheld) = (traced.garbage p).0 i in
        Origin-live (begun w) start all good (start-live (begun w) start ready) finite p
          ((traced.counted p).0 j)

    pub garbage_bound : length s.non_roots ≤ length all
    garbage_bound =
        Distinct-length s.non_roots all
          (Distinct-Chain u.heap none u.locals.non_root_list.first s.non_roots is.non_root_chain)
          (λ p i. let (b, e) = garbage_live p i in finite p b e)

    pub garbage_short : length s.non_roots < fuel
    garbage_short = ground (arith, garbage_bound, enough)

    pub garbage_line : Nexts u.heap u.locals.non_root_list.first s.non_roots
    garbage_line =
        Nexts-Chain u.heap none u.locals.non_root_list.first s.non_roots
          (λ p d i at.
            let (before, e) = garbage_live p i in
            let (b, atb, looks) = is.boxes p before e in
            let same : b ≡ d = ground (arith, at, atb) in
            (
              subst (λ (x : CcBox). IsWords x.counter_marker) same looks.words,
              ap (λ (x : CcBox). is_in_list x.counter_marker) (sym same)
                  ∙ is_in_list-Looks s p before b looks
                  ∙ ap (λ (m : Mark). is_mark in_list_mark m) (traced.marks p)
                  ∙ rw i refl,
            ))
          is.non_root_chain

    -- If no box of the garbage has to be finalized.
    pub finalize_and_deallocate-Swept :
        ((p : Ptr) (b : CcBox)
          → p ∈ s.non_roots
          → w.heap p ≡ some b
          → needs_finalization b.counter_marker ≡ false)
        → (v : World) × (finalize_and_deallocate fuel client u ≡ ok tt v)
          × Swept (begun w) start done s.non_roots v
    unfolding finalize_and_deallocate replace_finalizing
    finalize_and_deallocate-Swept idle =
        let first = u.locals.non_root_list.first in
        let u1 : World = record u { state = State.set_finalizing true u.state } in
        let (n, ran) =
          finalize_loop-idle fuel client fuel s.non_roots first u1 0 garbage_short garbage_line
            (λ p d i at.
              let (before, e) = garbage_live p i in
              let (b, atb, looks) = is.boxes p before e in
              idle_now (begun w) u s is good p before b d e at (ground (arith, at, atb)) looks
                (idle p before i e)) in
        let u2 : World = record u {
          state = State.set_finalizing u.state.finalizing (State.set_finalizing true u.state);
        } in
        let (v, ran2, (freed, kept)) =
          deallocate_list-Frees fuel client (begun w) unshared s.non_roots u2 garbage_short
            is.non_root_chain garbage_line
            (λ p i.
              let (before, e) = garbage_live p i in
              Readable-Spares (state-Spares u u2.state) (begun w) p
                (now-Readable (begun w) u s is good p before e))
            (quiet done u s is traced) in
        (
          v,
          rw ran ran2,
          record {
            counted = traced.counted;
            found = traced.garbage;
            freed = freed;
            kept = λ p before o e.
                let (b, at, looks) = is.boxes p before e in
                let (d, atd, same) = kept p b o at in
                (d, atd, same.elem ∙ looks.elem, same.metadata ∙ looks.metadata);
          },
        )

    empty-Swept : s.non_roots ≡ [] → Swept (begun w) start done s.non_roots u
    empty-Swept e = record {
      counted = traced.counted;
      found = traced.garbage;
      freed = λ p i. absurd (ground (arith, i, e));
      kept = λ p before o at.
          let (b, atb, looks) = is.boxes p before at in (b, atb, looks.elem, looks.metadata);
    }

    -- Behind the tracing there is either no garbage, or it is finalized, dropped and freed.
    pub collect_once-then :
        (P : World → Type 0)
        → (do trace_counting fuel; trace_roots fuel) (begun w) ≡ ok tt u
        → (Swept (begun w) start done s.non_roots u → P u)
        → (v : World) × (finalize_and_deallocate fuel client u ≡ ok tt v) × P v
        → (v : World) × (collect_once fuel client w ≡ ok tt v) × P v
    collect_once-then P ran none_found later = go s.non_roots refl
      where
        go :
            (garbage : List Ptr)
            → s.non_roots ≡ garbage
            → (v : World) × (collect_once fuel client w ≡ ok tt v) × P v
        go [] e =
            let first =
              subst (λ (xs : List Ptr). Chain u.heap none u.locals.non_root_list.first xs) e
                is.non_root_chain in
            (
              u,
              unfold collect_once in
                  rw ran (rw (is_empty_at u.locals.non_root_list none first) refl),
              none_found (empty-Swept e),
            )
        go (p ∷ xs) e =
            let first =
              subst (λ (xs : List Ptr). Chain u.heap none u.locals.non_root_list.first xs) e
                is.non_root_chain in
            let (v, ran2, swept) = later in
            (
              v,
              unfold collect_once in
                  rw ran (rw (is_empty_at u.locals.non_root_list (some p) first.0) ran2),
              swept,
            )
