-- ===== src/Sweep/Returned.antt =====
-- A box of the garbage that was finalized and put back into `POSSIBLE_CYCLES`, in `__collect` of
-- src/lib.rs.
use rust_cc.Prelude.{◌≡◌, refl, Bool, true, arith, Bool-cases, inl, inr, ◌∙◌, ap}
use rust_cc.CounterMarker.{possible_cycles_mark, needs_finalization}
use rust_cc.CounterMarker.View.{View, IsWords, view}
use rust_cc.CounterMarker.Laws.{
  needs_finalization-view, view-set_finalized, view-mark, view-reset_tracing_counter,
}
use rust_cc.CounterMarker.Refinement.{
  set_finalized-IsWords, mark-IsWords, reset_tracing_counter-IsWords,
}
use rust_cc.Heap.{CcBox}
use rust_cc.Lists.Marking.{marked}
use rust_cc.Sweep.Finalize.{finalized}

finalized-IsWords : (b : CcBox) → IsWords b.counter_marker → IsWords (finalized b).counter_marker
finalized-IsWords b words = elim (Bool-cases (needs_finalization b.counter_marker)) [
  | inl needs ↦ rw needs (set_finalized-IsWords words true)
  | inr calm ↦ rw calm words
]

view-finalized :
    (b : CcBox)
    → IsWords b.counter_marker
    → view (finalized b).counter_marker ≡ record (view b.counter_marker) { finalized = true }
view-finalized b words = elim (Bool-cases (needs_finalization b.counter_marker)) [
  | inl needs ↦ rw needs (view-set_finalized words true)
  | inr calm ↦
      let done : (view b.counter_marker).finalized ≡ true =
        ground (arith, needs_finalization-view words, calm) in
      rw calm (ap (λ (f : Bool). record (view b.counter_marker) { finalized = f }) done)
]

pub finalized-payload :
    (b : CcBox) → ((finalized b).elem ≡ b.elem) × ((finalized b).metadata ≡ b.metadata)
finalized-payload b = elim (Bool-cases (needs_finalization b.counter_marker)) [
  | inl needs ↦ rw needs (refl, refl)
  | inr calm ↦ rw calm (refl, refl)
]

-- A box behind its finalization and its return to the buffer.
abbrev pub returned : CcBox → CcBox
returned b = marked possible_cycles_mark (finalized b)

pub returned-IsWords : (b : CcBox) → IsWords b.counter_marker → IsWords (returned b).counter_marker
returned-IsWords b words =
    mark-IsWords (reset_tracing_counter-IsWords (finalized-IsWords b words)) possible_cycles_mark

pub view-returned :
    (b : CcBox)
    → IsWords b.counter_marker
    → view (returned b).counter_marker ≡ record (view b.counter_marker) {
      mark = possible_cycles_mark;
      tracing = 0;
      finalized = true;
    }
view-returned b words =
    let words1 = finalized-IsWords b words in
    view-mark (reset_tracing_counter-IsWords words1) possible_cycles_mark
    ∙ ap (λ (v : View). record v { mark = possible_cycles_mark })
        (view-reset_tracing_counter words1)
    ∙ ap (λ (v : View). record v { mark = possible_cycles_mark; tracing = 0 })
        (view-finalized b words)
