-- ===== src/Tracing/Reads.antt =====
-- What the collector of src/lib.rs reads from a box that looks like a snapshot.
use rust_cc.Prelude.{◌≡◌, refl, not, some, ◌∙◌, ap, sym}
use rust_cc.CounterMarker.{
  counter, tracing_counter, is_in_list, is_in_list_or_queue, is_in_possible_cycles, in_list_mark,
  possible_cycles_mark, has_allocated_for_metadata,
}
use rust_cc.CounterMarker.View.{View, IsWords, view, is_mark, is_unmarked}
use rust_cc.CounterMarker.Laws.{
  counter-view, tracing_counter-view, is_in_list-view, is_in_list_or_queue-view,
  is_in_possible_cycles-view, has_allocated_for_metadata-view,
}
use rust_cc.Heap.{Ptr, CcBox}
use rust_cc.World.{World, ok, box_at}
use rust_cc.Buffered.Marker.{as_ref-at}
use rust_cc.Tracing.{Snapshot, Looks}
use rust_cc.Tracing.Graph.{count, count_in}

pub box_at_run : (w : World) (p : Ptr) (b : CcBox) → w.heap p ≡ some b → box_at p w ≡ ok b w
box_at_run w p b at = rw (as_ref-at w.heap p b at) refl

module _ (s : Snapshot) (p : Ptr) (before b : CcBox) (looks : Looks s p before b) where
  pub counter-Looks : counter b.counter_marker ≡ (view before.counter_marker).count
  counter-Looks = counter-view looks.words ∙ ap (λ (v : View). v.count) looks.shown

  pub tracing_counter-Looks : tracing_counter b.counter_marker ≡ s.tracing p
  tracing_counter-Looks =
      tracing_counter-view looks.words ∙ ap (λ (v : View). v.tracing) looks.shown

  pub is_in_list-Looks : is_in_list b.counter_marker ≡ is_mark in_list_mark (s.mark p)
  is_in_list-Looks =
      is_in_list-view looks.words ∙ ap (λ (v : View). is_mark in_list_mark v.mark) looks.shown

  pub is_in_list_or_queue-Looks :
      is_in_list_or_queue b.counter_marker ≡ not (is_unmarked (s.mark p))
  is_in_list_or_queue-Looks =
      is_in_list_or_queue-view looks.words ∙ ap (λ (v : View). not (is_unmarked v.mark)) looks.shown

  pub is_in_possible_cycles-Looks :
      is_in_possible_cycles b.counter_marker ≡ is_mark possible_cycles_mark (s.mark p)
  is_in_possible_cycles-Looks =
      is_in_possible_cycles-view looks.words
      ∙ ap (λ (v : View). is_mark possible_cycles_mark v.mark) looks.shown

  pub has_allocated-Looks :
      IsWords before.counter_marker
      → has_allocated_for_metadata b.counter_marker
        ≡ has_allocated_for_metadata before.counter_marker
  has_allocated-Looks w =
      has_allocated_for_metadata-view looks.words
      ∙ ap (λ (v : View). v.metadata) looks.shown
      ∙ sym (has_allocated_for_metadata-view w)

pub count-at :
    (env : World) (p : Ptr) (b : CcBox)
    → env.heap p ≡ some b
    → count env p ≡ (view b.counter_marker).count
count-at env p b at = ap count_in at
