-- ===== src/CounterMarker/Laws.antt =====
-- The methods of src/counter_marker.rs, one by one, on the fields of the layout.
use mathlib.Core.Option
use rust_cc.Prelude.{◌%◌, ◌≡◌, ◌≢◌, Bool, true, false, not, ◌==◌, if◌then◌else◌, arith}
use rust_cc.CounterMarker.{
  CounterMarker, Mark, non_marked_mark, possible_cycles_mark, in_list_mark, in_queue_mark,
  counter_mask, counter, tracing_counter, increment_counter, decrement_counter,
  increment_tracing_counter, decrement_tracing_counter, reset_tracing_counter, needs_finalization,
  set_finalized, has_allocated_for_metadata, set_allocated_for_metadata, is_dropped, set_dropped,
  is_not_marked, is_in_possible_cycles, is_in_list, is_in_queue, is_in_list_or_queue, mark,
}
use rust_cc.CounterMarker.Words.{
  and_counter_mask, and_bits_mask, and_first_bit, and_second_bit, and_not_first_bit,
  and_not_second_bit, or_first_bit, or_second_bit, or_counter_mask, or_mark,
}
use rust_cc.CounterMarker.View.{
  view, mark_of, IsWords, increment_count, decrement_count, increment_tracing, decrement_tracing,
  is_unmarked, is_mark,
}

module _ {c : CounterMarker} (w : IsWords c) where
  pub counter-view : counter c ≡ (view c).count
  unfolding counter view
  counter-view = ground (arith, and_counter_mask c.counter_cell w.counter_fits)

  pub tracing_counter-view : tracing_counter c ≡ (view c).tracing
  unfolding tracing_counter view
  tracing_counter-view = ground (arith, and_counter_mask c.tracing_counter_cell w.tracing_fits)

  -- On every counter but the reserved one, incrementing refuses at the maximum and otherwise adds
  -- one to the reference counter, and the flags and the other word keep their values.
  pub view-increment_counter :
      (view c).count ≢ counter_mask
      → Option.map view (increment_counter c) ≡ increment_count (view c)
  unfolding increment_counter increment_count view
  view-increment_counter h = rw counter-view (ground arith)

  pub view-decrement_counter : Option.map view (decrement_counter c) ≡ decrement_count (view c)
  unfolding decrement_counter decrement_count view
  view-decrement_counter = rw counter-view (ground arith)

  pub needs_finalization-view : needs_finalization c ≡ not (view c).finalized
  unfolding needs_finalization view
  needs_finalization-view = ground (arith, and_second_bit c.counter_cell w.counter_fits)

  pub view-increment_tracing_counter :
      (view c).tracing ≢ counter_mask
      → Option.map view (increment_tracing_counter c) ≡ increment_tracing (view c)
  unfolding increment_tracing_counter increment_tracing view
  view-increment_tracing_counter h = rw tracing_counter-view (ground arith)

  pub view-decrement_tracing_counter :
      Option.map view (decrement_tracing_counter c) ≡ decrement_tracing (view c)
  unfolding decrement_tracing_counter decrement_tracing view
  view-decrement_tracing_counter = rw tracing_counter-view (ground arith)

  pub view-reset_tracing_counter : view (reset_tracing_counter c) ≡ record (view c) { tracing = 0 }
  unfolding reset_tracing_counter view
  view-reset_tracing_counter =
      rw (and_bits_mask c.tracing_counter_cell w.tracing_fits) (ground arith)

  pub has_allocated_for_metadata-view : has_allocated_for_metadata c ≡ (view c).metadata
  unfolding has_allocated_for_metadata view
  has_allocated_for_metadata-view = ground (arith, and_first_bit c.counter_cell w.counter_fits)

  pub is_dropped-view : is_dropped c ≡ ((view c).tracing == counter_mask)
  unfolding is_dropped view
  is_dropped-view = ground (arith, and_counter_mask c.tracing_counter_cell w.tracing_fits)

  pub view-set_finalized : (b : Bool) → view (set_finalized b c) ≡ record (view c) { finalized = b }
  unfolding set_finalized view
  view-set_finalized true = ground (arith, or_second_bit c.counter_cell w.counter_fits)
  view-set_finalized false = ground (arith, and_not_second_bit c.counter_cell w.counter_fits)

  pub view-set_allocated_for_metadata :
      (b : Bool) → view (set_allocated_for_metadata b c) ≡ record (view c) { metadata = b }
  unfolding set_allocated_for_metadata view
  view-set_allocated_for_metadata true = ground (arith, or_first_bit c.counter_cell w.counter_fits)
  view-set_allocated_for_metadata false =
      ground (arith, and_not_first_bit c.counter_cell w.counter_fits)

  pub view-set_dropped :
      (b : Bool)
      → view (set_dropped b c) ≡ record (view c) { tracing = if b then counter_mask else 0 }
  unfolding set_dropped view
  view-set_dropped true = ground (arith, or_counter_mask c.tracing_counter_cell w.tracing_fits)
  view-set_dropped false = ground (arith, and_bits_mask c.tracing_counter_cell w.tracing_fits)

  pub view-mark : (m : Mark) → view (mark m c) ≡ record (view c) { mark = m }
  unfolding mark view mark_of
  view-mark non_marked_mark = ground (
    arith,
    and_counter_mask c.tracing_counter_cell w.tracing_fits,
    or_mark (c.tracing_counter_cell % 16384) 0,
  )
  view-mark possible_cycles_mark = ground (
    arith,
    and_counter_mask c.tracing_counter_cell w.tracing_fits,
    or_mark (c.tracing_counter_cell % 16384) 1,
  )
  view-mark in_list_mark = ground (
    arith,
    and_counter_mask c.tracing_counter_cell w.tracing_fits,
    or_mark (c.tracing_counter_cell % 16384) 2,
  )
  view-mark in_queue_mark = ground (
    arith,
    and_counter_mask c.tracing_counter_cell w.tracing_fits,
    or_mark (c.tracing_counter_cell % 16384) 3,
  )

  pub is_not_marked-view : is_not_marked c ≡ (is_unmarked (view c).mark)
  unfolding is_not_marked view mark_of
  is_not_marked-view = ground (arith, and_first_bit c.tracing_counter_cell w.tracing_fits)

  pub is_in_possible_cycles-view :
      is_in_possible_cycles c ≡ is_mark possible_cycles_mark (view c).mark
  unfolding is_in_possible_cycles view mark_of
  is_in_possible_cycles-view = ground (arith, and_bits_mask c.tracing_counter_cell w.tracing_fits)

  pub is_in_list-view : is_in_list c ≡ is_mark in_list_mark (view c).mark
  unfolding is_in_list view mark_of
  is_in_list-view = ground (arith, and_bits_mask c.tracing_counter_cell w.tracing_fits)

  pub is_in_queue-view : is_in_queue c ≡ is_mark in_queue_mark (view c).mark
  unfolding is_in_queue view mark_of
  is_in_queue-view = ground (arith, and_bits_mask c.tracing_counter_cell w.tracing_fits)

  pub is_in_list_or_queue-view : is_in_list_or_queue c ≡ not (is_unmarked (view c).mark)
  unfolding is_in_list_or_queue view mark_of
  is_in_list_or_queue-view = ground (arith, and_first_bit c.tracing_counter_cell w.tracing_fits)
