-- ===== src/CounterMarker/Refinement.antt =====
-- The contract of src/counter_marker.rs as a whole.
use mathlib.Core.Option
use rust_cc.Prelude.{
  ◌%◌, ◌≡◌, ◌≢◌, refl, Bool, true, false, not, Option, none, some, ◌==◌, if◌then◌else◌, arith,
}
use rust_cc.CounterMarker.{
  CounterMarker, Mark, non_marked_mark, possible_cycles_mark, in_list_mark, in_queue_mark,
  counter_mask, new_with_counter_to_one, counter, tracing_counter, increment_counter,
  decrement_counter, increment_tracing_counter, decrement_tracing_counter, reset_tracing_counter,
  needs_finalization, set_finalized, has_allocated_for_metadata, set_allocated_for_metadata,
  is_dropped, set_dropped, is_not_marked, is_in_possible_cycles, is_in_list, is_in_queue,
  is_in_list_or_queue, mark,
}
use rust_cc.CounterMarker.Words.{
  and_counter_mask, and_bits_mask, and_not_first_bit, and_not_second_bit, or_first_bit,
  or_second_bit, or_counter_mask, or_mark,
}
use rust_cc.CounterMarker.View.{
  view, IsWords, increment_count, decrement_count, increment_tracing, decrement_tracing,
  is_unmarked, is_mark,
}
use rust_cc.CounterMarker.Laws.{
  counter-view, tracing_counter-view, view-increment_counter, view-decrement_counter,
  view-increment_tracing_counter, view-decrement_tracing_counter, view-reset_tracing_counter,
  needs_finalization-view, has_allocated_for_metadata-view, is_dropped-view, view-set_finalized,
  view-set_allocated_for_metadata, view-set_dropped, view-mark, is_not_marked-view,
  is_in_possible_cycles-view, is_in_list-view, is_in_queue-view, is_in_list_or_queue-view,
}

-- The optional result of a method holds words, if there is one.
abbrev pub AllWords : Option CounterMarker → Type 0
AllWords none = Unit
AllWords (some c) = IsWords c

module _ {c : CounterMarker} (w : IsWords c) where
  pub increment_counter-IsWords : AllWords (increment_counter c)
  unfolding increment_counter
  increment_counter-IsWords = ground arith

  pub decrement_counter-IsWords : AllWords (decrement_counter c)
  unfolding decrement_counter
  decrement_counter-IsWords = ground arith

  pub increment_tracing_counter-IsWords : AllWords (increment_tracing_counter c)
  unfolding increment_tracing_counter
  increment_tracing_counter-IsWords = ground arith

  decrement_tracing_counter-IsWords : AllWords (decrement_tracing_counter c)
  unfolding decrement_tracing_counter
  decrement_tracing_counter-IsWords = ground arith

  pub reset_tracing_counter-IsWords : IsWords (reset_tracing_counter c)
  unfolding reset_tracing_counter
  reset_tracing_counter-IsWords =
      ground (arith, and_bits_mask c.tracing_counter_cell w.tracing_fits)

  pub set_finalized-IsWords : (b : Bool) → IsWords (set_finalized b c)
  unfolding set_finalized
  set_finalized-IsWords true = ground (arith, or_second_bit c.counter_cell w.counter_fits)
  set_finalized-IsWords false = ground (arith, and_not_second_bit c.counter_cell w.counter_fits)

  pub set_allocated_for_metadata-IsWords : (b : Bool) → IsWords (set_allocated_for_metadata b c)
  unfolding set_allocated_for_metadata
  set_allocated_for_metadata-IsWords true =
      ground (arith, or_first_bit c.counter_cell w.counter_fits)
  set_allocated_for_metadata-IsWords false =
      ground (arith, and_not_first_bit c.counter_cell w.counter_fits)

  pub set_dropped-IsWords : (b : Bool) → IsWords (set_dropped b c)
  unfolding set_dropped
  set_dropped-IsWords true = ground (arith, or_counter_mask c.tracing_counter_cell w.tracing_fits)
  set_dropped-IsWords false = ground (arith, and_bits_mask c.tracing_counter_cell w.tracing_fits)

  pub mark-IsWords : (m : Mark) → IsWords (mark m c)
  unfolding mark
  mark-IsWords non_marked_mark = ground (
    arith,
    and_counter_mask c.tracing_counter_cell w.tracing_fits,
    or_mark (c.tracing_counter_cell % 16384) 0,
  )
  mark-IsWords possible_cycles_mark = ground (
    arith,
    and_counter_mask c.tracing_counter_cell w.tracing_fits,
    or_mark (c.tracing_counter_cell % 16384) 1,
  )
  mark-IsWords in_list_mark = ground (
    arith,
    and_counter_mask c.tracing_counter_cell w.tracing_fits,
    or_mark (c.tracing_counter_cell % 16384) 2,
  )
  mark-IsWords in_queue_mark = ground (
    arith,
    and_counter_mask c.tracing_counter_cell w.tracing_fits,
    or_mark (c.tracing_counter_cell % 16384) 3,
  )

  -- The four counting methods refuse at their bound and otherwise move their own counter by one,
  -- whatever the mark, the flags and the other counter are, provided that neither counter holds
  -- the reserved value.
  pub counting-view :
      (view c).count ≢ counter_mask
      → (view c).tracing ≢ counter_mask
      → (Option.map view (increment_counter c) ≡ increment_count (view c))
        × (Option.map view (decrement_counter c) ≡ decrement_count (view c))
        × (Option.map view (increment_tracing_counter c) ≡ increment_tracing (view c))
        × (Option.map view (decrement_tracing_counter c) ≡ decrement_tracing (view c))
  counting-view h g = (
    view-increment_counter w h,
    view-decrement_counter w,
    view-increment_tracing_counter w g,
    view-decrement_tracing_counter w,
  )

  -- Each setter changes the one field that it is named after, and no other: the finalized flag,
  -- the metadata flag, the tracing counter (all ones for dropped, zero otherwise), the mark.
  pub setters-view :
      (b : Bool) (m : Mark)
      → (view (set_finalized b c) ≡ record (view c) { finalized = b })
        × (view (set_allocated_for_metadata b c) ≡ record (view c) { metadata = b })
        × (view (set_dropped b c) ≡ record (view c) { tracing = if b then counter_mask else 0 })
        × (view (reset_tracing_counter c) ≡ record (view c) { tracing = 0 })
        × (view (mark m c) ≡ record (view c) { mark = m })
  setters-view b m = (
    view-set_finalized w b,
    view-set_allocated_for_metadata w b,
    view-set_dropped w b,
    view-reset_tracing_counter w,
    view-mark w m,
  )

  -- Each test and each getter reads the one field that it is named after.
  pub getters-view :
      (counter c ≡ (view c).count)
      × (tracing_counter c ≡ (view c).tracing)
      × (needs_finalization c ≡ not (view c).finalized)
      × (has_allocated_for_metadata c ≡ (view c).metadata)
      × (is_dropped c ≡ ((view c).tracing == counter_mask))
      × (is_not_marked c ≡ is_unmarked (view c).mark)
      × (is_in_possible_cycles c ≡ is_mark possible_cycles_mark (view c).mark)
      × (is_in_list c ≡ is_mark in_list_mark (view c).mark)
      × (is_in_queue c ≡ is_mark in_queue_mark (view c).mark)
      × (is_in_list_or_queue c ≡ not (is_unmarked (view c).mark))
  getters-view = (
    counter-view w,
    tracing_counter-view w,
    needs_finalization-view w,
    has_allocated_for_metadata-view w,
    is_dropped-view w,
    is_not_marked-view w,
    is_in_possible_cycles-view w,
    is_in_list-view w,
    is_in_queue-view w,
    is_in_list_or_queue-view w,
  )

  -- Every method leaves two 16-bit words behind.
  methods-IsWords :
      (b : Bool) (m : Mark)
      → AllWords (increment_counter c)
        × AllWords (decrement_counter c)
        × AllWords (increment_tracing_counter c)
        × AllWords (decrement_tracing_counter c)
        × IsWords (reset_tracing_counter c)
        × IsWords (set_finalized b c)
        × IsWords (set_allocated_for_metadata b c)
        × IsWords (set_dropped b c)
        × IsWords (mark m c)
  methods-IsWords b m = (
    increment_counter-IsWords,
    decrement_counter-IsWords,
    increment_tracing_counter-IsWords,
    decrement_tracing_counter-IsWords,
    reset_tracing_counter-IsWords,
    set_finalized-IsWords b,
    set_allocated_for_metadata-IsWords b,
    set_dropped-IsWords b,
    mark-IsWords m,
  )

-- A new allocation holds two words: not marked, both counters at one, no metadata, and finalized
-- as asked.
new_with_counter_to_one-view :
    (b : Bool)
    → IsWords (new_with_counter_to_one b)
      × (view (new_with_counter_to_one b) ≡ record {
        mark = non_marked_mark;
        tracing = 1;
        metadata = false;
        finalized = b;
        count = 1;
      })
unfolding new_with_counter_to_one view
new_with_counter_to_one-view true = (omega arith, refl)
new_with_counter_to_one-view false = (omega arith, refl)
