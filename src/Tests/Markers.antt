-- ===== src/Tests/Markers.antt =====
-- The markers at concrete words.
use mathlib.Core.Option
use rust_cc.Prelude.{◌≡◌, true, false, not, ◌==◌, if◌then◌else◌, arith}
use rust_cc.CounterMarker.{
  CounterMarker, in_list_mark, possible_cycles_mark, in_queue_mark, counter_mask, increment_counter,
  decrement_counter, increment_tracing_counter, decrement_tracing_counter, reset_tracing_counter,
  set_finalized, set_allocated_for_metadata, set_dropped, mark, counter, tracing_counter,
  needs_finalization, has_allocated_for_metadata, is_dropped, is_not_marked, is_in_possible_cycles,
  is_in_list, is_in_queue, is_in_list_or_queue,
}
use rust_cc.CounterMarker.View.{
  IsWords, view, increment_count, decrement_count, increment_tracing, decrement_tracing, is_mark,
  is_unmarked,
}
use rust_cc.CounterMarker.Refinement.{counting-view, setters-view, getters-view}
use rust_cc.WeakCounterMarker.{WeakCounterMarker}
use rust_cc.WeakCounterMarker
use rust_cc.WeakCounterMarker.Refinement
use rust_cc.WeakCounterMarker.Refinement.{IsWord, IsWordIfSome, up, down, weak_methods-view}

-- In a list, traced twice, with metadata, finalized, and five pointers.
abbrev busy : CounterMarker
busy = record { tracing_counter_cell = 32770; counter_cell = 49157 }

busy-IsWords : IsWords busy
busy-IsWords = record { tracing_fits = omega arith; counter_fits = omega arith }

counting-view_example :
    (Option.map view (increment_counter busy) ≡ increment_count (view busy))
    × (Option.map view (decrement_counter busy) ≡ decrement_count (view busy))
    × (Option.map view (increment_tracing_counter busy) ≡ increment_tracing (view busy))
    × (Option.map view (decrement_tracing_counter busy) ≡ decrement_tracing (view busy))
unfolding view
counting-view_example = counting-view busy-IsWords (λ e. omega (arith, e)) (λ e. omega (arith, e))

setters-view_example :
    (view (set_finalized false busy) ≡ record (view busy) { finalized = false })
    × (view (set_allocated_for_metadata false busy) ≡ record (view busy) { metadata = false })
    × (view (set_dropped false busy)
        ≡ record (view busy) { tracing = if false then counter_mask else 0 })
    × (view (reset_tracing_counter busy) ≡ record (view busy) { tracing = 0 })
    × (view (mark in_queue_mark busy) ≡ record (view busy) { mark = in_queue_mark })
setters-view_example = setters-view busy-IsWords false in_queue_mark

getters-view_example :
    (counter busy ≡ (view busy).count)
    × (tracing_counter busy ≡ (view busy).tracing)
    × (needs_finalization busy ≡ not (view busy).finalized)
    × (has_allocated_for_metadata busy ≡ (view busy).metadata)
    × (is_dropped busy ≡ ((view busy).tracing == counter_mask))
    × (is_not_marked busy ≡ is_unmarked (view busy).mark)
    × (is_in_possible_cycles busy ≡ is_mark possible_cycles_mark (view busy).mark)
    × (is_in_list busy ≡ is_mark in_list_mark (view busy).mark)
    × (is_in_queue busy ≡ is_mark in_queue_mark (view busy).mark)
    × (is_in_list_or_queue busy ≡ not (is_unmarked (view busy).mark))
getters-view_example = getters-view busy-IsWords

-- Three weak pointers to a box that is gone.
abbrev orphaned : WeakCounterMarker
orphaned = record { weak_counter = 3 }

weak_methods-view_example :
    (Option.map Refinement.view (WeakCounterMarker.increment_counter orphaned)
      ≡ up (Refinement.view orphaned))
    × (Option.map Refinement.view (WeakCounterMarker.decrement_counter orphaned)
        ≡ down (Refinement.view orphaned))
    × (Refinement.view (WeakCounterMarker.set_accessible true orphaned)
        ≡ record (Refinement.view orphaned) { accessible = true })
    × (WeakCounterMarker.counter orphaned ≡ (Refinement.view orphaned).count)
    × (WeakCounterMarker.is_accessible orphaned ≡ (Refinement.view orphaned).accessible)
    × IsWordIfSome (WeakCounterMarker.increment_counter orphaned)
    × IsWordIfSome (WeakCounterMarker.decrement_counter orphaned)
    × IsWord (WeakCounterMarker.set_accessible true orphaned)
weak_methods-view_example = weak_methods-view (omega arith) true
