-- ===== src/Collector/Tests.antt =====
-- Runs of the collection algorithm on small heaps.
use rust_cc.Prelude.{ℕ, ◌≡◌, refl, Bool, true, false, Option, none, some, List, [], ◌∷◌}
use rust_cc.Heap.{Ptr, Heap, Elem}
use rust_cc.Lists.PossibleCycles
use rust_cc.Lists.PossibleCycles.{PossibleCycles}
use rust_cc.State
use rust_cc.World.{
  World, Run, ok, panic, fault, out_of_fuel, Cmd, Client, pure, skip, no_locals, ◌>>=◌, ◌>>◌,
  box_at, set_marker,
}
use rust_cc.Cc
use rust_cc.Collector
use rust_cc.CcBox
use rust_cc.World
use rust_cc.Heap
use rust_cc.CounterMarker
use rust_cc.Lists.LinkedList
use rust_cc.Lists.LinkedQueue

abbrev empty_world : World
empty_world = record {
  heap = λ q. none;
  metadata = λ q. none;
  possible_cycles = PossibleCycles.new;
  state = State.new;
  state_accessible = true;
  cycles_accessible = true;
  locals = no_locals;
}

abbrev idle_client : Client
idle_client = record { finalize = λ p. skip; drop_elem = λ p. skip }

abbrev drop_all : List Ptr → Cmd (Unit {0})
drop_all [] = skip
drop_all (p ∷ rest) = do Cc.drop_cc idle_client p; drop_all rest

-- The drop glue of a value that owns the `Cc`s that it traces.
abbrev owning_client : Client
owning_client = record {
  finalize = λ p. skip;
  drop_elem = λ p. (do b ← box_at p; drop_all b.elem.traced);
}

abbrev elem_of : List Ptr → Elem
elem_of ps = record { traced = ps; trace_panics = false }

-- `Cc::new` where no collection starts.
abbrev new_plain : Ptr → Elem → ℕ → Cmd Ptr
new_plain fresh t size = do (cc, _) ← Cc.new_cc skip fresh t size; pure cc

-- Two objects that point at one another, and are not referenced from elsewhere any more.
abbrev make_cycle : Cmd (Unit {0})
make_cycle = do
  a ← new_plain 1 (elem_of (2 ∷ [])) 40
  b ← new_plain 2 (elem_of (1 ∷ [])) 40
  a' ← Cc.clone a
  Cc.drop_cc owning_client a

-- What is left: the addresses among these that hold a box, and the allocated bytes.
abbrev survivors : List Ptr → Heap → List Ptr
survivors [] h = []
survivors (p ∷ ps) h = elim (h p) [ none ↦ survivors ps h | some _ ↦ p ∷ survivors ps h ]

abbrev summary : Run (Unit {0}) → Option (List Ptr × ℕ × ℕ)
summary (ok _ w) =
    some (survivors (1 ∷ 2 ∷ 3 ∷ []) w.heap, w.state.allocated_bytes, w.possible_cycles.size)
summary (panic w) = none
summary fault = none
summary out_of_fuel = none

abbrev run1 : Option (List Ptr × ℕ × ℕ)
run1 = summary (make_cycle empty_world)

abbrev run2 : Option (List Ptr × ℕ × ℕ)
run2 = summary ((do make_cycle; Collector.collect 5 owning_client) empty_world)

-- The `Trace` implementation of the value at `p` panics, or not.
abbrev set_panicking : Ptr → Bool → Cmd (Unit {0})
set_panicking p panics = do
  b ← box_at p
  CcBox.write_box p (some (record b { elem = record (b.elem) { trace_panics = panics } }))

-- `catch_unwind`
abbrev caught : Cmd (Unit {0}) → Cmd (Unit {0})
caught body w = elim (body w) [
  | ok _ v ↦ ok tt v
  | panic v ↦ ok tt v
  | fault ↦ fault
  | out_of_fuel ↦ out_of_fuel
]

-- 1 points to itself and to 2, and to each there is one more pointer, from outside. Both are in the
-- buffer when a collection counts the pointers of 1 and then panics. Then the outer pointer to 1 goes. Both
-- were finalized before.
abbrev interrupted : Cmd (Unit {0})
interrupted = do
  b ← new_plain 2 (elem_of []) 40
  inner ← Cc.clone b
  short_lived ← Cc.clone b
  Cc.drop_cc owning_client short_lived
  a ← new_plain 1 (elem_of (1 ∷ 2 ∷ [])) 40
  self_pointer ← Cc.clone a
  short_lived' ← Cc.clone a
  Cc.drop_cc owning_client short_lived'
  set_marker 1 (CounterMarker.set_finalized true)
  set_marker 2 (CounterMarker.set_finalized true)
  set_panicking 1 true
  caught (Collector.collect 5 owning_client)
  set_panicking 1 false
  Cc.drop_cc owning_client a

abbrev run3 : Option (List Ptr × ℕ × ℕ)
run3 = summary (interrupted empty_world)

abbrev run4 : Option (List Ptr × ℕ × ℕ)
run4 = summary ((do interrupted; Collector.collect 5 owning_client) empty_world)

-- Dropping the last outer pointer leaves both boxes of the cycle, one of them buffered, and a
-- collection frees both. Behind the collection that panicked both boxes are in the buffer, and the
-- next one frees both, although there still is an outer pointer to 2: what was counted for 2 before
-- the panic counts again.
runs_lem :
    (run1 ≡ some (1 ∷ 2 ∷ [], 80, 1))
    × (run2 ≡ some ([], 0, 0))
    × (run3 ≡ some (1 ∷ 2 ∷ [], 80, 2))
    × (run4 ≡ some ([], 0, 0))
unfolding CounterMarker.new_with_counter_to_one CounterMarker.counter CounterMarker.tracing_counter
    CounterMarker.increment_counter CounterMarker.decrement_counter
    CounterMarker.increment_tracing_counter CounterMarker.decrement_tracing_counter
    CounterMarker.reset_tracing_counter CounterMarker.needs_finalization CounterMarker.set_finalized
    CounterMarker.has_allocated_for_metadata CounterMarker.is_dropped CounterMarker.set_dropped
    CounterMarker.is_in_possible_cycles CounterMarker.is_in_list CounterMarker.is_in_list_or_queue
    CounterMarker.mark Heap.write Heap.as_ref Heap.store Heap.set_next Heap.set_prev
    Heap.update_marker LinkedList.link_front LinkedList.add LinkedList.unlink LinkedList.remove
    LinkedList.clear_prev LinkedList.detach_first LinkedList.remove_first LinkedList.is_empty
    LinkedList.drop_loop LinkedList.iter_next LinkedList.collect_iter LinkedList.contains
    PossibleCycles.add PossibleCycles.unlink PossibleCycles.remove PossibleCycles.detach_first
    PossibleCycles.remove_first PossibleCycles.is_empty PossibleCycles.drop_loop
    PossibleCycles.mark_loop PossibleCycles.link_behind PossibleCycles.append_first
    PossibleCycles.mark_self_and_append PossibleCycles.swap_list LinkedQueue.add
    LinkedQueue.take_front LinkedQueue.poll LinkedQueue.is_empty LinkedQueue.drop_loop
    State.record_allocation State.record_deallocation State.increment_executions_count
    World.with_state World.replace_dropping World.replace_finalizing CcBox.cc_alloc CcBox.cc_dealloc
    CcBox.new_box CcBox.vtable_of CcBox.layout CcBox.get_or_init_metadata CcBox.release_metadata
    CcBox.drop_metadata CcBox.remove_from_list CcBox.add_to_list CcBox.finalize_inner
    CcBox.drop_inner Cc.new_cc Cc.strong_count Cc.unwrap_box Cc.try_unwrap Cc.finalize_again
    Cc.already_finalized Cc.mark_alive Cc.count_up Cc.clone Cc.count_down Cc.handle_possible_cycle
    Cc.finalize_last Cc.drop_and_free Cc.dealloc_last Cc.drop_last Cc.drop_cc
    Collector.move_if_counted Collector.trace_counted Collector.trace_from_root Collector.trace
    Collector.trace_all Collector.trace_inner Collector.classify Collector.trace_counting_one
    Collector.cycles_remove_first Collector.root_remove_first Collector.non_root_remove_first
    Collector.queue_poll Collector.while_some Collector.trace_counting Collector.trace_roots
    Collector.drop_queue Collector.drop_root_list Collector.drop_non_root_list
    Collector.finalize_loop Collector.drop_elems Collector.dealloc_one Collector.dealloc_boxes
    Collector.drop_to_drop_list Collector.deallocate_list Collector.put_back
    Collector.finalize_and_deallocate Collector.collect_once Collector.collect_rounds
    Collector.collect
runs_lem = (refl, refl, refl, refl)
