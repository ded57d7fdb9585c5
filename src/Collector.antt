-- ===== src/Collector.antt =====
-- The collection algorithm: `CcBox::trace` of src/cc.rs and the functions of src/lib.rs. Every loop
-- runs on `fuel`.
pub mod Flags
mod Tests
use rust_cc.Prelude.{
  ℕ, zero, suc, ◌+◌, Bool, true, false, not, ◌&&◌, ◌||◌, Option, none, some, List, [], ◌∷◌, ◌==◌,
  if◌then◌else◌, usize_add,
}
use mathlib.Core.Option
use rust_cc.CounterMarker
use rust_cc.CounterMarker.{
  CounterMarker, mark, non_marked_mark, possible_cycles_mark, in_list_mark, in_queue_mark,
  reset_tracing_counter, counter, tracing_counter, is_in_list, is_in_list_or_queue,
  is_in_possible_cycles, increment_tracing_counter,
}
use rust_cc.Heap.{Ptr, CcBox}
use rust_cc.Lists.LinkedList
use rust_cc.Lists.LinkedQueue
use rust_cc.Lists.PossibleCycles
use rust_cc.State
use rust_cc.World.{
  World, Cmd, panic, out_of_fuel, pure, ◌>>=◌, ◌>>◌, skip, finally, on_panic, get, put_state,
  on_heap, box_at, set_marker, on_cycles, put_root_list, put_non_root_list, put_queue, on_root_list,
  on_non_root_list, on_queue, when, Client, replace_dropping, replace_finalizing,
}
use rust_cc.CcBox.{after, vtable_of, layout, drop_metadata, cc_dealloc, finalize_inner, drop_inner}

-- Which variant of `ContextInner` a `Context` holds; its lists are the locals of the state.
pub data Phase : Type 0 where
  counting root_tracing : Phase

-- `if is_in_list && counter == tracing_counter`, after the increment.
unfoldable pub move_if_counted : Ptr → Cmd (Unit {0})
move_if_counted ptr = do
  b ← box_at ptr
  when (is_in_list b.counter_marker && counter b.counter_marker == tracing_counter b.counter_marker)
      (do on_root_list (LinkedList.remove ptr); on_non_root_list (LinkedList.add ptr))

unfoldable pub trace_counted : Ptr → CcBox → Cmd (Unit {0})
trace_counted ptr b =
    if is_in_list_or_queue b.counter_marker
    then (do set_marker ptr (after increment_tracing_counter); move_if_counted ptr)
    else if is_in_possible_cycles b.counter_marker
    then set_marker ptr (after increment_tracing_counter)
    else (do
      set_marker ptr reset_tracing_counter
      set_marker ptr (after increment_tracing_counter)
      on_queue (LinkedQueue.add ptr)
      set_marker ptr (mark in_queue_mark))

unfoldable pub trace_from_root : Ptr → CcBox → Cmd (Unit {0})
trace_from_root ptr b =
    when
      (is_in_list b.counter_marker && counter b.counter_marker == tracing_counter b.counter_marker)
      (do
        set_marker ptr (mark non_marked_mark)
        on_non_root_list (LinkedList.remove ptr)
        on_queue (LinkedQueue.add ptr)
        set_marker ptr (mark in_queue_mark))

-- `CcBox::trace`, which every traced `Cc` calls.
unfoldable pub trace : Phase → Ptr → Cmd (Unit {0})
trace counting ptr = do b ← box_at ptr; trace_counted ptr b
trace root_tracing ptr = do b ← box_at ptr; trace_from_root ptr b

-- The client's `Trace::trace`: the `Cc`s of the value in turn.
unfoldable pub trace_all : Phase → List Ptr → Cmd (Unit {0})
trace_all phase [] = skip
trace_all phase (ptr ∷ rest) = do trace phase ptr; trace_all phase rest

unfoldable pub trace_inner : Phase → Ptr → Cmd (Unit {0})
trace_inner phase ptr = do
  b ← box_at ptr
  _ ← vtable_of b
  trace_all phase b.elem.traced
  when b.elem.trace_panics (λ w. panic w)

-- Behind the tracing: the element goes to the list that its counters say.
unfoldable pub classify : Ptr → Cmd (Unit {0})
classify ptr = do
  b ← box_at ptr
  if counter b.counter_marker == tracing_counter b.counter_marker
      then on_non_root_list (LinkedList.add ptr)
      else on_root_list (LinkedList.add ptr)

-- `__trace_counting`; the mark is reset if tracing panics.
unfoldable pub trace_counting_one : Ptr → Cmd (Unit {0})
trace_counting_one ptr = do
  set_marker ptr (mark in_queue_mark)
  on_panic (do trace_inner counting ptr; classify ptr) (set_marker ptr (mark non_marked_mark))
  set_marker ptr (mark in_list_mark)

unfoldable pub cycles_remove_first : Cmd (Option Ptr)
cycles_remove_first = do
  pc ← get (λ w. w.possible_cycles)
  (removed, pc') ← on_heap (PossibleCycles.remove_first pc)
  on_cycles (λ _ h. some (pc', h))
  pure removed

unfoldable pub root_remove_first : Cmd (Option Ptr)
root_remove_first = do
  l ← get (λ w. w.locals.root_list)
  (removed, l') ← on_heap (LinkedList.remove_first l)
  put_root_list l'
  pure removed

unfoldable pub non_root_remove_first : Cmd (Option Ptr)
non_root_remove_first = do
  l ← get (λ w. w.locals.non_root_list)
  (removed, l') ← on_heap (LinkedList.remove_first l)
  put_non_root_list l'
  pure removed

unfoldable pub queue_poll : Cmd (Option Ptr)
queue_poll = do
  q ← get (λ w. w.locals.queue)
  (removed, q') ← on_heap (LinkedQueue.poll q)
  put_queue q'
  pure removed

-- `while let Some(ptr) = next() { body(ptr) }`
unfoldable pub while_some : ℕ → Cmd (Option Ptr) → (Ptr → Cmd (Unit {0})) → Cmd (Unit {0})
while_some zero next body = λ w. out_of_fuel
while_some (suc fuel) next body = do
  item ← next
  elim item [ none ↦ skip | some ptr ↦ (do body ptr; while_some fuel next body) ]

module _ (fuel : ℕ) where
  unfoldable pub trace_counting : Cmd (Unit {0})
  trace_counting = do
    while_some fuel cycles_remove_first trace_counting_one
    while_some fuel queue_poll trace_counting_one

  unfoldable pub trace_roots : Cmd (Unit {0})
  trace_roots = do
    while_some fuel root_remove_first (trace_inner root_tracing)
    while_some fuel queue_poll (trace_inner root_tracing)

  -- The lists that go out of scope, when a panic unwinds through `__collect`.
  unfoldable pub drop_queue : Cmd (Unit {0})
  drop_queue = on_queue (LinkedQueue.drop_loop fuel)

  unfoldable pub drop_root_list : Cmd (Unit {0})
  drop_root_list = on_root_list (LinkedList.drop_loop fuel)

  unfoldable pub drop_non_root_list : Cmd (Unit {0})
  drop_non_root_list = on_non_root_list (LinkedList.drop_loop fuel)

  module _ (client : Client) where
    -- The fold over `non_root_list`: whether anything was finalized, and how many there are. The
    -- right operand of `||` is what was known before.
    unfoldable pub finalize_loop : ℕ → Option Ptr → Bool → ℕ → Cmd (Bool × ℕ)
    finalize_loop zero next has_finalized size = λ w. out_of_fuel
    finalize_loop (suc k) next has_finalized size = do
      item ← on_heap (LinkedList.iter_next next)
      elim item [
        | none ↦ pure (has_finalized, size)
        | some (ptr, next') ↦ (do
          finalized ← finalize_inner client ptr
          finalize_loop k next' (finalized || has_finalized) (usize_add size 1))
      ]

    unfoldable pub drop_elems : ℕ → Option Ptr → Cmd (Unit {0})
    drop_elems zero next = λ w. out_of_fuel
    drop_elems (suc k) next = do
      item ← on_heap (LinkedList.iter_next next)
      elim item [ none ↦ skip | some (ptr, next') ↦ (do drop_inner client ptr; drop_elems k next') ]

    unfoldable pub dealloc_one : Ptr → Cmd (Unit {0})
    dealloc_one ptr = do size ← layout ptr; drop_metadata ptr; cc_dealloc ptr size

    unfoldable pub dealloc_boxes : ℕ → Option Ptr → Cmd (Unit {0})
    dealloc_boxes zero next = λ w. out_of_fuel
    dealloc_boxes (suc k) next = do
      item ← on_heap (LinkedList.iter_next next)
      elim item [ none ↦ skip | some (ptr, next') ↦ (do dealloc_one ptr; dealloc_boxes k next') ]

    -- `ToDropList::drop`, which runs if dropping a value panics.
    unfoldable pub drop_to_drop_list : Cmd (Unit {0})
    drop_to_drop_list =
        while_some fuel non_root_remove_first
          (λ ptr. set_marker ptr (CounterMarker.set_dropped true))

    unfoldable pub deallocate_list : Cmd (Unit {0})
    deallocate_list = replace_dropping true (do
      first ← get (λ w. w.locals.non_root_list.first)
      on_panic (drop_elems fuel first) drop_to_drop_list
      dealloc_boxes fuel first)

    -- The objects that were finalized go back to `POSSIBLE_CYCLES`, in front of what came there.
    unfoldable pub put_back : ℕ → Cmd (Unit {0})
    put_back non_root_list_size = do
      pc ← get (λ w. w.possible_cycles)
      l ← get (λ w. w.locals.non_root_list)
      let (to_append, swapped) = PossibleCycles.swap_list l non_root_list_size pc
      put_non_root_list to_append
      on_cycles (λ _ h. some (swapped, h))
      on_cycles (PossibleCycles.mark_self_and_append fuel possible_cycles_mark to_append pc.size)

    unfoldable pub finalize_and_deallocate : Cmd (Unit {0})
    finalize_and_deallocate = do
      first ← get (λ w. w.locals.non_root_list.first)
      (has_finalized, size) ←
          on_panic (replace_finalizing true (finalize_loop fuel first false 0)) drop_non_root_list
      if has_finalized then put_back size else deallocate_list

    -- `__collect`
    unfoldable pub collect_once : Cmd (Unit {0})
    collect_once = do
      put_non_root_list LinkedList.new
      put_root_list LinkedList.new
      put_queue LinkedQueue.new
      on_panic (do trace_counting; trace_roots) (do drop_queue; drop_root_list; drop_non_root_list)
      l ← get (λ w. w.locals.non_root_list)
      when (not (LinkedList.is_empty l)) finalize_and_deallocate

    -- The `for _ in 0..10` of `collect`, with the rounds left.
    unfoldable pub collect_rounds : ℕ → Cmd (Unit {0})
    collect_rounds zero = skip
    collect_rounds (suc rounds) = do
      pc ← get (λ w. w.possible_cycles)
      if PossibleCycles.is_empty pc then skip else (do collect_once; collect_rounds rounds)

    unfoldable pub collect : Cmd (Unit {0})
    collect = do
      put_state (State.set_collecting true)
      put_state State.increment_executions_count
      finally (collect_rounds 10) (put_state (State.set_collecting false))
