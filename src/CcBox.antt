-- ===== src/CcBox.antt =====
-- The functions of src/cc.rs that all boxes share, and those of src/utils.rs that allocate them.
-- The address that the allocator returns is an argument.
use rust_cc.Prelude.{ℕ, Bool, true, false, not, Option, none, some, ◌==◌, if◌then◌else◌}
use mathlib.Core.Option
use rust_cc.CounterMarker
use rust_cc.CounterMarker.{
  CounterMarker, mark, non_marked_mark, possible_cycles_mark, new_with_counter_to_one,
  reset_tracing_counter,
}
use rust_cc.WeakCounterMarker
use rust_cc.Heap.{
  Ptr, VTable, Metadata, vtable_member, boxed_member, Elem, CcBox, BoxedMetadata, write,
}
use rust_cc.Lists.PossibleCycles
use rust_cc.State
use rust_cc.World.{
  Cmd, ok, fault, pure, ◌>>=◌, ◌>>◌, get, put_state, box_at, set_marker, on_cycles, when, Client,
}

-- A union member read: what is not stored there must not be read.
abbrev pub as_vtable : Metadata → Cmd VTable
as_vtable (vtable_member v) = pure v
as_vtable (boxed_member p) = λ w. fault

abbrev pub as_boxed : Metadata → Cmd Ptr
as_boxed (vtable_member v) = λ w. fault
as_boxed (boxed_member p) = pure p

abbrev pub found : Option BoxedMetadata → Cmd BoxedMetadata
found none = λ w. fault
found (some m) = pure m

abbrev pub deref_metadata : Ptr → Cmd BoxedMetadata
deref_metadata p w = found (w.metadata p) w

abbrev pub write_metadata : Ptr → Option BoxedMetadata → Cmd (Unit {0})
write_metadata p m w = ok tt (record w { metadata = λ q. if q == p then m else w.metadata q })

abbrev pub write_box : Ptr → Option CcBox → Cmd (Unit {0})
write_box p b w = ok tt (record w { heap = write w.heap p b })

-- The cells of a marker after a counting method whose result is ignored.
abbrev pub after : (CounterMarker → Option CounterMarker) → CounterMarker → CounterMarker
after f c = Option.get_or (f c) c

unfoldable pub cc_alloc : ℕ → Cmd (Unit {0})
cc_alloc layout = put_state (State.record_allocation layout)

unfoldable pub cc_dealloc : Ptr → ℕ → Cmd (Unit {0})
cc_dealloc ptr layout = do
  put_state (State.record_deallocation layout)
  _ ← box_at ptr
  write_box ptr none

-- `CcBox::new`; `layout` is the size of the allocation.
unfoldable pub new_box : (fresh : Ptr) → Elem → (layout : ℕ) → Cmd Ptr
unfolding cc_alloc
new_box fresh t layout = do
  already_finalized ← get (λ w. w.state.finalizing)
  cc_alloc layout
  write_box fresh (
      some (record {
        next = none;
        prev = none;
        metadata = vtable_member (record { layout_size = layout });
        counter_marker = new_with_counter_to_one already_finalized;
        elem = t;
      }))
  pure fresh

unfoldable pub vtable_of : CcBox → Cmd VTable
vtable_of b =
    if CounterMarker.has_allocated_for_metadata b.counter_marker
    then (do p ← as_boxed b.metadata; m ← deref_metadata p; pure m.vtable)
    else as_vtable b.metadata

unfoldable pub layout : Ptr → Cmd ℕ
layout ptr = do b ← box_at ptr; v ← vtable_of b; pure v.layout_size

unfoldable pub get_or_init_metadata : (fresh : Ptr) → Ptr → Cmd Ptr
get_or_init_metadata fresh ptr = do
  b ← box_at ptr
  if CounterMarker.has_allocated_for_metadata b.counter_marker then as_boxed b.metadata else do
    v ← as_vtable b.metadata
    write_metadata fresh
        (some (record { vtable = v; weak_counter_marker = WeakCounterMarker.new_marker true }))
    write_box ptr (some (record b { metadata = boxed_member fresh }))
    set_marker ptr (CounterMarker.set_allocated_for_metadata true)
    pure fresh

-- `dealloc_other` where no weak pointer is left, and the mark that the box is gone where some are.
unfoldable pub release_metadata : Ptr → Cmd (Unit {0})
release_metadata boxed = do
  m ← deref_metadata boxed
  if WeakCounterMarker.counter m.weak_counter_marker == 0
      then write_metadata boxed none
      else write_metadata boxed (
          some (record m {
            weak_counter_marker = WeakCounterMarker.set_accessible false m.weak_counter_marker;
          }))

unfoldable pub drop_metadata : Ptr → Cmd (Unit {0})
drop_metadata ptr = do
  b ← box_at ptr
  when (CounterMarker.has_allocated_for_metadata b.counter_marker)
      (do boxed ← as_boxed b.metadata; release_metadata boxed)

unfoldable pub remove_from_list : Ptr → Cmd (Unit {0})
remove_from_list ptr = do
  b ← box_at ptr
  accessible ← get (λ w. w.cycles_accessible)
  when (CounterMarker.is_in_possible_cycles b.counter_marker) (
      when accessible
        (do set_marker ptr (mark non_marked_mark); on_cycles (PossibleCycles.remove ptr)))

unfoldable pub add_to_list : Ptr → Cmd (Unit {0})
add_to_list ptr = do
  b ← box_at ptr
  accessible ← get (λ w. w.cycles_accessible)
  when (not (CounterMarker.is_in_possible_cycles b.counter_marker)) (
      when accessible (do
        on_cycles (PossibleCycles.add ptr)
        set_marker ptr reset_tracing_counter
        set_marker ptr (mark possible_cycles_mark)))

module _ (client : Client) where
  unfoldable pub finalize_inner : Ptr → Cmd Bool
  finalize_inner ptr = do
    b ← box_at ptr
    if CounterMarker.needs_finalization b.counter_marker
        then (do
          set_marker ptr (CounterMarker.set_finalized true)
          _ ← vtable_of b
          client.finalize ptr
          pure true)
        else pure false

  unfoldable pub drop_inner : Ptr → Cmd (Unit {0})
  drop_inner ptr = do
    set_marker ptr (CounterMarker.set_dropped true)
    b ← box_at ptr
    _ ← vtable_of b
    client.drop_elem ptr
