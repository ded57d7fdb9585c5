-- ===== src/Tests/Loops.antt =====
-- A box that points to itself and was not finalized yet: the first round finalizes it, the second one
-- frees it.
use rust_cc.Prelude.{◌≡◌, refl, true, false, none, some, [], ◌∷◌, ◌==◌, if◌then◌else◌}
use rust_cc.CounterMarker.{needs_finalization}
use rust_cc.Heap.{CcBox, Heap, vtable_member}
use rust_cc.State
use rust_cc.World.{World, Client, no_locals}
use rust_cc.Sweep.Owning.{owner}
use rust_cc.Sweep.Collect.{begun}
use rust_cc.Sweep.Whole.{started}
use rust_cc.Tests.Boxes.{leaf_client}

abbrev knot : CcBox
knot = record {
  next = none;
  prev = none;
  metadata = vtable_member (record { layout_size = 40 });
  counter_marker = record { tracing_counter_cell = 16384; counter_cell = 1 };
  elem = record { traced = 1 ∷ []; trace_panics = false };
}

abbrev knots : Heap
knots q = if q == 1 then some knot else none

abbrev loop : World
loop = record {
  heap = knots;
  metadata = λ q. none;
  possible_cycles = record { first = some 1; size = 1 };
  state = State.new;
  state_accessible = true;
  cycles_accessible = true;
  locals = no_locals;
}

-- It has to be finalized.
knot_needs : needs_finalization knot.counter_marker ≡ true
unfolding needs_finalization
knot_needs = refl

abbrev begin : World
begin = begun (started loop)

-- The glue drops the pointer that the box has to itself.
abbrev gluing : Client
gluing = owner leaf_client
