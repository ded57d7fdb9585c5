-- ===== src/Tests/Boxes.antt =====
-- A heap with a box in the buffer, one outside every list and one in a list of the collector, on
-- which the invariant holds.
use rust_cc.Prelude.{
  refl, true, false, none, some, Option, [], ◌∷◌, ◌==◌, if◌then◌else◌, arith, ne→==,
}
use rust_cc.CounterMarker.{CounterMarker, is_in_possible_cycles}
use rust_cc.CounterMarker.View.{IsWords}
use rust_cc.Heap.{
  Ptr, CcBox, Heap, Metadata, vtable_member, boxed_member, BoxedMetadata, Elem, write,
}
use rust_cc.Lists.PossibleCycles
use rust_cc.Lists.PossibleCycles.{PossibleCycles}
use rust_cc.State
use rust_cc.World.{World, Client, no_locals, skip}
use rust_cc.Buffered.{IsBuffered}
use rust_cc.Buffered.Change.{Change-IsBuffered, allocated-IsBuffered}

abbrev pub leaf_elem : Elem
leaf_elem = record { traced = []; trace_panics = false }

abbrev box_of : CounterMarker → Metadata → CcBox
box_of c m = record { next = none; prev = none; metadata = m; counter_marker = c; elem = leaf_elem }

-- In the buffer, with two pointers.
abbrev pub buffered_box : CcBox
buffered_box =
    box_of (record { tracing_counter_cell = 16384; counter_cell = 2 })
      (vtable_member (record { layout_size = 40 }))

-- In no list, finalized, with one pointer.
abbrev pub single_box : CcBox
single_box =
    box_of (record { tracing_counter_cell = 0; counter_cell = 16385 })
      (vtable_member (record { layout_size = 40 }))

-- In a list of the collector, with three pointers.
abbrev pub listed_box : CcBox
listed_box =
    box_of (record { tracing_counter_cell = 32769; counter_cell = 3 })
      (vtable_member (record { layout_size = 40 }))

-- In no list, with metadata at 9, with five pointers.
abbrev pub shared_box : CcBox
shared_box = box_of (record { tracing_counter_cell = 0; counter_cell = 32773 }) (boxed_member 9)

-- With as many pointers as there may be.
abbrev pub full_box : CcBox
full_box =
    box_of (record { tracing_counter_cell = 0; counter_cell = 16382 })
      (vtable_member (record { layout_size = 40 }))

abbrev heap_1 : Heap
heap_1 = write (λ q. none) 1 (some buffered_box)

abbrev heap_2 : Heap
heap_2 = write heap_1 2 (some single_box)

abbrev heap_3 : Heap
heap_3 = write heap_2 3 (some listed_box)

abbrev heap_4 : Heap
heap_4 = write heap_3 4 (some shared_box)

abbrev pub boxes : Heap
boxes = write heap_4 5 (some full_box)

abbrev pub one_buffered : PossibleCycles
one_buffered = record { first = some 1; size = 1 }

empty-IsBuffered : IsBuffered (λ q. none) PossibleCycles.new []
empty-IsBuffered = record {
  buffer = record { chain = refl; counted = refl };
  words = λ q d e. absurd (ground arith);
  marked = λ q d e. absurd (ground arith);
  loose = λ q d e. absurd (ground arith);
}

buffered_box-IsWords : IsWords buffered_box.counter_marker
buffered_box-IsWords = record { tracing_fits = omega arith; counter_fits = omega arith }

heap_1-IsBuffered : IsBuffered heap_1 one_buffered (1 ∷ [])
unfolding write is_in_possible_cycles
heap_1-IsBuffered =
    Change-IsBuffered (λ q. none) heap_1 PossibleCycles.new one_buffered [] (1 ∷ []) 1
      buffered_box.counter_marker empty-IsBuffered
      (record {
        others_listed = λ q ne. ground (arith, ne→== q 1 ne);
        others_kept = λ q d ne e. absurd (ground arith);
        others_loose = λ q d ne o e. absurd (ground arith);
        own_marker = λ d e. ground arith;
        own_loose = λ d e o l. absurd (ground arith);
      })
      buffered_box-IsWords refl
      (record { chain = (refl, refl, buffered_box, refl, refl, refl); counted = refl })

heap_2-IsBuffered : IsBuffered heap_2 one_buffered (1 ∷ [])
unfolding write is_in_possible_cycles
heap_2-IsBuffered =
    allocated-IsBuffered heap_1 heap_2 one_buffered (1 ∷ []) 2 single_box heap_1-IsBuffered refl
      refl (λ q ne. ground arith)
      (record { tracing_fits = omega arith; counter_fits = omega arith }) refl refl refl

heap_3-IsBuffered : IsBuffered heap_3 one_buffered (1 ∷ [])
unfolding write is_in_possible_cycles
heap_3-IsBuffered =
    allocated-IsBuffered heap_2 heap_3 one_buffered (1 ∷ []) 3 listed_box heap_2-IsBuffered refl
      refl (λ q ne. ground arith)
      (record { tracing_fits = omega arith; counter_fits = omega arith }) refl refl refl

heap_4-IsBuffered : IsBuffered heap_4 one_buffered (1 ∷ [])
unfolding write is_in_possible_cycles
heap_4-IsBuffered =
    allocated-IsBuffered heap_3 heap_4 one_buffered (1 ∷ []) 4 shared_box heap_3-IsBuffered refl
      refl (λ q ne. ground arith)
      (record { tracing_fits = omega arith; counter_fits = omega arith }) refl refl refl

pub boxes-IsBuffered : IsBuffered boxes one_buffered (1 ∷ [])
unfolding write is_in_possible_cycles
boxes-IsBuffered =
    allocated-IsBuffered heap_4 boxes one_buffered (1 ∷ []) 5 full_box heap_4-IsBuffered refl refl
      (λ q ne. ground arith) (record { tracing_fits = omega arith; counter_fits = omega arith })
      refl refl refl

-- The metadata at 9 belongs to the box at 4 and has one weak pointer; the metadata at 10 belongs to
-- a box that is gone.
abbrev metadata_of : Ptr → Option BoxedMetadata
metadata_of q =
    if q == 9
    then some (record {
      vtable = record { layout_size = 40 };
      weak_counter_marker = record { weak_counter = 32769 };
    })
    else if q == 10
    then some (record {
      vtable = record { layout_size = 40 };
      weak_counter_marker = record { weak_counter = 1 };
    })
    else none

abbrev pub world : World
world = record {
  heap = boxes;
  metadata = metadata_of;
  possible_cycles = one_buffered;
  state = record State.new { allocated_bytes = 200 };
  state_accessible = true;
  cycles_accessible = true;
  locals = no_locals;
}

abbrev pub leaf_client : Client
leaf_client = record { finalize = λ p. skip; drop_elem = λ p. skip }
