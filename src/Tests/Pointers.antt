-- ===== src/Tests/Pointers.antt =====
-- The operations of `Cc`, `Weak` and the collector on the boxes of the tests.
use rust_cc.Prelude.{◌+◌, ◌-◌, ◌≡◌, refl, false, none, some, ◌==◌, if◌then◌else◌, [], ◌∷◌, arith}
use rust_cc.CounterMarker.{
  CounterMarker, counter, is_in_list_or_queue, needs_finalization, has_allocated_for_metadata,
  is_dropped, is_in_possible_cycles,
}
use rust_cc.CounterMarker.View.{IsWords, view}
use rust_cc.WeakCounterMarker.{is_accessible}
use rust_cc.WeakCounterMarker
use rust_cc.Weak.Lifetime.{Left, drop_weaks, release-drop_weaks}
use rust_cc.World.{◌>>◌}
use rust_cc.Heap.{CcBox, BoxedMetadata, boxed_member, write}
use rust_cc.Lists.Chain.{erase}
use rust_cc.World.{World, ok, panic}
use rust_cc.World.Flags.{Ends}
use rust_cc.CcBox.{release_metadata}
use rust_cc.Cc
use rust_cc.Cc.{try_unwrap, drop_cc, mark_alive, finalize_last}
use rust_cc.Cc.Clone.{Alive, clone-overflow, clone-Alive, mark_alive-Alive}
use rust_cc.Cc.Drop.{joined, drop_cc-in_list, drop_cc-shared}
use rust_cc.Cc.Last.{drop_cc-Freed}
use rust_cc.Cc.Freed.{Freed, unboxed, in_box, left_of}
use rust_cc.Cc.Unwrap.{try_unwrap-Freed}
use rust_cc.Weak.{Weak, upgrade}
use rust_cc.Weak.Upgrade.{upgrade-released, upgrade-unusable, upgrade-Alive}
use rust_cc.Collector.{deallocate_list}
use rust_cc.Collector.Flags.{guarded-Ends}
use rust_cc.Buffered.{IsBuffered}
use rust_cc.Buffered.Change.{allocated-IsBuffered}
use rust_cc.Tests.Boxes.{
  buffered_box, single_box, listed_box, shared_box, full_box, boxes, one_buffered, boxes-IsBuffered,
  world, leaf_client,
}

-- A box with one pointer, whose weak pointers were all dropped: its metadata is still there.
abbrev once_weak_box : CcBox
once_weak_box = record single_box {
  counter_marker = record { tracing_counter_cell = 0; counter_cell = 49153 };
  metadata = boxed_member 11;
}

abbrev unused_metadata : BoxedMetadata
unused_metadata = record {
  vtable = record { layout_size = 40 };
  weak_counter_marker = record { weak_counter = 32768 };
}

abbrev once_weak : World
once_weak = record world {
  heap = write boxes 8 (some once_weak_box);
  metadata = λ q. if q == 11 then some unused_metadata else world.metadata q;
}

once_weak-IsBuffered : IsBuffered once_weak.heap one_buffered (1 ∷ [])
unfolding write is_in_possible_cycles
once_weak-IsBuffered =
    allocated-IsBuffered boxes once_weak.heap one_buffered (1 ∷ []) 8 once_weak_box boxes-IsBuffered
      refl refl (λ q ne. ground arith)
      (record { tracing_fits = omega arith; counter_fits = omega arith }) refl refl refl

drop_cc-Freed_example :
    Freed tt once_weak
      (erase 8 (1 ∷ []))
      8
      40
      (λ q. if q == 11 then left_of unused_metadata else once_weak.metadata q)
      (drop_cc leaf_client 8 once_weak)
unfolding write is_in_list_or_queue counter needs_finalization has_allocated_for_metadata
drop_cc-Freed_example =
    drop_cc-Freed leaf_client once_weak (1 ∷ []) 8 once_weak_box 40
      (λ q. if q == 11 then left_of unused_metadata else once_weak.metadata q) (λ u. refl)
      once_weak-IsBuffered refl refl refl refl refl refl (in_box 11 unused_metadata refl refl refl)
      (omega arith)

-- Nothing is left of the metadata.
unused-gone : left_of unused_metadata ≡ none
unfolding WeakCounterMarker.counter
unused-gone = refl

drop_cc-shared_example :
    Alive tt world
      (joined 4 (1 ∷ []))
      4
      (counter shared_box.counter_marker - 1)
      (drop_cc leaf_client 4 world)
unfolding write is_in_list_or_queue counter
drop_cc-shared_example =
    drop_cc-shared leaf_client world (1 ∷ []) 4 shared_box boxes-IsBuffered refl refl refl
      (omega arith) (omega arith)

drop_cc-in_list_example :
    (c : CounterMarker) × (drop_cc leaf_client 3 world
      ≡ ok tt
          (record world { heap = write boxes 3 (some (record listed_box { counter_marker = c })) }))
    × IsWords c
    × (view c
        ≡ record (view listed_box.counter_marker) { count = counter listed_box.counter_marker - 1 })
    × IsBuffered
        (write boxes 3 (some (record listed_box { counter_marker = c })))
        one_buffered
        (1 ∷ [])
unfolding write is_in_list_or_queue counter
drop_cc-in_list_example =
    drop_cc-in_list leaf_client world (1 ∷ []) 3 listed_box boxes-IsBuffered refl refl
      (λ e. omega (arith, e))

mark_alive-Alive_example :
    Alive tt world (erase 1 (1 ∷ [])) 1 (counter buffered_box.counter_marker) (mark_alive 1 world)
unfolding write
mark_alive-Alive_example =
    mark_alive-Alive world (1 ∷ []) 1 buffered_box boxes-IsBuffered refl refl (omega arith)

clone-Alive_example :
    Alive 1 world (erase 1 (1 ∷ [])) 1 (counter buffered_box.counter_marker + 1) (Cc.clone 1 world)
unfolding write counter
clone-Alive_example =
    clone-Alive world (1 ∷ []) 1 buffered_box boxes-IsBuffered refl refl (omega arith) (omega arith)

clone-overflow_example : Cc.clone 5 world ≡ panic world
unfolding write counter
clone-overflow_example = clone-overflow world (1 ∷ []) 5 full_box boxes-IsBuffered refl refl

abbrev weak_4 : Weak
weak_4 = record { metadata = some 9; cc = 4 }

abbrev weak_gone : Weak
weak_gone = record { metadata = some 10; cc = 7 }

abbrev dropping_world : World
dropping_world = record world { state_accessible = false }

upgrade-Alive_example :
    Alive
      (some 4)
      world
      (erase 4 (1 ∷ []))
      4
      (counter shared_box.counter_marker + 1)
      (upgrade weak_4 world)
unfolding write counter is_in_list_or_queue is_dropped is_accessible
upgrade-Alive_example =
    upgrade-Alive world weak_4 9
      (record {
        vtable = record { layout_size = 40 };
        weak_counter_marker = record { weak_counter = 32769 };
      })
      refl refl shared_box refl refl (1 ∷ []) refl boxes-IsBuffered refl (omega arith) (omega arith)

upgrade-released_example : upgrade weak_gone world ≡ ok none world
unfolding is_accessible
upgrade-released_example =
    upgrade-released world weak_gone 10
      (record {
        vtable = record { layout_size = 40 };
        weak_counter_marker = record { weak_counter = 1 };
      })
      refl refl refl

-- A weak pointer to the box that the collector holds, while it drops.
abbrev weak_3 : Weak
weak_3 = record { metadata = some 9; cc = 3 }

upgrade-unusable_example : upgrade weak_3 dropping_world ≡ ok none dropping_world
unfolding write counter is_in_list_or_queue is_dropped is_accessible
upgrade-unusable_example =
    upgrade-unusable dropping_world weak_3 9
      (record {
        vtable = record { layout_size = 40 };
        weak_counter_marker = record { weak_counter = 32769 };
      })
      refl refl listed_box refl refl refl

guarded-Ends_example :
    Ends (λ v. v.state.dropping ≡ world.state.dropping) (deallocate_list 9 leaf_client world)
    × Ends (λ v. v.state.finalizing ≡ world.state.finalizing) (finalize_last leaf_client 2 world)
guarded-Ends_example = guarded-Ends 9 leaf_client 2 world

release-drop_weaks_example : Left world 9 none ((do release_metadata 9; drop_weaks 1 weak_4) world)
unfolding WeakCounterMarker.counter
release-drop_weaks_example =
    release-drop_weaks 0 world weak_4 9
      (record {
        vtable = record { layout_size = 40 };
        weak_counter_marker = record { weak_counter = 32769 };
      })
      refl refl (omega arith) refl

try_unwrap-Freed_example :
    Freed (some single_box.elem) world (erase 2 (1 ∷ [])) 2 40 world.metadata (try_unwrap 2 world)
unfolding write counter has_allocated_for_metadata
try_unwrap-Freed_example =
    try_unwrap-Freed world (1 ∷ []) 2 single_box 40 world.metadata boxes-IsBuffered refl refl refl
      refl refl (unboxed (record { layout_size = 40 }) refl refl) (omega arith)
