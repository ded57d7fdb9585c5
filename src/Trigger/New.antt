-- ===== src/Trigger/New.antt =====
-- `Cc::new` of src/cc.rs behind the collection that it may start.
use rust_cc.Prelude.{ℕ, ◌≡◌, true, not, some, none, List}
use rust_cc.CounterMarker.{counter, needs_finalization}
use rust_cc.Heap.{Ptr, Elem, write}
use rust_cc.State.{record_allocation}
use rust_cc.World.{World, Client, ok}
use rust_cc.Buffered.{IsBuffered}
use rust_cc.Cc.New.{fresh_box, new_cc-IsBuffered}
use rust_cc.Config.{Percentages}
use rust_cc.Trigger.{ConfigCell, trigger_collection, new_triggering}

module _ (f : Percentages) (fuel : ℕ) (client : Client) (meanwhile : ConfigCell f → ConfigCell f)
    (cell : ConfigCell f) where
  -- Where the state can be reached, the collection that `Cc::new` may start, with the adjustment
  -- of the threshold, ends normally, the invariant holds behind it and the address is free then,
  -- `Cc::new` writes there a box with one pointer, in no list, which will not be finalized if it
  -- was made by a finalizer; its bytes are counted, nothing else changes behind the collection,
  -- and the invariant holds.
  pub new_triggering-IsBuffered :
      (w v : World) (cell' : ConfigCell f) (xs : List Ptr) (fresh : Ptr) (t : Elem) (size : ℕ)
      → w.state_accessible ≡ true
      → trigger_collection f fuel client meanwhile cell w ≡ ok cell' v
      → IsBuffered v.heap v.possible_cycles xs
      → v.heap fresh ≡ none
      → (new_triggering f fuel client meanwhile fresh t size cell w
          ≡ ok
              (fresh, cell')
              (record v {
                heap = write v.heap fresh (some (fresh_box v t size));
                state = record_allocation size v.state;
              }))
        × IsBuffered (write v.heap fresh (some (fresh_box v t size))) v.possible_cycles xs
        × (counter (fresh_box v t size).counter_marker ≡ 1)
        × (needs_finalization (fresh_box v t size).counter_marker ≡ not v.state.finalizing)
  unfolding new_triggering
  new_triggering-IsBuffered w v cell' xs fresh t size alive ran is free =
      new_cc-IsBuffered (trigger_collection f fuel client meanwhile cell) cell' w v xs fresh t size
        alive ran is free
