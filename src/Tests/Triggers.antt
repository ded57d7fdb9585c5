-- ===== src/Tests/Triggers.antt =====
-- Collections that start by themselves, at a concrete configuration.
use rust_cc.Prelude.{◌≡◌, refl, true, false, none, some, [], ◌∷◌, ◌⊎◌, inl, inr, arith}
use rust_cc.Heap.{write}
use rust_cc.CounterMarker.{counter, needs_finalization}
use rust_cc.State.{record_allocation}
use rust_cc.World.{ok, and_then}
use rust_cc.World.Flags.{Ends}
use rust_cc.Buffered.{IsBuffered}
use rust_cc.Cc.New.{fresh_box}
use rust_cc.Collector.{collect}
use rust_cc.Config.{Config}
use rust_cc.Trigger.{
  ConfigCell, holding, trigger_collection, new_triggering, adjust_trigger_point,
  trigger_collection-Ends,
}
use rust_cc.Trigger.New.{new_triggering-IsBuffered}
use rust_cc.Trigger.Thresholds.{Waits, Starts, Waits-run, trigger_collection-thresholds}
use rust_cc.Tests.Boxes.{world, leaf_client, leaf_elem, boxes, one_buffered, boxes-IsBuffered}
use rust_cc.Tests.Thresholds.{tenths}

-- The world counts 200 bytes and has one box in the buffer.
abbrev patient_config : Config tenths
patient_config = record {
  bytes_threshold = 1000;
  adjustment_percent = 1;
  buffered_threshold = none;
  auto_collect = true;
}

abbrev patient : ConfigCell tenths
patient = holding patient_config

abbrev eager_config : Config tenths
eager_config = record {
  bytes_threshold = 100;
  adjustment_percent = 1;
  buffered_threshold = none;
  auto_collect = true;
}

abbrev eager : ConfigCell tenths
eager = holding eager_config

trigger_collection-Ends_example :
    Ends
      (λ v. v.state.collecting ≡ false)
      (trigger_collection tenths 64 leaf_client (λ cell. cell) eager world)
trigger_collection-Ends_example =
    trigger_collection-Ends tenths 64 leaf_client (λ cell. cell) eager world

trigger_collection-thresholds_example :
    (Waits tenths world eager_config
      × (trigger_collection tenths 64 leaf_client (λ cell. cell) eager world ≡ ok eager world))
    ⊎ (Starts tenths world eager_config
        × (trigger_collection tenths 64 leaf_client (λ cell. cell) eager world
            ≡ and_then (collect 64 leaf_client world) (λ _. adjust_trigger_point tenths 64 eager)))
trigger_collection-thresholds_example =
    trigger_collection-thresholds tenths 64 leaf_client (λ cell. cell) eager_config world

-- Both cases occur.
eager-Starts : Starts tenths world eager_config
eager-Starts = (refl, refl, (refl, inl (omega arith)))

patient-Waits : Waits tenths world patient_config
patient-Waits = inr (inr (inr (omega arith, λ n e. absurd (ground (arith, e)))))

new_triggering-IsBuffered_example :
    (new_triggering tenths 64 leaf_client (λ cell. cell) 6 leaf_elem 40 patient world
      ≡ ok
          (6, patient)
          (record world {
            heap = write boxes 6 (some (fresh_box world leaf_elem 40));
            state = record_allocation 40 world.state;
          }))
    × IsBuffered (write boxes 6 (some (fresh_box world leaf_elem 40))) one_buffered (1 ∷ [])
    × (counter (fresh_box world leaf_elem 40).counter_marker ≡ 1)
    × (needs_finalization (fresh_box world leaf_elem 40).counter_marker ≡ true)
unfolding write
new_triggering-IsBuffered_example =
    new_triggering-IsBuffered tenths 64 leaf_client (λ cell. cell) patient world world patient
      (1 ∷ []) 6 leaf_elem 40 refl
      (Waits-run tenths 64 leaf_client (λ cell. cell) patient_config world patient-Waits)
      boxes-IsBuffered refl
