-- ===== src/Tests/Thresholds.antt =====
-- The threshold and the counted bytes at concrete sizes.
use rust_cc.Prelude.{ℕ, ◌*◌, ◌^◌, ◌≡◌, Bool, none, leb, arith}
use rust_cc.Config.{increase_loop, decrease_loop, Percentages, adjusted}
use rust_cc.Config.Increase.{Doubled, increase_loop-Doubled, increase_loop-hangs}
use rust_cc.Config.Decrease.{Halved, decrease_loop-Halved}
use rust_cc.Config.Adjust.{Adjusted, adjusted-Adjusted}
use rust_cc.State
use rust_cc.State.{
  State, record_allocation, record_deallocation, record_deallocation-record_allocation,
}

increase_loop-Doubled_example : Doubled 1000 100 (increase_loop 64 1000 100)
increase_loop-Doubled_example =
    increase_loop-Doubled 1000 64 100 (omega arith) (omega arith) (omega arith) (omega arith)

increase_loop-hangs_example : increase_loop 70 (25 * 2 ^ 59) 100 ≡ none
increase_loop-hangs_example = increase_loop-hangs 70 (25 * 2 ^ 59) (omega arith)

-- The test that allocated bytes are at most a tenth of the threshold.
abbrev tenth : ℕ → Bool
tenth t = leb (150 * 10) t

decrease_loop-Halved_example : Halved tenth 150 6400 (decrease_loop tenth 64 150 6400)
decrease_loop-Halved_example =
    decrease_loop-Halved tenth 150 64 6400 (omega arith) (omega arith) (omega arith)

abbrev pub tenths : Percentages
tenths = record {
  Percent = ℕ;
  initial = 1;
  in_range = λ p. leb p 10;
  is_zero_of = λ t p. leb (t * p) 0;
  at_most = λ a t p. leb (a * 10) (t * p);
}

adjusted-Adjusted_example : Adjusted 150 (adjusted tenths 64 150 6400 1)
adjusted-Adjusted_example =
    adjusted-Adjusted tenths 150 6400 1 (omega arith) (omega arith) (omega arith)

abbrev used : State
used = record State.new { allocated_bytes = 160 }

record_deallocation-record_allocation_example :
    record_deallocation 40 (record_allocation 40 used) ≡ used
record_deallocation-record_allocation_example =
    record_deallocation-record_allocation 40 used (omega arith) (omega arith)
