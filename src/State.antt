-- ===== src/State.antt =====
-- `State` of src/state.rs: the flags of the running collector and its two counters, with every
-- feature enabled. The cells of the struct are fields, and a setter returns the new struct.
use rust_cc.Prelude.{ℕ, ◌^◌, ◌<◌, ◌≡◌, Bool, false, not, ◌&&◌, arith, usize_add, usize_sub}

pub record State : Type 0 where
  pub collecting : Bool
  pub finalizing : Bool
  pub dropping : Bool
  pub allocated_bytes : ℕ
  pub executions_counter : ℕ

abbrev pub new : State
new = record {
  collecting = false;
  finalizing = false;
  dropping = false;
  allocated_bytes = 0;
  executions_counter = 0;
}

-- The argument is `layout.size()`.
unfoldable pub record_allocation : ℕ → State → State
record_allocation size s = record s { allocated_bytes = usize_add s.allocated_bytes size }

unfoldable pub record_deallocation : ℕ → State → State
record_deallocation size s = record s { allocated_bytes = usize_sub s.allocated_bytes size }

unfoldable pub increment_executions_count : State → State
increment_executions_count s = record s { executions_counter = usize_add s.executions_counter 1 }

abbrev pub set_collecting : Bool → State → State
set_collecting value s = record s { collecting = value }

abbrev pub set_finalizing : Bool → State → State
set_finalizing value s = record s { finalizing = value }

abbrev pub set_dropping : Bool → State → State
set_dropping value s = record s { dropping = value }

abbrev pub is_tracing : State → Bool
is_tracing s = s.collecting && (not s.finalizing && not s.dropping)

-- Bytes that are freed after they were counted are taken off again, also where the sum wraps.
pub record_deallocation-record_allocation :
    (size : ℕ) (s : State)
    → size < 2 ^ 64
    → s.allocated_bytes < 2 ^ 64
    → record_deallocation size (record_allocation size s) ≡ s
unfolding record_deallocation record_allocation
record_deallocation-record_allocation size s h g = ground arith
