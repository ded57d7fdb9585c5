-- ===== src/Sweep/Whole.antt =====
-- `collect` of src/lib.rs as a whole.
use rust_cc.Prelude.{true}
use rust_cc.State
use rust_cc.World.{World}

-- The state in which the rounds start.
abbrev pub started : World → World
started w = record w {
  state = State.increment_executions_count (State.set_collecting true w.state);
}
