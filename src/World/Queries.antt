-- ===== src/World/Queries.antt =====
-- The public functions of src/state.rs, which fail once the thread-local variables are destroyed.
use rust_cc.Prelude.{ℕ, ◌≡◌, Bool, true, List, if◌then◌else◌, length, refl}
use rust_cc.Heap.{Ptr}
use rust_cc.Lists.Buffer.{IsBuffer}
use rust_cc.State
use rust_cc.State.{State}
use rust_cc.World.{World}

data StateAccess (A : Type 0) : Type 0 where
  access_error : StateAccess A
  accessed : A → StateAccess A

-- `try_state` with a closure that reads.
unfoldable try_state : {A : Type 0} → (State → A) → World → StateAccess A
try_state f w = if w.state_accessible then accessed (f w.state) else access_error

unfoldable buffered_objects_count : World → StateAccess ℕ
buffered_objects_count w =
    if w.cycles_accessible then accessed w.possible_cycles.size else access_error

unfoldable allocated_bytes : World → StateAccess ℕ
unfolding try_state
allocated_bytes w = try_state (λ s. s.allocated_bytes) w

unfoldable executions_count : World → StateAccess ℕ
unfolding try_state
executions_count w = try_state (λ s. s.executions_counter) w

unfoldable is_tracing : World → StateAccess Bool
unfolding try_state
is_tracing w = try_state State.is_tracing w

-- While `POSSIBLE_CYCLES` can be reached, the count is the number of the objects in the buffer.
buffered_objects_count-length :
    (w : World) (xs : List Ptr)
    → IsBuffer w.heap w.possible_cycles xs
    → w.cycles_accessible ≡ true
    → buffered_objects_count w ≡ accessed (length xs)
unfolding buffered_objects_count
buffered_objects_count-length w xs is reach = rw (reach, is.counted) refl
