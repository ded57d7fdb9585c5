-- ===== src/Collector/Flags.antt =====
-- The flags of the state around `collect`, `deallocate_list` of src/lib.rs and `Drop for Cc`.
use rust_cc.Prelude.{ℕ, ◌≡◌, refl, true, false}
use rust_cc.Heap.{Ptr}
use rust_cc.State
use rust_cc.World.{World, Client}
use rust_cc.World.Flags.{Ends, settle-Ends, replace_dropping-Ends, replace_finalizing-Ends}
use rust_cc.Cc.{finalize_last}
use rust_cc.Collector.{collect_rounds, collect, deallocate_list}

pub collect-Ends :
    (fuel : ℕ) (client : Client) (w : World)
    → Ends (λ v. v.state.collecting ≡ false) (collect fuel client w)
unfolding collect
collect-Ends fuel client w =
    settle-Ends (λ v. v.state.collecting ≡ false)
      (collect_rounds fuel client 10
        (record w { state = State.increment_executions_count (State.set_collecting true w.state) }))
      (λ v. record v { state = State.set_collecting false v.state }) (λ v. refl)

-- Whatever the client's finalizers and destructors do, `deallocate_list` leaves the dropping flag,
-- and the finalization of a last pointer the finalizing flag, as they were, whether they return or
-- unwind.
pub guarded-Ends :
    (fuel : ℕ) (client : Client) (p : Ptr) (w : World)
    → Ends (λ v. v.state.dropping ≡ w.state.dropping) (deallocate_list fuel client w)
      × Ends (λ v. v.state.finalizing ≡ w.state.finalizing) (finalize_last client p w)
unfolding deallocate_list finalize_last
guarded-Ends fuel client p w = (replace_dropping-Ends true _ w, replace_finalizing-Ends true _ w)
