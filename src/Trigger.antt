-- ===== src/Trigger.antt =====
-- Collections that start by themselves: `trigger_collection` and `adjust_trigger_point` of
-- src/lib.rs, the access to the configuration in src/config.rs, and `Cc::new` of src/cc.rs with them.
-- With these, `collect_cycles` of src/lib.rs.
-- What the client's code makes of the configuration during a collection is a parameter.
pub mod New
pub mod Thresholds
use rust_cc.Prelude.{
  ℕ, ◌≡◌, refl, Bool, true, false, not, ◌&&◌, Option, none, some, Bool-cases, inl, inr, ◌⊎◌, ◌≤◌,
  ◌<◌, arith, List, if◌then◌else◌, sym, subst,
}
use rust_cc.Heap.{Ptr, Elem, write}
use rust_cc.World.{
  World, Run, Cmd, Client, ok, panic, fault, out_of_fuel, and_then, pure, get, with_state, when,
  ◌>>=◌, ◌>>◌,
}
use rust_cc.World.Flags.{Ends}
use rust_cc.Cc.{new_cc}
use rust_cc.Cc.New.{fresh_box, new_cc-IsBuffered}
use rust_cc.Buffered.{IsBuffered}
use rust_cc.State.{record_allocation}
use rust_cc.CounterMarker.{counter, needs_finalization}
use rust_cc.Config.{Percentages, Config, should_collect, adjusted}
use rust_cc.Collector.{collect}
use rust_cc.Collector.Flags.{collect-Ends}

-- The thread-local `CONFIG`: after its destruction, while a closure holds it, and otherwise.
pub data ConfigCell (f : Percentages) : Type 0 where
  destroyed borrowed : ConfigCell f
  holding : Config f → ConfigCell f

module _ (f : Percentages) (fuel : ℕ) where
  abbrev with_threshold : Config f → Option ℕ → Cmd (ConfigCell f)
  with_threshold c none w = out_of_fuel
  with_threshold c (some threshold) w = ok (holding (record c { bytes_threshold = threshold })) w

  -- `config(|config| config.adjust(state))`, whose errors are ignored.
  unfoldable pub adjust_trigger_point : ConfigCell f → Cmd (ConfigCell f)
  adjust_trigger_point destroyed = pure destroyed
  adjust_trigger_point borrowed = pure borrowed
  adjust_trigger_point (holding c) = do
    allocated ← get (λ w. w.state.allocated_bytes)
    with_threshold c (adjusted f fuel allocated c.bytes_threshold c.adjustment_percent)

  -- `config(|config| config.should_collect(state, pc)).unwrap_or(false)`
  unfoldable pub wants_collection : (allocated size : ℕ) → ConfigCell f → Bool
  wants_collection allocated size destroyed = false
  wants_collection allocated size borrowed = false
  wants_collection allocated size (holding c) = should_collect f allocated size c

  module _ (client : Client) (meanwhile : ConfigCell f → ConfigCell f) where
    unfoldable pub collect_and_adjust : ConfigCell f → Cmd (ConfigCell f)
    collect_and_adjust cell = do collect fuel client; adjust_trigger_point (meanwhile cell)

    unfoldable pub trigger_collection : ConfigCell f → Cmd (ConfigCell f)
    trigger_collection cell = do
      collecting ← get (λ w. w.state.collecting)
      reachable ← get (λ w. w.cycles_accessible)
      wanted ← get (λ w. wants_collection w.state.allocated_bytes w.possible_cycles.size cell)
      if not collecting && (reachable && wanted) then collect_and_adjust cell else pure cell

    -- `Cc::new` with the feature auto-collect.
    unfoldable pub new_triggering :
        (fresh : Ptr) → Elem → (size : ℕ) → ConfigCell f → Cmd (Ptr × ConfigCell f)
    new_triggering fresh t size cell = new_cc (trigger_collection cell) fresh t size

    unfoldable pub collect_cycles : ConfigCell f → Cmd (ConfigCell f)
    collect_cycles cell = do
      accessible ← get (λ w. w.state_accessible)
      collecting ← get (λ w. w.state.collecting)
      reachable ← get (λ w. w.cycles_accessible)
      if accessible && not collecting
          then (do
            when reachable (collect fuel client)
            adjust_trigger_point (if reachable then meanwhile cell else cell))
          else pure cell

-- A command, and one behind it that keeps what the first one establishes.
Ends-then :
    {A B : Type 0} (P : World → Type 0) (r : Run A) (k : A → Cmd B)
    → Ends P r
    → ((a : A) (v : World) → P v → Ends P (k a v))
    → Ends P (and_then r k)
Ends-then P (ok a w) k h next = next a w h
Ends-then P (panic w) k h next = h
Ends-then P fault k h next = tt
Ends-then P out_of_fuel k h next = tt

module _ (f : Percentages) (fuel : ℕ) where
  adjust_trigger_point-Ends :
      (P : World → Type 0) (cell : ConfigCell f) (v : World)
      → P v
      → Ends P (adjust_trigger_point f fuel cell v)
  unfolding adjust_trigger_point
  adjust_trigger_point-Ends P destroyed v h = h
  adjust_trigger_point-Ends P borrowed v h = h
  adjust_trigger_point-Ends P (holding c) v h =
      go (adjusted f fuel v.state.allocated_bytes c.bytes_threshold c.adjustment_percent)
    where
      go : (o : Option ℕ) → Ends P (with_threshold f fuel c o v)
      go none = tt
      go (some threshold) = h

  module _ (client : Client) (meanwhile : ConfigCell f → ConfigCell f) (cell : ConfigCell f) where
    -- Whatever the traced values, finalizers and destructors do, and wherever the configuration is, a
    -- collection is running behind `trigger_collection` exactly if one was before, whether it returns
    -- or unwinds.
    pub trigger_collection-Ends :
        (w : World)
        → Ends
            (λ v. v.state.collecting ≡ w.state.collecting)
            (trigger_collection f fuel client meanwhile cell w)
    unfolding trigger_collection collect_and_adjust
    trigger_collection-Ends w =
        go w.state.collecting
          (w.cycles_accessible
            && wants_collection f fuel w.state.allocated_bytes w.possible_cycles.size cell)
          refl
      where
        go :
            (collecting wanted : Bool)
            → w.state.collecting ≡ collecting
            → Ends
                (λ v. v.state.collecting ≡ w.state.collecting)
                ((if not collecting && wanted
                    then collect_and_adjust f fuel client meanwhile cell
                    else pure cell)
                  w)
        go true wanted e = refl
        go false false e = refl
        go false true e =
            Ends-then (λ v. v.state.collecting ≡ w.state.collecting) (collect fuel client w)
              (λ _. adjust_trigger_point f fuel (meanwhile cell))
              (subst (λ (b : Bool). Ends (λ v. v.state.collecting ≡ b) (collect fuel client w))
                (sym e) (collect-Ends fuel client w))
              (λ a v h.
                adjust_trigger_point-Ends (λ u. u.state.collecting ≡ w.state.collecting)
                  (meanwhile cell) v h)
