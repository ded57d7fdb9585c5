-- ===== src/World/Flags.antt =====
-- The drop guards of `replace_state_field!` in src/state.rs, on the normal way out and while
-- unwinding.
use rust_cc.Prelude.{◌≡◌, refl, Bool}
use rust_cc.State
use rust_cc.World.{
  World, Run, ok, panic, fault, out_of_fuel, Cmd, settle, replace_dropping, replace_finalizing,
}

-- Wherever the code returns or unwinds to, the state has the property.
abbrev pub Ends : {A : Type 0} → (World → Type 0) → Run A → Type 0
Ends P (ok a w) = P w
Ends P (panic w) = P w
Ends P fault = Unit
Ends P out_of_fuel = Unit

pub settle-Ends :
    {A : Type 0} (P : World → Type 0) (r : Run A) (f : World → World)
    → ((w : World) → P (f w))
    → Ends P (settle r (λ w. ok tt (f w)))
settle-Ends P (ok a w) f h = h w
settle-Ends P (panic w) f h = h w
settle-Ends P fault f h = tt
settle-Ends P out_of_fuel f h = tt

-- Whatever the scope under `replace_state_field!(dropping, ..)` does, the flag is what it was before
-- the scope once the scope returns or unwinds.
pub replace_dropping-Ends :
    {A : Type 0} (value : Bool) (body : Cmd A) (w : World)
    → Ends (λ v. v.state.dropping ≡ w.state.dropping) (replace_dropping value body w)
unfolding replace_dropping
replace_dropping-Ends value body w =
    settle-Ends (λ v. v.state.dropping ≡ w.state.dropping)
      (body (record w { state = State.set_dropping value w.state }))
      (λ v. record v { state = State.set_dropping w.state.dropping v.state }) (λ v. refl)

pub replace_finalizing-Ends :
    {A : Type 0} (value : Bool) (body : Cmd A) (w : World)
    → Ends (λ v. v.state.finalizing ≡ w.state.finalizing) (replace_finalizing value body w)
unfolding replace_finalizing
replace_finalizing-Ends value body w =
    settle-Ends (λ v. v.state.finalizing ≡ w.state.finalizing)
      (body (record w { state = State.set_finalizing value w.state }))
      (λ v. record v { state = State.set_finalizing w.state.finalizing v.state }) (λ v. refl)
