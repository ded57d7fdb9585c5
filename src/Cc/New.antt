-- ===== src/Cc/New.antt =====
-- `Cc::new` of src/cc.rs.
use rust_cc.Prelude.{
  ℕ, ◌≡◌, ◌∙◌, ap, refl, Bool, true, false, not, none, some, List, arith, if◌then◌else◌,
}
use rust_cc.CounterMarker.{
  counter, new_with_counter_to_one, is_in_possible_cycles, needs_finalization,
}
use rust_cc.CounterMarker.View.{IsWords}
use rust_cc.Heap.{Ptr, CcBox, Elem, vtable_member, write}
use rust_cc.State.{record_allocation}
use rust_cc.World.{World, Cmd, ◌>>=◌, and_then, pure, panic, ok, with_state}
use rust_cc.CcBox.{new_box, cc_alloc}
use rust_cc.Cc.{new_cc}
use rust_cc.Buffered.{IsBuffered}
use rust_cc.Buffered.Change.{allocated-IsBuffered}

-- The box that `CcBox::new` writes.
abbrev pub fresh_box : World → Elem → ℕ → CcBox
fresh_box w t size = record {
  next = none;
  prev = none;
  metadata = vtable_member (record { layout_size = size });
  counter_marker = new_with_counter_to_one w.state.finalizing;
  elem = t;
}

new-tests :
    (b : Bool)
    → (is_in_possible_cycles (new_with_counter_to_one b) ≡ false)
      × (counter (new_with_counter_to_one b) ≡ 1)
      × (needs_finalization (new_with_counter_to_one b) ≡ not b)
      × IsWords (new_with_counter_to_one b)
unfolding is_in_possible_cycles counter needs_finalization new_with_counter_to_one
new-tests true =
    (refl, refl, refl, record { tracing_fits = omega arith; counter_fits = omega arith })
new-tests false =
    (refl, refl, refl, record { tracing_fits = omega arith; counter_fits = omega arith })

with_state-alive :
    {A : Type 0} (body : Cmd A) (w : World) → w.state_accessible ≡ true → with_state body w ≡ body w
unfolding with_state
with_state-alive body w alive = ap (λ (b : Bool). (if b then body else (λ u. panic u)) w) alive

abbrev new_behind : {A : Type 0} → Cmd A → Ptr → Elem → ℕ → Cmd (Ptr × A)
new_behind trigger fresh t size = trigger >>= λ x. new_box fresh t size >>= λ cc. pure (cc, x)

-- `CcBox::new` behind the collection.
pub new_cc-IsBuffered :
    {A : Type 0} (trigger : Cmd A) (a : A) (w v : World) (xs : List Ptr) (fresh : Ptr) (t : Elem)
    (size : ℕ)
    → w.state_accessible ≡ true
    → trigger w ≡ ok a v
    → IsBuffered v.heap v.possible_cycles xs
    → v.heap fresh ≡ none
    → (new_cc trigger fresh t size w
        ≡ ok
            (fresh, a)
            (record v {
              heap = write v.heap fresh (some (fresh_box v t size));
              state = record_allocation size v.state;
            }))
      × IsBuffered (write v.heap fresh (some (fresh_box v t size))) v.possible_cycles xs
      × (counter (fresh_box v t size).counter_marker ≡ 1)
      × (needs_finalization (fresh_box v t size).counter_marker ≡ not v.state.finalizing)
unfolding new_cc new_box cc_alloc write
new_cc-IsBuffered trigger a w v xs fresh t size alive ran is free =
    let (out, one, fin, words) = new-tests v.state.finalizing in
    let b = fresh_box v t size in
    (
      with_state-alive (new_behind trigger fresh t size) w alive
          ∙ ap (λ r. and_then r (λ x. new_box fresh t size >>= λ cc. pure (cc, x))) ran,
      allocated-IsBuffered v.heap (write v.heap fresh (some b)) v.possible_cycles xs fresh b is free
          (ground arith) (λ q ne. ground arith) words out refl refl,
      one,
      fin,
    )
