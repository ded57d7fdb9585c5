-- ===== src/WeakCounterMarker/Refinement.antt =====
-- The contract of src/weak/weak_counter_marker.rs: a word stands for a count below 2 ^ 15 and a flag.
use mathlib.Core.Option
use rust_cc.Prelude.{
  ℕ, ◌+◌, ◌-◌, ◌/◌, ◌%◌, ◌^◌, ◌<◌, ◌≡◌, refl, Bool, true, false, Option, none, some, ◌==◌,
  if◌then◌else◌, arith,
}
use rust_cc.CounterMarker.Words.{and_first_bit, and_not_first_bit, or_first_bit}
use rust_cc.WeakCounterMarker.{
  WeakCounterMarker, max_count, new_marker, counter, increment_counter, decrement_counter,
  is_accessible, set_accessible,
}

pub record WeakView : Type 0 where
  pub accessible : Bool
  pub count : ℕ

unfoldable pub view : WeakCounterMarker → WeakView
view c = record { accessible = c.weak_counter / 2 ^ 15 == 1; count = c.weak_counter % 2 ^ 15 }

abbrev pub IsWord : WeakCounterMarker → Type 0
IsWord c = c.weak_counter < 2 ^ 16

abbrev pub IsWordIfSome : Option WeakCounterMarker → Type 0
IsWordIfSome none = Unit
IsWordIfSome (some c) = IsWord c

abbrev pub up : WeakView → Option WeakView
up v = if v.count == max_count then none else some (record v { count = v.count + 1 })

abbrev pub down : WeakView → Option WeakView
down v = if v.count == 0 then none else some (record v { count = v.count - 1 })

new_marker-view :
    (b : Bool)
    → IsWord (new_marker b) × (view (new_marker b) ≡ record { accessible = b; count = 0 })
unfolding new_marker view
new_marker-view true = (omega arith, refl)
new_marker-view false = (omega arith, refl)

module _ {c : WeakCounterMarker} (w : IsWord c) where
  pub counter-view : counter c ≡ (view c).count
  unfolding counter view
  counter-view = ground (arith, and_not_first_bit c.weak_counter w)

  pub is_accessible-view : is_accessible c ≡ (view c).accessible
  unfolding is_accessible view
  is_accessible-view = ground (arith, and_first_bit c.weak_counter w)

  pub view-increment_counter : Option.map view (increment_counter c) ≡ up (view c)
  unfolding increment_counter view
  view-increment_counter = rw counter-view (ground arith)

  pub view-decrement_counter : Option.map view (decrement_counter c) ≡ down (view c)
  unfolding decrement_counter view
  view-decrement_counter = rw counter-view (ground arith)

  pub view-set_accessible :
      (b : Bool) → view (set_accessible b c) ≡ record (view c) { accessible = b }
  unfolding set_accessible view
  view-set_accessible true = ground (arith, or_first_bit c.weak_counter w)
  view-set_accessible false = ground (arith, and_not_first_bit c.weak_counter w)

  pub increment_counter-IsWord : IsWordIfSome (increment_counter c)
  unfolding increment_counter
  increment_counter-IsWord = ground arith

  pub decrement_counter-IsWord : IsWordIfSome (decrement_counter c)
  unfolding decrement_counter
  decrement_counter-IsWord = ground arith

  pub set_accessible-IsWord : (b : Bool) → IsWord (set_accessible b c)
  unfolding set_accessible
  set_accessible-IsWord true = ground (arith, or_first_bit c.weak_counter w)
  set_accessible-IsWord false = ground (arith, and_not_first_bit c.weak_counter w)

  -- On a 16-bit word, both counting methods refuse at their bound (15 ones, zero) and otherwise
  -- move the count by one and keep the flag; setting the flag keeps the count; the getters read
  -- the count and the flag; and all of them leave a 16-bit word.
  pub weak_methods-view :
      (b : Bool)
      → (Option.map view (increment_counter c) ≡ up (view c))
        × (Option.map view (decrement_counter c) ≡ down (view c))
        × (view (set_accessible b c) ≡ record (view c) { accessible = b })
        × (counter c ≡ (view c).count)
        × (is_accessible c ≡ (view c).accessible)
        × IsWordIfSome (increment_counter c)
        × IsWordIfSome (decrement_counter c)
        × IsWord (set_accessible b c)
  weak_methods-view b = (
    view-increment_counter,
    view-decrement_counter,
    view-set_accessible b,
    counter-view,
    is_accessible-view,
    increment_counter-IsWord,
    decrement_counter-IsWord,
    set_accessible-IsWord b,
  )
