-- ===== src/WeakCounterMarker.antt =====
-- src/weak/weak_counter_marker.rs: the 16-bit word that counts the weak pointers of an allocation
-- and says whether the allocation can still be accessed. `none` is `Err(OverflowError)`.
pub mod Refinement
use rust_cc.Prelude.{
  ◌-◌, ℕ, Bool, true, false, not, Option, none, some, bit_and, bit_or, ◌==◌, if◌then◌else◌, u16_not,
  u16_shl, u16_add, u16_sub,
}

abbrev pub accessible_mask : ℕ
accessible_mask = u16_shl 1 (16 - 1)

abbrev pub counter_mask : ℕ
counter_mask = u16_not accessible_mask

abbrev pub initial_value : ℕ
initial_value = 0

abbrev pub initial_value_accessible : ℕ
initial_value_accessible = bit_or initial_value accessible_mask

-- All of the first 15 bits.
abbrev pub max_count : ℕ
max_count = u16_not accessible_mask

pub record WeakCounterMarker : Type 0 where
  pub weak_counter : ℕ

pub new_marker : Bool → WeakCounterMarker
new_marker accessible = record {
  weak_counter = if accessible then initial_value_accessible else initial_value;
}

unfoldable pub counter : WeakCounterMarker → ℕ
counter c = bit_and c.weak_counter counter_mask

pub increment_counter : WeakCounterMarker → Option WeakCounterMarker
increment_counter c =
    if counter c == max_count
    then none
    else some (record { weak_counter = u16_add c.weak_counter 1 })

pub decrement_counter : WeakCounterMarker → Option WeakCounterMarker
decrement_counter c =
    if counter c == 0 then none else some (record { weak_counter = u16_sub c.weak_counter 1 })

unfoldable pub is_accessible : WeakCounterMarker → Bool
is_accessible c = not (bit_and c.weak_counter accessible_mask == 0)

pub set_accessible : Bool → WeakCounterMarker → WeakCounterMarker
set_accessible accessible c =
    if accessible
    then record { weak_counter = bit_or c.weak_counter accessible_mask }
    else record { weak_counter = bit_and c.weak_counter (u16_not accessible_mask) }
