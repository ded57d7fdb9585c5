-- ===== src/Config.antt =====
-- src/config.rs: when a collection starts by itself, and how the threshold follows the allocated
-- bytes. The products with `adjustment_percent`, an `f64`, are parameters; a loop takes fuel and
-- gives `none` when it runs out.
pub mod Increase
pub mod Decrease
pub mod Adjust
use rust_cc.Prelude.{
  ◌≡◌, refl, ℕ, zero, suc, ◌*◌, ◌/◌, ◌%◌, ◌^◌, Bool, true, false, not, Option, none, some, ltb, leb,
  if◌then◌else◌,
}

abbrev pub default_bytes_threshold : ℕ
default_bytes_threshold = 100

-- The two tests on `f64` values that the code makes of a threshold and the percentage:
-- `(threshold as f64) * percent == 0.0` and `allocated as f64 <= (threshold as f64) * percent`;
-- and the range test of the setter.
pub record Percentages : Type 1 where
  pub Percent : Type 0
  pub initial : Percent
  pub in_range : Percent → Bool
  pub is_zero_of : ℕ → Percent → Bool
  pub at_most : ℕ → ℕ → Percent → Bool

module _ (f : Percentages) where
  open f use {Percent, initial, in_range, is_zero_of, at_most}

  pub record Config : Type 0 where
    pub bytes_threshold : ℕ
    pub adjustment_percent : Percent
    pub buffered_threshold : Option ℕ
    pub auto_collect : Bool

  abbrev pub new : Config
  new = record {
    bytes_threshold = default_bytes_threshold;
    adjustment_percent = initial;
    buffered_threshold = none;
    auto_collect = true;
  }

  -- `none` is the panic of the assertion.
  unfoldable pub set_adjustment_percent : Percent → Config → Option Config
  set_adjustment_percent percent c =
      if in_range percent then some (record c { adjustment_percent = percent }) else none

  unfoldable set_auto_collect : Bool → Config → Config
  set_auto_collect auto_collect c = record c { auto_collect = auto_collect }

  -- A `NonZeroUsize` is a number that is not 0.
  unfoldable set_buffered_objects_threshold : Option ℕ → Config → Config
  set_buffered_objects_threshold threshold c = record c { buffered_threshold = threshold }

  unfoldable pub exceeds_buffered : Option ℕ → ℕ → Bool
  exceeds_buffered none size = false
  exceeds_buffered (some buffered_threshold) size = ltb buffered_threshold size

  -- `allocated` is `state.allocated_bytes()`, `size` is `possible_cycles.size()`.
  unfoldable pub should_collect : (allocated size : ℕ) → Config → Bool
  unfolding exceeds_buffered
  should_collect allocated size c =
      if not c.auto_collect
      then false
      else if ltb c.bytes_threshold allocated
      then true
      else exceeds_buffered c.buffered_threshold size

  -- Whatever was set before, automatic collections stay off once they are turned off, and without a
  -- threshold for the buffer its size does not matter.
  should_collect-setters :
      (allocated size other : ℕ) (c : Config)
      → (should_collect allocated size (set_auto_collect false c) ≡ false)
        × (should_collect allocated size (set_buffered_objects_threshold none c)
            ≡ should_collect allocated other (set_buffered_objects_threshold none c))
  unfolding should_collect set_auto_collect set_buffered_objects_threshold
  should_collect-setters allocated size other c = (refl, refl)

-- `threshold.checked_shl(1)`: `None` only for a shift by 64 or more, so never here; the bit that
-- leaves the word is lost.
abbrev pub checked_shl_one : ℕ → Option ℕ
checked_shl_one threshold = some ((threshold * 2) % 2 ^ 64)

-- The `loop` of the first case.
unfoldable pub increase_loop : (fuel allocated threshold : ℕ) → Option ℕ
increase_loop zero allocated threshold = none
increase_loop (suc fuel) allocated threshold = elim (checked_shl_one threshold) [
  | none ↦ some threshold
  | some new_threshold ↦ elim (ltb allocated new_threshold) [
    | true ↦ some new_threshold
    | false ↦ increase_loop fuel allocated new_threshold
  ]
]

-- The `while` loop of the second case; `low t` is its test at the threshold `t`.
unfoldable pub decrease_loop : (low : ℕ → Bool) (fuel allocated threshold : ℕ) → Option ℕ
decrease_loop low zero allocated threshold = none
decrease_loop low (suc fuel) allocated threshold = elim (low threshold) [
  | false ↦ some threshold
  | true ↦ elim (leb (threshold / 2) allocated) [
    | true ↦ some threshold
    | false ↦ elim (leb (threshold / 2) default_bytes_threshold) [
      | true ↦ some default_bytes_threshold
      | false ↦ decrease_loop low fuel allocated (threshold / 2)
    ]
  ]
]

module _ (f : Percentages) where
  open f use {Percent, is_zero_of, at_most}

  unfoldable pub adjusted : (fuel allocated threshold : ℕ) → Percent → Option ℕ
  adjusted fuel allocated threshold percent =
      if leb threshold allocated
      then increase_loop fuel allocated threshold
      else if is_zero_of threshold percent
      then some threshold
      else decrease_loop (λ t. at_most allocated t percent) fuel allocated threshold
