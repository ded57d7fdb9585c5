-- ===== src/Config/Adjust.antt =====
-- `Config::adjust` of src/config.rs as a whole.
use rust_cc.Prelude.{ℕ, ◌≤◌, ◌<◌, ◌^◌, ◌≡◌, refl, Option, some, leb, arith, Bool-cases, inl, inr}
use rust_cc.Config.{Percentages, adjusted}
use rust_cc.Config.Increase.{increase_loop-Doubled}
use rust_cc.Config.Decrease.{decrease_loop-Halved}

-- What the next collection needs of the threshold.
abbrev pub Adjusted : ℕ → Option ℕ → Type 0
Adjusted allocated r = (t : ℕ) × (r ≡ some t) × (allocated < t) × (100 ≤ t) × (t < 2 ^ 64)

-- With less than half of the address space allocated, `adjust` ends, whatever the percentage is:
-- from a threshold that is a machine word and not below the default it comes to one that is so,
-- too, and that lies above the allocated bytes. 64 units of fuel are enough.
pub adjusted-Adjusted :
    (f : Percentages) (allocated threshold : ℕ) (percent : f.Percent)
    → allocated < 2 ^ 63
    → 100 ≤ threshold
    → threshold < 2 ^ 64
    → Adjusted allocated (adjusted f 64 allocated threshold percent)
unfolding adjusted
adjusted-Adjusted f allocated threshold percent half least fits =
    elim (Bool-cases (leb threshold allocated)) [
      | inl up ↦
          let (t, ran, above, close, grew) =
            increase_loop-Doubled allocated 64 threshold half (omega arith) (ground arith)
              (omega arith) in
          (t, rw up ran, above, omega arith, omega arith)
      | inr down ↦ elim (Bool-cases (f.is_zero_of threshold percent)) [
        | inl zero_of ↦ (threshold, rw (down, zero_of) refl, ground arith, least, fits)
        | inr other ↦
            let (t, ran, above, under, base, why) =
              decrease_loop-Halved (λ t. f.at_most allocated t percent) allocated 64 threshold fits
                (ground arith) least in
            (t, rw (down, other) ran, above, base, omega arith)
      ]
    ]
