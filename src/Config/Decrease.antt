-- ===== src/Config/Decrease.antt =====
-- The second loop of `Config::adjust`, which halves the threshold.
use native.Mathlib.Nat.{pow-suc}
use rust_cc.Prelude.{
  ℕ, zero, suc, ◌/◌, ◌^◌, ◌≤◌, ◌<◌, ◌≡◌, ◌⊎◌, inl, inr, refl, Bool, false, Option, some, leb, arith,
  Bool-cases,
}
use rust_cc.Config.{decrease_loop, default_bytes_threshold}

module _ (low : ℕ → Bool) (allocated : ℕ) where
  abbrev pub Halved : ℕ → Option ℕ → Type 0
  Halved threshold r =
      (t : ℕ) × (r ≡ some t)
      × (allocated < t)
      × (t ≤ threshold)
      × (100 ≤ t)
      × ((low t ≡ false) ⊎ ((t / 2 ≤ allocated) ⊎ (t ≡ default_bytes_threshold)))

  -- From a threshold above the allocated bytes and not below the default, with enough fuel for its
  -- bits, the loop ends, whatever the test on `f64` says: with a threshold that is still above the
  -- allocated bytes, not below the default and not larger than before, and at which the test
  -- fails, or half of it would not lie above the allocated bytes, or it is the default.
  pub decrease_loop-Halved :
      (fuel threshold : ℕ)
      → threshold < 2 ^ fuel
      → allocated < threshold
      → 100 ≤ threshold
      → Halved threshold (decrease_loop low fuel allocated threshold)
  unfolding decrease_loop
  decrease_loop-Halved zero threshold fits above least = absurd (omega arith)
  decrease_loop-Halved (suc fuel) threshold fits above least = elim (Bool-cases (low threshold)) [
    | inr fails ↦ (threshold, ground arith, above, omega arith, least, inl fails)
    | inl holds ↦ elim (Bool-cases (leb (threshold / 2) allocated)) [
      | inl half ↦ (threshold, ground arith, above, omega arith, least, inr (inl (ground arith)))
      | inr keep ↦ elim (Bool-cases (leb (threshold / 2) 100)) [
        | inl floor ↦ (100, ground arith, ground arith, least, omega arith, inr (inr refl))
        | inr more ↦
            let (t, ran, over, under, base, why) =
              decrease_loop-Halved fuel (threshold / 2) (omega (arith, pow-suc 2 fuel))
                (ground arith) (ground arith) in
            (t, ground arith, over, omega arith, base, why)
      ]
    ]
  ]
