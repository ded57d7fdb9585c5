-- ===== src/Config/Increase.antt =====
-- The first loop of `Config::adjust`, which doubles the threshold.
use native.Mathlib.Nat.{pow-suc}
use rust_cc.Prelude.{
  ℕ, zero, suc, ◌+◌, ◌*◌, ◌%◌, ◌^◌, ◌≤◌, ◌<◌, ◌≡◌, refl, Option, none, some, false, true, ltb, leb,
  arith, ap, Bool-cases, inl, inr, ◌∙◌,
}
use rust_cc.Config.{increase_loop}

module _ (allocated : ℕ) where
  abbrev pub Doubled : ℕ → Option ℕ → Type 0
  Doubled threshold r =
      (t : ℕ) × (r ≡ some t) × (allocated < t) × (t ≤ allocated * 2) × (threshold ≤ t)

  abbrev doubled : ℕ → ℕ
  doubled threshold = threshold * 2 % 2 ^ 64

  increase_again :
      (fuel threshold : ℕ)
      → ltb allocated (doubled threshold) ≡ false
      → increase_loop (suc fuel) allocated threshold
        ≡ increase_loop fuel allocated (doubled threshold)
  unfolding increase_loop
  increase_again fuel threshold h = rw (h, increase_loop)

  increase_last :
      (fuel threshold : ℕ)
      → ltb allocated (doubled threshold) ≡ true
      → increase_loop (suc fuel) allocated threshold ≡ some (doubled threshold)
  unfolding increase_loop
  increase_last fuel threshold h = rw (h, increase_loop)

  increase_step :
      (fuel threshold : ℕ)
      → threshold < 2 ^ 63
      → threshold * 2 ≤ allocated
      → increase_loop (suc fuel) allocated threshold ≡ increase_loop fuel allocated (threshold * 2)
  increase_step fuel threshold h le =
      increase_again fuel threshold (ground arith) ∙ ap (increase_loop fuel allocated) (omega arith)

  -- With less than half of the address space allocated, and a threshold that is not zero and not
  -- above the allocated bytes, the loop ends once its fuel covers the doublings up to 2 ^ 63: with
  -- a threshold above the allocated bytes that is at most twice as large as they are.
  pub increase_loop-Doubled :
      (fuel threshold : ℕ)
      → allocated < 2 ^ 63
      → 0 < threshold
      → threshold ≤ allocated
      → 2 ^ 63 ≤ threshold * 2 ^ fuel
      → Doubled threshold (increase_loop fuel allocated threshold)
  increase_loop-Doubled zero threshold h pos le enough = absurd (omega arith)
  increase_loop-Doubled (suc fuel) threshold h pos le enough =
      elim (Bool-cases (leb (threshold * 2) allocated)) [
        | inl more ↦
            let (t, ran, above, close, grew) =
              increase_loop-Doubled fuel (threshold * 2) h (omega arith) (ground arith)
                (omega (arith, ap (λ (p : ℕ). threshold * p) (pow-suc 2 fuel))) in
            (
              t,
              increase_step fuel threshold (omega arith) (ground arith) ∙ ran,
              above,
              close,
              omega arith,
            )
        | inr done ↦
            (threshold * 2, last fuel threshold h le done, ground arith, omega arith, omega arith)
      ]
    where
      last :
          (fuel threshold : ℕ)
          → allocated < 2 ^ 63
          → threshold ≤ allocated
          → leb (threshold * 2) allocated ≡ false
          → increase_loop (suc fuel) allocated threshold ≡ some (threshold * 2)
      last fuel threshold h le done =
          increase_last fuel threshold (ground arith) ∙ ap {B = Option ℕ} some (omega arith)

  -- No fuel is enough at a threshold.
  abbrev Hangs : ℕ → Type 0
  Hangs threshold = (fuel : ℕ) → increase_loop fuel allocated threshold ≡ none

  Hangs-zero : Hangs 0
  unfolding increase_loop
  Hangs-zero zero = refl
  Hangs-zero (suc fuel) =
      let stays : ltb allocated 0 ≡ false = ground arith in
      rw (stays, increase_loop) (Hangs-zero fuel)

  Hangs-before :
      (threshold next : ℕ)
      → threshold * 2 % 2 ^ 64 ≡ next
      → next ≤ allocated
      → Hangs next
      → Hangs threshold
  unfolding increase_loop
  Hangs-before threshold next e le hangs zero = refl
  Hangs-before threshold next e le hangs (suc fuel) =
      increase_again fuel threshold (rw e (ground arith))
      ∙ ap (increase_loop fuel allocated) e
      ∙ hangs fuel

  module _ (huge : 25 * 2 ^ 59 ≤ allocated) where
    Hangs-wrapped : Hangs (9 * 2 ^ 60)
    Hangs-wrapped = Hangs-before (9 * 2 ^ 60) (2 ^ 61) (omega arith) (omega arith) (
        Hangs-before (2 ^ 61) (2 ^ 62) (omega arith) (omega arith) (
          Hangs-before (2 ^ 62) (2 ^ 63) (omega arith) (omega arith)
            (Hangs-before (2 ^ 63) 0 (omega arith) (omega arith) Hangs-zero)))

    pow_bound : (i j : ℕ) → i + j ≡ 59 → 25 * 2 ^ i ≤ 25 * 2 ^ 59
    pow_bound i zero e = rw ((let e' : i ≡ 59 = omega arith in e')) (omega arith)
    pow_bound i (suc j) e = omega (arith, pow_bound (suc i) j (omega arith), pow-suc 2 i)

    Hangs-power : (j i : ℕ) → i + j ≡ 59 → Hangs (25 * 2 ^ i)
    Hangs-power zero i e =
        rw ((let e' : i ≡ 59 = omega arith in e'))
          (Hangs-before (25 * 2 ^ 59) (9 * 2 ^ 60) (omega arith) (omega arith) Hangs-wrapped)
    Hangs-power (suc j) i e =
        Hangs-before (25 * 2 ^ i) (25 * 2 ^ suc i)
          (omega (arith, pow-suc 2 i, pow_bound (suc i) j (omega arith)))
          (omega (arith, pow_bound (suc i) j (omega arith))) (Hangs-power j (suc i) (omega arith))

-- From the default threshold, once 25 * 2 ^ 59 bytes are allocated the loop never ends: the
-- doublings wrap around to zero, and `checked_shl(1)` never gives the `None` that would stop it.
pub increase_loop-hangs :
    (fuel allocated : ℕ) → 25 * 2 ^ 59 ≤ allocated → increase_loop fuel allocated 100 ≡ none
increase_loop-hangs fuel allocated huge = Hangs-power allocated huge 57 2 (omega arith) fuel
