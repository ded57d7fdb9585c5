-- ===== src/Prelude/Bits.antt =====
-- `&` and `|` of machine words, cut at a bit: what lies above the cut and what lies below it are
-- combined apart. The native operations are sealed, and mean `bitwise`, a recursion on digits.
use Prim.Native.Nat.{
  ℕ, zero, suc, ◌+◌, ◌*◌, ◌/◌, ◌%◌, ◌^◌, ◌≤◌, ◌<◌, ◌-◌, min, max, bit_and, bit_or, digits,
  bit_and-bitwise, bit_or-bitwise,
}
use mathlib.Core.Path.{◌≡◌, refl, ap}
use native.Mathlib.Nat.{le_refl, pow-suc}
use native.Mathlib.Omega.{arith}

-- One equation for the lowest digit of an operation on bits.
abbrev HasDigits : (ℕ → ℕ → ℕ) → (ℕ → ℕ → ℕ) → Type 0
HasDigits op f = (x y : ℕ) → op x y ≡ op (x / 2) (y / 2) * 2 + f (x % 2) (y % 2)

-- Any two amounts of fuel that cover the first operand agree.
module _ (rest : ℕ → ℕ) (f : ℕ → ℕ → ℕ) where
  digits_agree : (x y n m : ℕ) → x ≤ n → x ≤ m → digits rest f n x y ≡ digits rest f m x y
  digits_agree zero y zero zero hn hm = refl
  digits_agree zero y zero (suc m) hn hm = refl
  digits_agree zero y (suc n) zero hn hm = refl
  digits_agree zero y (suc n) (suc m) hn hm = refl
  digits_agree (suc x) y zero m hn hm = absurd (omega arith)
  digits_agree (suc x) y (suc n) zero hn hm = absurd (omega arith)
  digits_agree (suc x) y (suc n) (suc m) hn hm =
      ap (λ (d : ℕ). d * 2 + f (suc x % 2) (y % 2))
        (digits_agree (suc x / 2) (y / 2) n m (omega arith) (omega arith))

bit_and_digits : HasDigits bit_and min
bit_and_digits zero y = simp bit_and-bitwise (omega arith)
bit_and_digits (suc x) y = simp bit_and-bitwise (
    omega (
      arith,
      digits_agree (λ d. 0) min (suc x / 2) (y / 2) x (suc x / 2) (omega arith) (le_refl _),
    ))

bit_or_digits : HasDigits bit_or max
bit_or_digits zero y = simp bit_or-bitwise (omega arith)
bit_or_digits (suc x) y = simp bit_or-bitwise (
    omega (
      arith,
      digits_agree (λ d. d) max (suc x / 2) (y / 2) x (suc x / 2) (omega arith) (le_refl _),
    ))

double : (q k : ℕ) → q * 2 ^ suc k ≡ 2 * (q * 2 ^ k)
double q k = omega (arith, ap (λ (p : ℕ). q * p) (pow-suc 2 k))

module _ (op f : ℕ → ℕ → ℕ) (law : HasDigits op f) (base : op 0 0 ≡ 0) where
  cut :
      (k q r m s : ℕ)
      → r < 2 ^ k
      → s < 2 ^ k
      → op (q * 2 ^ k + r) (m * 2 ^ k + s) ≡ op q m * 2 ^ k + op r s
  cut zero q r m s hr hs = ground (arith, base)
  cut (suc k) q r m s hr hs = ground (
    arith,
    law (q * 2 ^ suc k + r) (m * 2 ^ suc k + s),
    law r s,
    double q k,
    double m k,
    double (op q m) k,
    pow-suc 2 k,
    cut k q (r / 2) m (s / 2) (omega arith) (omega arith),
  )

pub bit_and_cut :
    (k q r m s : ℕ)
    → r < 2 ^ k
    → s < 2 ^ k
    → bit_and (q * 2 ^ k + r) (m * 2 ^ k + s) ≡ bit_and q m * 2 ^ k + bit_and r s
bit_and_cut = cut bit_and min bit_and_digits refl

pub bit_or_cut :
    (k q r m s : ℕ)
    → r < 2 ^ k
    → s < 2 ^ k
    → bit_or (q * 2 ^ k + r) (m * 2 ^ k + s) ≡ bit_or q m * 2 ^ k + bit_or r s
bit_or_cut = cut bit_or max bit_or_digits refl

-- The neutral and the absorbing words of `k` bits.
pub bit_and-zero : (k r : ℕ) → r < 2 ^ k → bit_and r 0 ≡ 0
bit_and-zero zero r h = ground arith
bit_and-zero (suc k) r h =
    ground (arith, bit_and_digits r 0, pow-suc 2 k, bit_and-zero k (r / 2) (omega arith))

pub bit_or-zero : (k r : ℕ) → r < 2 ^ k → bit_or r 0 ≡ r
bit_or-zero zero r h = ground arith
bit_or-zero (suc k) r h =
    ground (arith, bit_or_digits r 0, pow-suc 2 k, bit_or-zero k (r / 2) (omega arith))

pub bit_and_ones : (k r : ℕ) → r < 2 ^ k → bit_and r (2 ^ k - 1) ≡ r
bit_and_ones zero r h = ground arith
bit_and_ones (suc k) r h =
    ground
      (arith, bit_and_digits r (2 ^ suc k - 1), pow-suc 2 k, bit_and_ones k (r / 2) (omega arith))

pub bit_or_ones : (k r : ℕ) → r < 2 ^ k → bit_or r (2 ^ k - 1) ≡ 2 ^ k - 1
bit_or_ones zero r h = ground arith
bit_or_ones (suc k) r h =
    ground
      (arith, bit_or_digits r (2 ^ suc k - 1), pow-suc 2 k, bit_or_ones k (r / 2) (omega arith))
