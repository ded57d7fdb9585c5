-- ===== src/Prelude/Words.antt =====
-- Machine words as native numbers with their wrap-around written out: `u16` and `usize` (64 bits).
use Prim.Native.Nat.{ℕ, ◌+◌, ◌-◌, ◌*◌, ◌%◌, ◌^◌}

abbrev pub u16_modulus : ℕ
u16_modulus = 2 ^ 16

-- `!x`
abbrev pub u16_not : ℕ → ℕ
u16_not x = 2 ^ 16 - 1 - x

-- `a << k`
abbrev pub u16_shl : ℕ → ℕ → ℕ
u16_shl a k = (a * 2 ^ k) % 2 ^ 16

abbrev pub u16_add : ℕ → ℕ → ℕ
u16_add a b = (a + b) % 2 ^ 16

-- `-` on ℕ stops at 0, so the modulus is added first.
abbrev pub u16_sub : ℕ → ℕ → ℕ
u16_sub a b = (a + 2 ^ 16 - b) % 2 ^ 16

abbrev pub usize_add : ℕ → ℕ → ℕ
usize_add a b = (a + b) % 2 ^ 64

abbrev pub usize_sub : ℕ → ℕ → ℕ
usize_sub a b = (a + 2 ^ 64 - b) % 2 ^ 64
