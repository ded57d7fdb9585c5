-- ===== src/CounterMarker/Words.antt =====
-- The masks of counter_marker.rs on a 16-bit word `x`: its two high bits are `x / 2 ^ 14`, its 14
-- low ones `x % 2 ^ 14`.
use rust_cc.Prelude.{
  ℕ, zero, suc, ◌+◌, ◌*◌, ◌/◌, ◌%◌, ◌^◌, ◌<◌, ◌≡◌, refl, ap, ◌∙◌, bit_and, bit_or, arith,
}
use rust_cc.Prelude.Bits.{
  bit_and_cut, bit_or_cut, bit_and-zero, bit_or-zero, bit_and_ones, bit_or_ones,
}

-- The operations on the two high bits, by evaluation.
record HighBits (q : ℕ) : Type 0 where
  and_one : bit_and q 1 ≡ q % 2
  and_two : bit_and q 2 ≡ q / 2 * 2
  and_three : bit_and q 3 ≡ q
  or_one : bit_or q 1 ≡ q / 2 * 2 + 1
  or_two : bit_or q 2 ≡ 2 + q % 2

high_bits : (q : ℕ) → q < 4 → HighBits q
high_bits zero h = record {
  and_one = refl;
  and_two = refl;
  and_three = refl;
  or_one = refl;
  or_two = refl;
}
high_bits (suc zero) h = record {
  and_one = refl;
  and_two = refl;
  and_three = refl;
  or_one = refl;
  or_two = refl;
}
high_bits (suc (suc zero)) h = record {
  and_one = refl;
  and_two = refl;
  and_three = refl;
  or_one = refl;
  or_two = refl;
}
high_bits (suc (suc (suc zero))) h = record {
  and_one = refl;
  and_two = refl;
  and_three = refl;
  or_one = refl;
  or_two = refl;
}
high_bits (suc (suc (suc (suc q)))) h = absurd (omega arith)

module _ (x : ℕ) where
  and_word :
      (m s : ℕ)
      → s < 2 ^ 14
      → bit_and x (m * 2 ^ 14 + s) ≡ bit_and (x / 2 ^ 14) m * 2 ^ 14 + bit_and (x % 2 ^ 14) s
  and_word m s h =
      ap (λ (y : ℕ). bit_and y (m * 2 ^ 14 + s)) (omega arith)
      ∙ bit_and_cut 14 (x / 2 ^ 14) (x % 2 ^ 14) m s (omega arith) h

  or_word :
      (m s : ℕ)
      → s < 2 ^ 14
      → bit_or x (m * 2 ^ 14 + s) ≡ bit_or (x / 2 ^ 14) m * 2 ^ 14 + bit_or (x % 2 ^ 14) s
  or_word m s h =
      ap (λ (y : ℕ). bit_or y (m * 2 ^ 14 + s)) (omega arith)
      ∙ bit_or_cut 14 (x / 2 ^ 14) (x % 2 ^ 14) m s (omega arith) h

  low_lt : x % 2 ^ 14 < 2 ^ 14
  low_lt = omega arith

  module _ (fits : x < 2 ^ 16) where
    high : HighBits (x / 2 ^ 14)
    high = high_bits (x / 2 ^ 14) (omega arith)

    pub and_counter_mask : bit_and x 16383 ≡ x % 16384
    and_counter_mask = ground (
      arith,
      and_word 0 16383 (omega arith),
      bit_and-zero 2 (x / 2 ^ 14) (omega arith),
      bit_and_ones 14 (x % 2 ^ 14) low_lt,
    )

    pub and_bits_mask : bit_and x 49152 ≡ x / 16384 * 16384
    and_bits_mask =
        ground
          (arith, and_word 3 0 (omega arith), high.and_three, bit_and-zero 14 (x % 2 ^ 14) low_lt)

    pub and_first_bit : bit_and x 32768 ≡ x / 32768 * 32768
    and_first_bit =
        ground
          (arith, and_word 2 0 (omega arith), high.and_two, bit_and-zero 14 (x % 2 ^ 14) low_lt)

    pub and_second_bit : bit_and x 16384 ≡ x / 16384 % 2 * 16384
    and_second_bit =
        ground
          (arith, and_word 1 0 (omega arith), high.and_one, bit_and-zero 14 (x % 2 ^ 14) low_lt)

    pub and_not_first_bit : bit_and x 32767 ≡ x % 32768
    and_not_first_bit =
        ground
          (arith, and_word 1 16383 (omega arith), high.and_one, bit_and_ones 14 (x % 2 ^ 14) low_lt)

    pub and_not_second_bit : bit_and x 49151 ≡ x / 32768 * 32768 + x % 16384
    and_not_second_bit =
        ground
          (arith, and_word 2 16383 (omega arith), high.and_two, bit_and_ones 14 (x % 2 ^ 14) low_lt)

    pub or_first_bit : bit_or x 32768 ≡ 32768 + x % 32768
    or_first_bit =
        ground (arith, or_word 2 0 (omega arith), high.or_two, bit_or-zero 14 (x % 2 ^ 14) low_lt)

    pub or_second_bit : bit_or x 16384 ≡ x / 32768 * 32768 + 16384 + x % 16384
    or_second_bit =
        ground (arith, or_word 1 0 (omega arith), high.or_one, bit_or-zero 14 (x % 2 ^ 14) low_lt)

    pub or_counter_mask : bit_or x 16383 ≡ x / 16384 * 16384 + 16383
    or_counter_mask = ground (
      arith,
      or_word 0 16383 (omega arith),
      bit_or-zero 2 (x / 2 ^ 14) (omega arith),
      bit_or_ones 14 (x % 2 ^ 14) low_lt,
    )

-- A mark put on top of the 14 low bits.
zero-bit_or : (m : ℕ) → m < 4 → bit_or 0 m ≡ m
zero-bit_or zero h = refl
zero-bit_or (suc zero) h = refl
zero-bit_or (suc (suc zero)) h = refl
zero-bit_or (suc (suc (suc zero))) h = refl
zero-bit_or (suc (suc (suc (suc m)))) h = absurd (omega arith)

pub or_mark : (r m : ℕ) → r < 16384 → m < 4 → bit_or r (m * 16384) ≡ m * 16384 + r
or_mark r m h g = ground (arith, or_word r m 0 (omega arith), bit_or-zero 14 r, zero-bit_or m g)
