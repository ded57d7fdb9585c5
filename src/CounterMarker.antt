-- ===== src/CounterMarker.antt =====
-- src/counter_marker.rs: the two 16-bit words in which each allocation keeps its mark, its tracing
-- counter, its flags and its reference counter. The cells of the struct are fields, and a method
-- returns the new struct; `none` is `Err(OverflowError)`, after which the struct is as it was.
pub mod Words
pub mod View
pub mod Laws
pub mod Refinement
use rust_cc.Prelude.{
  ℕ, Bool, true, false, not, Option, none, some, bit_and, bit_or, ◌-◌, ◌^◌, ◌<◌, ◌==◌,
  if◌then◌else◌, u16_not, u16_shl, u16_add, u16_sub,
}

abbrev pub non_marked : ℕ
non_marked = 0

abbrev pub in_possible_cycles : ℕ
in_possible_cycles = u16_shl 1 (16 - 2)

abbrev pub in_list : ℕ
in_list = u16_shl 2 (16 - 2)

abbrev pub in_queue : ℕ
in_queue = u16_shl 3 (16 - 2)

-- The first 14 bits.
abbrev pub counter_mask : ℕ
counter_mask = 0b11111111111111

abbrev pub first_bit_mask : ℕ
first_bit_mask = u16_shl 1 (16 - 1)

abbrev pub finalized_mask : ℕ
finalized_mask = u16_shl 1 (16 - 2)

abbrev pub bits_mask : ℕ
bits_mask = u16_not counter_mask

abbrev pub initial_value : ℕ
initial_value = 1

abbrev pub initial_value_tracing_counter : ℕ
initial_value_tracing_counter = bit_or initial_value non_marked

abbrev pub initial_value_finalized : ℕ
initial_value_finalized = bit_or initial_value finalized_mask

abbrev pub max_count : ℕ
max_count = counter_mask - 1

pub record CounterMarker : Type 0 where
  pub tracing_counter_cell : ℕ
  pub counter_cell : ℕ

pub data Mark : Type 0 where
  non_marked_mark possible_cycles_mark in_list_mark in_queue_mark : Mark

-- `new_mark as u16`
abbrev pub mark_bits : Mark → ℕ
mark_bits non_marked_mark = non_marked
mark_bits possible_cycles_mark = in_possible_cycles
mark_bits in_list_mark = in_list
mark_bits in_queue_mark = in_queue

unfoldable pub new_with_counter_to_one : Bool → CounterMarker
new_with_counter_to_one already_finalized = record {
  tracing_counter_cell = initial_value_tracing_counter;
  counter_cell = if not already_finalized then initial_value else initial_value_finalized;
}

unfoldable pub counter : CounterMarker → ℕ
counter c = bit_and c.counter_cell counter_mask

unfoldable pub tracing_counter : CounterMarker → ℕ
tracing_counter c = bit_and c.tracing_counter_cell counter_mask

unfoldable pub increment_counter : CounterMarker → Option CounterMarker
increment_counter c =
    if counter c == max_count
    then none
    else some (record c { counter_cell = u16_add c.counter_cell 1 })

unfoldable pub decrement_counter : CounterMarker → Option CounterMarker
decrement_counter c =
    if counter c == 0 then none else some (record c { counter_cell = u16_sub c.counter_cell 1 })

unfoldable pub increment_tracing_counter : CounterMarker → Option CounterMarker
increment_tracing_counter c =
    if tracing_counter c == max_count
    then none
    else some (record c { tracing_counter_cell = u16_add c.tracing_counter_cell 1 })

unfoldable pub decrement_tracing_counter : CounterMarker → Option CounterMarker
decrement_tracing_counter c =
    if tracing_counter c == 0
    then none
    else some (record c { tracing_counter_cell = u16_sub c.tracing_counter_cell 1 })

unfoldable pub reset_tracing_counter : CounterMarker → CounterMarker
reset_tracing_counter c = record c {
  tracing_counter_cell = bit_and c.tracing_counter_cell (u16_not counter_mask);
}

-- What `set_bits` leaves in the cell.
abbrev pub set_bits : ℕ → Bool → ℕ → ℕ
set_bits cell value mask = if value then bit_or cell mask else bit_and cell (u16_not mask)

unfoldable pub needs_finalization : CounterMarker → Bool
needs_finalization c = bit_and c.counter_cell finalized_mask == 0

unfoldable pub set_finalized : Bool → CounterMarker → CounterMarker
set_finalized finalized c = record c {
  counter_cell = set_bits c.counter_cell finalized finalized_mask;
}

unfoldable pub has_allocated_for_metadata : CounterMarker → Bool
has_allocated_for_metadata c = bit_and c.counter_cell first_bit_mask == first_bit_mask

unfoldable pub set_allocated_for_metadata : Bool → CounterMarker → CounterMarker
set_allocated_for_metadata allocated c = record c {
  counter_cell = set_bits c.counter_cell allocated first_bit_mask;
}

unfoldable pub is_dropped : CounterMarker → Bool
is_dropped c = bit_and c.tracing_counter_cell counter_mask == counter_mask

unfoldable pub set_dropped : Bool → CounterMarker → CounterMarker
set_dropped dropped c = record c {
  tracing_counter_cell = set_bits c.tracing_counter_cell dropped counter_mask;
}

unfoldable pub is_not_marked : CounterMarker → Bool
is_not_marked c = bit_and c.tracing_counter_cell first_bit_mask == 0

unfoldable pub is_in_possible_cycles : CounterMarker → Bool
is_in_possible_cycles c = bit_and c.tracing_counter_cell bits_mask == in_possible_cycles

unfoldable pub is_in_list : CounterMarker → Bool
is_in_list c = bit_and c.tracing_counter_cell bits_mask == in_list

unfoldable pub is_in_queue : CounterMarker → Bool
is_in_queue c = bit_and c.tracing_counter_cell bits_mask == in_queue

unfoldable pub is_in_list_or_queue : CounterMarker → Bool
is_in_list_or_queue c = bit_and c.tracing_counter_cell first_bit_mask == first_bit_mask

unfoldable pub mark : Mark → CounterMarker → CounterMarker
mark new_mark c = record c {
  tracing_counter_cell =
      bit_or (bit_and c.tracing_counter_cell (u16_not bits_mask)) (mark_bits new_mark);
}
