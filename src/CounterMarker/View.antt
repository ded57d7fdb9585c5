-- ===== src/CounterMarker/View.antt =====
-- What a `CounterMarker` stands for: the fields A to E of the layout drawn in
-- src/counter_marker.rs, as separate values, with the methods as operations on those.
use rust_cc.Prelude.{
  ℕ, ◌+◌, ◌-◌, ◌/◌, ◌%◌, ◌^◌, ◌<◌, Bool, true, false, Option, none, some, ◌==◌, if◌then◌else◌,
}
use rust_cc.CounterMarker.{
  CounterMarker, Mark, non_marked_mark, possible_cycles_mark, in_list_mark, in_queue_mark,
  max_count,
}

pub record View : Type 0 where
  pub mark : Mark
  pub tracing : ℕ
  pub metadata : Bool
  pub finalized : Bool
  pub count : ℕ

-- The two high bits of the first word.
unfoldable pub mark_of : ℕ → Mark
mark_of q =
    if q == 0
    then non_marked_mark
    else if q == 1
    then possible_cycles_mark
    else if q == 2
    then in_list_mark
    else in_queue_mark

unfoldable pub view : CounterMarker → View
unfolding mark_of
view c = record {
  mark = mark_of (c.tracing_counter_cell / 2 ^ 14);
  tracing = c.tracing_counter_cell % 2 ^ 14;
  metadata = c.counter_cell / 2 ^ 15 == 1;
  finalized = c.counter_cell / 2 ^ 14 % 2 == 1;
  count = c.counter_cell % 2 ^ 14;
}

-- Both cells hold 16-bit words.
pub record IsWords (c : CounterMarker) : Type 0 where
  pub tracing_fits : c.tracing_counter_cell < 2 ^ 16
  pub counter_fits : c.counter_cell < 2 ^ 16

unfoldable pub increment_count : View → Option View
increment_count v = if v.count == max_count then none else some (record v { count = v.count + 1 })

unfoldable pub decrement_count : View → Option View
decrement_count v = if v.count == 0 then none else some (record v { count = v.count - 1 })

unfoldable pub increment_tracing : View → Option View
increment_tracing v =
    if v.tracing == max_count then none else some (record v { tracing = v.tracing + 1 })

unfoldable pub decrement_tracing : View → Option View
decrement_tracing v = if v.tracing == 0 then none else some (record v { tracing = v.tracing - 1 })

-- The mark is neither of the two that a collection gives to what it traces.
abbrev pub is_unmarked : Mark → Bool
is_unmarked non_marked_mark = true
is_unmarked possible_cycles_mark = true
is_unmarked in_list_mark = false
is_unmarked in_queue_mark = false

abbrev pub mark_index : Mark → ℕ
mark_index non_marked_mark = 0
mark_index possible_cycles_mark = 1
mark_index in_list_mark = 2
mark_index in_queue_mark = 3

abbrev pub is_mark : Mark → Mark → Bool
is_mark m n = mark_index m == mark_index n
