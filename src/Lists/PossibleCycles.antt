-- ===== src/Lists/PossibleCycles.antt =====
-- `PossibleCycles` of src/lists.rs: the buffer of allocations for the next collection. Its code is
-- that of `LinkedList` over cells, with a size that is kept beside.
use rust_cc.Prelude.{ℕ, zero, suc, Bool, true, false, Option, none, some, usize_add, usize_sub}
use rust_cc.CounterMarker.{Mark, non_marked_mark, mark, reset_tracing_counter}
use rust_cc.Heap.{Ptr, OnHeap, pure, ◌>>=◌, ◌>>◌, as_ref, set_next, set_prev, update_marker}
use rust_cc.Lists.LinkedList.{LinkedList, link_front, clear_prev, iter_next}

pub record PossibleCycles : Type 0 where
  pub first : Option Ptr
  pub size : ℕ

abbrev pub new : PossibleCycles
new = record { first = none; size = 0 }

unfoldable pub add : Ptr → PossibleCycles → OnHeap PossibleCycles
unfolding link_front
add ptr self = do
  let size' = usize_add self.size 1
  link_front self.first ptr
  pure (record { first = some ptr; size = size' })

unfoldable pub unlink : Option Ptr → Option Ptr → Ptr → PossibleCycles → OnHeap PossibleCycles
unfolding set_next set_prev
unlink (some next) (some prev) ptr self = do
  set_prev next (some prev)
  set_next prev (some next)
  set_next ptr none
  set_prev ptr none
  pure self
unlink (some next) none ptr self = do
  set_prev next none
  set_next ptr none
  pure (record self { first = some next })
unlink none (some prev) ptr self = do set_next prev none; set_prev ptr none; pure self
unlink none none ptr self = pure (record self { first = none })

unfoldable pub remove : Ptr → PossibleCycles → OnHeap PossibleCycles
unfolding unlink as_ref
remove ptr self = do
  let self' = record self { size = usize_sub self.size 1 }
  b ← as_ref ptr
  unlink b.next b.prev ptr self'

unfoldable pub detach_first : Ptr → PossibleCycles → OnHeap PossibleCycles
unfolding clear_prev as_ref set_next update_marker
detach_first first self = do
  let size' = usize_sub self.size 1
  b ← as_ref first
  clear_prev b.next
  set_next first none
  update_marker first (mark non_marked_mark)
  pure (record { first = b.next; size = size' })

unfoldable pub remove_first : PossibleCycles → OnHeap (Option Ptr × PossibleCycles)
unfolding detach_first
remove_first self = elim (self.first) [
  | none ↦ pure (none, self)
  | some first ↦ do self' ← detach_first first self; pure (some first, self')
]

unfoldable pub is_empty : PossibleCycles → Bool
is_empty self = elim (self.first) [ none ↦ true | some _ ↦ false ]

unfoldable pub drop_loop : ℕ → PossibleCycles → OnHeap PossibleCycles
drop_loop zero self = λ h. none
drop_loop (suc fuel) self = do
  (removed, self') ← remove_first self
  elim removed [ none ↦ pure self' | some _ ↦ drop_loop fuel self' ]

-- The `for` loop of `mark_self_and_append`: every element is reset and marked; the last one of them
-- is the result, `prev` where the list ends.
unfoldable pub mark_loop : ℕ → Mark → (prev : Ptr) → Option Ptr → OnHeap Ptr
unfolding iter_next update_marker
mark_loop zero m prev next = λ h. none
mark_loop (suc fuel) m prev next = do
  item ← iter_next next
  elim item [
    | none ↦ pure prev
    | some (elem, next') ↦ do
      update_marker elem reset_tracing_counter
      update_marker elem (mark m)
      mark_loop fuel m elem next'
  ]

-- The writes under `if let Some(ptr) = to_append.first`.
unfoldable pub link_behind : Ptr → Option Ptr → OnHeap (Unit {0})
unfolding set_next set_prev
link_behind prev none = pure tt
link_behind prev (some ptr) = do set_next prev (some ptr); set_prev ptr (some prev)

unfoldable pub append_first : ℕ → Mark → Option Ptr → LinkedList → OnHeap (Option Ptr)
unfolding mark_loop link_behind
append_first fuel m none to_append = pure to_append.first
append_first fuel m (some first) to_append = do
  prev ← mark_loop fuel m first (some first)
  link_behind prev to_append.first
  pure (some first)

unfoldable pub mark_self_and_append :
    ℕ → Mark → LinkedList → ℕ → PossibleCycles → OnHeap PossibleCycles
unfolding append_first
mark_self_and_append fuel m to_append to_append_size self = do
  first' ← append_first fuel m self.first to_append
  pure (record { first = first'; size = usize_add self.size to_append_size })

unfoldable pub swap_list : LinkedList → ℕ → PossibleCycles → LinkedList × PossibleCycles
swap_list to_swap to_swap_size self =
    (record { first = self.first }, record { first = to_swap.first; size = to_swap_size })
