-- ===== src/Lists/LinkedList.antt =====
-- `LinkedList` of src/lists.rs: doubly linked through the boxes. A method returns the new list; the
-- `&mut self` of the source is the result. Loops take fuel, and give `none` when it runs out.
pub mod Add
pub mod Unlink
pub mod First
pub mod Remove
use rust_cc.Prelude.{
  ℕ, zero, suc, Bool, true, false, Option, none, some, List, [], ◌∷◌, ◌==◌, ◌||◌, if◌then◌else◌,
}
use rust_cc.CounterMarker.{non_marked_mark, mark}
use rust_cc.Heap.{
  Ptr, CcBox, OnHeap, pure, ◌>>=◌, ◌>>◌, as_ref, store, set_next, set_prev, update_marker,
}

pub record LinkedList : Type 0 where
  pub first : Option Ptr

abbrev pub new : LinkedList
new = record { first = none }

-- The writes under `if let Some(first) = self.first`.
unfoldable pub link_front : Option Ptr → Ptr → OnHeap (Unit {0})
unfolding set_next set_prev
link_front none ptr = pure tt
link_front (some first) ptr = do set_prev first (some ptr); set_next ptr (some first)

unfoldable pub add : Ptr → LinkedList → OnHeap LinkedList
unfolding link_front
add ptr self = do link_front self.first ptr; pure (record { first = some ptr })

-- The match of `remove` on the successor and the predecessor of `ptr`.
unfoldable pub unlink : Option Ptr → Option Ptr → Ptr → LinkedList → OnHeap LinkedList
unfolding set_next set_prev
unlink (some next) (some prev) ptr self = do
  set_prev next (some prev)
  set_next prev (some next)
  set_next ptr none
  set_prev ptr none
  pure self
unlink (some next) none ptr self = do
  set_prev next none
  set_next ptr none
  pure (record { first = some next })
unlink none (some prev) ptr self = do set_next prev none; set_prev ptr none; pure self
unlink none none ptr self = pure (record { first = none })

unfoldable pub remove : Ptr → LinkedList → OnHeap LinkedList
unfolding unlink as_ref
remove ptr self = do b ← as_ref ptr; unlink b.next b.prev ptr self

-- `if let Some(next) = self.first { *next.as_ref().get_prev() = None; }`
unfoldable pub clear_prev : Option Ptr → OnHeap (Unit {0})
unfolding set_prev
clear_prev none = pure tt
clear_prev (some next) = set_prev next none

-- The body of `remove_first` at a list whose first element is `first`.
unfoldable pub detach_first : Ptr → OnHeap LinkedList
unfolding clear_prev as_ref set_next update_marker
detach_first first = do
  b ← as_ref first
  clear_prev b.next
  set_next first none
  update_marker first (mark non_marked_mark)
  pure (record { first = b.next })

unfoldable pub remove_first : LinkedList → OnHeap (Option Ptr × LinkedList)
unfolding detach_first
remove_first self = elim (self.first) [
  | none ↦ pure (none, self)
  | some first ↦ do self' ← detach_first first; pure (some first, self')
]

unfoldable pub is_empty : LinkedList → Bool
is_empty self = elim (self.first) [ none ↦ true | some _ ↦ false ]

-- `impl Drop`: elements are removed until none is left.
unfoldable pub drop_loop : ℕ → LinkedList → OnHeap LinkedList
drop_loop zero self = λ h. none
drop_loop (suc fuel) self = do
  (removed, self') ← remove_first self
  elim removed [ none ↦ pure self' | some _ ↦ drop_loop fuel self' ]

-- `Iter`: the successor is read when an element is handed out, before the loop's body sees it.
unfoldable pub iter_next : Option Ptr → OnHeap (Option (Ptr × Option Ptr))
unfolding as_ref
iter_next none = pure none
iter_next (some ptr) = do b ← as_ref ptr; pure (some (ptr, b.next))

-- The elements that `iter()` hands out over a list that is not changed meanwhile.
unfoldable pub collect_iter : ℕ → Option Ptr → OnHeap (List Ptr)
unfolding iter_next
collect_iter zero next = λ h. none
collect_iter (suc fuel) next = do
  item ← iter_next next
  elim item [
    | none ↦ pure []
    | some (ptr, next') ↦ do rest ← collect_iter fuel next'; pure (ptr ∷ rest)
  ]

-- `iter().contains(ptr)`, the `any` of the iterator.
unfoldable pub contains : ℕ → Ptr → Option Ptr → OnHeap Bool
unfolding iter_next
contains zero ptr next = λ h. none
contains (suc fuel) ptr next = do
  item ← iter_next next
  elim item [
    | none ↦ pure false
    | some (elem, next') ↦ elim (elem == ptr) [ true ↦ pure true | false ↦ contains fuel ptr next' ]
  ]
