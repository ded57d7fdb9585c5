-- ===== src/Lists/LinkedQueue.antt =====
-- `LinkedQueue` of src/lists.rs: a queue linked through the `next` fields of the boxes alone.
use rust_cc.Prelude.{ℕ, zero, suc, Bool, true, false, Option, none, some}
use rust_cc.CounterMarker.{non_marked_mark, mark}
use rust_cc.Heap.{Ptr, OnHeap, pure, ◌>>=◌, ◌>>◌, as_ref, set_next, update_marker}

pub record LinkedQueue : Type 0 where
  pub first : Option Ptr
  pub last : Option Ptr

abbrev pub new : LinkedQueue
new = record { first = none; last = none }

unfoldable pub add : Ptr → LinkedQueue → OnHeap LinkedQueue
unfolding set_next
add ptr self = elim (self.last) [
  | none ↦ pure (record { first = some ptr; last = some ptr })
  | some last ↦ do set_next last (some ptr); pure (record self { last = some ptr })
]

abbrev pub peek : LinkedQueue → Option Ptr
peek self = self.first

-- `self.last`, which is reset when the last element is removed.
abbrev pub last_after : Option Ptr → Option Ptr → Option Ptr
last_after none last = none
last_after (some _) last = last

-- `poll` at a queue whose first element is `first`.
unfoldable pub take_front : Ptr → LinkedQueue → OnHeap (Option Ptr × LinkedQueue)
unfolding as_ref set_next update_marker
take_front first self = do
  b ← as_ref first
  set_next first none
  update_marker first (mark non_marked_mark)
  pure (some first, record { first = b.next; last = last_after b.next self.last })

unfoldable pub poll : LinkedQueue → OnHeap (Option Ptr × LinkedQueue)
poll self = elim (self.first) [ none ↦ pure (none, self) | some first ↦ take_front first self ]

unfoldable pub is_empty : LinkedQueue → Bool
is_empty self = elim (peek self) [ none ↦ true | some _ ↦ false ]

unfoldable pub drop_loop : ℕ → LinkedQueue → OnHeap LinkedQueue
drop_loop zero self = λ h. none
drop_loop (suc fuel) self = do
  (removed, self') ← poll self
  elim removed [ none ↦ pure self' | some _ ↦ drop_loop fuel self' ]
