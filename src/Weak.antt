-- ===== src/Weak.antt =====
-- src/weak/mod.rs: weak pointers. `metadata` is `None` for a pointer made by `Weak::new`; where an
-- address is new, the allocator's answer is an argument.
pub mod Upgrade
pub mod Lifetime
use rust_cc.Prelude.{ℕ, Bool, true, false, not, ◌&&◌, ◌||◌, Option, none, some, ◌==◌, if◌then◌else◌}
use mathlib.Core.Option
use rust_cc.CounterMarker
use rust_cc.WeakCounterMarker
use rust_cc.WeakCounterMarker.{WeakCounterMarker}
use rust_cc.Heap.{Ptr, Elem, CcBox, BoxedMetadata}
use rust_cc.World.{
  World, Cmd, panic, fault, pure, ◌>>=◌, ◌>>◌, skip, get, box_at, set_marker, when, on_panic,
  Client,
}
use rust_cc.CcBox.{
  after, as_boxed, deref_metadata, write_metadata, write_box, get_or_init_metadata, layout,
  drop_metadata, cc_dealloc,
}
use rust_cc.Cc.{mark_alive, count_up, count_down, new_cc}

pub record Weak : Type 0 where
  pub metadata : Option Ptr
  pub cc : Ptr

-- `Weak::new`; `dangling` is the address that is never read.
abbrev pub new_weak : (dangling : Ptr) → Weak
new_weak dangling = record { metadata = none; cc = dangling }

abbrev pub ptr_eq : Weak → Weak → Bool
ptr_eq this other = elim (this.metadata) [
  | none ↦ elim (other.metadata) [ none ↦ true | some _ ↦ false ]
  | some m1 ↦ elim (other.metadata) [ none ↦ false | some m2 ↦ m1 == m2 ]
]

unfoldable pub marker_of : Option Ptr → Cmd (Option WeakCounterMarker)
marker_of none = pure none
marker_of (some p) = do m ← deref_metadata p; pure (some m.weak_counter_marker)

abbrev pub is_accessible_marker : Option WeakCounterMarker → Bool
is_accessible_marker none = false
is_accessible_marker (some c) = WeakCounterMarker.is_accessible c

-- The count of an accessible box.
unfoldable pub visible_count : Ptr → Cmd ℕ
visible_count cc = do
  b ← box_at cc
  -- The state that cannot be accessed counts as dropping.
  dropping ← get (λ w. not w.state_accessible || w.state.dropping)
  let count = CounterMarker.counter b.counter_marker
  let hidden =
      count == 0
      || (CounterMarker.is_dropped b.counter_marker
          || (CounterMarker.is_in_list_or_queue b.counter_marker && dropping))
  pure (if hidden then 0 else count)

unfoldable pub strong_count : Weak → Cmd ℕ
strong_count self = do
  m ← marker_of self.metadata
  if is_accessible_marker m then visible_count self.cc else pure 0

unfoldable pub upgrade : Weak → Cmd (Option Ptr)
upgrade self = do
  count ← strong_count self
  if count == 0 then pure none else do count_up self.cc; mark_alive self.cc; pure (some self.cc)

unfoldable pub weak_count : Weak → Cmd ℕ
weak_count self = do
  m ← marker_of self.metadata
  elim m [ none ↦ pure 0 | some c ↦ pure (WeakCounterMarker.counter c) ]

abbrev pub set_weak_marker : Ptr → WeakCounterMarker → Cmd (Unit {0})
set_weak_marker p c = do
  m ← deref_metadata p
  write_metadata p (some (record m { weak_counter_marker = c }))

-- One more weak pointer, or a panic.
unfoldable pub count_weak_up : Ptr → Cmd (Unit {0})
count_weak_up p = do
  m ← deref_metadata p
  elim (WeakCounterMarker.increment_counter m.weak_counter_marker) [
    | none ↦ (λ w. panic w)
    | some c ↦ set_weak_marker p c
  ]

unfoldable pub clone : Weak → Cmd Weak
clone self = elim (self.metadata) [ none ↦ pure self | some p ↦ (do count_weak_up p; pure self) ]

-- `Drop for Weak`: the result of `decrement_counter` is ignored, and the last weak pointer to a
-- box that is gone frees the metadata.
unfoldable pub drop_metadata_ref : Ptr → Cmd (Unit {0})
drop_metadata_ref p = do
  m ← deref_metadata p
  let c =
      Option.get_or (WeakCounterMarker.decrement_counter m.weak_counter_marker)
        m.weak_counter_marker
  set_weak_marker p c
  when (WeakCounterMarker.counter c == 0 && not (WeakCounterMarker.is_accessible c))
      (write_metadata p none)

unfoldable pub drop_weak : Weak → Cmd (Unit {0})
drop_weak self = elim (self.metadata) [ none ↦ skip | some p ↦ drop_metadata_ref p ]

-- `Cc::downgrade`
unfoldable pub downgrade : (fresh : Ptr) → Ptr → Cmd Weak
downgrade fresh cc = do
  p ← get_or_init_metadata fresh cc
  count_weak_up p
  mark_alive cc
  pure (record { metadata = some p; cc = cc })

-- `Cc::weak_count`
unfoldable pub cc_weak_count : Ptr → Cmd ℕ
cc_weak_count cc = do
  b ← box_at cc
  if CounterMarker.has_allocated_for_metadata b.counter_marker
      then (do
        p ← as_boxed b.metadata
        m ← deref_metadata p
        pure (WeakCounterMarker.counter m.weak_counter_marker))
      else pure 0

-- The result of `increment_counter` on the weak counter is ignored.
unfoldable pub first_weak : Ptr → Cmd (Unit {0})
first_weak p = do
  m ← deref_metadata p
  set_weak_marker p (
      Option.get_or (WeakCounterMarker.increment_counter m.weak_counter_marker)
        m.weak_counter_marker)

-- `PanicGuard::drop` of `new_cyclic`.
unfoldable pub release_invalid : Ptr → Cmd (Unit {0})
release_invalid cc = do
  size ← layout cc
  drop_metadata cc
  accessible ← get (λ w. w.state_accessible)
  when accessible (cc_dealloc cc size)

-- `Cc::new_cyclic`; `uninit` stands for the value that is not initialised yet, and `f` is the
-- client's closure; `trigger` is the collection that `Cc::new` may start. A panic of `f` releases the box; then the weak pointer is dropped, as it is at
-- the end.
unfoldable pub new_cyclic :
    {A : Type 0}
    → (trigger : Cmd A) → (fresh fresh_metadata : Ptr) → (uninit : Elem) → (size : ℕ)
    → (f : Weak → Cmd Elem) → Cmd (Ptr × A)
new_cyclic trigger fresh fresh_metadata uninit size f = do
  (cc, a) ← new_cc trigger fresh uninit size
  p ← get_or_init_metadata fresh_metadata cc
  first_weak p
  count_down cc
  let weak : Weak = record { metadata = some p; cc = cc }
  t ← on_panic (f weak) (do release_invalid cc; drop_weak weak)
  b ← box_at cc
  write_box cc (some (record b { elem = t }))
  set_marker cc (after CounterMarker.increment_counter)
  drop_weak weak
  pure (cc, a)
