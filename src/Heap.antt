-- ===== src/Heap.antt =====
-- The allocations: `CcBox`, `Metadata`, `VTable` and `BoxedMetadata` of src/cc.rs at addresses, and
-- commands that read and write boxes. A command gives `none` where the code dereferences an address
-- at which no box lies, which is undefined behaviour in the source.
use rust_cc.Prelude.{ℕ, Bool, Option, none, some, List, ◌==◌, if◌then◌else◌}
use rust_cc.CounterMarker.{CounterMarker}
use rust_cc.WeakCounterMarker.{WeakCounterMarker}

-- `NonNull<CcBox<()>>`, and the address of a `BoxedMetadata`.
abbrev pub Ptr : Type 0
Ptr = ℕ

-- What the vtable of the boxed type is used for here: the size in `layout()`.
pub record VTable : Type 0 where
  pub layout_size : ℕ

-- The untagged union: which member is stored is known, reading the other one is a fault.
pub data Metadata : Type 0 where
  vtable_member : VTable → Metadata
  boxed_member : Ptr → Metadata

-- A value of the client's type `T`, as the collector sees it: the `Cc`s that its `Trace`
-- implementation visits, in order, and whether that implementation panics behind them.
pub record Elem : Type 0 where
  pub traced : List Ptr
  pub trace_panics : Bool

pub record CcBox : Type 0 where
  pub next : Option Ptr
  pub prev : Option Ptr
  pub metadata : Metadata
  pub counter_marker : CounterMarker
  pub elem : Elem

pub record BoxedMetadata : Type 0 where
  pub vtable : VTable
  pub weak_counter_marker : WeakCounterMarker

abbrev pub Heap : Type 0
Heap = Ptr → Option CcBox

unfoldable pub write : Heap → Ptr → Option CcBox → Heap
write h p c q = if q == p then c else h q

-- What a command on the heap gives: its result and the heap behind it.
abbrev pub OnHeap : Type 0 → Type 0
OnHeap Result = Heap → Option (Result × Heap)

infixl 5 ◌>>◌ ◌>>=◌
abbrev pub ◌>>=◌ : {Result Next : Type 0} → OnHeap Result → (Result → OnHeap Next) → OnHeap Next
◌>>=◌ first next heap = elim (first heap) [
  | none ↦ none
  | some (result, changed) ↦ next result changed
]

abbrev pub ◌>>◌ : {Next : Type 0} → OnHeap (Unit {0}) → OnHeap Next → OnHeap Next
first >> next = first >>= λ ended. next

abbrev pub pure : {Result : Type 0} → Result → OnHeap Result
pure result heap = some (result, heap)

-- `ptr.as_ref()`
unfoldable pub as_ref : Ptr → OnHeap CcBox
as_ref p h = elim (h p) [ none ↦ none | some b ↦ some (b, h) ]

unfoldable pub store : Ptr → CcBox → OnHeap (Unit {0})
store p b h = some (tt, write h p (some b))

-- `*p.as_ref().get_next() = v`
unfoldable pub set_next : Ptr → Option Ptr → OnHeap (Unit {0})
unfolding as_ref store
set_next p v = do b ← as_ref p; store p (record b { next = v })

-- `*p.as_ref().get_prev() = v`
unfoldable pub set_prev : Ptr → Option Ptr → OnHeap (Unit {0})
unfolding as_ref store
set_prev p v = do b ← as_ref p; store p (record b { prev = v })

-- A method of the counter marker that changes its cells.
unfoldable pub update_marker : Ptr → (CounterMarker → CounterMarker) → OnHeap (Unit {0})
unfolding as_ref store
update_marker p f = do b ← as_ref p; store p (record b { counter_marker = f b.counter_marker })
