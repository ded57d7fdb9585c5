-- ===== src/World.antt =====
-- The state that the crate keeps, and commands over it. A command ends normally, or unwinds with a
-- panic and the state at that point, or dereferences what is not there, or runs out of fuel.
pub mod Flags
pub mod Queries
use rust_cc.Prelude.{ℕ, Bool, true, false, Option, none, some, ◌==◌, if◌then◌else◌}
use rust_cc.CounterMarker.{CounterMarker}
use rust_cc.Heap.{Ptr, CcBox, BoxedMetadata, Heap, OnHeap}
use rust_cc.Heap
use rust_cc.Lists.LinkedList.{LinkedList}
use rust_cc.Lists.LinkedList
use rust_cc.Lists.LinkedQueue.{LinkedQueue}
use rust_cc.Lists.LinkedQueue
use rust_cc.Lists.PossibleCycles.{PossibleCycles}
use rust_cc.State.{State}
use rust_cc.State

-- The variables of `__collect` in src/lib.rs, which `Context` borrows while an element is traced.
-- They are part of the state so that unwinding can drop them.
pub record Locals : Type 0 where
  pub root_list : LinkedList
  pub non_root_list : LinkedList
  pub queue : LinkedQueue

abbrev pub no_locals : Locals
no_locals = record {
  root_list = LinkedList.new;
  non_root_list = LinkedList.new;
  queue = LinkedQueue.new;
}

-- `state_accessible` and `cycles_accessible` say whether `try_with` reaches the thread-local `STATE`
-- and `POSSIBLE_CYCLES`; it does not once they are destroyed.
pub record World : Type 0 where
  pub heap : Heap
  pub metadata : Ptr → Option BoxedMetadata
  pub possible_cycles : PossibleCycles
  pub state : State
  pub state_accessible : Bool
  pub cycles_accessible : Bool
  pub locals : Locals

pub data Run (A : Type 0) : Type 0 where
  ok : A → World → Run A
  panic : World → Run A
  fault : Run A
  out_of_fuel : Run A

abbrev pub Cmd : Type 0 → Type 0
Cmd A = World → Run A

abbrev pub pure : {A : Type 0} → A → Cmd A
pure = ok

abbrev pub and_then : {A B : Type 0} → Run A → (A → Cmd B) → Run B
and_then (ok a w) k = k a w
and_then (panic w) k = panic w
and_then fault k = fault
and_then out_of_fuel k = out_of_fuel

infixl 5 ◌>>=◌ ◌>>◌
abbrev pub ◌>>=◌ : {A B : Type 0} → Cmd A → (A → Cmd B) → Cmd B
m >>= k = λ w. and_then (m w) k

abbrev pub ◌>>◌ : {B : Type 0} → Cmd (Unit {0}) → Cmd B → Cmd B
m >> k = m >>= λ _. k

abbrev pub skip : Cmd (Unit {0})
skip = pure tt

-- The end of a scope with a drop guard: `cleanup` runs on the normal way out and while unwinding.
abbrev pub settle : {A : Type 0} → Run A → (World → Run (Unit {0})) → Run A
settle (ok a w) cleanup = and_then (cleanup w) (λ _ v. ok a v)
settle (panic w) cleanup = and_then (cleanup w) (λ _ v. panic v)
settle fault cleanup = fault
settle out_of_fuel cleanup = out_of_fuel

abbrev pub finally : {A : Type 0} → Cmd A → Cmd (Unit {0}) → Cmd A
finally body cleanup w = settle (body w) cleanup

-- What is dropped by unwinding alone.
abbrev pub unwind : {A : Type 0} → Run A → (World → Run (Unit {0})) → Run A
unwind (ok a w) cleanup = ok a w
unwind (panic w) cleanup = and_then (cleanup w) (λ _ v. panic v)
unwind fault cleanup = fault
unwind out_of_fuel cleanup = out_of_fuel

abbrev pub on_panic : {A : Type 0} → Cmd A → Cmd (Unit {0}) → Cmd A
on_panic body cleanup w = unwind (body w) cleanup

abbrev pub get : {A : Type 0} → (World → A) → Cmd A
get field w = ok (field w) w

abbrev pub put_state : (State → State) → Cmd (Unit {0})
put_state f w = ok tt (record w { state = f w.state })

abbrev pub lifted : {A : Type 0} → Option (A × Heap) → World → Run A
lifted none w = fault
lifted (some (a, h)) w = ok a (record w { heap = h })

abbrev pub on_heap : {A : Type 0} → OnHeap A → Cmd A
on_heap m w = lifted (m w.heap) w

abbrev pub box_at : Ptr → Cmd CcBox
box_at p = on_heap (Heap.as_ref p)

abbrev pub set_marker : Ptr → (CounterMarker → CounterMarker) → Cmd (Unit {0})
set_marker p f = on_heap (Heap.update_marker p f)

-- An operation of `POSSIBLE_CYCLES` that gives back the list.
abbrev pub on_cycles : (PossibleCycles → OnHeap PossibleCycles) → Cmd (Unit {0})
on_cycles f = do
  pc ← get (λ w. w.possible_cycles)
  pc' ← on_heap (f pc)
  λ w. ok tt (record w { possible_cycles = pc' })

abbrev pub put_root_list : LinkedList → Cmd (Unit {0})
put_root_list l w = ok tt (record w { locals = record (w.locals) { root_list = l } })

abbrev pub put_non_root_list : LinkedList → Cmd (Unit {0})
put_non_root_list l w = ok tt (record w { locals = record (w.locals) { non_root_list = l } })

abbrev pub put_queue : LinkedQueue → Cmd (Unit {0})
put_queue q w = ok tt (record w { locals = record (w.locals) { queue = q } })

abbrev pub on_root_list : (LinkedList → OnHeap LinkedList) → Cmd (Unit {0})
on_root_list f = do l ← get (λ w. w.locals.root_list); l' ← on_heap (f l); put_root_list l'

abbrev pub on_non_root_list : (LinkedList → OnHeap LinkedList) → Cmd (Unit {0})
on_non_root_list f = do
  l ← get (λ w. w.locals.non_root_list)
  l' ← on_heap (f l)
  put_non_root_list l'

abbrev pub on_queue : (LinkedQueue → OnHeap LinkedQueue) → Cmd (Unit {0})
on_queue f = do q ← get (λ w. w.locals.queue); q' ← on_heap (f q); put_queue q'

abbrev pub when : Bool → Cmd (Unit {0}) → Cmd (Unit {0})
when b m = if b then m else skip

-- `state(|state| ...)` panics where the state cannot be accessed.
unfoldable pub with_state : {A : Type 0} → Cmd A → Cmd A
with_state body = do
  accessible ← get (λ w. w.state_accessible)
  if accessible then body else (λ w. panic w)

-- `replace_state_field!(dropping, value, state)` around the rest of a scope.
unfoldable pub replace_dropping : {A : Type 0} → Bool → Cmd A → Cmd A
replace_dropping value body = do
  old_value ← get (λ w. w.state.dropping)
  put_state (State.set_dropping value)
  finally body (put_state (State.set_dropping old_value))

unfoldable pub replace_finalizing : {A : Type 0} → Bool → Cmd A → Cmd A
replace_finalizing value body = do
  old_value ← get (λ w. w.state.finalizing)
  put_state (State.set_finalizing value)
  finally body (put_state (State.set_finalizing old_value))

-- What the client's code does for a value: its `Finalize` implementation and its drop glue, by the
-- address of the box that holds the value.
pub record Client : Type 0 where
  pub finalize : Ptr → Cmd (Unit {0})
  pub drop_elem : Ptr → Cmd (Unit {0})
