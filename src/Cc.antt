-- ===== src/Cc.antt =====
-- The operations of `Cc` in src/cc.rs. A `Cc` is the address of its box. Debug assertions and the
-- checks under `cfg(debug_assertions)` are off.
pub mod Clone
pub mod New
pub mod Drop
pub mod Freed
pub mod Last
pub mod Unwrap
use rust_cc.Prelude.{ℕ, Bool, true, false, not, ◌&&◌, ◌||◌, Option, none, some, ◌==◌, if◌then◌else◌}
use mathlib.Core.Option
use rust_cc.CounterMarker
use rust_cc.CounterMarker.{CounterMarker, counter, decrement_counter, increment_counter}
use rust_cc.Heap.{Ptr, Elem, CcBox}
use rust_cc.World.{
  World, Cmd, panic, pure, ◌>>=◌, ◌>>◌, skip, get, box_at, set_marker, when, Client, with_state,
  replace_dropping, replace_finalizing,
}
use rust_cc.CcBox.{after, new_box, layout, drop_metadata, cc_dealloc, remove_from_list, add_to_list}

-- `Cc::new`. What `trigger_collection` does, which may start a collection, comes first.
unfoldable pub new_cc :
    {A : Type 0} → (trigger : Cmd A) → (fresh : Ptr) → Elem → (size : ℕ) → Cmd (Ptr × A)
new_cc trigger fresh t size = with_state (do a ← trigger; cc ← new_box fresh t size; pure (cc, a))

unfoldable pub strong_count : Ptr → Cmd ℕ
strong_count cc = do b ← box_at cc; pure (counter b.counter_marker)

-- What `try_unwrap` does once it may: the value is moved out and the box freed.
unfoldable pub unwrap_box : Ptr → Cmd Elem
unwrap_box cc = do
  remove_from_list cc
  b ← box_at cc
  size ← layout cc
  drop_metadata cc
  cc_dealloc cc size
  pure b.elem

-- `none` is the `Err` that hands the `Cc` back.
unfoldable pub try_unwrap : Ptr → Cmd (Option Elem)
try_unwrap cc = do
  count ← strong_count cc
  accessible ← get (λ w. w.state_accessible)
  busy ← get (λ w. w.state.collecting || w.state.dropping || w.state.finalizing)
  if not (count == 1)
      then pure none
      else if not accessible
      then pure none
      else if busy
      then pure none
      else do t ← unwrap_box cc; pure (some t)

-- The assertion of `finalize_again` panics where it fails.
unfoldable pub finalize_again : Ptr → Cmd (Unit {0})
finalize_again cc = with_state (do
  idle ← get (λ w. not w.state.collecting && (not w.state.finalizing && not w.state.dropping))
  if idle then set_marker cc (CounterMarker.set_finalized false) else (λ w. panic w))

unfoldable pub already_finalized : Ptr → Cmd Bool
already_finalized cc = do
  b ← box_at cc
  pure (not (CounterMarker.needs_finalization b.counter_marker))

unfoldable pub mark_alive : Ptr → Cmd (Unit {0})
mark_alive cc = remove_from_list cc

-- What `increment_counter` gave is stored, with a panic where it refused.
abbrev pub counted : Ptr → Option CounterMarker → Cmd (Unit {0})
counted cc none = λ w. panic w
counted cc (some c) = set_marker cc (λ _. c)

unfoldable pub count_up : Ptr → Cmd (Unit {0})
count_up cc = do b ← box_at cc; counted cc (increment_counter b.counter_marker)

unfoldable pub clone : Ptr → Cmd Ptr
clone cc = do count_up cc; mark_alive cc; pure cc

unfoldable pub count_down : Ptr → Cmd (Unit {0})
count_down cc = set_marker cc (after decrement_counter)

unfoldable pub handle_possible_cycle : Ptr → Cmd (Unit {0})
handle_possible_cycle cc = do count_down cc; add_to_list cc

module _ (client : Client) where
  -- The finalizer of the last pointer runs; the result says whether it resurrected the object.
  unfoldable pub finalize_last : Ptr → Cmd Bool
  finalize_last cc = replace_finalizing true (do
    set_marker cc (CounterMarker.set_finalized true)
    client.finalize cc
    b ← box_at cc
    if counter b.counter_marker == 1 then pure false else do handle_possible_cycle cc; pure true)

  -- The scope of the guard that sets the dropping flag.
  unfoldable pub drop_and_free : Ptr → Cmd (Unit {0})
  drop_and_free cc = do
    size ← layout cc
    set_marker cc (CounterMarker.set_dropped true)
    client.drop_elem cc
    drop_metadata cc
    cc_dealloc cc size

  unfoldable pub dealloc_last : Ptr → Cmd (Unit {0})
  dealloc_last cc = do count_down cc; remove_from_list cc; replace_dropping true (drop_and_free cc)

  unfoldable pub drop_last : Ptr → Cmd (Unit {0})
  drop_last cc = with_state (do
    b ← box_at cc
    resurrected ←
        if CounterMarker.needs_finalization b.counter_marker then finalize_last cc else pure false
    if resurrected then skip else dealloc_last cc)

  -- `Drop for Cc`
  unfoldable pub drop_cc : Ptr → Cmd (Unit {0})
  drop_cc cc = do
    b ← box_at cc
    if CounterMarker.is_in_list_or_queue b.counter_marker
        then count_down cc
        else if counter b.counter_marker == 1
        then drop_last cc
        else handle_possible_cycle cc
