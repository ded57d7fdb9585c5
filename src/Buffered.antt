-- ===== src/Buffered.antt =====
-- The invariant of the crate between collections: `POSSIBLE_CYCLES` is a well-linked list of exactly
-- the boxes that are marked so, its size is their number, and every box outside it and outside a
-- running collection has no links.
pub mod Marker
pub mod Change
pub mod Remove
pub mod Add
pub mod Counts
use rust_cc.Prelude.{ℕ, suc, ◌+◌, ◌^◌, ◌<◌, ◌≡◌, Bool, false, Option, some, none, List}
use rust_cc.CounterMarker.{is_in_possible_cycles, is_in_list_or_queue}
use rust_cc.CounterMarker.View.{IsWords}
use rust_cc.Heap.{Ptr, CcBox, Heap}
use rust_cc.Lists.Chain.{has, ◌∉◌}
use rust_cc.Lists.PossibleCycles.{PossibleCycles}
use rust_cc.Lists.Buffer.{IsBuffer}

pub record IsBuffered (h : Heap) (pc : PossibleCycles) (xs : List Ptr) : Type 0 where
  pub buffer : IsBuffer h pc xs
  pub words : (p : Ptr) (b : CcBox) → h p ≡ some b → IsWords b.counter_marker
  pub marked :
      (p : Ptr) (b : CcBox) → h p ≡ some b → is_in_possible_cycles b.counter_marker ≡ has p xs
  pub loose :
      (p : Ptr) (b : CcBox)
      → h p ≡ some b
      → p ∉ xs
      → is_in_list_or_queue b.counter_marker ≡ false
      → (b.next ≡ none) × (b.prev ≡ none)
