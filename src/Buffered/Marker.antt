-- ===== src/Buffered/Marker.antt =====
-- Steps that change a counter marker of src/cc.rs but not its mark, and the invariant.
use rust_cc.Prelude.{◌≡◌, ◌≢◌, none, some, List, arith}
use rust_cc.CounterMarker.{CounterMarker, is_in_possible_cycles, is_in_list_or_queue}
use rust_cc.CounterMarker.View.{IsWords}
use rust_cc.Heap.{Ptr, CcBox, Heap, write, as_ref, update_marker}
use rust_cc.Lists.Chain.{SameLinks, Chain-SameLinks}
use rust_cc.Lists.PossibleCycles.{PossibleCycles}
use rust_cc.Buffered.{IsBuffered}

-- The heap with another marker in the box `b` at `p`.
abbrev pub remarked : Heap → Ptr → CcBox → CounterMarker → Heap
remarked h p b c = write h p (some (record b { counter_marker = c }))

pub update_marker-remarked :
    (h : Heap) (p : Ptr) (b : CcBox) (f : CounterMarker → CounterMarker)
    → h p ≡ some b
    → update_marker p f h ≡ some (tt, remarked h p b (f b.counter_marker))
unfolding update_marker write
update_marker-remarked h p b f at = ground arith

pub as_ref-at : (h : Heap) (p : Ptr) (b : CcBox) → h p ≡ some b → as_ref p h ≡ some (b, h)
unfolding as_ref
as_ref-at h p b at = ground arith

module _ (h : Heap) (p : Ptr) (b : CcBox) (at : h p ≡ some b) (c : CounterMarker) where
  pub remarked-SameLinks : SameLinks h (remarked h p b c)
  unfolding write
  remarked-SameLinks q = ground arith

  pub remarked_self : remarked h p b c p ≡ some (record b { counter_marker = c })
  unfolding write
  remarked_self = ground arith

  pub remarked-other : (q : Ptr) → q ≢ p → remarked h p b c q ≡ h q
  unfolding write
  remarked-other q ne = ground arith

  pub remarked-IsBuffered :
      (pc : PossibleCycles) (xs : List Ptr)
      → IsBuffered h pc xs
      → IsWords c
      → is_in_possible_cycles c ≡ is_in_possible_cycles b.counter_marker
      → is_in_list_or_queue c ≡ is_in_list_or_queue b.counter_marker
      → IsBuffered (remarked h p b c) pc xs
  unfolding write
  remarked-IsBuffered pc xs is w same_pc same_list = record {
    buffer = record {
      chain =
          Chain-SameLinks h (remarked h p b c) none pc.first xs remarked-SameLinks is.buffer.chain;
      counted = is.buffer.counted;
    };
    words = λ q d e. ground (arith, is.words q d);
    marked = λ q d e. ground (arith, is.marked q d, is.marked p b);
    loose = λ q d e o l. ground (arith, is.loose q d, is.loose p b);
  }
