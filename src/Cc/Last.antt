-- ===== src/Cc/Last.antt =====
-- `Drop for Cc` of src/cc.rs, for the last pointer to an allocation.
use mathlib.Core.Option
use rust_cc.Prelude.{
  ℕ, Option, ◌^◌, ◌<◌, ◌≡◌, refl, true, false, none, some, List, ◌==◌, arith, ◌∙◌, ap, sym, length,
  eq→==,
}
use rust_cc.CounterMarker.{
  CounterMarker, counter, is_in_list_or_queue, set_dropped, needs_finalization,
  has_allocated_for_metadata,
}
use rust_cc.CounterMarker.View.{View, IsWords}
use rust_cc.CounterMarker.Laws.{has_allocated_for_metadata-view, view-set_dropped}
use rust_cc.CounterMarker.Refinement.{set_dropped-IsWords}
use rust_cc.Heap.{Ptr, CcBox, BoxedMetadata, write}
use rust_cc.Lists.Chain.{erase, unlinked, not-mem-erase_self}
use rust_cc.State.{record_deallocation}
use rust_cc.World.{World, ok, Client, with_state, replace_dropping}
use rust_cc.Cc.{drop_cc, drop_last, dealloc_last, drop_and_free}
use rust_cc.Cc.Drop.{count_down-ok}
use rust_cc.Buffered.{IsBuffered}
use rust_cc.Buffered.Change.{freed-IsBuffered}
use rust_cc.Buffered.Counts.{counted_down}
use rust_cc.Buffered.Marker.{
  remarked, remarked_self, remarked-other, remarked-IsBuffered, update_marker-remarked, as_ref-at,
}
use rust_cc.Cc.Freed.{
  Release, Release-alike, layout-at, drop_metadata-at, cc_dealloc-at, remove_from_list-kept,
  freed-other, Freed,
}

dropped-plain :
    (c : CounterMarker)
    → IsWords c
    → has_allocated_for_metadata (set_dropped true c) ≡ has_allocated_for_metadata c
dropped-plain c w =
    has_allocated_for_metadata-view (set_dropped-IsWords w true)
    ∙ ap (λ (v : View). v.metadata) (view-set_dropped w true)
    ∙ sym (has_allocated_for_metadata-view w)

module _ (client : Client) (p : Ptr) (leaf : (u : World) → client.drop_elem p u ≡ ok tt u) where
  drop_and_free-run :
      {size : ℕ} {behind : Ptr → Option BoxedMetadata} (w : World) (b : CcBox)
      → w.heap p ≡ some b
      → IsWords b.counter_marker
      → Release w.metadata b size behind
      → drop_and_free client p w
        ≡ ok tt (record w {
          heap = write (remarked w.heap p b (set_dropped true b.counter_marker)) p none;
          metadata = behind;
          state = record_deallocation size w.state;
        })
  unfolding drop_and_free
  drop_and_free-run {size} {behind} w b at words release =
      let c = set_dropped true b.counter_marker in
      let u : World = record w { heap = remarked w.heap p b c } in
      let at' = remarked_self w.heap p b at c in
      rw (layout-at w p b at release, update_marker-remarked w.heap p b (set_dropped true) at)
        (rw (leaf u) (
          rw
            (drop_metadata-at u p (record b { counter_marker = c }) at'
              (Release-alike b (record b { counter_marker = c })
                (dropped-plain b.counter_marker words) refl release))
            (cc_dealloc-at (record u { metadata = behind }) p (record b { counter_marker = c }) size
              at')))

dealloc_last-Freed :
    (client : Client) (w : World) (xs : List Ptr) (p : Ptr) (b : CcBox) (size : ℕ)
    (behind : Ptr → Option BoxedMetadata)
    → ((u : World) → client.drop_elem p u ≡ ok tt u)
    → IsBuffered w.heap w.possible_cycles xs
    → w.cycles_accessible ≡ true
    → w.heap p ≡ some b
    → counter b.counter_marker ≡ 1
    → Release w.metadata b size behind
    → length xs < 2 ^ 64
    → Freed tt w (erase p xs) p size behind (dealloc_last client p w)
unfolding dealloc_last replace_dropping write record_deallocation
dealloc_last-Freed client w xs p b size behind leaf is reach at one release fits =
    let (c, down, re) = counted_down b.counter_marker (is.words p b at) (ground arith) in
    let h = remarked w.heap p b c in
    let is' =
      remarked-IsBuffered w.heap p b at c w.possible_cycles xs is re.words re.in_possible_cycles
        re.in_list_or_queue in
    let (pc, g, d, ran, is2, atd, alloc, metad, elem, rest) =
      remove_from_list-kept (record w { heap = h }) xs p (record b { counter_marker = c }) is' reach
        (remarked_self w.heap p b at c) fits in
    let dropping : World = record w {
      heap = g;
      possible_cycles = pc;
      state = record (w.state) { dropping = true };
    } in
    let gone = write (remarked g p d (set_dropped true d.counter_marker)) p none in
    let freed =
      drop_and_free-run client p leaf dropping d atd (is2.words p d atd)
        (Release-alike b d (alloc ∙ re.metadata) metad release) in
    (
      pc,
      gone,
      rw (count_down-ok w p b c at down) (rw ran (rw freed refl)),
      freed-IsBuffered g gone pc (erase p xs) p is2
          (not-mem-erase_self w.heap p none w.possible_cycles.first xs is.buffer.chain)
          (ground arith) (λ q ne. freed-other g p d (set_dropped true d.counter_marker) q ne),
      ground arith,
      λ q ne.
          ap (Option.map unlinked) (freed-other g p d (set_dropped true d.counter_marker) q ne)
          ∙ rest q ne
          ∙ ap (Option.map unlinked) (remarked-other w.heap p b at c q ne),
    )

drop_last-at :
    (client : Client) (w : World) (p : Ptr) (b : CcBox)
    → w.heap p ≡ some b
    → w.state_accessible ≡ true
    → needs_finalization b.counter_marker ≡ false
    → drop_last client p w ≡ dealloc_last client p w
unfolding drop_last with_state
drop_last-at client w p b at alive fin = rw alive (rw (as_ref-at w.heap p b at) (rw fin refl))

-- Dropping the last pointer to a box that no collection holds, whose value needs no finalization and
-- has no destructor of its own, while the state and the buffer can be reached, frees the box
-- wherever it was in the buffer: its bytes are no longer counted, it is in no list, and nothing is
-- read that is not there. If it had metadata, that goes with it where no weak pointer is left, and
-- is marked as inaccessible otherwise. All other boxes, but for their links, all other metadata and
-- the flags of the state stay as they were.
pub drop_cc-Freed :
    (client : Client) (w : World) (xs : List Ptr) (p : Ptr) (b : CcBox) (size : ℕ)
    (behind : Ptr → Option BoxedMetadata)
    → ((u : World) → client.drop_elem p u ≡ ok tt u)
    → IsBuffered w.heap w.possible_cycles xs
    → w.state_accessible ≡ true
    → w.cycles_accessible ≡ true
    → w.heap p ≡ some b
    → counter b.counter_marker ≡ 1
    → is_in_list_or_queue b.counter_marker ≡ false
    → needs_finalization b.counter_marker ≡ false
    → Release w.metadata b size behind
    → length xs < 2 ^ 64
    → Freed tt w (erase p xs) p size behind (drop_cc client p w)
unfolding drop_cc
drop_cc-Freed client w xs p b size behind leaf is alive reach at one l fin release fits =
    let (pc, g, ran, is', gone, rest) =
      dealloc_last-Freed client w xs p b size behind leaf is reach at one release fits in
    let last : (counter b.counter_marker == 1) ≡ true = eq→== (counter b.counter_marker) 1 one in
    (
      pc,
      g,
      rw (as_ref-at w.heap p b at, l, last) (drop_last-at client w p b at alive fin ∙ ran),
      is',
      gone,
      rest,
    )
