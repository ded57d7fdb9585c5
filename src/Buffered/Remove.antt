-- ===== src/Buffered/Remove.antt =====
-- `remove_from_list` of src/cc.rs, and the invariant of the buffer.
use mathlib.Core.Option
use rust_cc.Prelude.{
  ◌^◌, ◌<◌, ◌≡◌, ◌≢◌, refl, true, false, none, some, List, arith, ◌∙◌, ap, sym, length, not,
}
use rust_cc.CounterMarker.{
  CounterMarker, mark, non_marked_mark, possible_cycles_mark, is_in_possible_cycles,
  is_in_list_or_queue,
}
use rust_cc.CounterMarker.View.{IsWords, is_mark, is_unmarked}
use rust_cc.CounterMarker.Laws.{view-mark, is_in_possible_cycles-view, is_in_list_or_queue-view}
use rust_cc.CounterMarker.Refinement.{mark-IsWords}
use rust_cc.Heap.{Ptr, CcBox, Heap}
use rust_cc.Lists.Chain.{
  ◌∈◌, Chain-SameLinks, erase, unlinked, Relinked, IsLoose, not-mem-erase_self, mem-erase_ne,
}
use rust_cc.Lists.PossibleCycles.{PossibleCycles}
use rust_cc.Lists.PossibleCycles
use rust_cc.Lists.Buffer.{IsBuffer, remove-IsBuffer}
use rust_cc.World.{World, ok}
use rust_cc.CcBox.{remove_from_list}
use rust_cc.Buffered.{IsBuffered}
use rust_cc.Buffered.Change.{Change, Change-IsBuffered, payload-at}
use rust_cc.Buffered.Marker.{
  remarked, remarked-SameLinks, remarked_self, remarked-other, update_marker-remarked, as_ref-at,
}

module _ (c : CounterMarker) (w : IsWords c) where
  pub mark_non_marked-tests :
      (is_in_possible_cycles (mark non_marked_mark c) ≡ false)
      × (is_in_list_or_queue (mark non_marked_mark c) ≡ false)
  mark_non_marked-tests = (
    is_in_possible_cycles-view (mark-IsWords w non_marked_mark)
        ∙ ap (λ v. is_mark possible_cycles_mark v.mark) (view-mark w non_marked_mark),
    is_in_list_or_queue-view (mark-IsWords w non_marked_mark)
        ∙ ap (λ v. not (is_unmarked v.mark)) (view-mark w non_marked_mark),
  )

module _ (h : Heap) (pc : PossibleCycles) (xs : List Ptr) (is : IsBuffered h pc xs) (p : Ptr)
    (b : CcBox) (at : h p ≡ some b) (i : p ∈ xs) (fits : length xs < 2 ^ 64) where
  abbrev unmarked : Heap
  unmarked = remarked h p b (mark non_marked_mark b.counter_marker)

  unmarked-other : (q : Ptr) → q ≢ p → unmarked q ≡ h q
  unmarked-other q ne = remarked-other h p b at _ q ne

  unmarked-own :
      (k : CcBox) → unmarked p ≡ some k → k.counter_marker ≡ mark non_marked_mark b.counter_marker
  unmarked-own k e =
      let own = remarked_self h p b at (mark non_marked_mark b.counter_marker) in ground arith

  unmarked-IsBuffer : IsBuffer unmarked pc xs
  unmarked-IsBuffer = record {
    chain =
        Chain-SameLinks h unmarked none pc.first xs
          (remarked-SameLinks h p b at (mark non_marked_mark b.counter_marker)) is.buffer.chain;
    counted = is.buffer.counted;
  }

  removed-Change :
      (g : Heap) (d : CcBox)
      → g p ≡ some d
      → d.next ≡ none
      → d.prev ≡ none
      → Relinked xs unmarked g
      → Change h g xs (erase p xs) p (mark non_marked_mark b.counter_marker)
  removed-Change g d atd dn dp r = record {
    others_listed = λ q ne. mem-erase_ne q p xs ne;
    others_kept = λ q e ne ate.
        let (k, atk, same) = payload-at unmarked g q e (r.payload q) ate in
        (k, sym (unmarked-other q ne) ∙ atk, same);
    others_loose = λ q e ne o ate. sym (r.same q o ∙ unmarked-other q ne) ∙ ate;
    own_marker = λ e ate.
        let (k, atk, same) = payload-at unmarked g p e (r.payload p) ate in
        same ∙ unmarked-own k atk;
    own_loose = λ e ate o l. ground arith;
  }

remove_from_list_run :
    (w : World) (p : Ptr) (b : CcBox) (pc : PossibleCycles) (g : Heap)
    → w.heap p ≡ some b
    → is_in_possible_cycles b.counter_marker ≡ true
    → w.cycles_accessible ≡ true
    → PossibleCycles.remove p w.possible_cycles
        (remarked w.heap p b (mark non_marked_mark b.counter_marker))
      ≡ some (pc, g)
    → remove_from_list p w ≡ ok tt (record w { heap = g; possible_cycles = pc })
unfolding remove_from_list
remove_from_list_run w p b pc g at listed reach ran =
    rw
      (
        as_ref-at w.heap p b at,
        listed,
        reach,
        update_marker-remarked w.heap p b (mark non_marked_mark) at,
        ran,
      )
      refl

-- If `POSSIBLE_CYCLES` can be reached, `remove_from_list` takes a buffered box out of the buffer,
-- wherever it stands in it, clears its mark and its links, and keeps the invariant; the collector's
-- state and every other box but for its links stay as they were.
pub remove_from_list-IsBuffered :
    (w : World) (xs : List Ptr) (p : Ptr) (b : CcBox)
    → IsBuffered w.heap w.possible_cycles xs
    → w.cycles_accessible ≡ true
    → w.heap p ≡ some b
    → p ∈ xs
    → length xs < 2 ^ 64
    → (pc : PossibleCycles) × (g : Heap) × (remove_from_list p w
        ≡ ok tt (record w { heap = g; possible_cycles = pc }))
      × IsBuffered g pc (erase p xs)
      × IsLoose g p
      × ((q : Ptr)
          → Option.map unlinked (g q)
            ≡ Option.map unlinked (remarked w.heap p b (mark non_marked_mark b.counter_marker) q))
remove_from_list-IsBuffered w xs p b is reach at i fits =
    let um = unmarked w.heap w.possible_cycles xs is p b at i fits in
    let c = mark non_marked_mark b.counter_marker in
    let buf = unmarked-IsBuffer w.heap w.possible_cycles xs is p b at i fits in
    let (pc, g, ran, buf', (d, atd, dn, dp), r) =
      remove-IsBuffer um p w.possible_cycles xs buf i fits in
    (
      pc,
      g,
      remove_from_list_run w p b pc g at (is.marked p b at ∙ i) reach ran,
      Change-IsBuffered w.heap g w.possible_cycles pc xs (erase p xs) p c is
          (removed-Change w.heap w.possible_cycles xs is p b at i fits g d atd dn dp r)
          (mark-IsWords (is.words p b at) non_marked_mark)
          ((mark_non_marked-tests b.counter_marker (is.words p b at)).0
            ∙ sym (not-mem-erase_self w.heap p none w.possible_cycles.first xs is.buffer.chain))
          buf',
      (d, atd, dn, dp),
      r.payload,
    )
