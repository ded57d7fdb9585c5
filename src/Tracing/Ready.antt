-- ===== src/Tracing/Ready.antt =====
-- The operations of `POSSIBLE_CYCLES` in src/cc.rs between collections: what a collection relies on
-- when it starts.
use rust_cc.Prelude.{
  ◌+◌, ◌<◌, ◌^◌, ◌≡◌, ◌≢◌, true, false, not, none, some, List, ◌∷◌, ◌==◌, arith, Bool-cases, inl,
  inr, ==→eq, ==→ne, ne→==, ◌∙◌, ap, sym, length,
}
use mathlib.Core.Option
use rust_cc.CounterMarker.{
  CounterMarker, mark, non_marked_mark, possible_cycles_mark, reset_tracing_counter,
  is_in_list_or_queue, tracing_counter,
}
use rust_cc.CounterMarker.View.{View, IsWords, is_unmarked}
use rust_cc.CounterMarker.Laws.{
  is_in_list_or_queue-view, tracing_counter-view, view-mark, view-reset_tracing_counter,
}
use rust_cc.CounterMarker.Refinement.{mark-IsWords, reset_tracing_counter-IsWords}
use rust_cc.Heap.{Ptr, CcBox, Heap}
use rust_cc.Lists.Chain.{has, ◌∈◌, ◌∉◌, unlinked, erase, not-mem-erase_self, mem-erase_ne}
use rust_cc.Lists.PossibleCycles.{PossibleCycles}
use rust_cc.World.{World, Run, ok}
use rust_cc.CcBox.{add_to_list, remove_from_list}
use rust_cc.Buffered.{IsBuffered}
use rust_cc.Buffered.Change.{payload-there}
use rust_cc.Buffered.Add.{buffered, add_to_list-IsBuffered}
use rust_cc.Buffered.Remove.{remove_from_list-IsBuffered}
use rust_cc.Buffered.Marker.{remarked, remarked_self, remarked-other}
use rust_cc.Tracing.Start.{IsReady}

module _ (w : World) (xs ys : List Ptr) (p : Ptr) (b : CcBox) (c : CounterMarker)
    (pc : PossibleCycles) (g : Heap) (k : IsReady w xs) (at : w.heap p ≡ some b)
    (is : IsBuffered g pc ys)
    (same : (q : Ptr) → Option.map unlinked (g q) ≡ Option.map unlinked (remarked w.heap p b c q))
    (unlisted : is_in_list_or_queue c ≡ false) (reset : p ∈ ys → tracing_counter c ≡ 0)
    (within : (q : Ptr) → q ≢ p → q ∈ ys → q ∈ xs) where
  own_marker : (d : CcBox) → g p ≡ some d → d.counter_marker ≡ c
  own_marker d atd =
      let (x, atx, e) =
        payload-there (remarked w.heap p b c) g p (record b { counter_marker = c })
          (remarked_self w.heap p b at c) (same p) in
      ground (arith, atd, atx, e)

  other_marker :
      (q : Ptr) (d : CcBox)
      → q ≢ p
      → g q ≡ some d
      → (x : CcBox) × (w.heap q ≡ some x) × (d.counter_marker ≡ x.counter_marker)
  other_marker q d ne atd =
      let as_before = same q ∙ ap (Option.map unlinked) (remarked-other w.heap p b at c q ne) in
      let (x, atx, e) = payload-there g w.heap q d atd (sym as_before) in (x, atx, sym e)

  remarked-IsReady : IsReady (record w { heap = g; possible_cycles = pc }) ys
  remarked-IsReady = record {
    buffered = is;
    unlisted = λ q d atd. elim (Bool-cases (q == p)) [
      | inl hit ↦
          ap is_in_list_or_queue (own_marker d (ap g (sym (==→eq q p hit)) ∙ atd)) ∙ unlisted
      | inr miss ↦
          let (x, atx, e) = other_marker q d (==→ne q p miss) atd in
          ap is_in_list_or_queue e ∙ k.unlisted q x atx
    ];
    reset = λ q d atd i. elim (Bool-cases (q == p)) [
      | inl hit ↦
          ap tracing_counter (own_marker d (ap g (sym (==→eq q p hit)) ∙ atd))
          ∙ reset (sym (ap (λ (r : Ptr). has r ys) (==→eq q p hit)) ∙ i)
      | inr miss ↦
          let (x, atx, e) = other_marker q d (==→ne q p miss) atd in
          ap tracing_counter e ∙ k.reset q x atx (within q (==→ne q p miss) i)
    ];
    no_lists = k.no_lists;
  }

-- The command ends normally in a state in which a collection can start, with `ys` in the buffer.
abbrev pub Readies : List Ptr → Run (Unit {0}) → Type 0
Readies ys r = (v : World) × (r ≡ ok tt v) × IsReady v ys

module _ (w : World) (xs : List Ptr) (p : Ptr) (b : CcBox) (k : IsReady w xs)
    (reach : w.cycles_accessible ≡ true) (at : w.heap p ≡ some b) where
  now-IsWords : IsWords b.counter_marker
  now-IsWords = k.buffered.words p b at

  -- While `POSSIBLE_CYCLES` can be reached and its size fits a machine word: `add_to_list` of a box
  -- that is not in the buffer puts it in front and keeps what a collection relies on when it starts:
  -- the invariant of the buffer, tracing counters of zero in it, and no box in a list of the collector.
  pub add_to_list-IsReady : p ∉ xs → length xs + 1 < 2 ^ 64 → Readies (p ∷ xs) (add_to_list p w)
  add_to_list-IsReady out fits =
      let (pc, g, ran, is, same) =
        add_to_list-IsBuffered w xs p b k.buffered reach at out (k.unlisted p b at) fits in
      (
        record w { heap = g; possible_cycles = pc },
        ran,
        remarked-IsReady w xs (p ∷ xs) p b (buffered b.counter_marker) pc g k at is same unlisted
            (λ i. reset) (λ q ne i. ground (arith, i, ne→== q p ne)),
      )
    where
      fresh : IsWords (reset_tracing_counter b.counter_marker)
      fresh = reset_tracing_counter-IsWords now-IsWords

      unlisted : is_in_list_or_queue (buffered b.counter_marker) ≡ false
      unlisted =
          is_in_list_or_queue-view (mark-IsWords fresh possible_cycles_mark)
          ∙ ap (λ (v : View). not (is_unmarked v.mark)) (view-mark fresh possible_cycles_mark)

      reset : tracing_counter (buffered b.counter_marker) ≡ 0
      reset =
          tracing_counter-view (mark-IsWords fresh possible_cycles_mark)
          ∙ ap (λ (v : View). v.tracing) (view-mark fresh possible_cycles_mark)
          ∙ ap (λ (v : View). v.tracing) (view-reset_tracing_counter now-IsWords)

  -- While `POSSIBLE_CYCLES` can be reached and its size fits a machine word: `remove_from_list` of a
  -- buffered box takes it out and keeps what a collection relies on when it starts: the invariant of
  -- the buffer, tracing counters of zero in it, and no box in a list of the collector.
  pub remove_from_list-IsReady :
      p ∈ xs → length xs < 2 ^ 64 → Readies (erase p xs) (remove_from_list p w)
  remove_from_list-IsReady i fits =
      let (pc, g, ran, is, loose, same) =
        remove_from_list-IsBuffered w xs p b k.buffered reach at i fits in
      let out =
        not-mem-erase_self w.heap p none w.possible_cycles.first xs k.buffered.buffer.chain in
      (
        record w { heap = g; possible_cycles = pc },
        ran,
        remarked-IsReady w xs (erase p xs) p b (mark non_marked_mark b.counter_marker) pc g k at is
            same unlisted (λ j. absurd (ground (arith, j, out)))
            (λ q ne j. sym (mem-erase_ne q p xs ne) ∙ j),
      )
    where
      unlisted : is_in_list_or_queue (mark non_marked_mark b.counter_marker) ≡ false
      unlisted =
          is_in_list_or_queue-view (mark-IsWords now-IsWords non_marked_mark)
          ∙ ap (λ (v : View). not (is_unmarked v.mark)) (view-mark now-IsWords non_marked_mark)
