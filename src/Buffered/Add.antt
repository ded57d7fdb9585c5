-- ===== src/Buffered/Add.antt =====
-- `add_to_list` of src/cc.rs, and the invariant of the buffer.
use mathlib.Core.Option
use rust_cc.Prelude.{
  ◌+◌, ◌^◌, ◌<◌, ◌≡◌, ◌≢◌, refl, true, false, none, some, List, ◌∷◌, ◌==◌, arith, Bool-cases, inl,
  inr, ==→eq, ==→ne, ◌∙◌, ap, sym, length,
}
use rust_cc.CounterMarker.{
  CounterMarker, mark, possible_cycles_mark, reset_tracing_counter, is_in_possible_cycles,
  is_in_list_or_queue,
}
use rust_cc.CounterMarker.View.{IsWords, is_mark}
use rust_cc.CounterMarker.Laws.{view-mark, is_in_possible_cycles-view}
use rust_cc.CounterMarker.Refinement.{mark-IsWords, reset_tracing_counter-IsWords}
use rust_cc.Heap.{Ptr, CcBox, Heap}
use rust_cc.Lists.Chain.{◌∉◌, Chain-SameLinks, unlinked, Relinked}
use rust_cc.Lists.PossibleCycles.{PossibleCycles}
use rust_cc.Lists.PossibleCycles
use rust_cc.Lists.Buffer.{IsBuffer, add-IsBuffer}
use rust_cc.World.{World, Run, ok}
use rust_cc.CcBox.{add_to_list}
use rust_cc.Buffered.{IsBuffered}
use rust_cc.Buffered.Change.{Change, Change-IsBuffered, payload-at, payload-there}
use rust_cc.Buffered.Marker.{
  remarked, remarked-SameLinks, remarked_self, remarked-other, update_marker-remarked, as_ref-at,
}

-- The marker of a box that comes into the buffer.
abbrev pub buffered : CounterMarker → CounterMarker
buffered c = mark possible_cycles_mark (reset_tracing_counter c)

pub buffered-IsWords : (c : CounterMarker) → IsWords c → IsWords (buffered c)
buffered-IsWords c w = mark-IsWords (reset_tracing_counter-IsWords w) possible_cycles_mark

pub buffered-is_in_possible_cycles :
    (c : CounterMarker) → IsWords c → is_in_possible_cycles (buffered c) ≡ true
buffered-is_in_possible_cycles c w =
    is_in_possible_cycles-view (buffered-IsWords c w)
    ∙ ap (λ v. is_mark possible_cycles_mark v.mark)
        (view-mark (reset_tracing_counter-IsWords w) possible_cycles_mark)

module _ (h g : Heap) (p : Ptr) (b d : CcBox) (xs : List Ptr) (atd : g p ≡ some d)
    (same : d.counter_marker ≡ b.counter_marker) (r : Relinked (p ∷ xs) h g) where
  abbrev reset : Heap
  reset = remarked g p d (reset_tracing_counter d.counter_marker)

  abbrev reset_box : CcBox
  reset_box = record d { counter_marker = reset_tracing_counter d.counter_marker }

  reset-at : reset p ≡ some reset_box
  reset-at = remarked_self g p d atd _

  abbrev listed : Heap
  listed = remarked reset p reset_box (buffered d.counter_marker)

  listed-other : (q : Ptr) → q ≢ p → listed q ≡ g q
  listed-other q ne =
      remarked-other reset p reset_box reset-at _ q ne ∙ remarked-other g p d atd _ q ne

  listed-own : listed p ≡ some (record d { counter_marker = buffered d.counter_marker })
  listed-own = remarked_self reset p reset_box reset-at _

  listed-IsBuffer : (pc : PossibleCycles) (ys : List Ptr) → IsBuffer g pc ys → IsBuffer listed pc ys
  listed-IsBuffer pc ys buf = record {
    chain =
        Chain-SameLinks reset listed none pc.first ys
          (remarked-SameLinks reset p reset_box reset-at _)
          (Chain-SameLinks g reset none pc.first ys (remarked-SameLinks g p d atd _) buf.chain);
    counted = buf.counted;
  }

  listed-Change : Change h listed xs (p ∷ xs) p (buffered b.counter_marker)
  listed-Change = record {
    others_listed = λ q ne. ground arith;
    others_kept = λ q e ne ate. payload-at h g q e (r.payload q) (sym (listed-other q ne) ∙ ate);
    others_loose = λ q e ne o ate. sym (r.same q (ground arith)) ∙ (sym (listed-other q ne) ∙ ate);
    own_marker = λ e ate. own_is e (sym listed-own ∙ ate) ∙ ap buffered same;
    own_loose = λ e ate o l. absurd (ground arith);
  }
    where
      own_is :
          (e : CcBox)
          → some (record d { counter_marker = buffered d.counter_marker }) ≡ some e
          → e.counter_marker ≡ buffered d.counter_marker
      own_is e eq = cc

abbrev relabel : CounterMarker → CcBox → CcBox
relabel c k = record k { counter_marker = c }

unlinked-relabel :
    (h : Heap) (p : Ptr) (b d : CcBox) (c : CounterMarker)
    → h p ≡ some b
    → Option.map unlinked (some d) ≡ Option.map unlinked (h p)
    → Option.map unlinked (some (record d { counter_marker = c }))
      ≡ Option.map unlinked (some (record b { counter_marker = c }))
unlinked-relabel h p b d c at same =
    ap (λ o. Option.map (relabel c) o) (same ∙ ap (λ o. Option.map unlinked o) at)

add_to_list_run :
    (w : World) (p : Ptr) (b d : CcBox) (pc : PossibleCycles) (g : Heap)
    → w.heap p ≡ some b
    → is_in_possible_cycles b.counter_marker ≡ false
    → w.cycles_accessible ≡ true
    → PossibleCycles.add p w.possible_cycles w.heap ≡ some (pc, g)
    → g p ≡ some d
    → add_to_list p w
      ≡ ok tt (record w {
        heap =
            remarked
              (remarked g p d (reset_tracing_counter d.counter_marker))
              p
              (record d { counter_marker = reset_tracing_counter d.counter_marker })
              (buffered d.counter_marker);
        possible_cycles = pc;
      })
unfolding add_to_list
add_to_list_run w p b d pc g at out reach ran atd =
    rw
      (
        as_ref-at w.heap p b at,
        out,
        reach,
        ran,
        update_marker-remarked g p d reset_tracing_counter atd,
        update_marker-remarked (remarked g p d (reset_tracing_counter d.counter_marker)) p
            (record d { counter_marker = reset_tracing_counter d.counter_marker })
            (mark possible_cycles_mark) (remarked_self g p d atd _),
      )
      refl

-- `p`, whose box was `b`, came into the buffer `xs`.
abbrev pub Listed : World → List Ptr → Ptr → CcBox → Run (Unit {0}) → Type 0
Listed w xs p b r =
    (pc : PossibleCycles) × (g : Heap) × (r ≡ ok tt (record w { heap = g; possible_cycles = pc }))
    × IsBuffered g pc (p ∷ xs)
    × ((q : Ptr)
        → Option.map unlinked (g q)
          ≡ Option.map unlinked (remarked w.heap p b (buffered b.counter_marker) q))

module _ (w : World) (xs : List Ptr) (p : Ptr) (b : CcBox)
    (is : IsBuffered w.heap w.possible_cycles xs) (at : w.heap p ≡ some b) (o : p ∉ xs) where
  payload :
      (pc : PossibleCycles) (g : Heap) (d : CcBox) (r : Relinked (p ∷ xs) w.heap g)
      (atd : g p ≡ some d) (same : d.counter_marker ≡ b.counter_marker) (q : Ptr)
      → Option.map unlinked (listed w.heap g p b d xs atd same r q)
        ≡ Option.map unlinked (remarked w.heap p b (buffered b.counter_marker) q)
  payload pc g d r atd same q = elim (Bool-cases (q == p)) [
    | inl hit ↦
        let c = buffered d.counter_marker in
        let cb = buffered b.counter_marker in
        rw (==→eq q p hit) (
          ap (λ o. Option.map unlinked o) (listed-own w.heap g p b d xs atd same r)
          ∙ ap (λ k. Option.map unlinked (some (record d { counter_marker = buffered k }))) same
          ∙ unlinked-relabel w.heap p b d cb at
              (sym (ap (λ o. Option.map unlinked o) atd) ∙ r.payload p)
          ∙ sym (ap (λ o. Option.map unlinked o) (remarked_self w.heap p b at cb)))
    | inr miss ↦
        let ne = ==→ne q p miss in
        ap (λ o. Option.map unlinked o) (listed-other w.heap g p b d xs atd same r q ne)
        ∙ r.payload q
        ∙ sym (
            ap (λ o. Option.map unlinked o)
              (remarked-other w.heap p b at (buffered b.counter_marker) q ne))
  ]

  added_with :
      (pc : PossibleCycles) (g : Heap) (d : CcBox)
      → PossibleCycles.add p w.possible_cycles w.heap ≡ some (pc, g)
      → IsBuffer g pc (p ∷ xs)
      → Relinked (p ∷ xs) w.heap g
      → w.cycles_accessible ≡ true
      → g p ≡ some d
      → d.counter_marker ≡ b.counter_marker
      → Listed w xs p b (add_to_list p w)
  added_with pc g d ran buf r reach atd same =
      let words = is.words p b at in
      let c = buffered b.counter_marker in
      (
        pc,
        listed w.heap g p b d xs atd same r,
        add_to_list_run w p b d pc g at (is.marked p b at ∙ o) reach ran atd,
        Change-IsBuffered w.heap (listed w.heap g p b d xs atd same r) w.possible_cycles pc xs
            (p ∷ xs) p c is (listed-Change w.heap g p b d xs atd same r)
            (buffered-IsWords b.counter_marker words)
            (buffered-is_in_possible_cycles b.counter_marker words ∙ sym (ground arith))
            (listed-IsBuffer w.heap g p b d xs atd same r pc (p ∷ xs) buf),
        payload pc g d r atd same,
      )

-- If `POSSIBLE_CYCLES` can be reached, `add_to_list` puts a box that is in no list in front of the
-- buffer, with a tracing counter of zero and the mark of the buffer, and keeps the invariant; the
-- collector's state and every other box but for its links stay as they were.
pub add_to_list-IsBuffered :
    (w : World) (xs : List Ptr) (p : Ptr) (b : CcBox)
    → IsBuffered w.heap w.possible_cycles xs
    → w.cycles_accessible ≡ true
    → w.heap p ≡ some b
    → p ∉ xs
    → is_in_list_or_queue b.counter_marker ≡ false
    → length xs + 1 < 2 ^ 64
    → (pc : PossibleCycles) × (g : Heap) × (add_to_list p w
        ≡ ok tt (record w { heap = g; possible_cycles = pc }))
      × IsBuffered g pc (p ∷ xs)
      × ((q : Ptr)
          → Option.map unlinked (g q)
            ≡ Option.map unlinked (remarked w.heap p b (buffered b.counter_marker) q))
add_to_list-IsBuffered w xs p b is reach at o l fits =
    let (n, v) = is.loose p b at o l in
    let (pc, g, ran, buf, r) =
      add-IsBuffer w.heap p w.possible_cycles xs is.buffer (b, at, n, v) o fits in
    let (d, atd', same) = payload-there w.heap g p b at (r.payload p) in
    added_with w xs p b is at o pc g d ran buf r reach atd' same
