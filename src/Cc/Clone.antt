-- ===== src/Cc/Clone.antt =====
-- `Clone for Cc` and `mark_alive` of src/cc.rs.
use mathlib.Core.Option
use rust_cc.Prelude.{
  ℕ, ◌+◌, ◌^◌, ◌<◌, ◌≡◌, ◌≢◌, refl, true, false, none, some, List, [], ◌∷◌, arith, Bool-cases, inl,
  inr, ◌∙◌, ap, sym, subst, length,
}
use rust_cc.CounterMarker.View.{View, IsWords}
use rust_cc.CounterMarker.Laws.{counter-view, view-mark}
use rust_cc.CounterMarker.Refinement.{mark-IsWords}
use rust_cc.Lists.PossibleCycles.{PossibleCycles}
use rust_cc.Buffered.Change.{payload-there}
use rust_cc.CounterMarker.{
  CounterMarker, Mark, counter, max_count, increment_counter, is_in_possible_cycles, mark,
  non_marked_mark,
}
use rust_cc.Heap.{Ptr, CcBox, Heap}
use rust_cc.Lists.Chain.{has, ◌∉◌, erase, unlinked}
use rust_cc.World.{World, Run, ok, panic}
use rust_cc.CcBox.{remove_from_list}
use rust_cc.Cc.{clone, count_up, mark_alive}
use rust_cc.Buffered.{IsBuffered}
use rust_cc.Buffered.Counts.{counted_up, counted_over}
use rust_cc.Buffered.Remove.{remove_from_list-IsBuffered}
use rust_cc.Buffered.Marker.{
  remarked, remarked_self, remarked-other, remarked-IsBuffered, update_marker-remarked, as_ref-at,
}

count_up-panic :
    (w : World) (p : Ptr) (b : CcBox)
    → w.heap p ≡ some b
    → increment_counter b.counter_marker ≡ none
    → count_up p w ≡ panic w
unfolding count_up
count_up-panic w p b at full = rw (as_ref-at w.heap p b at, full) refl

count_up-ok :
    (w : World) (p : Ptr) (b : CcBox) (c : CounterMarker)
    → w.heap p ≡ some b
    → increment_counter b.counter_marker ≡ some c
    → count_up p w ≡ ok tt (record w { heap = remarked w.heap p b c })
unfolding count_up
count_up-ok w p b c at up =
    rw (as_ref-at w.heap p b at, up, update_marker-remarked w.heap p b (λ _. c) at) refl

-- A reference count that is at its maximum makes `clone` panic, before anything has changed.
pub clone-overflow :
    (w : World) (xs : List Ptr) (p : Ptr) (b : CcBox)
    → IsBuffered w.heap w.possible_cycles xs
    → w.heap p ≡ some b
    → counter b.counter_marker ≡ max_count
    → clone p w ≡ panic w
unfolding clone
clone-overflow w xs p b is at full =
    rw (count_up-panic w p b at (counted_over b.counter_marker (is.words p b at) full)) refl

pub erase-absent : (p : Ptr) (xs : List Ptr) → p ∉ xs → erase p xs ≡ xs
erase-absent p [] o = refl
erase-absent p (x ∷ xs) o = ground (arith, erase-absent p xs)

counter-mark : (c : CounterMarker) (m : Mark) → IsWords c → counter (mark m c) ≡ counter c
counter-mark c m w =
    counter-view (mark-IsWords w m)
    ∙ ap (λ (v : View). v.count) (view-mark w m)
    ∙ sym (counter-view w)

-- `r` ends normally, with the buffer `ys` and the reference count `n` in the box at `p`; all other
-- boxes are as they were, but for their links.
abbrev pub Alive : {A : Type 0} → A → World → List Ptr → Ptr → ℕ → Run A → Type 0
Alive a w ys p n r =
    (pc : PossibleCycles) × (g : Heap) × (d : CcBox) × (r
      ≡ ok a (record w { heap = g; possible_cycles = pc }))
    × IsBuffered g pc ys
    × (g p ≡ some d)
    × (counter d.counter_marker ≡ n)
    × ((q : Ptr) → q ≢ p → Option.map unlinked (g q) ≡ Option.map unlinked (w.heap q))

pub mark_alive-out :
    (w : World) (p : Ptr) (b : CcBox)
    → w.heap p ≡ some b
    → is_in_possible_cycles b.counter_marker ≡ false
    → mark_alive p w ≡ ok tt w
unfolding mark_alive remove_from_list
mark_alive-out w p b at out = rw (as_ref-at w.heap p b at, out) refl

-- If `POSSIBLE_CYCLES` can be reached, `mark_alive` takes the box out of the buffer if it is there;
-- its reference count and all other boxes, but for their links, stay as they were.
pub mark_alive-Alive :
    (w : World) (xs : List Ptr) (p : Ptr) (b : CcBox)
    → IsBuffered w.heap w.possible_cycles xs
    → w.cycles_accessible ≡ true
    → w.heap p ≡ some b
    → length xs < 2 ^ 64
    → Alive tt w (erase p xs) p (counter b.counter_marker) (mark_alive p w)
unfolding mark_alive
mark_alive-Alive w xs p b is reach at fits = elim (Bool-cases (has p xs)) [
  | inl i ↦
      let c = mark non_marked_mark b.counter_marker in
      let (pc, g, ran, is', loose, pay) = remove_from_list-IsBuffered w xs p b is reach at i fits in
      let (d, atd, same) =
        payload-there (remarked w.heap p b c) g p (record b { counter_marker = c })
          (remarked_self w.heap p b at c) (pay p) in
      (
        pc,
        g,
        d,
        ran,
        is',
        atd,
        ap counter same ∙ counter-mark b.counter_marker non_marked_mark (is.words p b at),
        λ q ne. pay q ∙ ap (Option.map unlinked) (remarked-other w.heap p b at c q ne),
      )
  | inr o ↦ (
    w.possible_cycles,
    w.heap,
    b,
    mark_alive-out w p b at (is.marked p b at ∙ o),
    subst (λ (ys : List Ptr). IsBuffered w.heap w.possible_cycles ys) (sym (erase-absent p xs o))
        is,
    at,
    refl,
    λ q ne. refl,
  )
]

-- The two steps of `clone` and of `Weak::upgrade`.
pub count_up-mark_alive :
    (w : World) (xs : List Ptr) (p : Ptr) (b : CcBox)
    → IsBuffered w.heap w.possible_cycles xs
    → w.cycles_accessible ≡ true
    → w.heap p ≡ some b
    → counter b.counter_marker < max_count
    → length xs < 2 ^ 64
    → (v : World) × (count_up p w ≡ ok tt v)
      × Alive tt w (erase p xs) p (counter b.counter_marker + 1) (mark_alive p v)
count_up-mark_alive w xs p b is reach at room fits =
    let (c, up, re) = counted_up b.counter_marker (is.words p b at) room in
    let at' = remarked_self w.heap p b at c in
    let is' =
      remarked-IsBuffered w.heap p b at c w.possible_cycles xs is re.words re.in_possible_cycles
        re.in_list_or_queue in
    let (pc, g, d, ran, is'', atd, count, rest) =
      mark_alive-Alive (record w { heap = remarked w.heap p b c }) xs p
        (record b { counter_marker = c }) is' reach at' fits in
    (
      record w { heap = remarked w.heap p b c },
      count_up-ok w p b c at up,
      (
        pc,
        g,
        d,
        ran,
        is'',
        atd,
        count ∙ re.count,
        λ q ne. rest q ne ∙ ap (Option.map unlinked) (remarked-other w.heap p b at c q ne),
      ),
    )

-- If `POSSIBLE_CYCLES` can be reached and the reference count is below its maximum, `clone` gives
-- the same pointer again, raises the reference count by one and takes the box out of the buffer if
-- it is there; all other boxes, but for their links, stay as they were.
pub clone-Alive :
    (w : World) (xs : List Ptr) (p : Ptr) (b : CcBox)
    → IsBuffered w.heap w.possible_cycles xs
    → w.cycles_accessible ≡ true
    → w.heap p ≡ some b
    → counter b.counter_marker < max_count
    → length xs < 2 ^ 64
    → Alive p w (erase p xs) p (counter b.counter_marker + 1) (clone p w)
unfolding clone
clone-Alive w xs p b is reach at room fits =
    let (v, up, (pc, g, d, ran, is2, at2, count, rest)) =
      count_up-mark_alive w xs p b is reach at room fits in
    (pc, g, d, rw up (rw ran refl), is2, at2, count, rest)
