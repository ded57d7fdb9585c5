-- ===== src/Cc/Drop.antt =====
-- `Drop for Cc` of src/cc.rs, where other pointers to the allocation are left.
use mathlib.Core.Option
use rust_cc.Prelude.{
  ◌+◌, ◌-◌, ◌^◌, ◌<◌, ◌≡◌, ◌≢◌, refl, true, false, some, List, ◌∷◌, ◌==◌, if◌then◌else◌, arith,
  Bool-cases, inl, inr, ◌∙◌, ap, sym, length, ne→==,
}
use rust_cc.CounterMarker.{
  CounterMarker, counter, decrement_counter, is_in_possible_cycles, is_in_list_or_queue,
  possible_cycles_mark,
}
use rust_cc.CounterMarker.View.{View, IsWords, view}
use rust_cc.CounterMarker.Laws.{counter-view, view-mark, view-reset_tracing_counter}
use rust_cc.CounterMarker.Refinement.{reset_tracing_counter-IsWords}
use rust_cc.Heap.{Ptr, CcBox, write}
use rust_cc.Lists.Chain.{has, unlinked}
use rust_cc.World.{World, ok, Client}
use rust_cc.CcBox.{after, add_to_list}
use rust_cc.Cc.{count_down, handle_possible_cycle, drop_cc}
use rust_cc.Cc.Clone.{Alive}
use rust_cc.Buffered.{IsBuffered}
use rust_cc.Buffered.Change.{payload-there}
use rust_cc.Buffered.Add.{add_to_list-IsBuffered, buffered, buffered-IsWords}
use rust_cc.Buffered.Counts.{counted_down}
use rust_cc.Buffered.Marker.{
  remarked, remarked_self, remarked-other, remarked-IsBuffered, update_marker-remarked, as_ref-at,
}

pub count_down-ok :
    (w : World) (p : Ptr) (b : CcBox) (c : CounterMarker)
    → w.heap p ≡ some b
    → decrement_counter b.counter_marker ≡ some c
    → count_down p w ≡ ok tt (record w { heap = remarked w.heap p b c })
unfolding count_down
count_down-ok w p b c at down =
    rw (update_marker-remarked w.heap p b (after decrement_counter) at, down) refl

-- While a collection holds the box in one of its lists or in its queue, dropping a pointer to it
-- lowers its reference count, which is not zero, by one, also to zero, and does nothing else: the
-- box keeps its links, its value, its metadata, its mark, its tracing counter and its flags, all
-- else is as it was, and the invariant holds.
pub drop_cc-in_list :
    (client : Client) (w : World) (xs : List Ptr) (p : Ptr) (b : CcBox)
    → IsBuffered w.heap w.possible_cycles xs
    → w.heap p ≡ some b
    → is_in_list_or_queue b.counter_marker ≡ true
    → counter b.counter_marker ≢ 0
    → (c : CounterMarker) × (drop_cc client p w
        ≡ ok tt (record w { heap = write w.heap p (some (record b { counter_marker = c })) }))
      × IsWords c
      × (view c ≡ record (view b.counter_marker) { count = counter b.counter_marker - 1 })
      × IsBuffered (write w.heap p (some (record b { counter_marker = c }))) w.possible_cycles xs
unfolding drop_cc
drop_cc-in_list client w xs p b is at listed positive =
    let (c, down, re) = counted_down b.counter_marker (is.words p b at) positive in
    (
      c,
      rw (as_ref-at w.heap p b at, listed) (count_down-ok w p b c at down),
      re.words,
      re.shown,
      remarked-IsBuffered w.heap p b at c w.possible_cycles xs is re.words re.in_possible_cycles
          re.in_list_or_queue,
    )

-- The buffer with `p`, which comes to its front if it is not in it.
abbrev pub joined : Ptr → List Ptr → List Ptr
joined p xs = if has p xs then xs else p ∷ xs

counter-buffered : (c : CounterMarker) → IsWords c → counter (buffered c) ≡ counter c
counter-buffered c w =
    counter-view (buffered-IsWords c w)
    ∙ ap (λ (v : View). v.count) (view-mark (reset_tracing_counter-IsWords w) possible_cycles_mark)
    ∙ ap (λ (v : View). v.count) (view-reset_tracing_counter w)
    ∙ sym (counter-view w)

add_to_list-in :
    (w : World) (p : Ptr) (b : CcBox)
    → w.heap p ≡ some b
    → is_in_possible_cycles b.counter_marker ≡ true
    → add_to_list p w ≡ ok tt w
unfolding add_to_list
add_to_list-in w p b at listed = rw (as_ref-at w.heap p b at, listed) refl

-- If `POSSIBLE_CYCLES` can be reached, `add_to_list` on a box that no collection holds leaves it in
-- the buffer, in its place if it was there, with the reference count that it had.
add_to_list-Alive :
    (w : World) (xs : List Ptr) (p : Ptr) (b : CcBox)
    → IsBuffered w.heap w.possible_cycles xs
    → w.cycles_accessible ≡ true
    → w.heap p ≡ some b
    → is_in_list_or_queue b.counter_marker ≡ false
    → length xs + 1 < 2 ^ 64
    → Alive tt w (joined p xs) p (counter b.counter_marker) (add_to_list p w)
add_to_list-Alive w xs p b is reach at l fits = elim (Bool-cases (has p xs)) [
  | inl i ↦ (
    w.possible_cycles,
    w.heap,
    b,
    add_to_list-in w p b at (is.marked p b at ∙ i),
    rw i is,
    at,
    refl,
    λ q ne. refl,
  )
  | inr o ↦
      let c = buffered b.counter_marker in
      let (pc, g, ran, is', pay) = add_to_list-IsBuffered w xs p b is reach at o l fits in
      let (d, atd, same) =
        payload-there (remarked w.heap p b c) g p (record b { counter_marker = c })
          (remarked_self w.heap p b at c) (pay p) in
      (
        pc,
        g,
        d,
        ran,
        rw o is',
        atd,
        ap counter same ∙ counter-buffered b.counter_marker (is.words p b at),
        λ q ne. pay q ∙ ap (Option.map unlinked) (remarked-other w.heap p b at c q ne),
      )
]

-- If `POSSIBLE_CYCLES` can be reached, dropping one of several pointers to a box that no collection
-- holds lowers its reference count by one and leaves it in the buffer, as the root of a possible
-- cycle; all other boxes, but for their links, stay as they were.
pub drop_cc-shared :
    (client : Client) (w : World) (xs : List Ptr) (p : Ptr) (b : CcBox)
    → IsBuffered w.heap w.possible_cycles xs
    → w.cycles_accessible ≡ true
    → w.heap p ≡ some b
    → is_in_list_or_queue b.counter_marker ≡ false
    → 1 < counter b.counter_marker
    → length xs + 1 < 2 ^ 64
    → Alive tt w (joined p xs) p (counter b.counter_marker - 1) (drop_cc client p w)
unfolding drop_cc handle_possible_cycle
drop_cc-shared client w xs p b is reach at l many fits =
    let (c, down, re) = counted_down b.counter_marker (is.words p b at) (ground arith) in
    let h = remarked w.heap p b c in
    let is' =
      remarked-IsBuffered w.heap p b at c w.possible_cycles xs is re.words re.in_possible_cycles
        re.in_list_or_queue in
    let (pc, g, d, ran, is'', atd, count, rest) =
      add_to_list-Alive (record w { heap = h }) xs p (record b { counter_marker = c }) is' reach
        (remarked_self w.heap p b at c) (re.in_list_or_queue ∙ l) fits in
    let shared : (counter b.counter_marker == 1) ≡ false =
      ne→== (counter b.counter_marker) 1 (ground arith) in
    (
      pc,
      g,
      d,
      rw (as_ref-at w.heap p b at, l, shared, count_down-ok w p b c at down) ran,
      is'',
      atd,
      count ∙ re.count,
      λ q ne. rest q ne ∙ ap (Option.map unlinked) (remarked-other w.heap p b at c q ne),
    )
