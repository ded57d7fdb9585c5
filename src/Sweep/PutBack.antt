-- ===== src/Sweep/PutBack.antt =====
-- The garbage that was finalized goes back to `POSSIBLE_CYCLES`: the end of `__collect` in src/lib.rs
-- where something was finalized.
use mathlib.Core.Option
use rust_cc.Prelude.{
  ◌≡◌, refl, Bool, true, false, not, Option, none, some, List, if◌then◌else◌, arith, Bool-cases,
  Option-cases, inl, inr, ◌∙◌, ap, sym, subst,
}
use rust_cc.CounterMarker.{Mark, non_marked_mark, possible_cycles_mark}
use rust_cc.CounterMarker.View.{View, IsWords, view, is_mark, is_unmarked}
use rust_cc.CounterMarker.Laws.{
  is_in_list_or_queue-view, is_in_possible_cycles-view, tracing_counter-view,
}
use rust_cc.Heap.{Ptr, CcBox, Heap}
use rust_cc.Lists.Chain.{has, ◌∈◌, ◌∉◌}
use rust_cc.Lists.Buffer.{IsBuffer}
use rust_cc.Lists.PossibleCycles.{PossibleCycles}
use rust_cc.Lists.Marking.{marked}
use rust_cc.World.{World, no_locals}
use rust_cc.Buffered.{IsBuffered}
use rust_cc.Tracing.{Snapshot, IsSnapshot}
use rust_cc.Tracing.Garbage.{IsTraced}
use rust_cc.Tracing.Start.{IsReady}
use rust_cc.Sweep.Finalize.{finalized, Finalized}
use rust_cc.Sweep.Returned.{returned, returned-IsWords, view-returned, finalized-payload}

-- The box `d` that was `before` at the start: with its value, its metadata and its count, finalized
-- and in the buffer if it is garbage.
pub record Rests (garbage : List Ptr) (p : Ptr) (before d : CcBox) : Type 0 where
  pub words : IsWords d.counter_marker
  pub elem : d.elem ≡ before.elem
  pub metadata : d.metadata ≡ before.metadata
  pub mark :
      (view d.counter_marker).mark
      ≡ (if has p garbage then possible_cycles_mark else non_marked_mark)
  pub tracing : p ∈ garbage → (view d.counter_marker).tracing ≡ 0
  pub count : (view d.counter_marker).count ≡ (view before.counter_marker).count
  pub flag : (view d.counter_marker).metadata ≡ (view before.counter_marker).metadata
  pub finalized :
      (view d.counter_marker).finalized
      ≡ (if has p garbage then true else (view before.counter_marker).finalized)

-- From `env` to `v`: every box is there and no other, and a collection can start with the garbage in
-- the buffer.
pub record Returns (env : World) (garbage : List Ptr) (v : World) : Type 0 where
  pub ready : IsReady v garbage
  pub boxes :
      (p : Ptr) (before : CcBox)
      → env.heap p ≡ some before
      → (d : CcBox) × (v.heap p ≡ some d) × Rests garbage p before d
  pub gone : (p : Ptr) → env.heap p ≡ none → v.heap p ≡ none
  pub framed :
      record v { heap = env.heap; possible_cycles = env.possible_cycles; locals = env.locals } ≡ env

-- The heap behind both loops.
abbrev pub Resettled : List Ptr → Heap → Heap → Type 0
Resettled xs h k = (q : Ptr) → k q ≡ (if has q xs then Option.map returned (h q) else h q)

if_same : (t : Bool) → (if t then Option.map returned none else none) ≡ none
if_same true = refl
if_same false = refl

map_twice :
    (o : Option CcBox)
    → Option.map (marked possible_cycles_mark) (Option.map finalized o) ≡ Option.map returned o
map_twice none = refl
map_twice (some b) = refl

pub Resettled-both :
    (xs : List Ptr) (h g k : Heap)
    → Finalized xs h g
    → ((q : Ptr) → k q ≡ (if has q xs then Option.map (marked possible_cycles_mark) (g q) else g q))
    → Resettled xs h k
Resettled-both xs h g k first second q = elim (Bool-cases (has q xs)) [
  | inl inside ↦
      let g-h : g q ≡ Option.map finalized (h q) = first q ∙ rw inside refl in
      second q
      ∙ rw inside (
          ap (λ (o : Option CcBox). Option.map (marked possible_cycles_mark) o) g-h
          ∙ map_twice (h q))
  | inr outside ↦ let g-h : g q ≡ h q = first q ∙ rw outside refl in second q ∙ rw outside g-h
]

module _ (env u : World) (start done : List Ptr) (s : Snapshot) (is : IsSnapshot env u s)
    (traced : IsTraced env start done s) (k : Heap) (after : Resettled s.non_roots u.heap k) where
  box_rests :
      (p : Ptr) (before : CcBox)
      → env.heap p ≡ some before
      → (d : CcBox) × (k p ≡ some d) × Rests s.non_roots p before d
  box_rests p before e =
      let (b, at, looks) = is.boxes p before e in
      elim (Bool-cases (has p s.non_roots)) [
        | inl inside ↦
            let shown : view (returned b).counter_marker ≡ record (view before.counter_marker) {
              mark = possible_cycles_mark;
              tracing = 0;
              finalized = true;
            } =
              view-returned b looks.words
              ∙ ap
                  (λ (v : View). record v {
                    mark = possible_cycles_mark;
                    tracing = 0;
                    finalized = true;
                  })
                  looks.shown in
            (
              returned b,
              after p ∙ rw inside (ap (λ (o : Option CcBox). Option.map returned o) at),
              record {
                words = returned-IsWords b looks.words;
                elem = (finalized-payload b).0 ∙ looks.elem;
                metadata = (finalized-payload b).1 ∙ looks.metadata;
                mark = ap (λ (v : View). v.mark) shown ∙ rw inside refl;
                tracing = λ i. ap (λ (v : View). v.tracing) shown;
                count = ap (λ (v : View). v.count) shown;
                flag = ap (λ (v : View). v.metadata) shown;
                finalized = ap (λ (v : View). v.finalized) shown ∙ rw inside refl;
              },
            )
        | inr outside ↦ (
          b,
          after p ∙ rw outside at,
          record {
            words = looks.words;
            elem = looks.elem;
            metadata = looks.metadata;
            mark = ap (λ (v : View). v.mark) looks.shown ∙ traced.marks p ∙ rw outside refl;
            tracing = λ i. absurd (ground (arith, i, outside));
            count = ap (λ (v : View). v.count) looks.shown;
            flag = ap (λ (v : View). v.metadata) looks.shown;
            finalized = ap (λ (v : View). v.finalized) looks.shown ∙ rw outside refl;
          },
        )
      ]

  still_gone : (p : Ptr) → env.heap p ≡ none → k p ≡ none
  still_gone p e =
      after p
      ∙ ap (λ (o : Option CcBox). if has p s.non_roots then Option.map returned o else o)
          (is.gone p e)
      ∙ if_same (has p s.non_roots)

  -- Every box that is there was there.
  was_there :
      (p : Ptr) (d : CcBox)
      → k p ≡ some d
      → (before : CcBox) × (env.heap p ≡ some before) × Rests s.non_roots p before d
  was_there p d at = elim (Option-cases (env.heap p)) [
    | inl e ↦ absurd (ground (arith, still_gone p e, at))
    | inr (before, e) ↦
        let (x, atx, rests) = box_rests p before e in
        let same : x ≡ d = ground (arith, at, atx) in
        (before, e, subst (λ (y : CcBox). Rests s.non_roots p before y) same rests)
  ]

  links_kept :
      (p : Ptr) (d : CcBox) → p ∉ s.non_roots → k p ≡ some d → (d.next ≡ none) × (d.prev ≡ none)
  links_kept p d outside at = is.loose p d (sym (after p ∙ rw outside refl) ∙ at) (
      ground (
        arith,
        outside,
        ap (has p) traced.no_buffered,
        ap (has p) traced.no_roots,
        ap (has p) traced.no_queued,
      ))

  mark_shown :
      (t : Bool)
      → (is_mark possible_cycles_mark (if t then possible_cycles_mark else non_marked_mark) ≡ t)
        × (is_unmarked (if t then possible_cycles_mark else non_marked_mark) ≡ true)
  mark_shown true = (refl, refl)
  mark_shown false = (refl, refl)

  back-IsBuffered : (pc : PossibleCycles) → IsBuffer k pc s.non_roots → IsBuffered k pc s.non_roots
  back-IsBuffered pc buffer = record {
    buffer = buffer;
    words = λ p d at. let (before, e, rests) = was_there p d at in rests.words;
    marked = λ p d at.
        let (before, e, rests) = was_there p d at in
        is_in_possible_cycles-view rests.words
        ∙ ap (λ (m : Mark). is_mark possible_cycles_mark m) rests.mark
        ∙ (mark_shown (has p s.non_roots)).0;
    loose = λ p d at outside o. links_kept p d outside at;
  }

  pub back-Returns :
      (pc : PossibleCycles) (v : World)
      → v.heap ≡ k
      → v.possible_cycles ≡ pc
      → v.locals ≡ no_locals
      → record v { heap = env.heap; possible_cycles = env.possible_cycles; locals = env.locals }
        ≡ env
      → IsBuffer k pc s.non_roots
      → Returns env s.non_roots v
  back-Returns pc v heap cycles locals framed buffer =
      let there = λ (p : Ptr) (d : CcBox) (at : v.heap p ≡ some d).
        was_there p d (sym (ap (λ (h : Heap). h p) heap) ∙ at) in
      record {
        ready = record {
          buffered = rw (heap, cycles) (back-IsBuffered pc buffer);
          unlisted = λ p d at.
              let (before, e, rests) = there p d at in
              is_in_list_or_queue-view rests.words
              ∙ ap (λ (m : Mark). not (is_unmarked m)) rests.mark
              ∙ ap not (mark_shown (has p s.non_roots)).1;
          reset = λ p d at i.
              let (before, e, rests) = there p d at in
              tracing_counter-view rests.words ∙ rests.tracing i;
          no_lists = locals;
        };
        boxes = λ p before e.
            let (d, at, rests) = box_rests p before e in
            (d, ap (λ (h : Heap). h p) heap ∙ at, rests);
        gone = λ p e. ap (λ (h : Heap). h p) heap ∙ still_gone p e;
        framed = framed;
      }
