-- ===== src/Cc/Freed.antt =====
-- What the last use of an allocation leaves behind, in `Drop for Cc` and `try_unwrap` of src/cc.rs.
use mathlib.Core.Option
use rust_cc.Prelude.{
  ℕ, Option, ◌==◌, if◌then◌else◌, ◌^◌, ◌<◌, ◌≡◌, ◌≢◌, refl, true, false, none, some, List, arith,
  Bool-cases, inl, inr, ◌∙◌, ap, sym, subst, length,
}
use rust_cc.WeakCounterMarker
use rust_cc.CounterMarker.{CounterMarker, mark, non_marked_mark, has_allocated_for_metadata}
use rust_cc.CounterMarker.View.{View, IsWords}
use rust_cc.CounterMarker.Laws.{has_allocated_for_metadata-view, view-mark}
use rust_cc.CounterMarker.Refinement.{mark-IsWords}
use rust_cc.Heap.{Ptr, CcBox, Heap, VTable, vtable_member, boxed_member, BoxedMetadata, write}
use rust_cc.Lists.Chain.{has, erase, unlinked}
use rust_cc.Lists.PossibleCycles.{PossibleCycles}
use rust_cc.State.{record_deallocation}
use rust_cc.World.{World, Run, ok}
use rust_cc.CcBox.{layout, vtable_of, release_metadata, drop_metadata, cc_dealloc, remove_from_list}
use rust_cc.Cc.{mark_alive}
use rust_cc.Cc.Clone.{mark_alive-out, erase-absent}
use rust_cc.Buffered.{IsBuffered}
use rust_cc.Buffered.Change.{payload-there, metadata-there}
use rust_cc.Buffered.Remove.{remove_from_list-IsBuffered}
use rust_cc.Buffered.Marker.{remarked, remarked_self, remarked-other, as_ref-at}

-- What is left of the metadata of a box that goes.
abbrev pub left_of : BoxedMetadata → Option BoxedMetadata
left_of m =
    if WeakCounterMarker.counter m.weak_counter_marker == 0
    then none
    else some (record m {
      weak_counter_marker = WeakCounterMarker.set_accessible false m.weak_counter_marker;
    })

-- The size of the allocation of a box, and the metadata of all boxes behind the box's release. A box
-- that never had a weak pointer holds its layout itself; otherwise its metadata holds it, and goes
-- with the box unless weak pointers are left, which find it marked as inaccessible then.
pub data Release (metadata : Ptr → Option BoxedMetadata) (b : CcBox)
    : ℕ → (Ptr → Option BoxedMetadata) → Type 0 where
  unboxed :
      (v : VTable)
      → has_allocated_for_metadata b.counter_marker ≡ false
      → b.metadata ≡ vtable_member v
      → Release metadata b v.layout_size metadata
  in_box :
      (q : Ptr) (m : BoxedMetadata)
      → has_allocated_for_metadata b.counter_marker ≡ true
      → b.metadata ≡ boxed_member q
      → metadata q ≡ some m
      → Release metadata b m.vtable.layout_size (λ r. if r == q then left_of m else metadata r)

pub Release-alike :
    {metadata : Ptr → Option BoxedMetadata} (b d : CcBox) {size : ℕ}
    {behind : Ptr → Option BoxedMetadata}
    → has_allocated_for_metadata d.counter_marker ≡ has_allocated_for_metadata b.counter_marker
    → d.metadata ≡ b.metadata
    → Release metadata b size behind
    → Release metadata d size behind
Release-alike b d flag meta (unboxed v plain held) = unboxed v (flag ∙ plain) (meta ∙ held)
Release-alike b d flag meta (in_box q m full held at) = in_box q m (flag ∙ full) (meta ∙ held) at

pub layout-at :
    (w : World) (p : Ptr) (b : CcBox) {size : ℕ} {behind : Ptr → Option BoxedMetadata}
    → w.heap p ≡ some b
    → Release w.metadata b size behind
    → layout p w ≡ ok size w
unfolding layout vtable_of
layout-at w p b at (unboxed v plain held) = rw (as_ref-at w.heap p b at) (rw (plain, held) refl)
layout-at w p b at (in_box q m full held atm) =
    rw (as_ref-at w.heap p b at) (rw (full, held) (rw atm refl))

release_metadata-at :
    (w : World) (q : Ptr) (m : BoxedMetadata)
    → w.metadata q ≡ some m
    → release_metadata q w
      ≡ ok tt (record w { metadata = λ r. if r == q then left_of m else w.metadata r })
unfolding release_metadata
release_metadata-at w q m at =
    elim (Bool-cases (WeakCounterMarker.counter m.weak_counter_marker == 0)) [
      | inl e ↦ rw at (rw e refl)
      | inr e ↦ rw at (rw e refl)
    ]

pub drop_metadata-at :
    (w : World) (p : Ptr) (b : CcBox) {size : ℕ} {behind : Ptr → Option BoxedMetadata}
    → w.heap p ≡ some b
    → Release w.metadata b size behind
    → drop_metadata p w ≡ ok tt (record w { metadata = behind })
unfolding drop_metadata
drop_metadata-at w p b at (unboxed v plain held) = rw (as_ref-at w.heap p b at, plain) refl
drop_metadata-at w p b at (in_box q m full held atm) =
    rw (as_ref-at w.heap p b at, full) (rw held (release_metadata-at w q m atm))

pub cc_dealloc-at :
    (w : World) (p : Ptr) (b : CcBox) (size : ℕ)
    → w.heap p ≡ some b
    → cc_dealloc p size w
      ≡ ok tt (record w { heap = write w.heap p none; state = record_deallocation size w.state })
unfolding cc_dealloc
cc_dealloc-at w p b size at = rw (as_ref-at w.heap p b at) refl

marked-plain :
    (c : CounterMarker)
    → IsWords c
    → has_allocated_for_metadata (mark non_marked_mark c) ≡ has_allocated_for_metadata c
marked-plain c w =
    has_allocated_for_metadata-view (mark-IsWords w non_marked_mark)
    ∙ ap (λ (v : View). v.metadata) (view-mark w non_marked_mark)
    ∙ sym (has_allocated_for_metadata-view w)

-- Wherever the box was, it leaves the buffer, and what holds its layout stays as it was.
pub remove_from_list-kept :
    (w : World) (xs : List Ptr) (p : Ptr) (b : CcBox)
    → IsBuffered w.heap w.possible_cycles xs
    → w.cycles_accessible ≡ true
    → w.heap p ≡ some b
    → length xs < 2 ^ 64
    → (pc : PossibleCycles) × (g : Heap) × (d : CcBox) × (remove_from_list p w
        ≡ ok tt (record w { heap = g; possible_cycles = pc }))
      × IsBuffered g pc (erase p xs)
      × (g p ≡ some d)
      × (has_allocated_for_metadata d.counter_marker ≡ has_allocated_for_metadata b.counter_marker)
      × (d.metadata ≡ b.metadata)
      × (d.elem ≡ b.elem)
      × ((q : Ptr) → q ≢ p → Option.map unlinked (g q) ≡ Option.map unlinked (w.heap q))
unfolding mark_alive
remove_from_list-kept w xs p b is reach at fits = elim (Bool-cases (has p xs)) [
  | inl i ↦
      let c = mark non_marked_mark b.counter_marker in
      let h = remarked w.heap p b c in
      let at' = remarked_self w.heap p b at c in
      let (pc, g, ran, is', loose, pay) = remove_from_list-IsBuffered w xs p b is reach at i fits in
      let (d, atd, same) = payload-there h g p (record b { counter_marker = c }) at' (pay p) in
      (
        pc,
        g,
        d,
        ran,
        is',
        atd,
        ap has_allocated_for_metadata same ∙ marked-plain b.counter_marker (is.words p b at),
        (metadata-there h g p (record b { counter_marker = c }) d at' atd (pay p)).0,
        (metadata-there h g p (record b { counter_marker = c }) d at' atd (pay p)).1,
        λ q ne. pay q ∙ ap (Option.map unlinked) (remarked-other w.heap p b at c q ne),
      )
  | inr o ↦ (
    w.possible_cycles,
    w.heap,
    b,
    mark_alive-out w p b at (is.marked p b at ∙ o),
    subst (λ (ys : List Ptr). IsBuffered w.heap w.possible_cycles ys) (sym (erase-absent p xs o))
        is,
    at,
    refl,
    refl,
    refl,
    λ q ne. refl,
  )
]

pub freed-other :
    (g : Heap) (p : Ptr) (d : CcBox) (c : CounterMarker) (q : Ptr)
    → q ≢ p
    → write (remarked g p d c) p none q ≡ g q
unfolding write
freed-other g p d c q ne = ground arith

-- `r` ends normally with `a`; nothing is left of the box at `p`, and the state no longer counts its
-- bytes; the metadata is `behind`; all other boxes are as they were, but for their links.
abbrev pub Freed :
    {A : Type 0} → A → World → List Ptr → Ptr → ℕ → (Ptr → Option BoxedMetadata) → Run A → Type 0
Freed a w ys p size behind r =
    (pc : PossibleCycles) × (g : Heap) × (r
      ≡ ok a (record w {
        heap = g;
        metadata = behind;
        possible_cycles = pc;
        state = record_deallocation size w.state;
      }))
    × IsBuffered g pc ys
    × (g p ≡ none)
    × ((q : Ptr) → q ≢ p → Option.map unlinked (g q) ≡ Option.map unlinked (w.heap q))
