-- ===== src/Sweep/Dealloc.antt =====
-- `deallocate_list` and the finalizers in front of it, in src/lib.rs.
use rust_cc.Prelude.{
  ℕ, zero, suc, ◌<◌, ◌≡◌, refl, true, false, Option, none, some, List, [], ◌∷◌, arith, eq→==, ◌∙◌,
  length, usize_add,
}
use rust_cc.CounterMarker.{is_in_list, needs_finalization}
use rust_cc.CounterMarker.View.{IsWords}
use rust_cc.Heap.{Ptr, CcBox, Heap}
use rust_cc.Lists.LinkedList
use rust_cc.Lists.Chain.{◌∈◌, ◌∉◌, Chain}
use rust_cc.State
use rust_cc.State.{State}
use rust_cc.World.{World, Client, ok, replace_dropping}
use rust_cc.CcBox.{finalize_inner}
use rust_cc.Collector.{finalize_loop, deallocate_list}
use rust_cc.Tracing.Graph.{Distinct}
use rust_cc.Tracing.Reads.{box_at_run}
use rust_cc.Sweep.{SameBox, Spares, DropsQuietly, Nexts, Readable, Nexts-Spares}
use rust_cc.Sweep.Drops.{
  iter_next_at, drop_elems-Spares, SameBox-refl, Readable-Spares, Spares-trans,
}
use rust_cc.Sweep.Frees.{IsUnshared, dealloc_boxes-frees}

pub Nexts-Chain :
    (h : Heap) (before first : Option Ptr) (xs : List Ptr)
    → ((p : Ptr) (b : CcBox)
        → p ∈ xs
        → h p ≡ some b
        → IsWords b.counter_marker × (is_in_list b.counter_marker ≡ true))
    → Chain h before first xs
    → Nexts h first xs
Nexts-Chain h before first [] all c = c
Nexts-Chain h before first (p ∷ xs) all (e, o, b, at, pre, rest) =
    let (words, inside) = all p b (ground (arith, eq→== p p refl)) at in
    (
      e,
      b,
      at,
      words,
      inside,
      Nexts-Chain h (some p) b.next xs (λ q d i f. all q d (ground (arith, i)) f) rest,
    )

pub Distinct-Chain :
    (h : Heap) (before first : Option Ptr) (xs : List Ptr) → Chain h before first xs → Distinct xs
Distinct-Chain h before first [] c = tt
Distinct-Chain h before first (p ∷ xs) (e, o, b, at, pre, rest) =
    (o, Distinct-Chain h (some p) b.next xs rest)

pub state-Spares : (u : World) (state : State) → Spares u (record u { state = state })
state-Spares u state = record {
  locals = refl;
  metadata = λ q m e. (m, e);
  boxes = λ q b e. (b, e, SameBox-refl b);
}

-- Nothing is left of `garbage`, and all other boxes are there, with their values.
abbrev pub Frees : List Ptr → World → World → Type 0
Frees garbage u v =
    ((q : Ptr) → q ∈ garbage → v.heap q ≡ none)
    × ((q : Ptr) (b : CcBox)
        → q ∉ garbage
        → u.heap q ≡ some b
        → (d : CcBox) × (v.heap q ≡ some d) × SameBox b d)

module _ (fuel : ℕ) (client : Client) where
  -- Where no value needs to be finalized, the finalizers' loop changes nothing.
  pub finalize_loop-idle :
      (k : ℕ) (xs : List Ptr) (first : Option Ptr) (u : World) (size : ℕ)
      → length xs < k
      → Nexts u.heap first xs
      → ((p : Ptr) (b : CcBox)
          → p ∈ xs
          → u.heap p ≡ some b
          → needs_finalization b.counter_marker ≡ false)
      → (n : ℕ) × (finalize_loop fuel client k first false size u ≡ ok (false, n) u)
  unfolding finalize_loop finalize_inner LinkedList.iter_next
  finalize_loop-idle zero xs first u size enough line idle = absurd (ground (arith, enough))
  finalize_loop-idle (suc k) [] first u size enough line idle = (size, rw line refl)
  finalize_loop-idle (suc k) (p ∷ xs) first u size enough (e, b, at, words, inside, rest) idle =
      let (n, ran) =
        finalize_loop-idle k xs b.next u (usize_add size 1) (ground (arith, enough)) rest
          (λ q d i f. idle q d (ground (arith, i)) f) in
      (
        n,
        rw e (
            rw (iter_next_at u.heap p b at)
              (rw (box_at_run u p b at) (rw (idle p b (ground (arith, eq→== p p refl)) at) ran))),
      )

  module _ (env : World) (unshared : IsUnshared env) (garbage : List Ptr) (u : World)
      (enough : length garbage < fuel)
      (chain : Chain u.heap none u.locals.non_root_list.first garbage)
      (line : Nexts u.heap u.locals.non_root_list.first garbage)
      (readable : (p : Ptr) → p ∈ garbage → Readable env u p)
      (quiet : DropsQuietly client garbage
        (record u { state = State.set_dropping true u.state })) where
    pub deallocate_list-Frees :
        (v : World) × (deallocate_list fuel client u ≡ ok tt v) × Frees garbage u v
    unfolding deallocate_list replace_dropping
    deallocate_list-Frees =
        let first = u.locals.non_root_list.first in
        let u1 : World = record u { state = State.set_dropping true u.state } in
        let k1 = state-Spares u (State.set_dropping true u.state) in
        let (v1, ran1, k2) =
          drop_elems-Spares env client fuel fuel garbage first u1 enough line
            (λ p i. Readable-Spares k1 env p (readable p i)) quiet in
        let k = Spares-trans k1 k2 in
        let (v2, ran2, freed) =
          dealloc_boxes-frees fuel client env unshared fuel garbage first v1 enough
            (Nexts-Spares k first garbage line) (Distinct-Chain u.heap none first garbage chain)
            (λ p i. Readable-Spares k env p (readable p i)) in
        (
          record v2 { state = State.set_dropping u.state.dropping v2.state },
          rw ran1 (rw ran2 refl),
          (
            (λ q i. freed q ∙ rw i refl),
            (λ q b o e. let (d, f, same) = k.boxes q b e in (d, freed q ∙ rw o f, same)),
          ),
        )
