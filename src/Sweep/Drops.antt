-- ===== src/Sweep/Drops.antt =====
-- Dropping the values of the garbage: `drop_inner` of src/cc.rs in the first loop of
-- `deallocate_list` of src/lib.rs.
use rust_cc.Prelude.{
  ℕ, zero, suc, ◌<◌, ◌≡◌, refl, true, Option, some, List, [], ◌∷◌, ◌==◌, arith, Bool-cases, inl,
  inr, ==→eq, ==→ne, eq→==, ◌∙◌, ap, sym, subst, length,
}
use rust_cc.CounterMarker.{
  is_in_list, in_list_mark, CounterMarker, set_dropped, has_allocated_for_metadata,
}
use rust_cc.CounterMarker.View.{is_mark, View, IsWords}
use rust_cc.CounterMarker.Laws.{is_in_list-view, has_allocated_for_metadata-view, view-set_dropped}
use rust_cc.CounterMarker.Refinement.{set_dropped-IsWords}
use rust_cc.Heap.{Ptr, CcBox, Heap, as_ref}
use rust_cc.Lists.LinkedList
use rust_cc.Lists.Chain.{◌∈◌}
use rust_cc.World.{World, Client, ok}
use rust_cc.CcBox.{drop_inner}
use rust_cc.Collector.{drop_elems}
use rust_cc.Buffered.Marker.{remarked, remarked_self, remarked-other, update_marker-remarked}
use rust_cc.Tracing.Graph.{HasLayout, LayoutOf}
use rust_cc.Tracing.Reads.{box_at_run}
use rust_cc.Tracing.Layout.{vtable_of_at, LayoutOf-kept}
use rust_cc.Sweep.{SameBox, Spares, Keeps, flagged, DropsQuietly, Nexts, Readable, Nexts-Spares}

pub SameBox-refl : (b : CcBox) → SameBox b b
SameBox-refl b = record {
  listed = λ w i. (i, refl);
  metadata = refl;
  elem = refl;
  marker = λ w. (w, refl);
}

pub Spares-trans : {u v w : World} → Spares u v → Spares v w → Spares u w
Spares-trans k l = record {
  locals = l.locals ∙ k.locals;
  metadata = λ q m e. let (n, f) = k.metadata q m e in l.metadata q n f;
  boxes = λ q b e.
      let (d, f, same) = k.boxes q b e in
      let (x, g, again) = l.boxes q d f in
      (
        x,
        g,
        record {
          listed = λ w i.
              let (i1, n1) = same.listed w i in
              let (i2, n2) = again.listed (same.marker w).0 i1 in (i2, n2 ∙ n1);
          metadata = again.metadata ∙ same.metadata;
          elem = again.elem ∙ same.elem;
          marker =
              λ w. let (w1, f1) = same.marker w in let (w2, f2) = again.marker w1 in (w2, f2 ∙ f1);
        },
      );
}

pub Spares-refl : (w : World) → Spares w w
Spares-refl w = record {
  locals = refl;
  metadata = λ q m e. (m, e);
  boxes = λ q b e. (b, e, SameBox-refl b);
}

pub iter_next_at :
    (h : Heap) (p : Ptr) (b : CcBox)
    → h p ≡ some b
    → LinkedList.iter_next (some p) h ≡ some (some (p, b.next), h)
unfolding LinkedList.iter_next as_ref
iter_next_at h p b at = ground arith

dropped_marker :
    (c : CounterMarker)
    → IsWords c
    → has_allocated_for_metadata (set_dropped true c) ≡ has_allocated_for_metadata c
dropped_marker c w =
    has_allocated_for_metadata-view (set_dropped-IsWords w true)
    ∙ ap (λ (v : View). v.metadata) (view-set_dropped w true)
    ∙ sym (has_allocated_for_metadata-view w)

dropped-is_in_list :
    (c : CounterMarker) → IsWords c → is_in_list (set_dropped true c) ≡ is_in_list c
dropped-is_in_list c w =
    is_in_list-view (set_dropped-IsWords w true)
    ∙ ap (λ (v : View). is_mark in_list_mark v.mark) (view-set_dropped w true)
    ∙ sym (is_in_list-view w)

-- Another marker, as far as a collection reads it, is not missed.
pub remarked-Spares :
    (w : World) (p : Ptr) (b : CcBox) (c : CounterMarker)
    → w.heap p ≡ some b
    → (IsWords b.counter_marker
        → IsWords c
          × (is_in_list c ≡ is_in_list b.counter_marker)
          × (has_allocated_for_metadata c ≡ has_allocated_for_metadata b.counter_marker))
    → Spares w (record w { heap = remarked w.heap p b c })
remarked-Spares w p b c at alike = record {
  locals = refl;
  metadata = λ q m e. (m, e);
  boxes = λ q d e. elim (Bool-cases (q == p)) [
    | inl hit ↦
        let same : b ≡ d = ground (arith, at, e, ap w.heap (==→eq q p hit)) in
        (
          record b { counter_marker = c },
          ap (remarked w.heap p b c) (==→eq q p hit) ∙ remarked_self w.heap p b at c,
          subst (λ (x : CcBox). SameBox x (record b { counter_marker = c })) same
              (record {
                listed = λ f i. ((alike f).1 ∙ i, refl);
                metadata = refl;
                elem = refl;
                marker = λ f. ((alike f).0, (alike f).2);
              }),
        )
    | inr miss ↦ (d, remarked-other w.heap p b at c q (==→ne q p miss) ∙ e, SameBox-refl d)
  ];
}

module _ (w : World) (p : Ptr) (b : CcBox) (at : w.heap p ≡ some b) where
  pub flagged-Spares : Spares w (flagged w p b)
  flagged-Spares = remarked-Spares w p b (set_dropped true b.counter_marker) at (λ f. (
    set_dropped-IsWords f true,
    dropped-is_in_list b.counter_marker f,
    dropped_marker b.counter_marker f,
  ))

module _ {u v : World} (k : Spares u v) where
  pub HasLayout-Spares :
      (b d : CcBox) → SameBox b d → IsWords b.counter_marker → HasLayout u b → HasLayout v d
  HasLayout-Spares b d same words l = subst (LayoutOf v d) (sym (same.marker words).1) (
      LayoutOf-kept u v b d (has_allocated_for_metadata b.counter_marker)
        (λ q m held e. k.metadata q m e) same.metadata l)

  pub Readable-Spares : (env : World) (p : Ptr) → Readable env u p → Readable env v p
  Readable-Spares env p (before, b, e, at, meta, words, l) =
      let (d, atd, same) = k.boxes p b at in
      (
        before,
        d,
        e,
        atd,
        same.metadata ∙ meta,
        (same.marker words).0,
        HasLayout-Spares b d same words l,
      )

  pub Keeps-Spares : (env : World) → Keeps env u → Keeps env v
  Keeps-Spares env all q b e =
      let (d, f, el) = all q b e in let (x, g, same) = k.boxes q d f in (x, g, same.elem ∙ el)

module _ (env : World) (client : Client) where
  drop_inner-run :
      (u v : World) (p : Ptr) (b : CcBox)
      → u.heap p ≡ some b
      → Readable env u p
      → client.drop_elem p (flagged u p b) ≡ ok tt v
      → drop_inner client p u ≡ ok tt v
  unfolding drop_inner
  drop_inner-run u v p b at (before, d, e, atd, meta, words, l) ran =
      let same : d ≡ b = ground (arith, at, atd) in
      let u1 = flagged u p b in
      let (x, atx, kept) = (flagged-Spares u p b at).boxes p b at in
      let (table, called) = vtable_of_at u1 x (
        HasLayout-Spares (flagged-Spares u p b at) b x kept
          (subst (λ (y : CcBox). IsWords y.counter_marker) same words)
          (subst (λ (y : CcBox). HasLayout u y) same l)) in
      rw (update_marker-remarked u.heap p b (set_dropped true) at)
        (rw (box_at_run u1 p x atx) (rw called ran))

  pub drop_elems-Spares :
      (fuel k : ℕ) (xs : List Ptr) (first : Option Ptr) (u : World)
      → length xs < k
      → Nexts u.heap first xs
      → ((p : Ptr) → p ∈ xs → Readable env u p)
      → DropsQuietly client xs u
      → (v : World) × (drop_elems fuel client k first u ≡ ok tt v) × Spares u v
  unfolding drop_elems LinkedList.iter_next
  drop_elems-Spares fuel zero xs first u enough line all quiet = absurd (ground (arith, enough))
  drop_elems-Spares fuel (suc k) [] first u enough line all quiet = (u, rw line refl, Spares-refl u)
  drop_elems-Spares fuel (suc k) (p ∷ xs) first u enough (e, b, at, words, inside, rest) all quiet =
      let (v, dropped, k0, quiet2) = quiet b at in
      let k1 = Spares-trans (flagged-Spares u p b at) k0 in
      let ran = drop_inner-run u v p b at (all p (ground (arith, eq→== p p refl))) dropped in
      let (v2, ran2, k2) =
        drop_elems-Spares fuel k xs b.next v (ground (arith, enough))
          (Nexts-Spares k1 b.next xs rest)
          (λ q i. Readable-Spares k1 env q (all q (ground (arith, i)))) quiet2 in
      (v2, rw e (rw (iter_next_at u.heap p b at) (rw ran ran2)), Spares-trans k1 k2)
