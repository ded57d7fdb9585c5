-- ===== src/Sweep/Same.antt =====
-- Behind a pass that put the garbage back, the objects are those that the collection in src/lib.rs
-- started with.
use rust_cc.Prelude.{
  ℕ, ◌+◌, ◌≡◌, ◌↔◌, refl, some, List, [], ◌∷◌, arith, Option-cases, inl, inr, ◌∙◌, ap, ap₂, sym,
  subst,
}
use rust_cc.CounterMarker.{has_allocated_for_metadata}
use rust_cc.CounterMarker.Laws.{has_allocated_for_metadata-view}
use rust_cc.Heap.{Ptr, CcBox, Elem}
use rust_cc.Lists.Chain.{◌∈◌}
use rust_cc.World.{World}
use rust_cc.Tracing.Graph.{
  count, count_in, edges, edges_in, occ, inbound, Reach, here, next, IsTraceable, HasLayout,
  LayoutOf,
}
use rust_cc.Tracing.Layout.{LayoutOf-kept}
use rust_cc.Tracing.Counting.{Origin}
use rust_cc.Tracing.Rooting.{IsHeld}
use rust_cc.Sweep.PutBack.{Returns, Rests}

-- The same pointers and counts.
pub record IsSame (env v : World) : Type 0 where
  pub edges : (p : Ptr) → edges v p ≡ edges env p
  pub count : (p : Ptr) → count v p ≡ count env p

module _ (env v : World) (same : IsSame env v) where
  pub inbound-IsSame : (p : Ptr) (ps : List Ptr) → inbound v p ps ≡ inbound env p ps
  inbound-IsSame p [] = refl
  inbound-IsSame p (x ∷ xs) =
      ap₂ (λ (es : List Ptr) (n : ℕ). occ p es + n) (same.edges x) (inbound-IsSame p xs)

  pub Reach-to : (p q : Ptr) → Reach v p q → Reach env p q
  Reach-to p r here = here
  Reach-to p r (next {q} path j) =
      next (Reach-to p q path) (subst (λ (es : List Ptr). r ∈ es) (same.edges q) j)

  pub Reach-from : (p q : Ptr) → Reach env p q → Reach v p q
  Reach-from p r here = here
  Reach-from p r (next {q} path j) =
      next (Reach-from p q path) (subst (λ (es : List Ptr). r ∈ es) (sym (same.edges q)) j)

  pub Origin-IsSame : (start : List Ptr) (p : Ptr) → Origin v start p ↔ Origin env start p
  Origin-IsSame start p = (
    λ o. let (b, i, path) = o in (b, i, Reach-to b p path),
    λ o. let (b, i, path) = o in (b, i, Reach-from b p path),
  )

  pub IsHeld-IsSame : (done : List Ptr) (p : Ptr) → IsHeld v done p ↔ IsHeld env done p
  IsHeld-IsSame done p = (
    λ o.
        let (r, i, unequal, path) = o in
        (r, i, λ e. unequal (inbound-IsSame r done ∙ e ∙ sym (same.count r)), Reach-to r p path),
    λ o.
        let (r, i, unequal, path) = o in
        (r, i, λ e. unequal (sym (inbound-IsSame r done) ∙ e ∙ same.count r), Reach-from r p path),
  )

module _ (env v : World) (garbage : List Ptr) (back : Returns env garbage v) where
  pub Returns-IsSame : IsSame env v
  Returns-IsSame = record {
    edges = λ p. elim (Option-cases (env.heap p)) [
      | inl e ↦ ap edges_in (back.gone p e ∙ sym e)
      | inr (before, e) ↦
          let (d, at, rests) = back.boxes p before e in
          ap edges_in at ∙ ap (λ (t : Elem). t.traced) rests.elem ∙ ap edges_in (sym e)
    ];
    count = λ p. elim (Option-cases (env.heap p)) [
      | inl e ↦ ap count_in (back.gone p e ∙ sym e)
      | inr (before, e) ↦
          let (d, at, rests) = back.boxes p before e in
          ap count_in at ∙ rests.count ∙ ap count_in (sym e)
    ];
  }

  -- Every box was there.
  pub was :
      (p : Ptr) (d : CcBox)
      → v.heap p ≡ some d
      → (before : CcBox) × (env.heap p ≡ some before) × Rests garbage p before d
  was p d at = elim (Option-cases (env.heap p)) [
    | inl e ↦ absurd (ground (arith, back.gone p e, at))
    | inr (before, e) ↦
        let (x, atx, rests) = back.boxes p before e in
        let one : x ≡ d = ground (arith, at, atx) in
        (before, e, subst (λ (y : CcBox). Rests garbage p before y) one rests)
  ]

  HasLayout-Rests :
      (p : Ptr) (before d : CcBox)
      → HasLayout env before
      → has_allocated_for_metadata d.counter_marker
        ≡ has_allocated_for_metadata before.counter_marker
      → d.metadata ≡ before.metadata
      → HasLayout v d
  HasLayout-Rests p before d l flag metadata = subst (LayoutOf v d) (sym flag) (
      LayoutOf-kept env v before d (has_allocated_for_metadata before.counter_marker)
        (λ q m held at. (m, ap (λ (u : World). u.metadata q) back.framed ∙ at)) metadata l)

  pub Returns-IsTraceable : IsTraceable env → IsTraceable v
  Returns-IsTraceable good = record {
    words = λ p d at. let (before, e, rests) = was p d at in rests.words;
    layouts = λ p d at.
        let (before, e, rests) = was p d at in
        HasLayout-Rests p before d (good.layouts p before e)
          (has_allocated_for_metadata-view rests.words
            ∙ rests.flag
            ∙ sym (has_allocated_for_metadata-view (good.words p before e)))
          rests.metadata;
    calm = λ p d at.
        let (before, e, rests) = was p d at in
        ap (λ (t : Elem). t.trace_panics) rests.elem ∙ good.calm p before e;
    live = λ p e i.
        let (b, at) =
          good.live p e (subst (λ (es : List Ptr). e ∈ es) (Returns-IsSame.edges p) i) in
        let (d, atd, rests) = back.boxes e b at in (d, atd);
    owned = λ ps p distinct. omega (
      arith,
      inbound-IsSame env v Returns-IsSame p ps,
      Returns-IsSame.count p,
      good.owned ps p distinct,
    );
    bounded = λ p. omega (arith, Returns-IsSame.count p, good.bounded p);
  }
