-- ===== src/Tracing/Rooting/Element.antt =====
-- One element of the root tracing phase: `__trace_roots` of src/lib.rs.
use rust_cc.Prelude.{
  ◌≡◌, refl, false, some, List, [], ◌∷◌, ◌==◌, arith, Bool-cases, inl, inr, ==→eq, eq→==, ◌∙◌, ap,
  sym, subst,
}
use rust_cc.Heap.{Ptr, Elem, CcBox}
use rust_cc.Lists.Chain.{◌∈◌, ◌∉◌}
use rust_cc.World.{World}
use rust_cc.Collector.{trace_all, trace_inner, root_tracing}
use rust_cc.Tracing.{Snapshot, IsSnapshot, Leads}
use rust_cc.Tracing.Graph.{edges, edges_in, IsTraceable, next}
use rust_cc.Tracing.Reads.{box_at_run}
use rust_cc.Tracing.Layout.{vtable_of_run}
use rust_cc.Tracing.Rooting.{PlacedAt, IsHeld, IsRooting, Roots}
use rust_cc.Tracing.Rooting.Edge.{trace-Roots}

module _ (env : World) (done : List Ptr) (good : IsTraceable env)
    (alive : (p : Ptr) → p ∈ done → (b : CcBox) × (env.heap p ≡ some b))
    (closed : (p e : Ptr) → p ∈ done → e ∈ edges env p → e ∈ done) where
  trace_all-Roots :
      (busy gone xs : List Ptr) (w : World) (s : Snapshot)
      → IsSnapshot env w s
      → IsRooting env done s busy gone
      → ((q : Ptr) → q ∈ xs → (q ∈ done) × IsHeld env done q)
      → Roots env done busy gone xs s (trace_all root_tracing xs w)
  unfolding trace_all
  trace_all-Roots busy gone [] w s is k known =
      (s, (w, refl, is), k, refl, (λ q o. o), (λ q i. absurd (ground (arith, i))))
  trace_all-Roots busy gone (x ∷ xs) w s is k known =
      let (i, held) = known x (ground (arith, eq→== x x refl)) in
      let (before, e) = alive x i in
      let (t, (v, ran, is1), k1, same, less, free) =
        trace-Roots env w done busy gone s is k x before e i held in
      let (u, (v2, ran2, is2), k2, same2, less2, free2) =
        trace_all-Roots busy gone xs v t is1 k1 (λ q j. known q (ground (arith, j))) in
      (
        u,
        (v2, rw ran ran2, is2),
        k2,
        same2 ∙ same,
        (λ q o. less2 q (less q o)),
        (λ q j. elim (Bool-cases (q == x)) [
          | inl hit ↦ less2 q (free q (ground (arith, hit)))
          | inr miss ↦ free2 q (ground (arith, j, miss))
        ]),
      )

  -- One element, which was taken from its list.
  module _ (gone : List Ptr) (w : World) (s : Snapshot) (p : Ptr) (is : IsSnapshot env w s)
      (k : IsRooting env done s (p ∷ []) gone) where
    counted : p ∈ done
    counted = ground (arith, (k.placed p).settled, eq→== p p refl)

    free : p ∉ s.non_roots
    free = ground (arith, (k.placed p).out, eq→== p p refl)

    pub trace_inner-Roots :
        (t : Snapshot) × Leads env tt t (trace_inner root_tracing p w)
        × IsRooting env done t [] (p ∷ gone)
        × (t.roots ≡ s.roots)
    unfolding trace_inner
    trace_inner-Roots =
        let (before, e) = alive p counted in
        let (b, at, looks) = is.boxes p before e in
        let (table, called) = vtable_of_run env w s is good p before b e looks in
        let traced : edges env p ≡ b.elem.traced =
          ap edges_in e ∙ ap (λ (x : Elem). x.traced) (sym looks.elem) in
        let calm : b.elem.trace_panics ≡ false =
          ap (λ (x : Elem). x.trace_panics) looks.elem ∙ good.calm p before e in
        let (r, i, unequal, path) = k.held p counted free in
        let (t, (v, ran, is1), k1, same, less, found) =
          trace_all-Roots (p ∷ []) gone (edges env p) w s is k
            (λ q j. (closed p q counted j, (r, i, unequal, next path j))) in
        (
          t,
          (v, rw (box_at_run w p b at) (rw called (rw (sym traced) (rw ran (rw calm refl)))), is1),
          record {
            placed = λ q. moved t q (k1.placed q);
            held = k1.held;
            spread = λ x y j l. elim (Bool-cases (x == p)) [
              | inl hit ↦ found y (subst (λ (z : Ptr). y ∈ edges env z) (==→eq x p hit) l)
              | inr miss ↦ k1.spread x y (ground (arith, j, miss)) l
            ];
          },
          same,
        )
      where
        moved :
            (t : Snapshot) (q : Ptr)
            → PlacedAt env done t (p ∷ []) gone q
            → PlacedAt env done t [] (p ∷ gone) q
        moved t q f = record {
          marks = f.marks;
          empty = f.empty;
          tracked = f.tracked;
          short = f.short;
          full = f.full;
          settled = ground (arith, f.settled);
          out = λ z. ground (arith, f.out, z);
        }
