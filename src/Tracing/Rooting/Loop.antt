-- ===== src/Tracing/Rooting/Loop.antt =====
-- The two loops of `trace_roots` in src/lib.rs.
use rust_cc.Prelude.{
  ℕ, zero, suc, ◌+◌, ◌≤◌, ◌<◌, ◌≡◌, ◌≢◌, refl, true, Option, some, List, [], ◌∷◌, ◌==◌, arith,
  Bool-cases, inl, inr, ==→eq, ==→ne, eq→==, ne→==, ◌∙◌, ap, sym, subst, length,
}
use rust_cc.CounterMarker.{non_marked_mark}
use rust_cc.Heap.{Ptr, CcBox}
use rust_cc.Lists.Chain.{has, ◌∈◌, ◌∉◌}
use rust_cc.World.{World, Cmd, ok}
use rust_cc.Collector.{
  trace_inner, trace_roots, root_tracing, root_remove_first, queue_poll, while_some,
}
use rust_cc.Tracing.{Snapshot, IsSnapshot, Leads, copies}
use rust_cc.Tracing.Graph.{edges, Distinct, IsTraceable}
use rust_cc.Tracing.Finite.{Distinct-length}
use rust_cc.Tracing.Takes.{
  freed_from, root_remove_first-none, root_remove_first-Leads, queue_poll-none, queue_poll-Leads,
}
use rust_cc.Tracing.Rooting.{PlacedAt, IsRooting}
use rust_cc.Tracing.Rooting.Element.{trace_inner-Roots}

module _ (env : World) (done : List Ptr) (good : IsTraceable env)
    (alive : (p : Ptr) → p ∈ done → (b : CcBox) × (env.heap p ≡ some b))
    (closed : (p e : Ptr) → p ∈ done → e ∈ edges env p → e ∈ done) where
  gone_short :
      (s : Snapshot) (gone : List Ptr)
      → IsRooting env done s [] gone
      → Distinct gone
      → length gone ≤ length done
  gone_short s gone k d =
      Distinct-length gone done d (λ q i. ground (arith, (k.placed q).settled, i))

  module _ (w : World) (s : Snapshot) (gone : List Ptr) (is : IsSnapshot env w s)
      (k : IsRooting env done s [] gone) (p : Ptr) (xs : List Ptr) where
    -- `p` was taken from its list, which gives `t`.
    started-IsRooting :
        (t : Snapshot)
        → p ∈ done
        → p ∉ gone
        → copies t p ≡ 0
        → t.mark p ≡ non_marked_mark
        → t.tracing p ≡ s.tracing p
        → ((q : Ptr) → q ≢ p → PlacedAt env done t [] gone q)
        → t.non_roots ≡ s.non_roots
        → IsRooting env done t (p ∷ []) gone
    started-IsRooting t i fresh taken unmarked same others kept = record {
      placed = λ q. elim (Bool-cases (q == p)) [
        | inl hit ↦ subst (PlacedAt env done t (p ∷ []) gone) (sym (==→eq q p hit)) here
        | inr miss ↦ rw miss (others q (==→ne q p miss))
      ];
      held = λ q j o. k.held q j (sym (ap (has q) kept) ∙ o);
      spread = λ x y j l. ap (has y) kept ∙ k.spread x y j l;
    }
      where
        here : PlacedAt env done t (p ∷ []) gone p
        here = record {
          marks = ground (arith, unmarked, taken);
          empty = ground (arith, taken);
          tracked = λ z. same ∙ (k.placed p).tracked z;
          short = λ z. ground (arith, z, taken);
          full = λ z. ground (arith, z, taken);
          settled = ground (arith, i, eq→== p p refl);
          out = λ z. ground (arith, taken);
        }

    -- What a round of a loop that takes `p` with `next` does.
    abbrev Round : Cmd (Option Ptr) → List Ptr → Type 0
    Round next roots =
        (v : World) × (t : Snapshot) × (next w ≡ ok (some p) v)
        × Leads env tt t (trace_inner root_tracing p v)
        × IsRooting env done t [] (p ∷ gone)
        × (p ∉ gone)
        × (t.roots ≡ roots)

    root-Round : s.roots ≡ p ∷ xs → Round root_remove_first xs
    root-Round e =
        let (v, ran, is1) = root_remove_first-Leads env w s is p xs e in
        let t : Snapshot = record (freed_from s p) { roots = xs } in
        let inside : has p s.roots ≡ true = ap (has p) e ∙ rw (eq→== p p refl) refl in
        let apart =
          subst (λ (ys : List Ptr). copies (record s { roots = ys }) p ≤ 1) e (is.apart p) in
        let taken : copies t p ≡ 0 = ground (arith, apart, eq→== p p refl) in
        let fresh : p ∉ gone = ground (arith, (k.placed p).out, inside) in
        let counted : p ∈ done = ground (arith, (k.placed p).settled, inside) in
        let others : (q : Ptr) → q ≢ p → PlacedAt env done t [] gone q =
          (λ q ne. rw (ne→== q p ne) (rw (e, ne→== q p ne) at (k.placed q))) in
        let (u, leads, k1, roots) =
          trace_inner-Roots env done good alive closed gone v t p is1
            (started-IsRooting t counted fresh taken (rw (eq→== p p refl) refl) refl others refl) in
        (v, u, ran, leads, k1, fresh, roots)

    queued-Round : s.queued ≡ p ∷ xs → Round queue_poll s.roots
    queued-Round e =
        let (v, ran, is1) = queue_poll-Leads env w s is p xs e in
        let t : Snapshot = record (freed_from s p) { queued = xs } in
        let inside : has p s.queued ≡ true = ap (has p) e ∙ rw (eq→== p p refl) refl in
        let apart =
          subst (λ (ys : List Ptr). copies (record s { queued = ys }) p ≤ 1) e (is.apart p) in
        let taken : copies t p ≡ 0 = ground (arith, apart, eq→== p p refl) in
        let fresh : p ∉ gone = ground (arith, (k.placed p).out, inside) in
        let counted : p ∈ done = ground (arith, (k.placed p).settled, inside) in
        let others : (q : Ptr) → q ≢ p → PlacedAt env done t [] gone q =
          (λ q ne. rw (ne→== q p ne) (rw (e, ne→== q p ne) at (k.placed q))) in
        let (u, leads, k1, roots) =
          trace_inner-Roots env done good alive closed gone v t p is1
            (started-IsRooting t counted fresh taken (rw (eq→== p p refl) refl) refl others refl) in
        (v, u, ran, leads, k1, fresh, roots)

  root_loop :
      (fuel : ℕ) (xs : List Ptr) (w : World) (s : Snapshot) (gone : List Ptr)
      → IsSnapshot env w s
      → IsRooting env done s [] gone
      → Distinct gone
      → s.roots ≡ xs
      → length done < fuel + length gone
      → (t : Snapshot) × (gone' : List Ptr) × Leads env tt t
          (while_some fuel root_remove_first (trace_inner root_tracing) w)
        × (t.roots ≡ [])
        × IsRooting env done t [] gone'
        × Distinct gone'
  unfolding while_some
  root_loop zero xs w s gone is k d e enough =
      absurd (ground (arith, gone_short s gone k d, enough))
  root_loop (suc fuel) [] w s gone is k d e enough =
      (s, gone, (w, rw (root_remove_first-none env w s is e) refl, is), e, k, d)
  root_loop (suc fuel) (p ∷ xs) w s gone is k d e enough =
      let (v, u, ran, (v2, ran2, is2), k2, fresh, roots) = root-Round w s gone is k p xs e in
      let distinct : Distinct (p ∷ gone) = (fresh, d) in
      let (t, gone', (v3, ran3, is3), empty, k3, d3) =
        root_loop fuel xs v2 u (p ∷ gone) is2 k2 distinct roots (ground (arith, enough)) in
      (t, gone', (v3, rw (ran, ran2) ran3, is3), empty, k3, d3)

  queued_loop :
      (fuel : ℕ) (xs : List Ptr) (w : World) (s : Snapshot) (gone : List Ptr)
      → IsSnapshot env w s
      → IsRooting env done s [] gone
      → Distinct gone
      → s.queued ≡ xs
      → s.roots ≡ []
      → length done < fuel + length gone
      → (t : Snapshot) × (gone' : List Ptr) × Leads env tt t
          (while_some fuel queue_poll (trace_inner root_tracing) w)
        × (t.queued ≡ [])
        × (t.roots ≡ [])
        × IsRooting env done t [] gone'
  unfolding while_some
  queued_loop zero xs w s gone is k d e rootless enough =
      absurd (ground (arith, gone_short s gone k d, enough))
  queued_loop (suc fuel) [] w s gone is k d e rootless enough =
      (s, gone, (w, rw (queue_poll-none env w s is e) refl, is), e, rootless, k)
  queued_loop (suc fuel) (p ∷ xs) w s gone is k d e rootless enough =
      let (v, u, ran, (v2, ran2, is2), k2, fresh, roots) = queued-Round w s gone is k p xs e in
      let distinct : Distinct (p ∷ gone) = (fresh, d) in
      let (t, gone', (v3, ran3, is3), over, none_left, k3) =
        queued_loop fuel u.queued v2 u (p ∷ gone) is2 k2 distinct refl (roots ∙ rootless)
          (ground (arith, enough)) in
      (t, gone', (v3, rw (ran, ran2) ran3, is3), over, none_left, k3)

  -- The root tracing phase ends, with nothing left in its list and queue.
  pub trace_roots-ends :
      (fuel : ℕ) (w : World) (s : Snapshot)
      → IsSnapshot env w s
      → IsRooting env done s [] []
      → length done < fuel
      → (t : Snapshot) × (gone : List Ptr) × Leads env tt t (trace_roots fuel w)
        × (t.queued ≡ [])
        × (t.roots ≡ [])
        × IsRooting env done t [] gone
  unfolding trace_roots
  trace_roots-ends fuel w s is k enough =
      let (t, gone, (v, ran, is1), empty, k1, d) =
        root_loop fuel s.roots w s [] is k tt refl (ground (arith, enough)) in
      let (u, gone', (v2, ran2, is2), over, none_left, k2) =
        queued_loop fuel t.queued v t gone is1 k1 d refl empty (ground (arith, enough)) in
      (u, gone', (v2, rw ran ran2, is2), over, none_left, k2)
