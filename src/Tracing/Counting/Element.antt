-- ===== src/Tracing/Counting/Element.antt =====
-- One element of the counting phase: `__trace_counting` of src/lib.rs.
use rust_cc.Prelude.{
  ℕ, ◌+◌, ◌≤◌, ◌≡◌, ◌≢◌, refl, Bool, true, false, not, some, List, [], ◌∷◌, ◌==◌, arith, Bool-cases,
  inl, inr, ==→eq, ==→ne, eq→==, ne→==, ◌∙◌, ap, ap₂, sym, subst,
}
use rust_cc.CounterMarker.{counter, tracing_counter, in_list_mark, in_queue_mark}
use rust_cc.Heap.{Ptr, Elem, CcBox}
use rust_cc.Lists.Chain.{has, ◌∈◌}
use rust_cc.World.{World}
use rust_cc.Collector.{trace_all, trace_inner, classify, trace_counting_one, counting}
use rust_cc.Tracing.{Snapshot, IsSnapshot, Leads, copies, bit}
use rust_cc.Tracing.Graph.{count, edges, edges_in, occ, IsTraceable, next}
use rust_cc.Tracing.Reads.{box_at_run, counter-Looks, tracing_counter-Looks, count-at}
use rust_cc.Tracing.Adds.{root_add-Leads, non_root_add-Leads}
use rust_cc.Tracing.Marks.{with_marker, mark-Leads}
use rust_cc.Tracing.Layout.{vtable_of_run}
use rust_cc.Tracing.Counting.{Origin, IsCounting, Counts}
use rust_cc.Tracing.Counting.Edge.{trace-Counts}
use rust_cc.Tracing.Counting.Kept.{fine-split}
use mathlib.Core.Path.{fun_ext}

plain : (n : ℕ) → n ≡ n + 0
plain n = ground arith

assoc : (a b c : ℕ) → (a + b) + c ≡ a + (b + c)
assoc a b c = ground arith

module _ (env : World) (start : List Ptr) (good : IsTraceable env) where
  pub trace_all-Counts :
      (busy done xs : List Ptr) (w : World) (s : Snapshot) (seen : Ptr → ℕ)
      → IsSnapshot env w s
      → IsCounting env start s busy done seen
      → ((q : Ptr) → seen q + occ q xs ≤ count env q)
      → ((q : Ptr) → q ∈ xs → Origin env start q × ((b : CcBox) × (env.heap q ≡ some b)))
      → Counts env start s.buffered busy done (λ q. seen q + occ q xs) (trace_all counting xs w)
  unfolding trace_all
  trace_all-Counts busy done [] w s seen is c room known = (
    s,
    (w, refl, is),
    refl,
    subst (IsCounting env start s busy done) (fun_ext (λ q. plain (seen q))) c,
  )
  trace_all-Counts busy done (x ∷ xs) w s seen is c room known =
      let (origin, (before, e)) = known x (ground (arith, eq→== x x refl)) in
      let (t, (v, ran, is1), same, c1) =
        trace-Counts env w start busy done s seen is c x before e
          (ground (arith, room x, eq→== x x refl)) (ground (arith, good.bounded x)) origin in
      let (u, (v2, ran2, is2), same2, c2) =
        trace_all-Counts busy done xs v t (λ q. seen q + bit (q == x)) is1 c1
          (λ q. ground (arith, room q)) (λ q i. known q (ground (arith, i))) in
      (
        u,
        (v2, rw ran ran2, is2),
        same2 ∙ same,
        subst (IsCounting env start u busy done)
            (fun_ext (λ q. assoc (seen q) (bit (q == x)) (occ q xs))) c2,
      )

  -- An element was taken, and is marked again; `done` were traced before.
  module _ (done : List Ptr) (w : World) (s : Snapshot) (seen : Ptr → ℕ) (is : IsSnapshot env w s)
      (p : Ptr) (before : CcBox) (e : env.heap p ≡ some before) (fresh : copies s p ≡ 0)
      (c : IsCounting env start (with_marker s p in_queue_mark (s.tracing p)) (p ∷ []) done seen)
      (room : (q : Ptr) → seen q + occ q (edges env p) ≤ count env q) where
    self : (p == p) ≡ true
    self = eq→== p p refl

    abbrev marked : Snapshot
    marked = with_marker s p in_queue_mark (s.tracing p)

    origin : Origin env start p
    origin = c.reached p (rw self (λ z. ground (arith, z)))

    known : (q : Ptr) → q ∈ edges env p → Origin env start q × ((b : CcBox) × (env.heap q ≡ some b))
    known q i = let (b, j, r) = origin in ((b, j, next r i), good.live p q i)

    abbrev after_edges : Ptr → ℕ
    after_edges q = seen q + occ q (edges env p)

    inner-Counts :
        (v : World)
        → IsSnapshot env v marked
        → Counts env start s.buffered (p ∷ []) done after_edges (trace_inner counting p v)
    unfolding trace_inner
    inner-Counts v is1 =
        let (b, at, looks) = is1.boxes p before e in
        let (table, called) = vtable_of_run env v marked is1 good p before b e looks in
        let traced : edges env p ≡ b.elem.traced =
          ap edges_in e ∙ ap (λ (k : Elem). k.traced) (sym looks.elem) in
        let calm : b.elem.trace_panics ≡ false =
          ap (λ (k : Elem). k.trace_panics) looks.elem ∙ good.calm p before e in
        let (t, (u, ran, is2), same, c2) =
          trace_all-Counts (p ∷ []) done (edges env p) v marked seen is1 c room known in
        (
          t,
          (u, rw (box_at_run v p b at) (rw called (rw (sym traced) (rw ran (rw calm refl)))), is2),
          same,
          c2,
        )

    -- The element is in one of the two lists, and marked so.
    abbrev Settles : Snapshot → Type 0
    Settles t =
        IsCounting env start (with_marker t p in_list_mark (t.tracing p)) [] (p ∷ done) after_edges

    listed-Settles :
        (t : Snapshot)
        → IsCounting env start t (p ∷ []) done after_edges
        → (root non_root : List Ptr) (last : Bool) → (after_edges p == count env p) ≡ last
        → (has p root ≡ not last)
        → (has p non_root ≡ last)
        → ((q : Ptr) → q ≢ p → (has q root ≡ has q t.roots) × (has q non_root ≡ has q t.non_roots))
        → Settles (record t { roots = root; non_roots = non_root })
    listed-Settles t k root non_root last l in_root in_non_root others =
        let u =
          with_marker (record t { roots = root; non_roots = non_root }) p in_list_mark
            (t.tracing p) in
        record {
          fine =
              fine-split env s u [] (p ∷ done) seen after_edges p
                (rw (self, in_root, in_non_root)
                  (record {
                    marks = ground (arith, (k.fine p).free, self);
                    tracked = λ m.
                        ground (arith, (k.fine p).tracked, (k.fine p).marks, (k.fine p).free, self);
                    unseen = λ z. ground (arith, z);
                    short = λ z. ground (arith, z, l, ==→ne (after_edges p) (count env p));
                    full = λ z. ground (arith, z, l, ==→eq (after_edges p) (count env p));
                    settled = ground (arith, l);
                    free = λ z. ground (arith, z);
                  }))
                (λ q ne.
                  let (same_root, same_non_root) = others q ne in
                  rw (ne→== q p ne, same_root, same_non_root) (rw (ne→== q p ne) at (k.fine q)));
          reached = λ q m. elim (Bool-cases (q == p)) [
            | inl hit ↦ subst (Origin env start) (sym (==→eq q p hit)) origin
            | inr miss ↦ k.reached q (λ z. m (rw miss z))
          ];
        }

    classify-Settles :
        (v : World) (t : Snapshot)
        → IsSnapshot env v t
        → IsCounting env start t (p ∷ []) done after_edges
        → (u : Snapshot) × Leads env tt u (classify p v) × (u.buffered ≡ t.buffered) × Settles u
    unfolding classify
    classify-Settles v t is1 k =
        let (b, at, looks) = is1.boxes p before e in
        let free = (k.fine p).free (ground (arith, self)) in
        let tracked : t.tracing p ≡ after_edges p =
          (k.fine p).tracked (λ z. ground (arith, (k.fine p).marks, (k.fine p).free, self, z)) in
        let tested : (counter b.counter_marker == tracing_counter b.counter_marker)
            ≡ (count env p == after_edges p) =
          ap₂ (λ (i j : ℕ). i == j)
            (counter-Looks t p before b looks ∙ sym (count-at env p before e))
            (tracing_counter-Looks t p before b looks ∙ tracked) in
        elim (Bool-cases (count env p == after_edges p)) [
          | inl last ↦
              let (x, ran, is2) = non_root_add-Leads env v t is1 p b at free in
              (
                record t { non_roots = p ∷ t.non_roots },
                (x, rw (box_at_run v p b at) (rw (tested, last) ran), is2),
                refl,
                listed-Settles t k t.roots (p ∷ t.non_roots) true
                    (eq→== (after_edges p) (count env p)
                      (sym (==→eq (count env p) (after_edges p) last)))
                    (ground (arith, free)) (rw self refl) (λ q ne. (refl, rw (ne→== q p ne) refl)),
              )
          | inr more ↦
              let (x, ran, is2) = root_add-Leads env v t is1 p b at free in
              (
                record t { roots = p ∷ t.roots },
                (x, rw (box_at_run v p b at) (rw (tested, more) ran), is2),
                refl,
                listed-Settles t k (p ∷ t.roots) t.non_roots false
                    (ne→== (after_edges p) (count env p)
                      (λ z. ==→ne (count env p) (after_edges p) more (sym z)))
                    (rw self refl) (ground (arith, free)) (λ q ne. (rw (ne→== q p ne) refl, refl)),
              )
        ]

    pub trace_counting_one-Counts :
        Counts env start s.buffered [] (p ∷ done) after_edges (trace_counting_one p w)
    unfolding trace_counting_one
    trace_counting_one-Counts =
        let (b, at, looks) = is.boxes p before e in
        let (v1, ran1, is1) = mark-Leads env w s is p b at before in_queue_mark looks in
        let (t2, (v2, ran2, is2), same2, c2) = inner-Counts v1 is1 in
        let (t3, (v3, ran3, is3), same3, c3) = classify-Settles v2 t2 is2 c2 in
        let (b3, at3, looks3) = is3.boxes p before e in
        let (v4, ran4, is4) = mark-Leads env v3 t3 is3 p b3 at3 before in_list_mark looks3 in
        (
          with_marker t3 p in_list_mark (t3.tracing p),
          (v4, rw (ran1, ran2, ran3) ran4, is4),
          same3 ∙ same2,
          c3,
        )
