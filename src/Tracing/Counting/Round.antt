-- ===== src/Tracing/Counting/Round.antt =====
-- One round of the loops of `trace_counting` in src/lib.rs.
use mathlib.Core.Path.{fun_ext}
use rust_cc.Prelude.{
  ℕ, ◌+◌, ◌≤◌, ◌<◌, ◌≡◌, ◌≢◌, refl, true, false, some, List, [], ◌∷◌, ◌==◌, ◌||◌, arith, Bool-cases,
  inl, inr, ==→eq, ==→ne, eq→==, ne→==, ◌∙◌, ap, sym, subst, length,
}
use rust_cc.CounterMarker.{non_marked_mark, in_queue_mark}
use rust_cc.Heap.{Ptr, CcBox}
use rust_cc.Lists.Chain.{has, ◌∈◌, ◌∉◌}
use rust_cc.World.{World}
use rust_cc.Collector.{trace_counting_one}
use rust_cc.Tracing.{Snapshot, IsSnapshot, Leads, copies}
use rust_cc.Tracing.Graph.{edges, occ, inbound, Distinct, IsTraceable, Reach, here, next}
use rust_cc.Tracing.Finite.{Distinct-length}
use rust_cc.Tracing.Marks.{with_marker}
use rust_cc.Tracing.Counting.{FineAt, Origin, IsCounting}
use rust_cc.Tracing.Counting.Kept.{fine-split}
use rust_cc.Tracing.Counting.Element.{trace_counting_one-Counts}

-- What holds between two elements; `done` were traced.
pub record IsRound (env : World) (start : List Ptr) (s : Snapshot) (done : List Ptr) : Type 0 where
  pub counting : IsCounting env start s [] done (λ q. inbound env q done)
  pub distinct : Distinct done
  pub covered : (p : Ptr) → p ∈ start → (has p s.buffered || has p done) ≡ true

module _ (env : World) (start all : List Ptr) (good : IsTraceable env)
    (alive : (p : Ptr) → p ∈ start → (b : CcBox) × (env.heap p ≡ some b))
    (finite : (p : Ptr) (b : CcBox) → env.heap p ≡ some b → p ∈ all) where
  pub Origin-live : (p : Ptr) → Origin env start p → (b : CcBox) × (env.heap p ≡ some b)
  Origin-live p (o, i, r) = go p r
    where
      go : (q : Ptr) → Reach env o q → (b : CcBox) × (env.heap q ≡ some b)
      go q here = alive o i
      go r (next {q} path j) = good.live q r j

  module _ (s : Snapshot) (done : List Ptr) (k : IsRound env start s done) where
    pub done-known : (p : Ptr) → p ∈ done → Origin env start p
    done-known p i =
        k.counting.reached p
          (λ z. ground (arith, (k.counting.fine p).marks, (k.counting.fine p).settled, z, i))

    done-found : (p : Ptr) → p ∈ done → p ∈ all
    done-found p i = let (b, e) = Origin-live p (done-known p i) in finite p b e

    pub done_short : length done ≤ length all
    done_short = Distinct-length done all k.distinct done-found

    -- `p` was taken from its list, which gives `t`.
    module _ (t : Snapshot) (p : Ptr) (marked : s.mark p ≢ non_marked_mark)
        (waiting : (has p s.roots || has p s.non_roots) ≡ false) (taken : copies t p ≡ 0)
        (same : t.tracing p ≡ s.tracing p)
        (others : (q : Ptr)
          → q ≢ p
          → FineAt env t [] done (λ r. inbound env r done) q × (t.mark q ≡ s.mark q))
        (kept : (q : Ptr) → q ≢ p → has q t.buffered ≡ has q s.buffered) where
      abbrev seen : Ptr → ℕ
      seen q = inbound env q done

      fresh : p ∉ done
      fresh = ground (arith, (k.counting.fine p).settled, waiting)

      started-IsCounting :
          IsCounting env start (with_marker t p in_queue_mark (t.tracing p)) (p ∷ []) done seen
      started-IsCounting = record {
        fine =
            fine-split env s (with_marker t p in_queue_mark (t.tracing p)) (p ∷ []) done seen seen p
              (rw (eq→== p p refl) (record {
                marks = ground (arith, taken);
                tracked = λ m. same ∙ (k.counting.fine p).tracked marked;
                unseen = λ z. ground (arith, z);
                short = λ z. ground (arith, z, taken);
                full = λ z. ground (arith, z, taken);
                settled = ground (arith, taken, fresh);
                free = λ z. taken;
              }))
              (λ q ne. let (f, m) = others q ne in rw (ne→== q p ne) f);
        reached = λ q m. elim (Bool-cases (q == p)) [
          | inl hit ↦ subst (Origin env start) (sym (==→eq q p hit)) (k.counting.reached p marked)
          | inr miss ↦
              let (f, e) = others q (==→ne q p miss) in
              k.counting.reached q (λ z. m (rw miss (e ∙ z)))
        ];
      }

      pub next-IsRound :
          (w : World)
          → IsSnapshot env w t
          → (u : Snapshot) × Leads env tt u (trace_counting_one p w)
            × (u.buffered ≡ t.buffered)
            × IsRound env start u (p ∷ done)
      next-IsRound w is =
          let (before, e) = Origin-live p (k.counting.reached p marked) in
          let distinct : Distinct (p ∷ done) = (fresh, k.distinct) in
          let (u, leads, eq, c) =
            trace_counting_one-Counts env start good done w t seen is p before e taken
              started-IsCounting (λ q. ground (arith, good.owned (p ∷ done) q distinct)) in
          (
            u,
            leads,
            eq,
            record {
              counting =
                  subst (IsCounting env start u [] (p ∷ done))
                    (fun_ext (λ q. swap (inbound env q done) (occ q (edges env p)))) c;
              distinct = distinct;
              covered = λ q i. elim (Bool-cases (q == p)) [
                | inl hit ↦ ground (arith, hit)
                | inr miss ↦
                    ground (arith, k.covered q i, kept q (==→ne q p miss), ap (has q) eq, miss)
              ];
            },
          )
        where
          swap : (a b : ℕ) → a + b ≡ b + a
          swap a b = ground arith

      pub room_left : length done < length all
      room_left = ground (arith, longest)
        where
          longest : length (p ∷ done) ≤ length all
          longest =
              Distinct-length (p ∷ done) all (fresh, k.distinct)
                (λ q i. elim (Bool-cases (q == p)) [
                  | inl hit ↦
                      let (b, e) = Origin-live p (k.counting.reached p marked) in
                      rw (==→eq q p hit) (finite p b e)
                  | inr miss ↦ done-found q (ground (arith, i, miss))
                ])
