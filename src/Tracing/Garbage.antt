-- ===== src/Tracing/Garbage.antt =====
-- What the two tracing phases of src/lib.rs find, in terms of the graph of the objects.
use rust_cc.Prelude.{
  ◌≡◌, ◌≢◌, ◌↔◌, refl, List, [], ◌∷◌, ◌==◌, if◌then◌else◌, arith, Bool-cases, inl, inr, ==→eq,
  eq→==, ◌∙◌, ap, subst,
}
use rust_cc.CounterMarker.{non_marked_mark, in_list_mark}
use rust_cc.Heap.{Ptr}
use rust_cc.Lists.Chain.{has, ◌∈◌, ◌∉◌}
use rust_cc.World.{World}
use rust_cc.Tracing.{Snapshot}
use rust_cc.Tracing.Graph.{count, edges, occ, inbound, Distinct, Reach, here, next}
use rust_cc.Tracing.Counting.{Origin}
use rust_cc.Tracing.Counting.Round.{IsRound}
use rust_cc.Tracing.Rooting.{IsHeld, IsRooting}

-- In a collection that started at `env`, the objects that can be reached from `start` are `done`, and
-- those that nothing else can reach are in `non_roots`.
pub record IsTraced (env : World) (start done : List Ptr) (s : Snapshot) : Type 0 where
  pub distinct : Distinct done
  pub counted : (p : Ptr) → (p ∈ done) ↔ Origin env start p
  pub garbage : (p : Ptr) → (p ∈ s.non_roots) ↔ ((p ∈ done) × ¬ IsHeld env done p)
  pub full : (p : Ptr) → p ∈ s.non_roots → s.tracing p ≡ count env p
  pub marks : (p : Ptr) → s.mark p ≡ (if has p s.non_roots then in_list_mark else non_marked_mark)
  pub no_buffered : s.buffered ≡ []
  pub no_roots : s.roots ≡ []
  pub no_queued : s.queued ≡ []

nothing : (xs : List Ptr) → ((p : Ptr) → p ∉ xs) → xs ≡ []
nothing [] none_in = refl
nothing (x ∷ xs) none_in = absurd (ground (arith, none_in x, eq→== x x refl))

pub mem-occ : (e : Ptr) (xs : List Ptr) → e ∈ xs → occ e xs ≢ 0
mem-occ e [] i z = ground (arith, i)
mem-occ e (x ∷ xs) i z = ground (arith, i, z, mem-occ e xs)

mem-inbound :
    (env : World) (p e : Ptr) (xs : List Ptr) → p ∈ xs → e ∈ edges env p → inbound env e xs ≢ 0
mem-inbound env p e [] i j z = ground (arith, i)
mem-inbound env p e (x ∷ xs) i j z = elim (Bool-cases (p == x)) [
  | inl hit ↦
      mem-occ e (edges env x) (subst (λ (y : Ptr). e ∈ edges env y) (==→eq p x hit) j)
        (ground (arith, z))
  | inr miss ↦ mem-inbound env p e xs (ground (arith, i, miss)) j (ground (arith, z))
]

-- After the counting phase.
module _ (env : World) (start done : List Ptr) (s : Snapshot) (k : IsRound env start s done)
    (no_buffered : s.buffered ≡ []) (no_queued : s.queued ≡ []) where
  unbuffered : (p : Ptr) → p ∉ s.buffered
  unbuffered p = ap (has p) no_buffered

  unqueued : (p : Ptr) → p ∉ s.queued
  unqueued p = ap (has p) no_queued

  marked_done : (p : Ptr) → s.mark p ≢ non_marked_mark → p ∈ done
  marked_done p m =
      ground
        (arith, (k.counting.fine p).marks, (k.counting.fine p).settled, unbuffered p, unqueued p, m)

  pub done-closed : (p e : Ptr) → p ∈ done → e ∈ edges env p → e ∈ done
  done-closed p e i j =
      marked_done e (λ z. mem-inbound env p e done i j ((k.counting.fine e).unseen z))

  done-start : (p : Ptr) → p ∈ start → p ∈ done
  done-start p i = ground (arith, k.covered p i, unbuffered p)

  pub done-counted : (p : Ptr) → (p ∈ done) ↔ Origin env start p
  done-counted p = (
    (λ i.
        k.counting.reached p
          (λ z. ground (arith, (k.counting.fine p).marks, (k.counting.fine p).settled, z, i))),
    (λ o. let (b, i, path) = o in go b p (done-start b i) path),
  )
    where
      go : (b q : Ptr) → b ∈ done → Reach env b q → q ∈ done
      go b q i here = i
      go b r i (next {q} path j) = done-closed q r (go b q i path) j

  pub counted-IsRooting : IsRooting env done s [] []
  counted-IsRooting = record {
    placed = λ p. record {
      marks = ground (arith, (k.counting.fine p).marks, unbuffered p, unqueued p);
      empty = unbuffered p;
      tracked = λ i.
          (k.counting.fine p).tracked
            (λ z. ground (arith, (k.counting.fine p).marks, (k.counting.fine p).settled, z, i));
      short = (k.counting.fine p).short;
      full = (k.counting.fine p).full;
      settled = ground (arith, (k.counting.fine p).settled, unqueued p);
      out = λ z. ground (arith, z);
    };
    held = λ p i o.
        (p, i, (k.counting.fine p).short (ground (arith, (k.counting.fine p).settled, i, o)), here);
    spread = λ p e i. absurd (ground (arith, i));
  }

  -- After the root tracing phase.
  module _ (t : Snapshot) (gone : List Ptr) (r : IsRooting env done t [] gone)
      (no_roots : t.roots ≡ []) (none_queued : t.queued ≡ []) where
    rootless : (p : Ptr) → p ∉ t.roots
    rootless p = ap (has p) no_roots

    queueless : (p : Ptr) → p ∉ t.queued
    queueless p = ap (has p) none_queued

    held-spared : (p : Ptr) → IsHeld env done p → p ∉ t.non_roots
    held-spared p (b, i, unequal, path) = let (j, o) = go p path in o
      where
        go : (q : Ptr) → Reach env b q → (q ∈ done) × (q ∉ t.non_roots)
        go q here = (i, ground (arith, (r.placed b).full, unequal))
        go x (next {q} path j) =
            let (l, o) = go q path in
            (
              done-closed q x l j,
              r.spread q x (ground (arith, (r.placed q).settled, rootless q, queueless q, l, o)) j,
            )

    pub rooted-IsTraced : IsTraced env start done t
    rooted-IsTraced = record {
      distinct = k.distinct;
      counted = done-counted;
      garbage = λ p. (
        (λ i. (ground (arith, (r.placed p).settled, i), λ h. ground (arith, held-spared p h, i))),
        (λ both.
            let (i, unheld) = both in
            elim (Bool-cases (has p t.non_roots)) [
              | inl inside ↦ inside
              | inr outside ↦ absurd (unheld (r.held p i outside))
            ]),
      );
      full = λ p i.
          (r.placed p).tracked (ground (arith, (r.placed p).settled, i)) ∙ (r.placed p).full i;
      marks = λ p. ground (arith, (r.placed p).marks, rootless p, queueless p);
      no_buffered = nothing t.buffered (λ p. (r.placed p).empty);
      no_roots = no_roots;
      no_queued = none_queued;
    }
