-- ===== src/Tracing/Counting/Kept.antt =====
-- The states in which `CcBox::trace` of src/cc.rs leaves the counting phase.
use rust_cc.Prelude.{
  ℕ, ◌+◌, ◌<◌, ◌≡◌, ◌≢◌, refl, true, none, List, [], ◌∷◌, ◌++◌, ◌==◌, arith, Bool-cases, inl, inr,
  ==→eq, ==→ne, eq→==, ne→==, ◌∙◌, sym, subst,
}
use rust_cc.CounterMarker.{non_marked_mark, in_list_mark, in_queue_mark}
use rust_cc.Heap.{Ptr}
use rust_cc.Lists.Chain.{has, erase, mem-erase_ne, not-mem-erase_self}
use rust_cc.Lists.Queue.{has-append}
use rust_cc.World.{World}
use rust_cc.Tracing.{Snapshot, IsSnapshot, bit}
use rust_cc.Tracing.Graph.{count}
use rust_cc.Tracing.Marks.{with_marker}
use rust_cc.Tracing.Counting.{FineAt, Origin, IsCounting}

-- What holds at `p` and, with the same values, elsewhere.
pub fine-split :
    (env : World) (s t : Snapshot) (busy done : List Ptr) (seen seen' : Ptr → ℕ) (p : Ptr)
    → FineAt env t busy done seen' p
    → ((q : Ptr) → q ≢ p → FineAt env t busy done seen' q)
    → (q : Ptr) → FineAt env t busy done seen' q
fine-split env s t busy done seen seen' p here there q = elim (Bool-cases (q == p)) [
  | inl hit ↦ subst (FineAt env t busy done seen') (sym (==→eq q p hit)) here
  | inr miss ↦ there q (==→ne q p miss)
]

-- One more pointer to `p`.
abbrev pub stepped : (Ptr → ℕ) → Ptr → Ptr → ℕ
stepped seen p q = seen q + bit (q == p)

-- The tracing counter is incremented, and the mark stays.
abbrev pub raised : Snapshot → Ptr → Snapshot
raised s p = with_marker s p (s.mark p) (s.tracing p + 1)

-- The box goes to the list of garbage, too.
abbrev pub moved : Snapshot → Ptr → Snapshot
moved s p = record (raised s p) { roots = erase p s.roots; non_roots = p ∷ s.non_roots }

-- A box that was not found before waits in the queue.
abbrev pub found : Snapshot → Ptr → Snapshot
found s p =
    let s1 = with_marker s p (s.mark p) 0 in
    let s2 = with_marker s1 p (s1.mark p) (s1.tracing p + 1) in
    let s3 : Snapshot = record s2 { queued = s.queued ++ p ∷ [] } in
    with_marker s3 p in_queue_mark (s3.tracing p)

module _ (env w : World) (start busy done : List Ptr) (s : Snapshot) (seen : Ptr → ℕ)
    (is : IsSnapshot env w s) (c : IsCounting env start s busy done seen) (p : Ptr)
    (room : seen p < count env p) (origin : Origin env start p) where
  self : (p == p) ≡ true
  self = eq→== p p refl

  reached-split :
      (t : Snapshot)
      → ((q : Ptr) → q ≢ p → t.mark q ≡ s.mark q)
      → (q : Ptr) → t.mark q ≢ non_marked_mark
      → Origin env start q
  reached-split t same q m = elim (Bool-cases (q == p)) [
    | inl hit ↦ subst (Origin env start) (sym (==→eq q p hit)) origin
    | inr miss ↦ c.reached q (λ z. m (same q (==→ne q p miss) ∙ z))
  ]

  elsewhere : (n : ℕ) → n + 0 ≡ n
  elsewhere n = ground arith

  -- The lists stay as they are.
  pub raised-IsCounting :
      s.mark p ≢ non_marked_mark
      → (has p s.roots ≡ true → seen p + 1 ≢ count env p)
      → IsCounting env start (raised s p) busy done (stepped seen p)
  raised-IsCounting m short = record {
    fine =
        fine-split env s (raised s p) busy done seen (stepped seen p) p
          (rw self (record {
            marks = (c.fine p).marks;
            tracked = λ k. ground (arith, (c.fine p).tracked m);
            unseen = λ z. ground (arith, m);
            short = short;
            full = λ z. ground (arith, (c.fine p).full, room);
            settled = (c.fine p).settled;
            free = (c.fine p).free;
          }))
          (λ q ne. rw (ne→== q p ne, elsewhere (seen q)) (c.fine q));
    reached = reached-split (raised s p) (λ q ne. rw (ne→== q p ne) refl);
  }

  pub moved-IsCounting :
      s.mark p ≡ in_list_mark
      → seen p + 1 ≡ count env p
      → IsCounting env start (moved s p) busy done (stepped seen p)
  moved-IsCounting m last = record {
    fine =
        fine-split env s (moved s p) busy done seen (stepped seen p) p
          (rw
            (self, not-mem-erase_self w.heap p none w.locals.root_list.first s.roots is.root_chain)
            (record {
              marks = ground (arith, (c.fine p).marks, m);
              tracked = λ k. ground (arith, (c.fine p).tracked, m);
              unseen = λ z. ground (arith, m);
              short = λ z. ground (arith, z);
              full = λ z. last;
              settled = ground (arith, (c.fine p).settled, (c.fine p).marks, is.apart p, m);
              free = λ z. ground (arith, (c.fine p).free, (c.fine p).marks, m);
            }))
          (λ q ne. rw (ne→== q p ne, elsewhere (seen q), mem-erase_ne q p s.roots ne) (c.fine q));
    reached = reached-split (moved s p) (λ q ne. rw (ne→== q p ne) refl);
  }

  absent : (q : Ptr) → q ≢ p → has q (s.queued ++ p ∷ []) ≡ has q s.queued
  absent q ne = ground (arith, has-append q s.queued (p ∷ []), ne→== q p ne)

  pub found-IsCounting :
      s.mark p ≡ non_marked_mark → IsCounting env start (found s p) busy done (stepped seen p)
  found-IsCounting m = record {
    fine =
        fine-split env s (found s p) busy done seen (stepped seen p) p
          (rw (self, has-append p s.queued (p ∷ []))
            (record {
              marks = ground (arith, (c.fine p).marks, m);
              tracked = λ k. ground (arith, (c.fine p).unseen, m);
              unseen = λ z. ground (arith, z);
              short = λ z. ground (arith, (c.fine p).marks, m, z);
              full = λ z. ground (arith, (c.fine p).marks, m, z);
              settled = (c.fine p).settled;
              free = λ z. ground (arith, (c.fine p).marks, m, z);
            }))
          (λ q ne. rw (ne→== q p ne, elsewhere (seen q), absent q ne) (c.fine q));
    reached = reached-split (found s p) (λ q ne. rw (ne→== q p ne) refl);
  }
