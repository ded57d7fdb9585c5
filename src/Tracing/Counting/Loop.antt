-- ===== src/Tracing/Counting/Loop.antt =====
-- The two loops of `trace_counting` in src/lib.rs.
use rust_cc.Prelude.{
  ℕ, zero, suc, ◌+◌, ◌≤◌, ◌<◌, ◌^◌, ◌≡◌, ◌≢◌, refl, true, false, some, List, [], ◌∷◌, ◌||◌, arith,
  eq→==, ne→==, ◌∙◌, ap, sym, subst, length,
}
use rust_cc.CounterMarker.{non_marked_mark}
use rust_cc.Heap.{Ptr, CcBox}
use rust_cc.Lists.Chain.{has, ◌∈◌}
use rust_cc.World.{World, ok}
use rust_cc.Collector.{
  trace_counting, trace_counting_one, cycles_remove_first, queue_poll, while_some,
}
use rust_cc.Tracing.{Snapshot, IsSnapshot, Leads, copies}
use rust_cc.Tracing.Graph.{inbound, IsTraceable}
use rust_cc.Tracing.Takes.{
  freed_from, cycles_remove_first-none, cycles_remove_first-Leads, queue_poll-none,
  queue_poll-Leads,
}
use rust_cc.Tracing.Counting.{FineAt}
use rust_cc.Tracing.Counting.Round.{IsRound, next-IsRound, room_left, done_short}

module _ (env : World) (start all : List Ptr) (good : IsTraceable env)
    (alive : (p : Ptr) → p ∈ start → (b : CcBox) × (env.heap p ≡ some b))
    (finite : (p : Ptr) (b : CcBox) → env.heap p ≡ some b → p ∈ all) where
  module _ (w : World) (s : Snapshot) (done : List Ptr) (is : IsSnapshot env w s)
      (k : IsRound env start s done) (p : Ptr) (xs : List Ptr) where
    buffered-IsRound :
        s.buffered ≡ p ∷ xs
        → length xs + 1 < 2 ^ 64
        → (v : World) × (u : Snapshot) × (cycles_remove_first w ≡ ok (some p) v)
          × Leads env tt u (trace_counting_one p v)
          × (u.buffered ≡ xs)
          × IsRound env start u (p ∷ done)
          × (length done < length all)
    buffered-IsRound e fits =
        let (v, ran, is1) = cycles_remove_first-Leads env w s is p xs e fits in
        let t : Snapshot = record (freed_from s p) { buffered = xs } in
        let here : has p s.buffered ≡ true = ap (has p) e ∙ rw (eq→== p p refl) refl in
        let marked : s.mark p ≢ non_marked_mark =
          (λ z. ground (arith, (k.counting.fine p).marks, here, z)) in
        let apart =
          subst (λ (ys : List Ptr). copies (record s { buffered = ys }) p ≤ 1) e (is.apart p) in
        let gone : copies t p ≡ 0 = ground (arith, apart, eq→== p p refl) in
        let waiting : (has p s.roots || has p s.non_roots) ≡ false = ground (arith, gone) in
        let others : (q : Ptr)
            → q ≢ p
            → FineAt env t [] done (λ r. inbound env r done) q × (t.mark q ≡ s.mark q) =
          (λ (q : Ptr) (ne : q ≢ p). (
            rw (ne→== q p ne) (rw (e, ne→== q p ne) at (k.counting.fine q)),
            rw (ne→== q p ne) refl,
          )) in
        let kept : (q : Ptr) → q ≢ p → has q t.buffered ≡ has q s.buffered =
          (λ (q : Ptr) (ne : q ≢ p). sym (ap (has q) e ∙ rw (ne→== q p ne) refl)) in
        let (u, leads, eq, k') =
          next-IsRound env start all good alive finite s done k t p marked waiting gone refl others
            kept v is1 in
        (
          v,
          u,
          ran,
          leads,
          eq,
          k',
          room_left env start all good alive finite s done k t p marked waiting gone refl others
              kept,
        )

    queued-IsRound :
        s.queued ≡ p ∷ xs
        → s.buffered ≡ []
        → (v : World) × (u : Snapshot) × (queue_poll w ≡ ok (some p) v)
          × Leads env tt u (trace_counting_one p v)
          × (u.buffered ≡ [])
          × IsRound env start u (p ∷ done)
          × (length done < length all)
    queued-IsRound e empty =
        let (v, ran, is1) = queue_poll-Leads env w s is p xs e in
        let t : Snapshot = record (freed_from s p) { queued = xs } in
        let here : has p s.queued ≡ true = ap (has p) e ∙ rw (eq→== p p refl) refl in
        let apart =
          subst (λ (ys : List Ptr). copies (record s { queued = ys }) p ≤ 1) e (is.apart p) in
        let gone : copies t p ≡ 0 = ground (arith, apart, eq→== p p refl) in
        let marked : s.mark p ≢ non_marked_mark =
          (λ z. ground (arith, (k.counting.fine p).marks, gone, here, z)) in
        let waiting : (has p s.roots || has p s.non_roots) ≡ false = ground (arith, gone) in
        let others : (q : Ptr)
            → q ≢ p
            → FineAt env t [] done (λ r. inbound env r done) q × (t.mark q ≡ s.mark q) =
          (λ (q : Ptr) (ne : q ≢ p). (
            rw (ne→== q p ne) (rw (e, ne→== q p ne) at (k.counting.fine q)),
            rw (ne→== q p ne) refl,
          )) in
        let kept : (q : Ptr) → q ≢ p → has q t.buffered ≡ has q s.buffered = (λ q ne. refl) in
        let (u, leads, eq, k') =
          next-IsRound env start all good alive finite s done k t p marked waiting gone refl others
            kept v is1 in
        (
          v,
          u,
          ran,
          leads,
          eq ∙ empty,
          k',
          room_left env start all good alive finite s done k t p marked waiting gone refl others
              kept,
        )

  buffered_loop :
      (fuel : ℕ) (xs : List Ptr) (w : World) (s : Snapshot) (done : List Ptr)
      → IsSnapshot env w s
      → IsRound env start s done
      → s.buffered ≡ xs
      → length xs < 2 ^ 64
      → length done ≤ length all
      → length all < fuel + length done
      → (t : Snapshot) × (done' : List Ptr) × Leads env tt t
          (while_some fuel cycles_remove_first trace_counting_one w)
        × (t.buffered ≡ [])
        × IsRound env start t done'
  unfolding while_some
  buffered_loop zero xs w s done is k e fits bound enough = absurd (ground (arith, bound, enough))
  buffered_loop (suc fuel) [] w s done is k e fits bound enough =
      (s, done, (w, rw (cycles_remove_first-none env w s is e) refl, is), e, k)
  buffered_loop (suc fuel) (p ∷ xs) w s done is k e fits bound enough =
      let (v, u, ran, (v2, ran2, is2), eq, k2, left) =
        buffered-IsRound w s done is k p xs e (ground (arith, fits)) in
      let (t, done', (v3, ran3, is3), empty, k3) =
        buffered_loop fuel xs v2 u (p ∷ done) is2 k2 eq (ground (arith, fits))
          (ground (arith, left)) (ground (arith, enough)) in
      (t, done', (v3, rw (ran, ran2) ran3, is3), empty, k3)

  queued_loop :
      (fuel : ℕ) (xs : List Ptr) (w : World) (s : Snapshot) (done : List Ptr)
      → IsSnapshot env w s
      → IsRound env start s done
      → s.queued ≡ xs
      → s.buffered ≡ []
      → length done ≤ length all
      → length all < fuel + length done
      → (t : Snapshot) × (done' : List Ptr) × Leads env tt t
          (while_some fuel queue_poll trace_counting_one w)
        × (t.queued ≡ [])
        × (t.buffered ≡ [])
        × IsRound env start t done'
  unfolding while_some
  queued_loop zero xs w s done is k e empty bound enough = absurd (ground (arith, bound, enough))
  queued_loop (suc fuel) [] w s done is k e empty bound enough =
      (s, done, (w, rw (queue_poll-none env w s is e) refl, is), e, empty, k)
  queued_loop (suc fuel) (p ∷ xs) w s done is k e empty bound enough =
      let (v, u, ran, (v2, ran2, is2), eq, k2, left) = queued-IsRound w s done is k p xs e empty in
      let (t, done', (v3, ran3, is3), over, none_left, k3) =
        queued_loop fuel u.queued v2 u (p ∷ done) is2 k2 refl eq (ground (arith, left))
          (ground (arith, enough)) in
      (t, done', (v3, rw (ran, ran2) ran3, is3), over, none_left, k3)

  -- The counting phase ends, with every object that can be reached from the buffer in a list.
  pub trace_counting-ends :
      (fuel : ℕ) (w : World) (s : Snapshot)
      → IsSnapshot env w s
      → IsRound env start s []
      → length s.buffered < 2 ^ 64
      → length all < fuel
      → (t : Snapshot) × (done : List Ptr) × Leads env tt t (trace_counting fuel w)
        × (t.queued ≡ [])
        × (t.buffered ≡ [])
        × IsRound env start t done
  unfolding trace_counting
  trace_counting-ends fuel w s is k fits enough =
      let (t, done, (v, ran, is1), empty, k1) =
        buffered_loop fuel s.buffered w s [] is k refl fits (ground arith)
          (ground (arith, enough)) in
      let (u, done', (v2, ran2, is2), over, none_left, k2) =
        queued_loop fuel t.queued v t done is1 k1 refl empty
          (done_short env start all good alive finite t done k1) (ground (arith, enough)) in
      (u, done', (v2, rw ran ran2, is2), over, none_left, k2)
