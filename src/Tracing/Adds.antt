-- ===== src/Tracing/Adds.antt =====
-- Additions to the four lists, in src/lists.rs, as the collector of src/lib.rs calls them.
use rust_cc.Prelude.{
  ◌+◌, ◌≤◌, ◌≡◌, refl, none, some, [], ◌∷◌, ◌++◌, ◌==◌, arith, Bool-cases, inl, inr, ==→eq, ◌∙◌,
  sym,
}
use rust_cc.Heap.{Ptr, CcBox}
use rust_cc.Lists.Chain.{Chain-frame, IsLoose}
use rust_cc.Lists.LinkedList.{LinkedList}
use rust_cc.Lists.LinkedList
use rust_cc.Lists.LinkedList.Add.{add-Added}
use rust_cc.Lists.LinkedQueue
use rust_cc.Lists.LinkedQueue.{LinkedQueue}
use rust_cc.Lists.Queue.{add-IsQueue, has-append}
use rust_cc.World.{World, on_root_list, on_non_root_list, on_queue}
use rust_cc.Tracing.{Snapshot, IsSnapshot, Leads, copies, bit}
use rust_cc.Tracing.Moves.{
  on_root_list_run, on_non_root_list_run, on_queue_run, Buffer-frame, Queue-frame, moved_boxes,
  gone_payload,
}

module _ (env w : World) (s : Snapshot) (is : IsSnapshot env w s) (p : Ptr) (b : CcBox)
    (at : w.heap p ≡ some b) (free : copies s p ≡ 0) where
  free-IsLoose : IsLoose w.heap p
  free-IsLoose = let (n, v) = is.loose p b at free in (b, at, n, v)

  fresh : (q : Ptr) → bit (q == p) + copies s q ≤ 1
  fresh q = elim (Bool-cases (q == p)) [
    | inl hit ↦ rw (==→eq q p hit) (ground (arith, free))
    | inr miss ↦ ground (arith, is.apart q)
  ]

  pub root_add-Leads :
      Leads env tt (record s { roots = p ∷ s.roots }) (on_root_list (LinkedList.add p) w)
  root_add-Leads =
      let (g, ran, chain, r) =
        add-Added w.heap p w.locals.root_list.first s.roots is.root_chain free-IsLoose
          (ground (arith, free)) in
      (
        record w { heap = g; locals = record (w.locals) { root_list = record { first = some p } } },
        on_root_list_run (LinkedList.add p) w (record { first = some p }) g ran,
        record {
          framed = is.framed;
          buffer = Buffer-frame w s.buffered (λ q j. r.same q (ground (arith, fresh q))) is.buffer;
          root_chain = chain;
          non_root_chain =
              Chain-frame none w.locals.non_root_list.first s.non_roots
                (λ q j. r.same q (ground (arith, fresh q))) is.non_root_chain;
          queue =
              Queue-frame w.locals.queue s.queued (λ q j. r.same q (ground (arith, fresh q)))
                is.queue;
          apart = λ q. ground (arith, fresh q);
          boxes =
              moved_boxes env w s is (record s { roots = p ∷ s.roots }) g (λ q. refl) (λ q. refl)
                r.payload;
          gone = λ q e. gone_payload w.heap g q (r.payload q) (is.gone q e);
          loose =
              λ q c e o. is.loose q c (sym (r.same q (ground (arith, o))) ∙ e) (ground (arith, o));
        },
      )

  pub non_root_add-Leads :
      Leads env tt
        (record s { non_roots = p ∷ s.non_roots })
        (on_non_root_list (LinkedList.add p) w)
  non_root_add-Leads =
      let (g, ran, chain, r) =
        add-Added w.heap p w.locals.non_root_list.first s.non_roots is.non_root_chain free-IsLoose
          (ground (arith, free)) in
      (
        record w {
          heap = g;
          locals = record (w.locals) { non_root_list = record { first = some p } };
        },
        on_non_root_list_run (LinkedList.add p) w (record { first = some p }) g ran,
        record {
          framed = is.framed;
          buffer = Buffer-frame w s.buffered (λ q j. r.same q (ground (arith, fresh q))) is.buffer;
          non_root_chain = chain;
          root_chain =
              Chain-frame none w.locals.root_list.first s.roots
                (λ q j. r.same q (ground (arith, fresh q))) is.root_chain;
          queue =
              Queue-frame w.locals.queue s.queued (λ q j. r.same q (ground (arith, fresh q)))
                is.queue;
          apart = λ q. ground (arith, fresh q);
          boxes =
              moved_boxes env w s is (record s { non_roots = p ∷ s.non_roots }) g (λ q. refl)
                (λ q. refl) r.payload;
          gone = λ q e. gone_payload w.heap g q (r.payload q) (is.gone q e);
          loose =
              λ q c e o. is.loose q c (sym (r.same q (ground (arith, o))) ∙ e) (ground (arith, o));
        },
      )

  pub queue_add-Leads :
      Leads env tt (record s { queued = s.queued ++ p ∷ [] }) (on_queue (LinkedQueue.add p) w)
  queue_add-Leads =
      let (queue, g, ran, line, r) =
        add-IsQueue w.heap p w.locals.queue s.queued is.queue free-IsLoose (ground (arith, free)) in
      let longer = λ (q : Ptr). has-append q s.queued (p ∷ []) in
      (
        record w { heap = g; locals = record (w.locals) { queue = queue } },
        on_queue_run (LinkedQueue.add p) w queue g ran,
        record {
          framed = is.framed;
          buffer = Buffer-frame w s.buffered (λ q j. r.same q (ground (arith, fresh q))) is.buffer;
          root_chain =
              Chain-frame none w.locals.root_list.first s.roots
                (λ q j. r.same q (ground (arith, fresh q))) is.root_chain;
          non_root_chain =
              Chain-frame none w.locals.non_root_list.first s.non_roots
                (λ q j. r.same q (ground (arith, fresh q))) is.non_root_chain;
          queue = line;
          apart = λ q. ground (arith, fresh q, longer q);
          boxes =
              moved_boxes env w s is (record s { queued = s.queued ++ p ∷ [] }) g (λ q. refl)
                (λ q. refl) r.payload;
          gone = λ q e. gone_payload w.heap g q (r.payload q) (is.gone q e);
          loose = λ q c e o.
              is.loose q c (sym (r.same q (ground (arith, o, longer q))) ∙ e)
                (ground (arith, o, longer q));
        },
      )
