-- ===== src/Tracing/Takes.antt =====
-- Taking the first element of a list of the collector, in the loops of src/lib.rs.
use mathlib.Core.Option
use rust_cc.Prelude.{
  ℕ, ◌+◌, ◌≤◌, ◌<◌, ◌^◌, ◌≡◌, ◌≢◌, refl, Option, none, some, List, [], ◌∷◌, ◌==◌, if◌then◌else◌,
  arith, Bool-cases, inl, inr, ==→eq, ==→ne, eq→==, ne→==, ◌∙◌, ap, sym, subst, length,
}
use rust_cc.CounterMarker.{Mark, non_marked_mark}
use rust_cc.CounterMarker.Laws.{view-mark}
use rust_cc.CounterMarker.Refinement.{mark-IsWords}
use rust_cc.Heap.{Ptr, CcBox, Heap}
use rust_cc.Lists.Chain.{Chain, Chain-frame, unlinked}
use rust_cc.Tracing.Moves.{loose-out}
use rust_cc.Lists.LinkedList
use rust_cc.Lists.LinkedList.{LinkedList}
use rust_cc.Lists.LinkedList.First.{taken, remove_first-FirstRemoved}
use rust_cc.Lists.PossibleCycles
use rust_cc.Lists.PossibleCycles.{PossibleCycles}
use rust_cc.Lists.LinkedQueue
use rust_cc.Lists.LinkedQueue.{LinkedQueue}
use rust_cc.Lists.Buffer.{IsBuffer, remove_first-IsBuffer}
use rust_cc.Lists.Queue.{Line, IsQueue, poll-IsQueue}
use rust_cc.World.{World, ok}
use rust_cc.Collector.{cycles_remove_first, root_remove_first, queue_poll}
use rust_cc.Tracing.{Snapshot, Looks, IsSnapshot, Leads, copies}
use rust_cc.Tracing.Moves.{Buffer-frame, Queue-frame, gone_payload, Looks-payload}

-- The marks of `s`, with another one at `p`.
abbrev pub marked_at : Snapshot → Ptr → Mark → Ptr → Mark
marked_at s p m q = if q == p then m else s.mark q

Looks-taken :
    (s t : Snapshot) (p : Ptr) (before b : CcBox)
    → t.mark p ≡ non_marked_mark
    → t.tracing p ≡ s.tracing p
    → Looks s p before b
    → Looks t p before (taken b)
Looks-taken s t p before b tm tt' looks = record {
  words = mark-IsWords looks.words non_marked_mark;
  shown = view-mark looks.words non_marked_mark ∙ rw (looks.shown, tm, tt') refl;
  elem = looks.elem;
  metadata = looks.metadata;
}

-- The boxes after `p` was taken.
boxes_taken :
    (s t : Snapshot) (h g : Heap) (p q : Ptr) (before : CcBox)
    → t.mark ≡ marked_at s p non_marked_mark
    → t.tracing ≡ s.tracing
    → g p ≡ Option.map taken (h p)
    → (q ≢ p → Option.map unlinked (g q) ≡ Option.map unlinked (h q))
    → (b : CcBox) × (h q ≡ some b) × Looks s q before b
    → (b : CcBox) × (g q ≡ some b) × Looks t q before b
boxes_taken s t h g p q before tm tt' front pay (b, at, looks) = elim (Bool-cases (q == p)) [
  | inl hit ↦ (
    taken b,
    ap g (==→eq q p hit) ∙ front ∙ ap (Option.map taken) (ap h (sym (==→eq q p hit)) ∙ at),
    Looks-taken s t q before b (ap (λ (f : Ptr → Mark). f q) tm ∙ rw hit refl)
        (ap (λ (f : Ptr → ℕ). f q) tt') looks,
  )
  | inr miss ↦
      Looks-payload s t h g q before b (ap (λ (f : Ptr → Mark). f q) tm ∙ rw miss refl)
        (ap (λ (f : Ptr → ℕ). f q) tt') at looks (pay (==→ne q p miss))
]

gone_taken :
    (h g : Heap) (p q : Ptr)
    → g p ≡ Option.map taken (h p)
    → (q ≢ p → Option.map unlinked (g q) ≡ Option.map unlinked (h q))
    → h q ≡ none
    → g q ≡ none
gone_taken h g p q front pay e = elim (Bool-cases (q == p)) [
  | inl hit ↦
      ap g (==→eq q p hit)
      ∙ front
      ∙ ap (λ (o : Option CcBox). Option.map taken o) (ap h (sym (==→eq q p hit)) ∙ e)
  | inr miss ↦ gone_payload h g q (pay (==→ne q p miss)) e
]

-- The boxes that are taken off a list by `remove_first` and `poll` are not marked.
abbrev pub freed_from : Snapshot → Ptr → Snapshot
freed_from s p = record s { mark = marked_at s p non_marked_mark }

cycles_nil :
    (pc : PossibleCycles) (h : Heap)
    → pc.first ≡ none
    → PossibleCycles.remove_first pc h ≡ some ((none, pc), h)
unfolding PossibleCycles.remove_first
cycles_nil pc h e = rw e refl

list_nil :
    (l : LinkedList) (h : Heap) → l.first ≡ none → LinkedList.remove_first l h ≡ some ((none, l), h)
unfolding LinkedList.remove_first
list_nil l h e = rw e refl

queue_nil :
    (l : LinkedQueue) (h : Heap) → l.first ≡ none → LinkedQueue.poll l h ≡ some ((none, l), h)
unfolding LinkedQueue.poll
queue_nil l h e = rw e refl

module _ (env w : World) (s : Snapshot) (is : IsSnapshot env w s) where
  pub cycles_remove_first-none : s.buffered ≡ [] → cycles_remove_first w ≡ ok none w
  unfolding cycles_remove_first
  cycles_remove_first-none e =
      rw
        (cycles_nil w.possible_cycles w.heap (
          subst (λ (ys : List Ptr). Chain w.heap none w.possible_cycles.first ys) e
            is.buffer.chain))
        refl

  pub root_remove_first-none : s.roots ≡ [] → root_remove_first w ≡ ok none w
  unfolding root_remove_first
  root_remove_first-none e =
      rw
        (list_nil w.locals.root_list w.heap (
          subst (λ (ys : List Ptr). Chain w.heap none w.locals.root_list.first ys) e is.root_chain))
        refl

  pub queue_poll-none : s.queued ≡ [] → queue_poll w ≡ ok none w
  unfolding queue_poll
  queue_poll-none e =
      rw
        (queue_nil w.locals.queue w.heap
          (subst (λ (ys : List Ptr). Line w.heap w.locals.queue.first ys) e is.queue.line))
        refl

  module _ (p : Ptr) (xs : List Ptr) where
    pub cycles_remove_first-Leads :
        s.buffered ≡ p ∷ xs
        → length xs + 1 < 2 ^ 64
        → Leads env (some p) (record (freed_from s p) { buffered = xs }) (cycles_remove_first w)
    unfolding cycles_remove_first
    cycles_remove_first-Leads e fits =
        let t : Snapshot = record (freed_from s p) { buffered = xs } in
        let buffer = subst (λ (ys : List Ptr). IsBuffer w.heap w.possible_cycles ys) e is.buffer in
        let (pc, g, ran, buffer', r) =
          remove_first-IsBuffer w.heap p w.possible_cycles xs buffer fits in
        let (f, o, b, at, _, _) = buffer.chain in
        let apart = λ (q : Ptr).
          subst (λ (ys : List Ptr). copies (record s { buffered = ys }) q ≤ 1) e (is.apart q) in
        (
          record w { heap = g; possible_cycles = pc },
          rw ran refl,
          record {
            framed = is.framed;
            buffer = buffer';
            root_chain =
                Chain-frame none w.locals.root_list.first s.roots
                  (λ q j. r.same q (==→ne q p (ground (arith, apart q))) (ground (arith, apart q)))
                  is.root_chain;
            non_root_chain =
                Chain-frame none w.locals.non_root_list.first s.non_roots
                  (λ q j. r.same q (==→ne q p (ground (arith, apart q))) (ground (arith, apart q)))
                  is.non_root_chain;
            queue =
                Queue-frame w.locals.queue s.queued
                  (λ q j. r.same q (==→ne q p (ground (arith, apart q))) (ground (arith, apart q)))
                  is.queue;
            apart = λ q. ground (arith, apart q);
            boxes = λ q before k.
                boxes_taken s t w.heap g p q before refl refl r.front (r.payload q)
                  (is.boxes q before k);
            gone = λ q k. gone_taken w.heap g p q r.front (r.payload q) (is.gone q k);
            loose =
                loose-out s t w.heap g p (taken b) is.loose (r.front ∙ ap (Option.map taken) at)
                  refl refl
                  (λ q ne z. (r.same q ne (ground (arith, z)), ground (arith, z, e, ne→== q p ne)));
          },
        )

    pub root_remove_first-Leads :
        s.roots ≡ p ∷ xs
        → Leads env (some p) (record (freed_from s p) { roots = xs }) (root_remove_first w)
    unfolding root_remove_first
    root_remove_first-Leads e =
        let t : Snapshot = record (freed_from s p) { roots = xs } in
        let chain =
          subst (λ (ys : List Ptr). Chain w.heap none w.locals.root_list.first ys) e
            is.root_chain in
        let (next, g, ran, chain', r) =
          remove_first-FirstRemoved w.heap w.locals.root_list.first p xs chain in
        let (f, o, b, at, _, _) = chain in
        let apart = λ (q : Ptr).
          subst (λ (ys : List Ptr). copies (record s { roots = ys }) q ≤ 1) e (is.apart q) in
        (
          record w { heap = g; locals = record (w.locals) { root_list = record { first = next } } },
          rw ran refl,
          record {
            framed = is.framed;
            buffer =
                Buffer-frame w s.buffered
                  (λ q j. r.same q (==→ne q p (ground (arith, apart q))) (ground (arith, apart q)))
                  is.buffer;
            root_chain = chain';
            non_root_chain =
                Chain-frame none w.locals.non_root_list.first s.non_roots
                  (λ q j. r.same q (==→ne q p (ground (arith, apart q))) (ground (arith, apart q)))
                  is.non_root_chain;
            queue =
                Queue-frame w.locals.queue s.queued
                  (λ q j. r.same q (==→ne q p (ground (arith, apart q))) (ground (arith, apart q)))
                  is.queue;
            apart = λ q. ground (arith, apart q);
            boxes = λ q before k.
                boxes_taken s t w.heap g p q before refl refl r.front (r.payload q)
                  (is.boxes q before k);
            gone = λ q k. gone_taken w.heap g p q r.front (r.payload q) (is.gone q k);
            loose =
                loose-out s t w.heap g p (taken b) is.loose (r.front ∙ ap (Option.map taken) at)
                  refl refl
                  (λ q ne z. (r.same q ne (ground (arith, z)), ground (arith, z, e, ne→== q p ne)));
          },
        )

    pub queue_poll-Leads :
        s.queued ≡ p ∷ xs
        → Leads env (some p) (record (freed_from s p) { queued = xs }) (queue_poll w)
    unfolding queue_poll
    queue_poll-Leads e =
        let t : Snapshot = record (freed_from s p) { queued = xs } in
        let line = subst (λ (ys : List Ptr). IsQueue w.heap w.locals.queue ys) e is.queue in
        let (queue, g, ran, line', all) = poll-IsQueue w.heap p w.locals.queue xs line in
        let (f, o, b, at, _, _) = line.line in
        let apart = λ (q : Ptr).
          subst (λ (ys : List Ptr). copies (record s { queued = ys }) q ≤ 1) e (is.apart q) in
        let same = λ (q : Ptr) (ne : q ≢ p). all q ∙ rw (ne→== q p ne) refl in
        let front : g p ≡ Option.map taken (w.heap p) = all p ∙ rw (eq→== p p refl) refl in
        (
          record w { heap = g; locals = record (w.locals) { queue = queue } },
          rw ran refl,
          record {
            framed = is.framed;
            buffer =
                Buffer-frame w s.buffered (λ q j. same q (==→ne q p (ground (arith, apart q))))
                  is.buffer;
            root_chain =
                Chain-frame none w.locals.root_list.first s.roots
                  (λ q j. same q (==→ne q p (ground (arith, apart q)))) is.root_chain;
            non_root_chain =
                Chain-frame none w.locals.non_root_list.first s.non_roots
                  (λ q j. same q (==→ne q p (ground (arith, apart q)))) is.non_root_chain;
            queue = line';
            apart = λ q. ground (arith, apart q);
            boxes = λ q before k.
                boxes_taken s t w.heap g p q before refl refl front
                  (λ ne. ap (Option.map unlinked) (same q ne)) (is.boxes q before k);
            gone = λ q k.
                gone_taken w.heap g p q front (λ ne. ap (Option.map unlinked) (same q ne))
                  (is.gone q k);
            loose =
                loose-out s t w.heap g p (taken b) is.loose (front ∙ ap (Option.map taken) at) refl
                  refl (λ q ne z. (same q ne, ground (arith, z, e, ne→== q p ne)));
          },
        )
