-- ===== src/Tracing/Start.antt =====
-- The state in which a collection of src/lib.rs starts.
use rust_cc.Prelude.{
  ℕ, ◌<◌, ◌^◌, ◌≡◌, ◌≢◌, refl, Bool, false, not, Option, none, some, List, [], if◌then◌else◌, arith,
  Bool-cases, inl, inr, ◌∙◌, ap, ap₂, sym, length,
}
use rust_cc.CounterMarker.{
  Mark, non_marked_mark, possible_cycles_mark, in_list_mark, in_queue_mark, is_in_list_or_queue,
  tracing_counter,
}
use rust_cc.CounterMarker.View.{view, is_mark, is_unmarked}
use rust_cc.CounterMarker.Laws.{
  is_in_list_or_queue-view, is_in_possible_cycles-view, tracing_counter-view,
}
use rust_cc.Heap.{Ptr, CcBox}
use rust_cc.Lists.Chain.{has, ◌∈◌, Chain-at}
use rust_cc.World.{World, no_locals, ok, ◌>>◌}
use rust_cc.Buffered.{IsBuffered}
use rust_cc.Collector.{trace_counting, trace_roots}
use rust_cc.Tracing.{Snapshot, Looks, IsSnapshot}
use rust_cc.Tracing.Graph.{IsTraceable, here}
use rust_cc.Tracing.Counting.Round.{IsRound, done_short, Origin-live}
use rust_cc.Tracing.Counting.Loop.{trace_counting-ends}
use rust_cc.Tracing.Rooting.Loop.{trace_roots-ends}
use rust_cc.Tracing.Garbage.{
  IsTraced, done-closed, done-counted, counted-IsRooting, rooted-IsTraced,
}

-- `start` is in the buffer with tracing counters of 0, no box is in another list, and the lists of
-- the collection are empty.
pub record IsReady (w : World) (start : List Ptr) : Type 0 where
  pub buffered : IsBuffered w.heap w.possible_cycles start
  pub unlisted :
      (p : Ptr) (b : CcBox) → w.heap p ≡ some b → is_in_list_or_queue b.counter_marker ≡ false
  pub reset :
      (p : Ptr) (b : CcBox) → w.heap p ≡ some b → p ∈ start → tracing_counter b.counter_marker ≡ 0
  pub no_lists : w.locals ≡ no_locals

abbrev tracing_in : Option CcBox → ℕ
tracing_in none = 0
tracing_in (some b) = (view b.counter_marker).tracing

abbrev pub first_snapshot : World → List Ptr → Snapshot
first_snapshot w start = record {
  buffered = start;
  roots = [];
  non_roots = [];
  queued = [];
  mark = λ p. if has p start then possible_cycles_mark else non_marked_mark;
  tracing = λ p. tracing_in (w.heap p);
}

mark_from :
    (m : Mark) (t : Bool)
    → not (is_unmarked m) ≡ false
    → is_mark possible_cycles_mark m ≡ t
    → m ≡ (if t then possible_cycles_mark else non_marked_mark)
mark_from non_marked_mark t u e = rw (sym e) refl
mark_from possible_cycles_mark t u e = rw (sym e) refl
mark_from in_list_mark t u e = absurd (ground (arith, u))
mark_from in_queue_mark t u e = absurd (ground (arith, u))

module _ (w : World) (start : List Ptr) (k : IsReady w start) where
  marked_at_start :
      (p : Ptr) (b : CcBox)
      → w.heap p ≡ some b
      → (view b.counter_marker).mark
        ≡ (if has p start then possible_cycles_mark else non_marked_mark)
  marked_at_start p b at =
      let words = k.buffered.words p b at in
      mark_from (view b.counter_marker).mark (has p start)
        (sym (is_in_list_or_queue-view words) ∙ k.unlisted p b at)
        (sym (is_in_possible_cycles-view words) ∙ k.buffered.marked p b at)

  start_looks : (p : Ptr) (b : CcBox) → w.heap p ≡ some b → Looks (first_snapshot w start) p b b
  start_looks p b at = record {
    words = k.buffered.words p b at;
    shown =
        ap₂ (λ (m : Mark) (n : ℕ). record (view b.counter_marker) { mark = m; tracing = n })
          (marked_at_start p b at) (sym (ap tracing_in at));
    elem = refl;
    metadata = refl;
  }

  start-IsSnapshot : IsSnapshot w w (first_snapshot w start)
  start-IsSnapshot = record {
    framed = refl;
    buffer = k.buffered.buffer;
    root_chain = rw k.no_lists refl;
    non_root_chain = rw k.no_lists refl;
    queue = rw k.no_lists (record { line = refl; end = refl });
    apart = λ p. elim (Bool-cases (has p start)) [
      | inl i ↦ rw i (ground arith)
      | inr o ↦ rw o (ground arith)
    ];
    boxes = λ p b at. (b, at, start_looks p b at);
    gone = λ p e. e;
    loose = λ p b at free. k.buffered.loose p b at (ground (arith, free)) (k.unlisted p b at);
  }

  pub start-live : (p : Ptr) → p ∈ start → (b : CcBox) × (w.heap p ≡ some b)
  start-live p i = Chain-at w.heap p none w.possible_cycles.first start k.buffered.buffer.chain i

  start-reset : (p : Ptr) → p ∈ start → tracing_in (w.heap p) ≡ 0
  start-reset p i =
      let (b, at) = start-live p i in
      ap tracing_in at ∙ sym (tracing_counter-view (k.buffered.words p b at)) ∙ k.reset p b at i

  start-marked : (p : Ptr) → (first_snapshot w start).mark p ≢ non_marked_mark → p ∈ start
  start-marked p m = ground (arith, m)

  start-IsRound : IsRound w start (first_snapshot w start) []
  start-IsRound = record {
    counting = record {
      fine = λ p. record {
        marks = refl;
        tracked = λ m. start-reset p (start-marked p m);
        unseen = λ z. refl;
        short = λ z. ground (arith, z);
        full = λ z. ground (arith, z);
        settled = refl;
        free = λ z. ground (arith, z);
      };
      reached = λ p m. (p, start-marked p m, here);
    };
    distinct = tt;
    covered = λ p i. rw i refl;
  }

  -- If a collection can start, with a buffer whose length fits a machine word, the boxes are
  -- well-formed, with counts below the reserved value, the `Trace` implementations keep to their
  -- safety conditions without a panic, the heap is finite and the fuel exceeds the number of its
  -- boxes: `trace_counting` and then `trace_roots` end normally; the buffer, the root list and the
  -- queue are empty, and the list of garbage has exactly the objects that can be reached from the
  -- buffered ones but not from one of these objects to which there are more pointers than these
  -- objects have; every box is as before but for its links, its mark and its tracing counter.
  pub tracing-IsTraced :
      (fuel : ℕ) (all : List Ptr)
      → IsTraceable w
      → ((p : Ptr) (b : CcBox) → w.heap p ≡ some b → p ∈ all)
      → length start < 2 ^ 64
      → length all < fuel
      → (v : World) × (done : List Ptr) × (s : Snapshot) × ((do
        trace_counting fuel
        trace_roots fuel)
            w
          ≡ ok tt v)
        × IsSnapshot w v s
        × IsTraced w start done s
  tracing-IsTraced fuel all good finite fits enough =
      let (s1, done, (v1, ran1, is1), queue1, buffer1, round) =
        trace_counting-ends w start all good start-live finite fuel w (first_snapshot w start)
          start-IsSnapshot start-IsRound fits enough in
      let alive : (p : Ptr) → p ∈ done → (b : CcBox) × (w.heap p ≡ some b) = (λ p i.
        Origin-live w start all good start-live finite p
          ((done-counted w start done s1 round buffer1 queue1 p).0 i)) in
      let (s2, gone, (v2, ran2, is2), queue2, roots2, rooting) =
        trace_roots-ends w done good alive (done-closed w start done s1 round buffer1 queue1) fuel
          v1 s1 is1 (counted-IsRooting w start done s1 round buffer1 queue1)
          (ground (arith, done_short w start all good start-live finite s1 done round, enough)) in
      (
        v2,
        done,
        s2,
        rw ran1 ran2,
        is2,
        rooted-IsTraced w start done s1 round buffer1 queue1 s2 gone rooting roots2 queue2,
      )
