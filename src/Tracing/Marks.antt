-- ===== src/Tracing/Marks.antt =====
-- The changes of a counter marker that the collector of src/lib.rs and `CcBox::trace` of src/cc.rs
-- make.
use rust_cc.Prelude.{
  ℕ, ◌+◌, ◌<◌, ◌≡◌, ◌≢◌, refl, Option, none, some, List, [], ◌∷◌, ◌==◌, if◌then◌else◌, arith,
  Bool-cases, inl, inr, ==→eq, ==→ne, ◌∙◌, ap, sym, subst,
}
use rust_cc.CounterMarker.{
  CounterMarker, Mark, mark, counter_mask, max_count, reset_tracing_counter,
  increment_tracing_counter,
}
use rust_cc.CounterMarker.View.{View, IsWords, view, increment_tracing}
use rust_cc.CounterMarker.Laws.{
  view-mark, view-reset_tracing_counter, view-increment_tracing_counter,
}
use rust_cc.CounterMarker.Refinement.{
  AllWords, mark-IsWords, reset_tracing_counter-IsWords, increment_tracing_counter-IsWords,
}
use rust_cc.Heap.{Ptr, CcBox, Heap}
use rust_cc.Lists.Chain.{Chain-SameLinks}
use rust_cc.Lists.Queue.{Line}
use rust_cc.World.{World, set_marker}
use rust_cc.CcBox.{after}
use rust_cc.Buffered.Marker.{
  remarked, remarked_self, remarked-other, remarked-SameLinks, update_marker-remarked,
}
use rust_cc.Tracing.{Snapshot, Looks, IsSnapshot, Leads, copies}
use rust_cc.Tracing.Takes.{marked_at}

abbrev pub traced_at : Snapshot → Ptr → ℕ → Ptr → ℕ
traced_at s p n q = if q == p then n else s.tracing q

abbrev pub with_marker : Snapshot → Ptr → Mark → ℕ → Snapshot
with_marker s p m n = record s { mark = marked_at s p m; tracing = traced_at s p n }

pub Line-remarked :
    (h : Heap) (p : Ptr) (b : CcBox) (c : CounterMarker) (first : Option Ptr) (xs : List Ptr)
    → h p ≡ some b
    → Line h first xs
    → Line (remarked h p b c) first xs
Line-remarked h p b c first [] at line = line
Line-remarked h p b c first (x ∷ xs) at (e, o, d, atd, pre, rest) = elim (Bool-cases (x == p)) [
  | inl hit ↦
      let same : b ≡ d = ground (arith, ap h (==→eq x p hit)) in
      (
        e,
        o,
        record b { counter_marker = c },
        ap (remarked h p b c) (==→eq x p hit) ∙ remarked_self h p b at c,
        ap (λ (k : CcBox). k.prev) same ∙ pre,
        subst (λ (n : Option Ptr). Line (remarked h p b c) n xs)
            (sym (ap (λ (k : CcBox). k.next) same)) (Line-remarked h p b c d.next xs at rest),
      )
  | inr miss ↦ (
    e,
    o,
    d,
    remarked-other h p b at c x (==→ne x p miss) ∙ atd,
    pre,
    Line-remarked h p b c d.next xs at rest,
  )
]

module _ (env w : World) (s : Snapshot) (is : IsSnapshot env w s) (p : Ptr) (b : CcBox)
    (at : w.heap p ≡ some b) where
  pub set_marker-Leads :
      (f : CounterMarker → CounterMarker) (m : Mark) (n : ℕ)
      → IsWords (f b.counter_marker)
      → view (f b.counter_marker) ≡ record (view b.counter_marker) { mark = m; tracing = n }
      → Leads env tt (with_marker s p m n) (set_marker p f w)
  set_marker-Leads f m n words shown =
      let c = f b.counter_marker in
      let g = remarked w.heap p b c in
      let same = remarked-SameLinks w.heap p b at c in
      (
        record w { heap = g },
        rw (update_marker-remarked w.heap p b f at) refl,
        record {
          framed = is.framed;
          buffer = record {
            chain =
                Chain-SameLinks w.heap g none w.possible_cycles.first s.buffered same
                  is.buffer.chain;
            counted = is.buffer.counted;
          };
          root_chain =
              Chain-SameLinks w.heap g none w.locals.root_list.first s.roots same is.root_chain;
          non_root_chain =
              Chain-SameLinks w.heap g none w.locals.non_root_list.first s.non_roots same
                is.non_root_chain;
          queue = record {
            line = Line-remarked w.heap p b c w.locals.queue.first s.queued at is.queue.line;
            end = is.queue.end;
          };
          apart = is.apart;
          boxes = λ q before e. marked_box q before (is.boxes q before e);
          gone = λ q e. still_gone q (is.gone q e);
          loose = λ q d e z. marked_loose q d e z;
        },
      )
    where
      marked_box :
          (q : Ptr) (before : CcBox)
          → (d : CcBox) × (w.heap q ≡ some d) × Looks s q before d
          → (d : CcBox) × (remarked w.heap p b (f b.counter_marker) q ≡ some d)
            × Looks (with_marker s p m n) q before d
      marked_box q before (d, atd, looks) = elim (Bool-cases (q == p)) [
        | inl hit ↦
            let same : d ≡ b = ground (arith, ap w.heap (==→eq q p hit)) in
            (
              record b { counter_marker = f b.counter_marker },
              ap (remarked w.heap p b (f b.counter_marker)) (==→eq q p hit)
                  ∙ remarked_self w.heap p b at (f b.counter_marker),
              record {
                words = words;
                shown =
                    shown
                    ∙ rw hit (
                        ap (λ (v : View). record v { mark = m; tracing = n })
                          (ap (λ (k : CcBox). view k.counter_marker) (sym same) ∙ looks.shown));
                elem = ap (λ (k : CcBox). k.elem) (sym same) ∙ looks.elem;
                metadata = ap (λ (k : CcBox). k.metadata) (sym same) ∙ looks.metadata;
              },
            )
        | inr miss ↦ (
          d,
          remarked-other w.heap p b at (f b.counter_marker) q (==→ne q p miss) ∙ atd,
          record {
            words = looks.words;
            shown = rw miss looks.shown;
            elem = looks.elem;
            metadata = looks.metadata;
          },
        )
      ]

      still_gone : (q : Ptr) → w.heap q ≡ none → remarked w.heap p b (f b.counter_marker) q ≡ none
      still_gone q e =
          remarked-other w.heap p b at (f b.counter_marker) q
            (λ same. ground (arith, at, ap w.heap same, e))
          ∙ e

      marked_loose :
          (q : Ptr) (d : CcBox)
          → remarked w.heap p b (f b.counter_marker) q ≡ some d
          → copies s q ≡ 0
          → (d.next ≡ none) × (d.prev ≡ none)
      marked_loose q d e z = elim (Bool-cases (q == p)) [
        | inl hit ↦
            let c = f b.counter_marker in
            let own =
              sym e ∙ ap (remarked w.heap p b c) (==→eq q p hit) ∙ remarked_self w.heap p b at c in
            let (dn, dp) =
              is.loose p b at (subst (λ (r : Ptr). copies s r ≡ 0) (==→eq q p hit) z) in
            ground arith
        | inr miss ↦
            is.loose q d
              (sym (remarked-other w.heap p b at (f b.counter_marker) q (==→ne q p miss)) ∙ e) z
      ]

  pub mark-Leads :
      (before : CcBox) (m : Mark)
      → Looks s p before b
      → Leads env tt (with_marker s p m (s.tracing p)) (set_marker p (mark m) w)
  mark-Leads before m looks =
      set_marker-Leads (mark m) m (s.tracing p) (mark-IsWords looks.words m) (
        view-mark looks.words m
        ∙ ap (λ (n : ℕ). record (view b.counter_marker) { mark = m; tracing = n })
            (ap (λ (v : View). v.tracing) looks.shown))

  pub reset-Leads :
      (before : CcBox)
      → Looks s p before b
      → Leads env tt (with_marker s p (s.mark p) 0) (set_marker p reset_tracing_counter w)
  reset-Leads before looks =
      set_marker-Leads reset_tracing_counter (s.mark p) 0
        (reset_tracing_counter-IsWords looks.words)
        (view-reset_tracing_counter looks.words
          ∙ ap (λ (m : Mark). record (view b.counter_marker) { mark = m; tracing = 0 })
              (ap (λ (v : View). v.mark) looks.shown))

  pub increment-Leads :
      (before : CcBox)
      → Looks s p before b
      → s.tracing p < max_count
      → Leads env tt
          (with_marker s p (s.mark p) (s.tracing p + 1))
          (set_marker p (after increment_tracing_counter) w)
  unfolding increment_tracing
  increment-Leads before looks room = go (increment_tracing_counter b.counter_marker) refl
    where
      lt : (view b.counter_marker).tracing < max_count
      lt = subst (λ (n : ℕ). n < max_count) (sym (ap (λ (v : View). v.tracing) looks.shown)) room

      ne : (view b.counter_marker).tracing ≢ counter_mask
      ne e = ground (arith, lt)

      go :
          (o : Option CounterMarker)
          → increment_tracing_counter b.counter_marker ≡ o
          → Leads env tt
              (with_marker s p (s.mark p) (s.tracing p + 1))
              (set_marker p (after increment_tracing_counter) w)
      go none e = ground (arith, view-increment_tracing_counter looks.words ne, lt)
      go (some d) e =
          set_marker-Leads (after increment_tracing_counter) (s.mark p) (s.tracing p + 1)
            (rw e (subst AllWords e (increment_tracing_counter-IsWords looks.words)))
            (rw e (
              step
              ∙ ap
                  (λ (v : View). record (view b.counter_marker) {
                    mark = v.mark;
                    tracing = v.tracing + 1;
                  })
                  looks.shown))
        where
          step :
              view d
              ≡ record (view b.counter_marker) { tracing = (view b.counter_marker).tracing + 1 }
          step = ground (arith, view-increment_tracing_counter looks.words ne, lt)
