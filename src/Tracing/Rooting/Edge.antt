-- ===== src/Tracing/Rooting/Edge.antt =====
-- One traced pointer of the root tracing phase: `CcBox::trace` of src/cc.rs.
use rust_cc.Prelude.{
  ℕ, ◌≡◌, ◌≢◌, refl, Bool, true, false, ◌&&◌, none, some, List, [], ◌∷◌, ◌++◌, ◌==◌, ◌||◌,
  if◌then◌else◌, arith, Bool-cases, inl, inr, ==→eq, ==→ne, eq→==, ne→==, ◌∙◌, ap₂, sym, subst,
}
use rust_cc.CounterMarker.{
  Mark, mark, counter, tracing_counter, is_in_list, non_marked_mark, in_list_mark, in_queue_mark,
}
use rust_cc.CounterMarker.View.{is_mark}
use rust_cc.Heap.{Ptr, CcBox}
use rust_cc.Lists.Chain.{has, erase, ◌∈◌, ◌∉◌, mem-erase_ne, not-mem-erase_self, not-mem-erase}
use rust_cc.Lists.LinkedList
use rust_cc.Lists.LinkedQueue
use rust_cc.Lists.Queue.{has-append}
use rust_cc.World.{World, set_marker, on_queue, on_non_root_list, ◌>>◌}
use rust_cc.Collector.{trace, trace_from_root, root_tracing}
use rust_cc.Tracing.{Snapshot, Looks, IsSnapshot, Leads}
use rust_cc.Tracing.Graph.{count, inbound}
use rust_cc.Tracing.Reads.{
  box_at_run, counter-Looks, tracing_counter-Looks, is_in_list-Looks, count-at,
}
use rust_cc.Tracing.Moves.{non_root_remove-Leads}
use rust_cc.Tracing.Adds.{queue_add-Leads}
use rust_cc.Tracing.Marks.{with_marker, mark-Leads}
use rust_cc.Tracing.Rooting.{PlacedAt, IsHeld, IsRooting, Roots}

decided :
    (m : Mark) (seen total : ℕ) (root non_root queued : Bool)
    → m ≡ (
        if root || non_root
        then in_list_mark
        else if queued
        then in_queue_mark
        else non_marked_mark)
    → (root ≡ true → seen ≢ total)
    → (non_root ≡ true → seen ≡ total)
    → (is_mark in_list_mark m && total == seen) ≡ non_root
decided m seen total true true queued e short full = absurd (short refl (full refl))
decided m seen total true false queued e short full =
    rw (e, ne→== total seen (λ z. short refl (sym z))) refl
decided m seen total false true queued e short full =
    rw (e, eq→== total seen (sym (full refl))) refl
decided m seen total false false true e short full = rw e refl
decided m seen total false false false e short full = rw e refl

module _ (env w : World) (done busy gone : List Ptr) (s : Snapshot) (is : IsSnapshot env w s)
    (k : IsRooting env done s busy gone) (p : Ptr) (before : CcBox) (e : env.heap p ≡ some before)
    (counted : p ∈ done) (origin : IsHeld env done p) where
  self : (p == p) ≡ true
  self = eq→== p p refl

  abbrev rescued : Snapshot
  rescued =
      let s1 = with_marker s p non_marked_mark (s.tracing p) in
      let s2 : Snapshot = record s1 { non_roots = erase p s.non_roots } in
      let s3 : Snapshot = record s2 { queued = s.queued ++ p ∷ [] } in
      with_marker s3 p in_queue_mark (s3.tracing p)

  removed : p ∉ erase p s.non_roots
  removed =
      not-mem-erase_self w.heap p none w.locals.non_root_list.first s.non_roots is.non_root_chain

  absent : (q : Ptr) → q ≢ p → has q (s.queued ++ p ∷ []) ≡ has q s.queued
  absent q ne = ground (arith, has-append q s.queued (p ∷ []), ne→== q p ne)

  rescued-IsRooting : p ∈ s.non_roots → IsRooting env done rescued busy gone
  rescued-IsRooting i = record {
    placed = λ q. elim (Bool-cases (q == p)) [
      | inl hit ↦ subst (PlacedAt env done rescued busy gone) (sym (==→eq q p hit)) here
      | inr miss ↦
          let ne = ==→ne q p miss in
          rw (miss, mem-erase_ne q p s.non_roots ne, absent q ne) (k.placed q)
    ];
    held = λ q j o. elim (Bool-cases (q == p)) [
      | inl hit ↦ subst (IsHeld env done) (sym (==→eq q p hit)) origin
      | inr miss ↦ k.held q j (sym (mem-erase_ne q p s.non_roots (==→ne q p miss)) ∙ o)
    ];
    spread = λ x y j l. not-mem-erase y p s.non_roots (k.spread x y j l);
  }
    where
      here : PlacedAt env done rescued busy gone p
      here =
          rw (self, removed, has-append p s.queued (p ∷ []))
            (record {
              marks = ground (arith, is.apart p);
              empty = (k.placed p).empty;
              tracked = (k.placed p).tracked;
              short = (k.placed p).short;
              full = λ z. ground (arith, z);
              settled = ground (arith, counted);
              out = λ z. ground (arith, (k.placed p).out, z, i);
            })

  rescue_run :
      (b : CcBox)
      → w.heap p ≡ some b
      → Looks s p before b
      → p ∈ s.non_roots
      → Leads env tt rescued (
          (do
            set_marker p (mark non_marked_mark)
            on_non_root_list (LinkedList.remove p)
            on_queue (LinkedQueue.add p)
            set_marker p (mark in_queue_mark))
            w)
  rescue_run b at looks i =
      let s1 = with_marker s p non_marked_mark (s.tracing p) in
      let (v1, ran1, is1) = mark-Leads env w s is p b at before non_marked_mark looks in
      let s2 : Snapshot = record s1 { non_roots = erase p s.non_roots } in
      let (v2, ran2, is2) = non_root_remove-Leads env v1 s1 is1 p i in
      let (b2, at2, looks2) = is2.boxes p before e in
      let s3 : Snapshot = record s2 { queued = s.queued ++ p ∷ [] } in
      let (v3, ran3, is3) =
        queue_add-Leads env v2 s2 is2 p b2 at2 (ground (arith, is.apart p, removed, i)) in
      let (b3, at3, looks3) = is3.boxes p before e in
      let (v4, ran4, is4) = mark-Leads env v3 s3 is3 p b3 at3 before in_queue_mark looks3 in
      (v4, rw (ran1, ran2, ran3) ran4, is4)

  -- The test of `CcBox::trace` holds for what is in the list of garbage, and for nothing else.
  tested :
      (b : CcBox)
      → Looks s p before b
      → (is_in_list b.counter_marker
          && counter b.counter_marker == tracing_counter b.counter_marker)
        ≡ has p s.non_roots
  tested b looks =
      ap₂ (λ (t u : Bool). t && u) (is_in_list-Looks s p before b looks)
        (ap₂ (λ (i j : ℕ). i == j)
          (counter-Looks s p before b looks ∙ sym (count-at env p before e))
          (tracing_counter-Looks s p before b looks ∙ (k.placed p).tracked counted))
      ∙ decided (s.mark p) (inbound env p done) (count env p) (has p s.roots) (has p s.non_roots)
          (has p s.queued) (k.placed p).marks (k.placed p).short (k.placed p).full

  pub trace-Roots : Roots env done busy gone (p ∷ []) s (trace root_tracing p w)
  unfolding trace trace_from_root
  trace-Roots =
      let (b, at, looks) = is.boxes p before e in
      elim (Bool-cases (has p s.non_roots)) [
        | inl inside ↦
            let (v, ran, is') = rescue_run b at looks inside in
            (
              rescued,
              (v, rw (box_at_run w p b at) (rw (tested b looks, inside) ran), is'),
              rescued-IsRooting inside,
              refl,
              (λ q o. not-mem-erase q p s.non_roots o),
              (λ q i.
                  subst (λ (r : Ptr). r ∉ erase p s.non_roots) (sym (==→eq q p (ground (arith, i))))
                    removed),
            )
        | inr outside ↦ (
          s,
          (w, rw (box_at_run w p b at) (rw (tested b looks, outside) refl), is),
          k,
          refl,
          (λ q o. o),
          (λ q i.
              subst (λ (r : Ptr). r ∉ s.non_roots) (sym (==→eq q p (ground (arith, i)))) outside),
        )
      ]
