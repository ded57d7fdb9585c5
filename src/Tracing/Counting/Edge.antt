-- ===== src/Tracing/Counting/Edge.antt =====
-- One traced pointer of the counting phase: `CcBox::trace` of src/cc.rs.
use rust_cc.Prelude.{
  ℕ, ◌+◌, ◌≤◌, ◌<◌, ◌≡◌, ◌≢◌, refl, Bool, true, false, ◌&&◌, none, some, List, [], ◌∷◌, ◌++◌, ◌==◌,
  if◌then◌else◌, arith, Bool-cases, inl, inr, ==→eq, ==→ne, eq→==, ◌∙◌, ap, sym, ap₂,
}
use rust_cc.CounterMarker.{
  Mark, mark, reset_tracing_counter, max_count, increment_tracing_counter, counter, tracing_counter,
  is_in_list, non_marked_mark, possible_cycles_mark, in_list_mark, in_queue_mark,
}
use rust_cc.CounterMarker.View.{is_mark}
use rust_cc.Heap.{Ptr, CcBox}
use rust_cc.Lists.Chain.{has, erase, ◌∈◌, not-mem-erase_self}
use rust_cc.Lists.LinkedQueue
use rust_cc.World.{World, on_queue, set_marker, ◌>>◌}
use rust_cc.CcBox.{after}
use rust_cc.Collector.{trace, trace_counted, move_if_counted, counting}
use rust_cc.Tracing.{Snapshot, Looks, IsSnapshot}
use rust_cc.Tracing.Graph.{count}
use rust_cc.Tracing.Reads.{
  box_at_run, counter-Looks, tracing_counter-Looks, is_in_list-Looks, is_in_list_or_queue-Looks,
  is_in_possible_cycles-Looks, count-at,
}
use rust_cc.Tracing.Moves.{root_remove-Leads}
use rust_cc.Tracing.Adds.{non_root_add-Leads, queue_add-Leads}
use rust_cc.Tracing.Marks.{with_marker, increment-Leads, reset-Leads, mark-Leads}
use rust_cc.Tracing.Layout.{Leads-then}
use rust_cc.Tracing.Counting.{Origin, IsCounting, Counts}
use rust_cc.Tracing.Counting.Kept.{
  stepped, raised, moved, found, raised-IsCounting, moved-IsCounting, found-IsCounting,
}

and_no : (t : Bool) → (t && false) ≡ false
and_no true = refl
and_no false = refl

is_mark→eq : (m : Mark) → is_mark in_list_mark m ≡ true → m ≡ in_list_mark
is_mark→eq non_marked_mark e = ground (arith, e)
is_mark→eq possible_cycles_mark e = ground (arith, e)
is_mark→eq in_list_mark e = refl
is_mark→eq in_queue_mark e = ground (arith, e)

is_mark→ne : (m : Mark) → is_mark in_list_mark m ≡ false → m ≢ in_list_mark
is_mark→ne m e z = ground (arith, ap (is_mark in_list_mark) z, e)

module _ (env w : World) (start busy done : List Ptr) (s : Snapshot) (seen : Ptr → ℕ)
    (is : IsSnapshot env w s) (c : IsCounting env start s busy done seen) (p : Ptr) (before : CcBox)
    (e : env.heap p ≡ some before) (room : seen p < count env p) (small : count env p ≤ max_count)
    (origin : Origin env start p) where
  self : (p == p) ≡ true
  self = eq→== p p refl

  -- The test of `CcBox::trace` on the incremented box.
  module _ (v : World) (is1 : IsSnapshot env v (raised s p)) (b : CcBox) (at : v.heap p ≡ some b)
      (looks : Looks (raised s p) p before b) (m : s.mark p ≢ non_marked_mark) where
    listed-at : is_in_list b.counter_marker ≡ is_mark in_list_mark (s.mark p)
    listed-at =
        is_in_list-Looks (raised s p) p before b looks
        ∙ ap (λ (t : Bool). is_mark in_list_mark (if t then s.mark p else s.mark p)) self

    counted-at :
        (counter b.counter_marker == tracing_counter b.counter_marker) ≡ (count env p == seen p + 1)
    counted-at =
        ap₂ (λ (i j : ℕ). i == j)
          (counter-Looks (raised s p) p before b looks ∙ sym (count-at env p before e))
          (tracing_counter-Looks (raised s p) p before b looks
            ∙ ap (λ (t : Bool). if t then s.tracing p + 1 else s.tracing p) self
            ∙ ap (λ (n : ℕ). n + 1) ((c.fine p).tracked m))

    move_run : Counts env start s.buffered busy done (stepped seen p) (move_if_counted p v)
    unfolding move_if_counted
    move_run = elim (Bool-cases (count env p == seen p + 1)) [
      | inl last ↦ elim (Bool-cases (is_mark in_list_mark (s.mark p))) [
        | inl inside ↦
            let full = ==→eq (count env p) (seen p + 1) last in
            let marked : s.mark p ≡ in_list_mark = is_mark→eq (s.mark p) inside in
            let held : p ∈ s.roots = ground (arith, (c.fine p).marks, (c.fine p).full, room) in
            let (v2, ran2, is2) = root_remove-Leads env v (raised s p) is1 p held in
            let gone : has p (erase p s.roots) ≡ false =
              not-mem-erase_self v.heap p none v.locals.root_list.first s.roots is1.root_chain in
            let (b2, at2, looks2) = is2.boxes p before e in
            let (v3, ran3, is3) =
              non_root_add-Leads env v2 (record (raised s p) { roots = erase p s.roots }) is2 p b2
                at2 (ground (arith, gone, (c.fine p).marks, is.apart p)) in
            (
              (moved s p),
              (
                v3,
                rw (box_at_run v p b at) (rw (listed-at, counted-at, inside, last) (rw ran2 ran3)),
                is3,
              ),
              refl,
              moved-IsCounting env w start busy done s seen is c p room origin marked (sym full),
            )
        | inr outside ↦ (
          (raised s p),
          (v, rw (box_at_run v p b at) (rw (listed-at, outside) refl), is1),
          refl,
          raised-IsCounting env w start busy done s seen is c p room origin m
              (λ z. ground (arith, (c.fine p).marks, is.apart p, is_mark→ne (s.mark p) outside)),
        )
      ]
      | inr more ↦ (
        (raised s p),
        (
          v,
          rw (box_at_run v p b at)
              (rw (counted-at, more) (rw (and_no (is_in_list b.counter_marker)) refl)),
          is1,
        ),
        refl,
        raised-IsCounting env w start busy done s seen is c p room origin m
            (λ z k. ==→ne (count env p) (seen p + 1) more (sym k)),
      )
    ]

  module _ (b : CcBox) (at : w.heap p ≡ some b) (looks : Looks s p before b) where
    -- The counter is incremented, and the box may have been the last one that was missing.
    raised_run :
        s.mark p ≢ non_marked_mark
        → Counts env start s.buffered busy done
            (stepped seen p)
            ((do set_marker p (after increment_tracing_counter); move_if_counted p) w)
    raised_run m =
        let (v, ran, is1) =
          increment-Leads env w s is p b at before looks
            (ground (arith, (c.fine p).tracked m, room, small)) in
        let (b1, at1, looks1) = is1.boxes p before e in
        let (t, l, same, k) = move_run v is1 b1 at1 looks1 m in
        (
          t,
          Leads-then env (set_marker p (after increment_tracing_counter)) (λ _. move_if_counted p) w
              v tt tt t ran l,
          same,
          k,
        )

    -- The box is (found s p), and waits in the queue.
    found_run :
        s.mark p ≡ non_marked_mark
        → Counts env start s.buffered busy done (stepped seen p) (
            (do
              set_marker p reset_tracing_counter
              set_marker p (after increment_tracing_counter)
              on_queue (LinkedQueue.add p)
              set_marker p (mark in_queue_mark))
              w)
    found_run m =
        let s1 = with_marker s p (s.mark p) 0 in
        let (v1, ran1, is1) = reset-Leads env w s is p b at before looks in
        let (b1, at1, looks1) = is1.boxes p before e in
        let s2 = with_marker s1 p (s1.mark p) (s1.tracing p + 1) in
        let (v2, ran2, is2) =
          increment-Leads env v1 s1 is1 p b1 at1 before looks1 (rw self (ground arith)) in
        let (b2, at2, looks2) = is2.boxes p before e in
        let s3 : Snapshot = record s2 { queued = s.queued ++ p ∷ [] } in
        let (v3, ran3, is3) =
          queue_add-Leads env v2 s2 is2 p b2 at2
            (ground (arith, is.apart p, (c.fine p).marks, m)) in
        let (b3, at3, looks3) = is3.boxes p before e in
        let (v4, ran4, is4) = mark-Leads env v3 s3 is3 p b3 at3 before in_queue_mark looks3 in
        (
          (found s p),
          (v4, rw (ran1, ran2, ran3) ran4, is4),
          refl,
          found-IsCounting env w start busy done s seen is c p room origin m,
        )

  pub trace-Counts : Counts env start s.buffered busy done (stepped seen p) (trace counting p w)
  unfolding trace trace_counted
  trace-Counts = let (b, at, looks) = is.boxes p before e in go b at looks (s.mark p) refl
    where
      go :
          (b : CcBox)
          → w.heap p ≡ some b
          → Looks s p before b
          → (m : Mark) → s.mark p ≡ m
          → Counts env start s.buffered busy done (stepped seen p) (trace counting p w)
      go b at looks non_marked_mark m =
          let (t, (v, ran, is'), same, k) = found_run b at looks m in
          (
            t,
            (
              v,
              rw (box_at_run w p b at) (
                  rw
                    (
                      is_in_list_or_queue-Looks s p before b looks,
                      is_in_possible_cycles-Looks s p before b looks,
                      m,
                    )
                    ran),
              is',
            ),
            same,
            k,
          )
      go b at looks possible_cycles_mark m =
          let (v, ran, is') =
            increment-Leads env w s is p b at before looks
              (ground (arith, (c.fine p).tracked, m, room, small)) in
          (
            (raised s p),
            (
              v,
              rw (box_at_run w p b at) (
                  rw
                    (
                      is_in_list_or_queue-Looks s p before b looks,
                      is_in_possible_cycles-Looks s p before b looks,
                      m,
                    )
                    ran),
              is',
            ),
            refl,
            raised-IsCounting env w start busy done s seen is c p room origin
                (λ z. ground (arith, m, z)) (λ z. ground (arith, (c.fine p).marks, is.apart p, m)),
          )
      go b at looks in_list_mark m =
          let (t, (v, ran, is'), same, k) = raised_run b at looks (λ z. ground (arith, m, z)) in
          (
            t,
            (
              v,
              rw (box_at_run w p b at) (rw (is_in_list_or_queue-Looks s p before b looks, m) ran),
              is',
            ),
            same,
            k,
          )
      go b at looks in_queue_mark m =
          let (t, (v, ran, is'), same, k) = raised_run b at looks (λ z. ground (arith, m, z)) in
          (
            t,
            (
              v,
              rw (box_at_run w p b at) (rw (is_in_list_or_queue-Looks s p before b looks, m) ran),
              is',
            ),
            same,
            k,
          )
