-- ===== src/Sweep/Owning.antt =====
-- Drop glue that drops the `Cc`s of a value, by `Drop for Cc` of src/cc.rs, while src/lib.rs drops the
-- values of its garbage.
use rust_cc.Prelude.{
  ◌≡◌, refl, not, ◌≢◌, true, Option, none, some, List, [], ◌∷◌, arith, ◌∙◌, ap, sym, subst, eq→==,
}
use rust_cc.CounterMarker.{
  CounterMarker, Mark, counter, is_in_list, is_in_list_or_queue, non_marked_mark,
  possible_cycles_mark, in_list_mark, in_queue_mark, decrement_counter, has_allocated_for_metadata,
}
use rust_cc.CounterMarker.View.{View, IsWords, view, is_mark, is_unmarked, decrement_count}
use rust_cc.CounterMarker.Laws.{
  counter-view, view-decrement_counter, is_in_list-view, is_in_list_or_queue-view,
}
use rust_cc.Heap.{Ptr, CcBox}
use rust_cc.Lists.Chain.{◌∈◌}
use rust_cc.State
use rust_cc.World.{World, Cmd, Client, ok, skip, box_at, ◌>>=◌, ◌>>◌}
use rust_cc.CcBox.{after}
use rust_cc.Cc.{drop_cc, count_down}
use rust_cc.Buffered.Counts.{counted_down}
use rust_cc.Buffered.Marker.{as_ref-at, update_marker-remarked, remarked}
use rust_cc.Tracing.Graph.{edges, edges_in, Reach, here, next, IsTraceable}
use rust_cc.Tracing.Counting.{Origin}
use rust_cc.Tracing.Reads.{is_in_list-Looks, box_at_run}
use rust_cc.Sweep.{Spares, IsQuiet, DropsQuietly, flagged}
use rust_cc.Sweep.Drops.{remarked-Spares, flagged-Spares, Spares-trans, Spares-refl}

module _ (inner : Client) where
  abbrev pub drop_owned : List Ptr → Cmd (Unit {0})
  drop_owned [] = skip
  drop_owned (q ∷ qs) = do drop_cc inner q; drop_owned qs

  -- A value that owns the `Cc`s that it traces, with a finalizer that does nothing.
  abbrev pub owner : Client
  owner = record {
    finalize = λ p. skip;
    drop_elem = λ p. (do b ← box_at p; drop_owned b.elem.traced);
  }

-- A box in a list of the collector.
abbrev Listed : World → Ptr → Type 0
Listed u q =
    (d : CcBox) × (u.heap q ≡ some d)
    × IsWords d.counter_marker
    × (is_in_list d.counter_marker ≡ true)

Listed-Spares : {u v : World} → Spares u v → (q : Ptr) → Listed u q → Listed v q
Listed-Spares k q (d, at, words, inside) =
    let (x, atx, same) = k.boxes q d at in
    (x, atx, (same.marker words).0, (same.listed words inside).0)

marked-busy : (m : Mark) → is_mark in_list_mark m ≡ true → not (is_unmarked m) ≡ true
marked-busy non_marked_mark inside = ground (arith, inside)
marked-busy possible_cycles_mark inside = ground (arith, inside)
marked-busy in_list_mark inside = refl
marked-busy in_queue_mark inside = refl

listed-busy : (c : CounterMarker) → IsWords c → is_in_list c ≡ true → is_in_list_or_queue c ≡ true
listed-busy c words inside =
    is_in_list_or_queue-view words
    ∙ marked-busy (view c).mark (sym (is_in_list-view words) ∙ inside)

counted_alike :
    (c : CounterMarker)
    → IsWords c
    → IsWords (after decrement_counter c)
      × (is_in_list (after decrement_counter c) ≡ is_in_list c)
      × (has_allocated_for_metadata (after decrement_counter c) ≡ has_allocated_for_metadata c)
unfolding decrement_count
counted_alike c words = go (decrement_counter c) refl
  where
    nonzero : (x : CounterMarker) → decrement_counter c ≡ some x → counter c ≢ 0
    nonzero x e zero_now =
        absurd (ground (arith, view-decrement_counter words, counter-view words, e, zero_now))

    go :
        (o : Option CounterMarker)
        → decrement_counter c ≡ o
        → IsWords (after decrement_counter c)
          × (is_in_list (after decrement_counter c) ≡ is_in_list c)
          × (has_allocated_for_metadata (after decrement_counter c) ≡ has_allocated_for_metadata c)
    go none e = rw e (words, refl, refl)
    go (some x) e =
        let (d, e2, re) = counted_down c words (nonzero x e) in
        rw e2 (
          re.words,
          is_in_list-view re.words
              ∙ ap (λ (v : View). is_mark in_list_mark v.mark) re.shown
              ∙ sym (is_in_list-view words),
          re.metadata,
        )

module _ (inner : Client) where
  drop_cc-Spares :
      (u : World) (q : Ptr) → Listed u q → (v : World) × (drop_cc inner q u ≡ ok tt v) × Spares u v
  unfolding drop_cc count_down
  drop_cc-Spares u q (d, at, words, inside) = (
    record u { heap = remarked u.heap q d (after decrement_counter d.counter_marker) },
    rw (as_ref-at u.heap q d at, listed-busy d.counter_marker words inside)
        (rw (update_marker-remarked u.heap q d (after decrement_counter) at) refl),
    remarked-Spares u q d (after decrement_counter d.counter_marker) at
        (counted_alike d.counter_marker),
  )

  drop_owned-Spares :
      (qs : List Ptr) (u : World)
      → ((q : Ptr) → q ∈ qs → Listed u q)
      → (v : World) × (drop_owned inner qs u ≡ ok tt v) × Spares u v
  drop_owned-Spares [] u listed = (u, refl, Spares-refl u)
  drop_owned-Spares (q ∷ qs) u listed =
      let (v, ran, k) = drop_cc-Spares u q (listed q (ground (arith, eq→== q q refl))) in
      let (x, ran2, k2) =
        drop_owned-Spares qs v (λ r i. Listed-Spares k r (listed r (ground (arith, i)))) in
      (x, rw ran ran2, Spares-trans k k2)

  -- A value whose pointers all lead into a list of the collector is dropped quietly.
  drops-quietly :
      (owned : Ptr → List Ptr) (xs : List Ptr) (u : World)
      → ((p : Ptr) (b : CcBox) → p ∈ xs → u.heap p ≡ some b → b.elem.traced ≡ owned p)
      → ((p : Ptr) → p ∈ xs → (b : CcBox) × (u.heap p ≡ some b))
      → ((p q : Ptr) → p ∈ xs → q ∈ owned p → Listed u q)
      → DropsQuietly (owner inner) xs u
  drops-quietly owned [] u values live listed = tt
  drops-quietly owned (p ∷ xs) u values live listed = λ b at.
      let first : p ∈ (p ∷ xs) = ground (arith, eq→== p p refl) in
      let k1 = flagged-Spares u p b at in
      let (d, atd, same) = k1.boxes p b at in
      let to : d.elem.traced ≡ owned p = ap (λ e. e.traced) same.elem ∙ values p b first at in
      let (v, ran, k2) =
        drop_owned-Spares d.elem.traced (flagged u p b)
          (λ q i. Listed-Spares k1 q (listed p q first (subst (λ (es : List Ptr). q ∈ es) to i))) in
      let k = Spares-trans k1 k2 in
      (
        v,
        rw (box_at_run (flagged u p b) p d atd) ran,
        k2,
        drops-quietly owned xs v
            (λ r x i atx.
              let (y, aty) = live r (ground (arith, i)) in
              let (z, atz, kept) = k.boxes r y aty in
              let one : z ≡ x = ground (arith, atx, atz) in
              ap (λ (c : CcBox). c.elem.traced) (sym one)
              ∙ ap (λ e. e.traced) kept.elem
              ∙ values r y (ground (arith, i)) aty)
            (λ r i.
              let (y, aty) = live r (ground (arith, i)) in
              let (z, atz, kept) = k.boxes r y aty in (z, atz))
            (λ r q i j. Listed-Spares k q (listed r q (ground (arith, i)) j)),
      )

Reach-trans : (env : World) (p q r : Ptr) → Reach env p q → Reach env q r → Reach env p r
Reach-trans env p q r path here = path
Reach-trans env p q r path (next {q = x} rest i) = next (Reach-trans env p q x path rest) i

-- Where every pointer of a value lies on a cycle, the drop glue that drops all of them is quiet.
pub owner-IsQuiet :
    (inner : Client) (env : World) (start : List Ptr)
    → IsTraceable env
    → ((p : Ptr) → p ∈ start → (b : CcBox) × (env.heap p ≡ some b))
    → ((p e : Ptr) → e ∈ edges env p → Reach env e p)
    → IsQuiet env start (owner inner)
owner-IsQuiet inner env start good begins cyclic done u s is traced =
    drops-quietly inner (edges env) s.non_roots u1
      (λ p b i at.
        let (before, e) = live p i in
        let (d, atd, looks) = is.boxes p before e in
        let one : d ≡ b = ground (arith, at, atd) in
        ap (λ (c : CcBox). c.elem.traced) (sym one)
        ∙ ap (λ x. x.traced) looks.elem
        ∙ ap edges_in (sym e))
      (λ p i. let (before, e) = live p i in let (d, atd, looks) = is.boxes p before e in (d, atd))
      (λ p q i j.
        let (before, e) = good.live p q j in
        let (d, atd, looks) = is.boxes q before e in
        (
          d,
          atd,
          looks.words,
          is_in_list-Looks s q before d looks
              ∙ ap (λ (m : Mark). is_mark in_list_mark m) (traced.marks q)
              ∙ rw (closed p q i j) refl,
        ))
  where
    u1 : World
    u1 = record u { state = State.set_dropping true u.state }

    origin_live : (p : Ptr) → Origin env start p → (b : CcBox) × (env.heap p ≡ some b)
    origin_live p (b, i, here) = begins b i
    origin_live p (b, i, next {q} path j) = good.live q p j

    live : (p : Ptr) → p ∈ s.non_roots → (b : CcBox) × (env.heap p ≡ some b)
    live p i = origin_live p ((traced.counted p).0 ((traced.garbage p).0 i).0)

    closed : (p q : Ptr) → p ∈ s.non_roots → q ∈ edges env p → q ∈ s.non_roots
    closed p q i j =
        let (k, unheld) = (traced.garbage p).0 i in
        let (b, first, path) = (traced.counted p).0 k in
        (traced.garbage q).1 (
          (traced.counted q).1 (b, first, next path j),
          λ h.
              let (r, in_done, unequal, way) = h in
              unheld (r, in_done, unequal, Reach-trans env r q p way (cyclic p q j)),
        )
