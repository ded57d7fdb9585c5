-- ===== src/Sweep/Rounds.antt =====
-- The rounds of `collect` of src/lib.rs: what the first pass finalizes, the second one frees.
use rust_cc.Prelude.{
  ℕ, suc, ◌≤◌, ◌<◌, ◌^◌, ◌≡◌, refl, false, not, none, some, List, [], ◌∷◌, arith, Bool-cases, inl,
  inr, ◌∙◌, ap, sym, subst, length,
}
use rust_cc.CounterMarker.{needs_finalization}
use rust_cc.CounterMarker.Laws.{needs_finalization-view}
use rust_cc.Heap.{Ptr, CcBox}
use rust_cc.Lists.Chain.{Chain, has, ◌∈◌, ◌∉◌}
use rust_cc.Lists.PossibleCycles
use rust_cc.Lists.PossibleCycles.{PossibleCycles}
use rust_cc.World.{World, Client, ok}
use rust_cc.Collector.{collect_once, collect_rounds}
use rust_cc.Tracing.Graph.{IsTraceable}
use rust_cc.Tracing.Start.{IsReady, tracing-IsTraced}
use rust_cc.Sweep.{IsQuiet}
use rust_cc.Sweep.Frees.{IsUnshared}
use rust_cc.Sweep.Finalize.{IsInert}
use rust_cc.Sweep.PutBack.{Returns}
use rust_cc.Sweep.Again.{Finds, same_garbage}
use rust_cc.Sweep.Same.{Returns-IsSame, Returns-IsTraceable, was, Origin-IsSame, IsHeld-IsSame}
use rust_cc.Sweep.Collect.{Swept, begun, collect_once-then, finalize_and_deallocate-Swept}
use rust_cc.Sweep.Passes.{begun-Returns, fits_start, collect_once-Passed}

not_empty : (pc : PossibleCycles) (p : Ptr) → pc.first ≡ some p → PossibleCycles.is_empty pc ≡ false
unfolding PossibleCycles.is_empty
not_empty pc p e = rw e refl

module _ (env v : World) (garbage : List Ptr) (back : Returns env garbage v) where
  Returns-IsUnshared : IsUnshared env → IsUnshared v
  Returns-IsUnshared unshared p q b d m atp atq bm dm =
      let (b0, ep, restp) = was env v garbage back p b atp in
      let (d0, eq, restq) = was env v garbage back q d atq in
      unshared p q b0 d0 m ep eq (sym restp.metadata ∙ bm) (sym restq.metadata ∙ dm)

  -- What was finalized need not be finalized again.
  finalized-Returns :
      (p : Ptr) (d : CcBox)
      → p ∈ garbage
      → v.heap p ≡ some d
      → needs_finalization d.counter_marker ≡ false
  finalized-Returns p d i at =
      let (before, e, rests) = was env v garbage back p d at in
      needs_finalization-view rests.words ∙ ap not rests.finalized ∙ rw i refl

  -- Where the pass found no garbage, nothing is left to do.
  none-Swept :
      (start done : List Ptr)
      → Finds env start done garbage
      → garbage ≡ []
      → Swept env start done garbage v
  none-Swept start done finds e = record {
    counted = finds.counted;
    found = finds.found;
    freed = λ p i. absurd (ground (arith, i, e));
    kept =
        λ p b o at. let (d, atd, rests) = back.boxes p b at in (d, atd, rests.elem, rests.metadata);
  }

module _ (all : List Ptr) (fuel : ℕ) (client : Client) (enough : length all < fuel)
    (word : length all < 2 ^ 64) (inert : IsInert client) (w : World) (start : List Ptr)
    (ready : IsReady (begun w) start) (good : IsTraceable (begun w))
    (finite : (p : Ptr) (b : CcBox) → w.heap p ≡ some b → p ∈ all)
    (quiet : IsQuiet (begun w) start client)
    (later : (garbage : List Ptr) (v : World)
      → Returns (begun w) garbage v
      → IsQuiet v garbage client)
    (unshared : IsUnshared (begun w)) where
  -- The pass behind one that put the garbage back.
  second-Swept :
      (v : World) (done garbage : List Ptr)
      → Finds (begun w) start done garbage
      → Returns (begun w) garbage v
      → (x : World) × (collect_once fuel client v ≡ ok tt x) × Swept (begun w) start done garbage x
  second-Swept v done garbage finds returns =
      let back = begun-Returns (begun w) v garbage returns in
      let good2 = Returns-IsTraceable (begun w) (begun v) garbage back good in
      let same = Returns-IsSame (begun w) (begun v) garbage back in
      let quiet2 = later garbage (begun v) back in
      let unshared2 = Returns-IsUnshared (begun w) (begun v) garbage back unshared in
      let finite2 : (p : Ptr) (b : CcBox) → v.heap p ≡ some b → p ∈ all = (λ p b at.
        let (before, e, rests) = was (begun w) (begun v) garbage back p b at in
        finite p before e) in
      let fits2 =
        fits_start all fuel client enough word inert v garbage back.ready good2 finite2 quiet2
          unshared2 in
      let (u, done2, s, ran, is, traced) =
        tracing-IsTraced (begun v) garbage back.ready fuel all good2 finite2 fits2 enough in
      let again =
        same_garbage (begun w) start done garbage done2 finds
          (λ p. (
            λ i. (Origin-IsSame (begun w) (begun v) same garbage p).0 ((traced.counted p).0 i),
            λ o. (traced.counted p).1 ((Origin-IsSame (begun w) (begun v) same garbage p).1 o),
          ))
          traced.distinct good.owned in
      let to : (p : Ptr) → p ∈ garbage → p ∈ s.non_roots = (λ p i.
        let (j, unheld) = (again p).0 i in
        (traced.garbage p).1
          (j, λ h. unheld ((IsHeld-IsSame (begun w) (begun v) same done2 p).0 h))) in
      let from : (p : Ptr) → p ∈ s.non_roots → p ∈ garbage = (λ p i.
        let (j, unheld) = (traced.garbage p).0 i in
        (again p).1 (j, λ h. unheld ((IsHeld-IsSame (begun w) (begun v) same done2 p).1 h))) in
      let out : (p : Ptr) → p ∉ garbage → p ∉ s.non_roots = (λ p o.
        elim (Bool-cases (has p s.non_roots)) [
          | inl inside ↦ absurd (ground (arith, from p inside, o))
          | inr outside ↦ outside
        ]) in
      let (x, ran2, swept) =
        collect_once-then v garbage all fuel client back.ready good2 finite2 fits2 enough quiet2
          unshared2 u done2 s is traced (λ (x : World). Swept (begun v) garbage done2 s.non_roots x)
          ran (λ k. k)
          (finalize_and_deallocate-Swept v garbage all fuel client back.ready good2 finite2 fits2
            enough quiet2 unshared2 u done2 s is traced
            (λ p d i at. finalized-Returns (begun w) (begun v) garbage back p d (from p i) at)) in
      (
        x,
        ran2,
        record {
          counted = finds.counted;
          found = finds.found;
          freed = λ p i. swept.freed p (to p i);
          kept = λ p before o e.
              let (d, at, rests) = back.boxes p before e in
              let (y, aty, elem, metadata) = swept.kept p d (out p o) at in
              (y, aty, elem ∙ rests.elem, metadata ∙ rests.metadata);
        },
      )

  -- A round that does not find the buffer empty.
  one_round :
      (v x : World) (p : Ptr) (k : ℕ)
      → v.possible_cycles.first ≡ some p
      → collect_once fuel client v ≡ ok tt x
      → collect_rounds fuel client (suc k) v ≡ collect_rounds fuel client k x
  unfolding collect_rounds
  one_round v x p k e ran = rw (not_empty v.possible_cycles p e) (rw ran refl)

  nothing_begun : start ≡ [] → Swept (begun w) start [] [] w
  nothing_begun e = record {
    counted = λ p. (λ i. absurd (ground (arith, i)), λ o. absurd (ground (arith, o.1, e)));
    found = λ p. (λ i. absurd (ground (arith, i)), λ both. absurd (ground (arith, both.0)));
    freed = λ p i. absurd (ground (arith, i));
    kept = λ p b o at. (b, at, refl, refl);
  }

  -- After at most two rounds exactly the garbage is freed.
  abbrev FreesSoon : ℕ → Type 0
  FreesSoon k =
      (j : ℕ) × (v : World) × (done : List Ptr) × (garbage : List Ptr) × (k ≤ j)
      × (collect_rounds fuel client (suc (suc k)) w ≡ collect_rounds fuel client j v)
      × Swept (begun w) start done garbage v

  after_first :
      (k : ℕ) (v : World) (p : Ptr) (done garbage : List Ptr)
      → w.possible_cycles.first ≡ some p
      → collect_once fuel client w ≡ ok tt v
      → Finds (begun w) start done garbage
      → Returns (begun w) garbage v
      → FreesSoon k
  after_first k v p done [] e ran finds back = (
    suc k,
    v,
    done,
    [],
    omega arith,
    one_round w v p (suc k) e ran,
    none-Swept (begun w) v [] back start done finds refl,
  )
  after_first k v p done (q ∷ qs) e ran finds back =
      let (x, ran2, swept) = second-Swept v done (q ∷ qs) finds back in
      (
        k,
        x,
        done,
        q ∷ qs,
        omega arith,
        one_round w v p (suc k) e ran ∙ one_round v x q k back.ready.buffered.buffer.chain.0 ran2,
        swept,
      )

  pub collect_rounds-FreesSoon : (k : ℕ) → FreesSoon k
  collect_rounds-FreesSoon k = go start refl
    where
      go : (xs : List Ptr) → start ≡ xs → FreesSoon k
      go [] e = (suc (suc k), w, [], [], omega arith, refl, nothing_begun e)
      go (p ∷ xs) e =
          let first =
            subst (λ (ys : List Ptr). Chain w.heap none w.possible_cycles.first ys) e
              ready.buffered.buffer.chain in
          let (v, done, garbage, ran, finds, outcome) =
            collect_once-Passed all fuel client enough word inert w start ready good finite quiet
              unshared in
          elim outcome [
            | inl swept ↦
                (suc k, v, done, garbage, omega arith, one_round w v p (suc k) first.0 ran, swept)
            | inr back ↦ after_first k v p done garbage first.0 ran finds back
          ]
