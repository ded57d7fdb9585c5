-- ===== src/Sweep/Frees.antt =====
-- Freeing the garbage: the second loop of `deallocate_list` of src/lib.rs.
use rust_cc.Prelude.{
  ℕ, zero, suc, ◌<◌, ◌≡◌, ◌≢◌, refl, Bool, true, false, Option, none, some, List, [], ◌∷◌, ◌==◌,
  if◌then◌else◌, arith, Bool-cases, inl, inr, eq→==, ne→==, ◌∙◌, ap, sym, subst, length,
}
use rust_cc.CounterMarker.{has_allocated_for_metadata}
use rust_cc.WeakCounterMarker
use rust_cc.Heap.{Ptr, CcBox, Heap, BoxedMetadata, Metadata, boxed_member, write}
use rust_cc.Lists.LinkedList
use rust_cc.Lists.Chain.{has, ◌∈◌, ◌∉◌}
use rust_cc.State.{record_deallocation}
use rust_cc.World.{World, Client, ok}
use rust_cc.CcBox.{layout, drop_metadata, release_metadata}
use rust_cc.Cc.Freed.{cc_dealloc-at}
use rust_cc.Collector.{dealloc_one, dealloc_boxes}
use rust_cc.Tracing.Graph.{HasLayout, LayoutOf, Distinct}
use rust_cc.Tracing.Reads.{box_at_run}
use rust_cc.Tracing.Layout.{vtable_of_at, LayoutOf-kept}
use rust_cc.Sweep.{Nexts, Readable}
use rust_cc.Sweep.Drops.{iter_next_at}

-- No two boxes have the same metadata.
abbrev pub IsUnshared : World → Type 0
IsUnshared env =
    (p q : Ptr) (b d : CcBox) (m : Ptr)
    → env.heap p ≡ some b
    → env.heap q ≡ some d
    → b.metadata ≡ boxed_member m
    → d.metadata ≡ boxed_member m
    → p ≡ q

-- All metadata but that in `held` is as before.
abbrev SameMetadata : Metadata → World → World → Type 0
SameMetadata held u v = (q : Ptr) → held ≢ boxed_member q → v.metadata q ≡ u.metadata q

layout_at :
    (u : World) (p : Ptr) (b : CcBox)
    → u.heap p ≡ some b
    → HasLayout u b
    → (size : ℕ) × (layout p u ≡ ok size u)
unfolding layout
layout_at u p b at l =
    let (table, called) = vtable_of_at u b l in
    (table.layout_size, rw (box_at_run u p b at) (rw called refl))

release_at :
    (u : World) (m : Ptr) (boxed : BoxedMetadata)
    → u.metadata m ≡ some boxed
    → (v : World) × (release_metadata m u ≡ ok tt v)
      × (v.heap ≡ u.heap)
      × SameMetadata (boxed_member m) u v
unfolding release_metadata
release_at u m boxed at =
    elim (Bool-cases (WeakCounterMarker.counter boxed.weak_counter_marker == 0)) [
      | inl last ↦ (
        record u { metadata = λ q. if q == m then none else u.metadata q },
        rw at (rw last refl),
        refl,
        (λ q ne. rw (ne→== q m (λ z. ne (ap boxed_member (sym z)))) refl),
      )
      | inr more ↦ (
        record u {
          metadata = λ q.
              if q == m
              then some (record boxed {
                weak_counter_marker =
                    WeakCounterMarker.set_accessible false boxed.weak_counter_marker;
              })
              else u.metadata q;
        },
        rw at (rw more refl),
        refl,
        (λ q ne. rw (ne→== q m (λ z. ne (ap boxed_member (sym z)))) refl),
      )
    ]

drop_metadata_at :
    (u : World) (p : Ptr) (b : CcBox)
    → u.heap p ≡ some b
    → HasLayout u b
    → (v : World) × (drop_metadata p u ≡ ok tt v) × (v.heap ≡ u.heap) × SameMetadata b.metadata u v
unfolding drop_metadata
drop_metadata_at u p b at = go (has_allocated_for_metadata b.counter_marker) refl
  where
    go :
        (t : Bool)
        → has_allocated_for_metadata b.counter_marker ≡ t
        → LayoutOf u b t
        → (v : World) × (drop_metadata p u ≡ ok tt v)
          × (v.heap ≡ u.heap)
          × SameMetadata b.metadata u v
    go true f (q, m, held, atm) =
        let (v, ran, same, others) = release_at u q m atm in
        (v, rw (box_at_run u p b at) (rw f (rw held ran)), same, rw held others)
    go false f l = (u, rw (box_at_run u p b at) (rw f refl), refl, λ q ne. refl)

dealloc_one_at :
    (fuel : ℕ) (client : Client) (u : World) (p : Ptr) (b : CcBox)
    → u.heap p ≡ some b
    → HasLayout u b
    → (v : World) × (dealloc_one fuel client p u ≡ ok tt v)
      × (v.heap ≡ write u.heap p none)
      × SameMetadata b.metadata u v
unfolding dealloc_one
dealloc_one_at fuel client u p b at l =
    let (size, read) = layout_at u p b at l in
    let (v, ran, same, others) = drop_metadata_at u p b at l in
    (
      record v { heap = write v.heap p none; state = record_deallocation size v.state },
      rw read (rw ran (cc_dealloc-at v p b size (ap (λ (h : Heap). h p) same ∙ at))),
      ap (λ (h : Heap). write h p none) same,
      others,
    )

one_box : (h : Heap) (p : Ptr) (b d : CcBox) → h p ≡ some b → h p ≡ some d → b ≡ d
one_box h p b d at atd = ground (arith, at, atd)

Nexts-freed :
    (h : Heap) (p : Ptr) (first : Option Ptr) (xs : List Ptr)
    → p ∉ xs
    → Nexts h first xs
    → Nexts (write h p none) first xs
unfolding write
Nexts-freed h p first [] out line = line
Nexts-freed h p first (x ∷ xs) out (e, b, at, words, inside, rest) =
    let ne : x ≢ p = (λ z. ground (arith, out, eq→== p x (sym z))) in
    (
      e,
      b,
      rw (ne→== x p ne) at,
      words,
      inside,
      Nexts-freed h p b.next xs (ground (arith, out)) rest,
    )

emptied :
    (h g : Heap) (p q : Ptr) (xs : List Ptr)
    → g ≡ write h p none
    → (if has q xs then none else g q) ≡ (if has q (p ∷ xs) then none else h q)
unfolding write
emptied h g p q xs e = ground (arith, ap (λ (k : Heap). k q) e)

module _ (fuel : ℕ) (client : Client) (env : World) (unshared : IsUnshared env) where
  -- What is left can be read after `p` is freed.
  Readable-freed :
      (u v : World) (p q : Ptr)
      → q ≢ p
      → Readable env u p
      → Readable env u q
      → v.heap ≡ write u.heap p none
      → ((b : CcBox) → u.heap p ≡ some b → SameMetadata b.metadata u v)
      → Readable env v q
  unfolding write
  Readable-freed u v p q ne (before, b, e, at, meta, w, l) (qbefore, d, f, atd, dmeta, dw, dl) heap
        others =
      (
        qbefore,
        d,
        f,
        ap (λ (h : Heap). h q) heap ∙ rw (ne→== q p ne) atd,
        dmeta,
        dw,
        LayoutOf-kept u v d d (has_allocated_for_metadata d.counter_marker)
            (λ m x held k. (
              x,
              others b at m
                    (λ z. ne (unshared q p qbefore before m f e (sym dmeta ∙ held) (sym meta ∙ z)))
                  ∙ k,
            ))
            refl dl,
      )

  pub dealloc_boxes-frees :
      (k : ℕ) (xs : List Ptr) (first : Option Ptr) (u : World)
      → length xs < k
      → Nexts u.heap first xs
      → Distinct xs
      → ((p : Ptr) → p ∈ xs → Readable env u p)
      → (v : World) × (dealloc_boxes fuel client k first u ≡ ok tt v)
        × ((q : Ptr) → v.heap q ≡ (if has q xs then none else u.heap q))
  unfolding dealloc_boxes LinkedList.iter_next
  dealloc_boxes-frees zero xs first u enough line d all = absurd (ground (arith, enough))
  dealloc_boxes-frees (suc k) [] first u enough line d all = (u, rw line refl, λ q. refl)
  dealloc_boxes-frees (suc k) (p ∷ xs) first u enough (e, b, at, words, inside, rest) (out, d) all =
      let mine = all p (ground (arith, eq→== p p refl)) in
      let (before, x, ex, atx, meta, w, l) = mine in
      let same = one_box u.heap p b x at atx in
      let (v, ran, heap, others) =
        dealloc_one_at fuel client u p b at (subst (HasLayout u) (sym same) l) in
      let apart : (q : Ptr) → q ∈ xs → q ≢ p =
        (λ q i z. ground (arith, out, i, ap (λ (y : Ptr). has y xs) z)) in
      let (v2, ran2, freed) =
        dealloc_boxes-frees k xs b.next v (ground (arith, enough))
          (subst (λ (h : Heap). Nexts h b.next xs) (sym heap)
            (Nexts-freed u.heap p b.next xs out rest))
          d
          (λ q i. Readable-freed u v p q (apart q i) mine (all q (ground (arith, i))) heap (λ c g.
            subst (λ (y : CcBox). SameMetadata y.metadata u v) (one_box u.heap p b c at g)
              others)) in
      (
        v2,
        rw e (rw (iter_next_at u.heap p b at) (rw ran ran2)),
        λ q. freed q ∙ emptied u.heap v.heap p q xs heap,
      )
