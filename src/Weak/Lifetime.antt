-- ===== src/Weak/Lifetime.antt =====
-- `Drop for Weak` of src/weak/mod.rs and `drop_metadata` of src/cc.rs: when the boxed metadata is
-- freed.
use rust_cc.Prelude.{
  ℕ, zero, suc, ◌-◌, ◌≡◌, ◌≢◌, refl, Bool, false, not, ◌&&◌, Option, none, some, ◌==◌,
  if◌then◌else◌, arith, Bool-cases, inl, inr, ◌∙◌, ap, sym, subst, ne→==,
}
use rust_cc.WeakCounterMarker.{
  WeakCounterMarker, counter, is_accessible, decrement_counter, set_accessible,
}
use rust_cc.WeakCounterMarker.Refinement.{
  WeakView, view, IsWord, IsWordIfSome, counter-view, is_accessible-view, view-decrement_counter,
  view-set_accessible, decrement_counter-IsWord, set_accessible-IsWord,
}
use rust_cc.Heap.{Ptr, BoxedMetadata}
use rust_cc.World.{World, Run, Cmd, ok, skip, ◌>>◌}
use rust_cc.CcBox.{release_metadata, deref_metadata, found}
use rust_cc.Weak.{Weak, set_weak_marker, drop_weak, drop_metadata_ref}

weak_down :
    (c : WeakCounterMarker)
    → IsWord c
    → counter c ≢ 0
    → (d : WeakCounterMarker) × (decrement_counter c ≡ some d)
      × IsWord d
      × (counter d ≡ counter c - 1)
      × (is_accessible d ≡ is_accessible c)
weak_down c w positive = go (decrement_counter c) refl
  where
    go :
        (o : Option WeakCounterMarker)
        → decrement_counter c ≡ o
        → (d : WeakCounterMarker) × (decrement_counter c ≡ some d)
          × IsWord d
          × (counter d ≡ counter c - 1)
          × (is_accessible d ≡ is_accessible c)
    go none e = ground (arith, view-decrement_counter w, counter-view w)
    go (some d) e =
        let wd : IsWord d = subst IsWordIfSome e (decrement_counter-IsWord w) in
        let same : view d ≡ record (view c) { count = counter c - 1 } =
          ground (arith, view-decrement_counter w, counter-view w) in
        (
          d,
          e,
          wd,
          counter-view wd ∙ ap (λ (v : WeakView). v.count) same,
          is_accessible-view wd
              ∙ ap (λ (v : WeakView). v.accessible) same
              ∙ sym (is_accessible-view w),
        )

-- `r` ends normally; the metadata at `p` is now `m`, and nothing else has changed.
abbrev pub Left : World → Ptr → Option BoxedMetadata → Run (Unit {0}) → Type 0
Left w p m r =
    (f : Ptr → Option BoxedMetadata) × (r ≡ ok tt (record w { metadata = f }))
    × (f p ≡ m)
    × ((q : Ptr) → q ≢ p → f q ≡ w.metadata q)

deref_metadata-at :
    (w : World) (p : Ptr) (m : BoxedMetadata) → w.metadata p ≡ some m → deref_metadata p w ≡ ok m w
deref_metadata-at w p m at = ap (λ (o : Option BoxedMetadata). found o w) at

-- The metadata at `p` with another weak counter.
abbrev recounted : World → Ptr → BoxedMetadata → WeakCounterMarker → Ptr → Option BoxedMetadata
recounted w p m d q = if q == p then some (record m { weak_counter_marker = d }) else w.metadata q

set_weak_marker-at :
    (w : World) (p : Ptr) (m : BoxedMetadata) (d : WeakCounterMarker)
    → w.metadata p ≡ some m
    → set_weak_marker p d w ≡ ok tt (record w { metadata = recounted w p m d })
set_weak_marker-at w p m d at = rw (deref_metadata-at w p m at) refl

drop_metadata_ref-Left :
    (w : World) (p : Ptr) (m : BoxedMetadata) (d : WeakCounterMarker)
    → w.metadata p ≡ some m
    → decrement_counter m.weak_counter_marker ≡ some d
    → Left w p
        (if counter d == 0 && not (is_accessible d)
          then none
          else some (record m { weak_counter_marker = d }))
        (drop_metadata_ref p w)
unfolding drop_metadata_ref
drop_metadata_ref-Left w p m d at lowered =
    elim (Bool-cases (counter d == 0 && not (is_accessible d))) [
      | inl e ↦ (
        (λ q. if q == p then none else recounted w p m d q),
        rw (deref_metadata-at w p m at)
            (rw lowered (rw (set_weak_marker-at w p m d at) (rw e refl))),
        rw e (ground arith),
        λ q ne. ground arith,
      )
      | inr e ↦ (
        recounted w p m d,
        rw (deref_metadata-at w p m at)
            (rw lowered (rw (set_weak_marker-at w p m d at) (rw e refl))),
        rw e (ground arith),
        λ q ne. ground arith,
      )
    ]

drop_weak-Left :
    (w : World) (self : Weak) (p : Ptr) (m : BoxedMetadata)
    → self.metadata ≡ some p
    → w.metadata p ≡ some m
    → IsWord m.weak_counter_marker
    → counter m.weak_counter_marker ≢ 0
    → (d : WeakCounterMarker) × IsWord d
      × (counter d ≡ counter m.weak_counter_marker - 1)
      × (is_accessible d ≡ is_accessible m.weak_counter_marker)
      × Left w p
          (if counter d == 0 && not (is_accessible d)
            then none
            else some (record m { weak_counter_marker = d }))
          (drop_weak self w)
unfolding drop_weak
drop_weak-Left w self p m points at word positive =
    let (d, lowered, wd, count, acc) = weak_down m.weak_counter_marker word positive in
    (d, wd, count, acc, rw points (drop_metadata_ref-Left w p m d at lowered))

freed_last :
    (c : ℕ) (a : Bool) (x : Option BoxedMetadata)
    → c ≡ 0
    → a ≡ false
    → (if c == 0 && not a then none else x) ≡ none
freed_last c a x e f = rw (e, f) refl

kept_before :
    (n c : ℕ) (a : Bool) (x : Option BoxedMetadata)
    → c ≡ suc n
    → (if c == 0 && not a then none else x) ≡ x
kept_before n c a x e = ground arith

-- Dropping as many weak pointers to the same box.
abbrev pub drop_weaks : ℕ → Weak → Cmd (Unit {0})
drop_weaks zero self = skip
drop_weaks (suc n) self = do drop_weak self; drop_weaks n self

-- The weak pointers to a box that is gone free its metadata when the last of them is dropped: no
-- earlier one reads what is not there, and no other metadata changes.
drop_weaks-Left :
    (n : ℕ) (w : World) (self : Weak) (p : Ptr) (m : BoxedMetadata)
    → self.metadata ≡ some p
    → w.metadata p ≡ some m
    → IsWord m.weak_counter_marker
    → counter m.weak_counter_marker ≡ suc n
    → is_accessible m.weak_counter_marker ≡ false
    → Left w p none (drop_weaks (suc n) self w)
drop_weaks-Left zero w self p m points at word count gone =
    let (d, wd, left, acc, (f, ran, own, rest)) =
      drop_weak-Left w self p m points at word (ground arith) in
    (
      f,
      rw ran refl,
      own ∙ freed_last (counter d) (is_accessible d) _ (ground arith) (acc ∙ gone),
      rest,
    )
drop_weaks-Left (suc n) w self p m points at word count gone =
    let (d, wd, left, acc, (f, ran, own, rest)) =
      drop_weak-Left w self p m points at word (ground arith) in
    let more : counter d ≡ suc n = ground arith in
    let kept =
      own
      ∙ kept_before n (counter d) (is_accessible d) (some (record m { weak_counter_marker = d }))
          more in
    let (g, ran2, own2, rest2) =
      drop_weaks-Left n (record w { metadata = f }) self p (record m { weak_counter_marker = d })
        points kept wd more (acc ∙ gone) in
    (g, rw ran ran2, own2, λ q ne. rest2 q ne ∙ rest q ne)

-- When a box with metadata goes and weak pointers to it are left, `drop_metadata` keeps the
-- metadata, and dropping as many weak pointers as it counts frees it, exactly with the last of
-- them: nothing is read that is not there, and no box and no other metadata changes.
pub release-drop_weaks :
    (n : ℕ) (w : World) (self : Weak) (p : Ptr) (m : BoxedMetadata)
    → self.metadata ≡ some p
    → w.metadata p ≡ some m
    → IsWord m.weak_counter_marker
    → counter m.weak_counter_marker ≡ suc n
    → Left w p none ((do release_metadata p; drop_weaks (suc n) self) w)
unfolding release_metadata
release-drop_weaks n w self p m points at word count =
    let d = set_accessible false m.weak_counter_marker in
    let wd = set_accessible-IsWord word false in
    let same = view-set_accessible word false in
    let some_left : (counter m.weak_counter_marker == 0) ≡ false =
      ne→== (counter m.weak_counter_marker) 0 (ground arith) in
    let (f, ran, own, rest) =
      drop_weaks-Left n (record w { metadata = recounted w p m d }) self p
        (record m { weak_counter_marker = d }) points (ground arith) wd
        (counter-view wd ∙ ap (λ (v : WeakView). v.count) same ∙ sym (counter-view word) ∙ count)
        (is_accessible-view wd ∙ ap (λ (v : WeakView). v.accessible) same) in
    (f, rw (deref_metadata-at w p m at) (rw some_left ran), own, λ q ne. rest q ne ∙ ground arith)
