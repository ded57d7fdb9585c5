-- ===== src/Weak/Upgrade.antt =====
-- `Weak::upgrade` of src/weak/mod.rs: what it gives, and what it does to the box.
use rust_cc.Prelude.{
  ℕ, ◌+◌, ◌^◌, ◌<◌, ◌≡◌, refl, Bool, true, false, not, ◌&&◌, ◌||◌, none, some, List, ◌==◌,
  if◌then◌else◌, arith, ap, length,
}
use rust_cc.CounterMarker.{counter, max_count, is_dropped, is_in_list_or_queue}
use rust_cc.WeakCounterMarker.{is_accessible}
use rust_cc.Heap.{Ptr, CcBox, BoxedMetadata}
use rust_cc.Lists.Chain.{erase}
use rust_cc.World.{World, ok, ◌>>=◌}
use rust_cc.Cc.Clone.{Alive, count_up-mark_alive}
use rust_cc.Buffered.{IsBuffered}
use rust_cc.Buffered.Marker.{as_ref-at}
use rust_cc.CcBox.{deref_metadata}
use rust_cc.Weak.{Weak, strong_count, visible_count, upgrade, marker_of}

-- The object may be reached: it has not been dropped, nothing is about to drop it, and the
-- collector's state says so.
abbrev pub is_usable : World → CcBox → Bool
is_usable w b =
    not (counter b.counter_marker == 0)
    && (not (is_dropped b.counter_marker)
        && not
            (is_in_list_or_queue b.counter_marker && (not w.state_accessible || w.state.dropping)))

shown :
    (zero_count dropped listed dropping : Bool) (n : ℕ)
    → (if zero_count || (dropped || (listed && dropping)) then 0 else n)
      ≡ (if not zero_count && (not dropped && not (listed && dropping)) then n else 0)
shown true dropped listed dropping n = refl
shown false true listed dropping n = refl
shown false false true true n = refl
shown false false true false n = refl
shown false false false dropping n = refl

visible_count-is_usable :
    (w : World) (p : Ptr) (b : CcBox)
    → w.heap p ≡ some b
    → visible_count p w ≡ ok (if is_usable w b then counter b.counter_marker else 0) w
unfolding visible_count
visible_count-is_usable w p b at = rw (as_ref-at w.heap p b at) (
    ap (λ (n : ℕ). ok n w)
      (shown (counter b.counter_marker == 0) (is_dropped b.counter_marker)
        (is_in_list_or_queue b.counter_marker) (not w.state_accessible || w.state.dropping)
        (counter b.counter_marker)))

module _ (w : World) (self : Weak) (q : Ptr) (m : BoxedMetadata) (points : self.metadata ≡ some q)
    (meta : w.metadata q ≡ some m) where
  marker_of-at : marker_of self.metadata w ≡ ok (some m.weak_counter_marker) w
  unfolding marker_of
  marker_of-at = rw points (rw (meta, ◌>>=◌, deref_metadata) refl)

  strong_count-usable :
      (b : CcBox)
      → is_accessible m.weak_counter_marker ≡ true
      → w.heap self.cc ≡ some b
      → strong_count self w ≡ ok (if is_usable w b then counter b.counter_marker else 0) w
  unfolding strong_count
  strong_count-usable b acc at = rw (marker_of-at, acc) (visible_count-is_usable w self.cc b at)

  strong_count-released : is_accessible m.weak_counter_marker ≡ false → strong_count self w ≡ ok 0 w
  unfolding strong_count
  strong_count-released acc = rw (marker_of-at, acc) refl

  -- Once the box was released from the metadata, `upgrade` gives nothing and does not read the box,
  -- which may be freed.
  pub upgrade-released : is_accessible m.weak_counter_marker ≡ false → upgrade self w ≡ ok none w
  unfolding upgrade
  upgrade-released acc = rw (strong_count-released acc) refl

  module _ (b : CcBox) (acc : is_accessible m.weak_counter_marker ≡ true)
      (at : w.heap self.cc ≡ some b) where
    -- An object that has no pointers left or was dropped, or that is in a list of the collector
    -- while that drops, is not given out again.
    pub upgrade-unusable : is_usable w b ≡ false → upgrade self w ≡ ok none w
    unfolding upgrade
    upgrade-unusable hidden = rw (strong_count-usable b acc at, hidden) refl

    -- While `POSSIBLE_CYCLES` can be reached and its size fits a machine word, a usable object whose
    -- reference count is below its maximum is given out by `upgrade` just as `clone` would: with one
    -- more pointer, and out of the buffer; the invariant holds, and all other boxes, but for their
    -- links, stay as they were.
    pub upgrade-Alive :
        (xs : List Ptr)
        → is_usable w b ≡ true
        → IsBuffered w.heap w.possible_cycles xs
        → w.cycles_accessible ≡ true
        → counter b.counter_marker < max_count
        → length xs < 2 ^ 64
        → Alive
            (some self.cc)
            w
            (erase self.cc xs)
            self.cc
            (counter b.counter_marker + 1)
            (upgrade self w)
    unfolding upgrade
    upgrade-Alive xs usable is reach room fits =
        let (v, up, (pc, g, d, ran, is2, at2, count, rest)) =
          count_up-mark_alive w xs self.cc b is reach at room fits in
        let visible : (counter b.counter_marker == 0) ≡ false = ground arith in
        (
          pc,
          g,
          d,
          rw (strong_count-usable b acc at, usable, visible) (rw up (rw ran refl)),
          is2,
          at2,
          count,
          rest,
        )
