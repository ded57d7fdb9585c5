-- ===== src/Buffered/Counts.antt =====
-- Steps of the reference counter in src/counter_marker.rs, as far as the invariant sees them.
use rust_cc.Prelude.{
  ℕ, ◌+◌, ◌-◌, ◌<◌, ◌≡◌, ◌≢◌, refl, not, Option, none, some, arith, ◌∙◌, ap, sym, subst,
}
use rust_cc.CounterMarker.{
  CounterMarker, counter, counter_mask, max_count, increment_counter, decrement_counter,
  is_in_possible_cycles, is_in_list_or_queue, has_allocated_for_metadata, possible_cycles_mark,
}
use rust_cc.CounterMarker.View.{
  View, IsWords, view, is_mark, is_unmarked, increment_count, decrement_count,
}
use rust_cc.CounterMarker.Laws.{
  counter-view, view-increment_counter, view-decrement_counter, is_in_possible_cycles-view,
  is_in_list_or_queue-view, has_allocated_for_metadata-view,
}
use rust_cc.CounterMarker.Refinement.{
  AllWords, increment_counter-IsWords, decrement_counter-IsWords,
}

-- `d` is `c` with another reference count.
pub record Recounted (c d : CounterMarker) (n : ℕ) : Type 0 where
  pub words : IsWords d
  pub count : counter d ≡ n
  pub shown : view d ≡ record (view c) { count = n }
  pub in_possible_cycles : is_in_possible_cycles d ≡ is_in_possible_cycles c
  pub in_list_or_queue : is_in_list_or_queue d ≡ is_in_list_or_queue c
  pub metadata : has_allocated_for_metadata d ≡ has_allocated_for_metadata c

view-Recounted :
    (c d : CounterMarker) (n : ℕ)
    → IsWords c
    → IsWords d
    → view d ≡ record (view c) { count = n }
    → Recounted c d n
view-Recounted c d n w v e = record {
  words = v;
  count = counter-view v ∙ ap (λ k. k.count) e;
  shown = e;
  in_possible_cycles =
      is_in_possible_cycles-view v
      ∙ ap (λ (k : View). is_mark possible_cycles_mark k.mark) e
      ∙ sym (is_in_possible_cycles-view w);
  in_list_or_queue =
      is_in_list_or_queue-view v
      ∙ ap (λ (k : View). not (is_unmarked k.mark)) e
      ∙ sym (is_in_list_or_queue-view w);
  metadata =
      has_allocated_for_metadata-view v
      ∙ ap (λ (k : View). k.metadata) e
      ∙ sym (has_allocated_for_metadata-view w);
}

module _ (c : CounterMarker) (w : IsWords c) where
  pub counted_up :
      counter c < max_count
      → (d : CounterMarker) × (increment_counter c ≡ some d) × Recounted c d (counter c + 1)
  unfolding increment_count
  counted_up h = go (increment_counter c) refl
    where
      lt : (view c).count < max_count
      lt = subst (λ (n : ℕ). n < max_count) (counter-view w) h

      ne : (view c).count ≢ counter_mask
      ne e = ground (arith, lt)

      go :
          (o : Option CounterMarker)
          → increment_counter c ≡ o
          → (d : CounterMarker) × (increment_counter c ≡ some d) × Recounted c d (counter c + 1)
      go none e = ground (arith, view-increment_counter w ne, lt)
      go (some d) e = (
        d,
        e,
        view-Recounted c d (counter c + 1) w (subst AllWords e (increment_counter-IsWords w))
            (ground (arith, view-increment_counter w ne, counter-view w)),
      )

  pub counted_down :
      counter c ≢ 0
      → (d : CounterMarker) × (decrement_counter c ≡ some d) × Recounted c d (counter c - 1)
  unfolding decrement_count
  counted_down h = go (decrement_counter c) refl
    where
      go :
          (o : Option CounterMarker)
          → decrement_counter c ≡ o
          → (d : CounterMarker) × (decrement_counter c ≡ some d) × Recounted c d (counter c - 1)
      go none e = ground (arith, view-decrement_counter w, counter-view w)
      go (some d) e = (
        d,
        e,
        view-Recounted c d (counter c - 1) w (subst AllWords e (decrement_counter-IsWords w))
            (ground (arith, view-decrement_counter w, counter-view w)),
      )

  pub counted_over : counter c ≡ max_count → increment_counter c ≡ none
  unfolding increment_count
  counted_over h = go (increment_counter c) refl
    where
      go : (o : Option CounterMarker) → increment_counter c ≡ o → increment_counter c ≡ none
      go none e = e
      go (some d) e =
          ground (arith, view-increment_counter w (ground (arith, counter-view w)), counter-view w)
