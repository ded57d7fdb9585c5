-- ===== src/Buffered/Change.antt =====
-- Steps that change the marker and the place of one box of src/cc.rs, and the invariant.
use mathlib.Core.Option
use rust_cc.Prelude.{
  ◌≡◌, ◌≢◌, refl, false, Option, none, some, List, ◌==◌, arith, Bool-cases, inl, inr, ==→eq, ==→ne,
  ◌∙◌, ap, sym, subst,
}
use rust_cc.CounterMarker.{CounterMarker, is_in_possible_cycles, is_in_list_or_queue}
use rust_cc.CounterMarker.View.{IsWords}
use rust_cc.Heap.{Ptr, CcBox, Heap}
use rust_cc.Lists.Chain.{has, ◌∉◌, Chain-frame, Chain-at, unlinked}
use rust_cc.Lists.PossibleCycles.{PossibleCycles}
use rust_cc.Lists.Buffer.{IsBuffer}
use rust_cc.Buffered.{IsBuffered}

-- From `h` and the buffered `xs` to `g` and `ys` only the box at `p` has another marker, `c`, or
-- another place.
pub record Change (h g : Heap) (xs ys : List Ptr) (p : Ptr) (c : CounterMarker) : Type 0 where
  pub others_listed : (q : Ptr) → q ≢ p → has q ys ≡ has q xs
  pub others_kept :
      (q : Ptr) (d : CcBox)
      → q ≢ p
      → g q ≡ some d
      → (e : CcBox) × (h q ≡ some e) × (d.counter_marker ≡ e.counter_marker)
  pub others_loose : (q : Ptr) (d : CcBox) → q ≢ p → q ∉ xs → g q ≡ some d → h q ≡ some d
  pub own_marker : (d : CcBox) → g p ≡ some d → d.counter_marker ≡ c
  pub own_loose :
      (d : CcBox)
      → g p ≡ some d
      → p ∉ ys
      → is_in_list_or_queue c ≡ false
      → (d.next ≡ none) × (d.prev ≡ none)

module _ (h g : Heap) (pc pc' : PossibleCycles) (xs ys : List Ptr) (p : Ptr) (c : CounterMarker)
    (is : IsBuffered h pc xs) (ch : Change h g xs ys p c) (w : IsWords c)
    (listed : is_in_possible_cycles c ≡ has p ys) (q : Ptr) (d : CcBox) (at : g q ≡ some d) where
  changed-IsWords : IsWords d.counter_marker
  changed-IsWords = elim (Bool-cases (q == p)) [
    | inl hit ↦ rw (ch.own_marker d (subst (λ (r : Ptr). g r ≡ some d) (==→eq q p hit) at)) w
    | inr miss ↦
        let (e, ate, same) = ch.others_kept q d (==→ne q p miss) at in rw same (is.words q e ate)
  ]

  changed-marked : is_in_possible_cycles d.counter_marker ≡ has q ys
  changed-marked = elim (Bool-cases (q == p)) [
    | inl hit ↦
        rw (ch.own_marker d (subst (λ (r : Ptr). g r ≡ some d) (==→eq q p hit) at), ==→eq q p hit)
          listed
    | inr miss ↦
        let (e, ate, same) = ch.others_kept q d (==→ne q p miss) at in
        ap is_in_possible_cycles same
        ∙ is.marked q e ate
        ∙ sym (ch.others_listed q (==→ne q p miss))
  ]

  changed-loose :
      q ∉ ys → is_in_list_or_queue d.counter_marker ≡ false → (d.next ≡ none) × (d.prev ≡ none)
  changed-loose o l = elim (Bool-cases (q == p)) [
    | inl hit ↦
        let at' = subst (λ (r : Ptr). g r ≡ some d) (==→eq q p hit) at in
        ch.own_loose d at' (subst (λ (r : Ptr). r ∉ ys) (==→eq q p hit) o)
          (sym (ap is_in_list_or_queue (ch.own_marker d at')) ∙ l)
    | inr miss ↦
        let ne = ==→ne q p miss in
        let out = sym (ch.others_listed q ne) ∙ o in
        is.loose q d (ch.others_loose q d ne out at) out l
  ]

pub Change-IsBuffered :
    (h g : Heap) (pc pc' : PossibleCycles) (xs ys : List Ptr) (p : Ptr) (c : CounterMarker)
    → IsBuffered h pc xs
    → Change h g xs ys p c
    → IsWords c
    → is_in_possible_cycles c ≡ has p ys
    → IsBuffer g pc' ys
    → IsBuffered g pc' ys
Change-IsBuffered h g pc pc' xs ys p c is ch w listed buf = record {
  buffer = buf;
  words = changed-IsWords h g pc pc' xs ys p c is ch w listed;
  marked = changed-marked h g pc pc' xs ys p c is ch w listed;
  loose = changed-loose h g pc pc' xs ys p c is ch w listed;
}

-- The box at `q` is that of `h`, but for its links.
pub payload-at :
    (h g : Heap) (q : Ptr) (d : CcBox)
    → Option.map unlinked (g q) ≡ Option.map unlinked (h q)
    → g q ≡ some d
    → (c : CcBox) × (h q ≡ some c) × (d.counter_marker ≡ c.counter_marker)
payload-at h g q d same e = go (h q) refl
  where
    go :
        (o : Option CcBox)
        → h q ≡ o
        → (c : CcBox) × (h q ≡ some c) × (d.counter_marker ≡ c.counter_marker)
    go none e' = ground arith
    go (some c) e' = (c, e', ground arith)

-- The box at `p` lives on, but for its links.
pub payload-there :
    (h g : Heap) (p : Ptr) (b : CcBox)
    → h p ≡ some b
    → Option.map unlinked (g p) ≡ Option.map unlinked (h p)
    → (d : CcBox) × (g p ≡ some d) × (d.counter_marker ≡ b.counter_marker)
payload-there h g p b at same = go (g p) refl
  where
    go :
        (o : Option CcBox)
        → g p ≡ o
        → (d : CcBox) × (g p ≡ some d) × (d.counter_marker ≡ b.counter_marker)
    go none e = ground arith
    go (some d) e = (d, e, ground arith)

pub metadata-there :
    (h g : Heap) (p : Ptr) (b d : CcBox)
    → h p ≡ some b
    → g p ≡ some d
    → Option.map unlinked (g p) ≡ Option.map unlinked (h p)
    → (d.metadata ≡ b.metadata) × (d.elem ≡ b.elem)
metadata-there h g p b d at atd same = (ground arith, ground arith)

-- A box outside the buffer may go.
pub freed-IsBuffered :
    (h g : Heap) (pc : PossibleCycles) (xs : List Ptr) (p : Ptr)
    → IsBuffered h pc xs
    → p ∉ xs
    → g p ≡ none
    → ((q : Ptr) → q ≢ p → g q ≡ h q)
    → IsBuffered g pc xs
freed-IsBuffered h g pc xs p is o gone same = record {
  buffer = record {
    chain =
        Chain-frame none pc.first xs
          (λ q i. same q (λ e. ground (arith, ap (λ (r : Ptr). has r xs) e))) is.buffer.chain;
    counted = is.buffer.counted;
  };
  words = λ q d e. is.words q d (back q d e);
  marked = λ q d e. is.marked q d (back q d e);
  loose = λ q d e. is.loose q d (back q d e);
}
  where
    back : (q : Ptr) (d : CcBox) → g q ≡ some d → h q ≡ some d
    back q d e = elim (Bool-cases (q == p)) [
      | inl hit ↦ absurd (ground (arith, ==→eq q p hit))
      | inr miss ↦ sym (same q (==→ne q p miss)) ∙ e
    ]

-- A box in no list may come to an address that held none.
pub allocated-IsBuffered :
    (h g : Heap) (pc : PossibleCycles) (xs : List Ptr) (p : Ptr) (b : CcBox)
    → IsBuffered h pc xs
    → h p ≡ none
    → g p ≡ some b
    → ((q : Ptr) → q ≢ p → g q ≡ h q)
    → IsWords b.counter_marker
    → is_in_possible_cycles b.counter_marker ≡ false
    → b.next ≡ none
    → b.prev ≡ none
    → IsBuffered g pc xs
allocated-IsBuffered h g pc xs p b is free at same words out n v =
    Change-IsBuffered h g pc pc xs xs p b.counter_marker is
      (record {
        others_listed = λ q ne. refl;
        others_kept = λ q d ne e. (d, sym (same q ne) ∙ e, refl);
        others_loose = λ q d ne o e. sym (same q ne) ∙ e;
        own_marker = λ d e. ground arith;
        own_loose = λ d e o l. ground arith;
      })
      words (out ∙ sym absent)
      (record {
        chain =
            Chain-frame none pc.first xs
              (λ q i. same q (λ e. ground (arith, absent, ap (λ (r : Ptr). has r xs) e)))
              is.buffer.chain;
        counted = is.buffer.counted;
      })
  where
    absent : p ∉ xs
    absent = elim (Bool-cases (has p xs)) [
      | inl i ↦
          let (d, e) = Chain-at h p none pc.first xs is.buffer.chain i in absurd (ground arith)
      | inr o ↦ o
    ]
