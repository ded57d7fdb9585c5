-- ===== src/Tests/Graphs.antt =====
-- A heap with a cycle that nothing else points to, and a box that is also held from elsewhere.
use rust_cc.Prelude.{
  ℕ, ◌≤◌, ◌≡◌, refl, true, false, none, some, Option, List, [], ◌∷◌, ◌==◌, if◌then◌else◌, arith,
  ne→==, Bool-cases, subst, ==→ne, inl, inr, ==→eq, ap, ◌∙◌, sym,
}
use rust_cc.CounterMarker.{
  is_in_possible_cycles, is_in_list_or_queue, has_allocated_for_metadata, tracing_counter,
}
use rust_cc.CounterMarker.View.{IsWords, view}
use rust_cc.Heap.{Ptr, CcBox, Heap, vtable_member}
use rust_cc.Lists.Chain.{has, ◌∈◌, ◌∉◌}
use rust_cc.State
use rust_cc.World.{World, Client, ok, no_locals, ◌>>◌}
use rust_cc.Collector.{trace_counting, trace_roots}
use rust_cc.Tracing.{Snapshot, IsSnapshot, bit}
use rust_cc.Tracing.Graph
use rust_cc.Tracing.Graph.{IsTraceable, Distinct, edges, occ, inbound, HasLayout}
use rust_cc.Tracing.Garbage.{IsTraced}
use rust_cc.Sweep.Owning.{owner}
use rust_cc.Tests.Boxes.{leaf_client}
use rust_cc.CcBox.{add_to_list, remove_from_list}
use rust_cc.Tracing.Ready.{Readies, add_to_list-IsReady, remove_from_list-IsReady}
use rust_cc.Tracing.Start.{IsReady, tracing-IsTraced}

abbrev node : List Ptr → Option Ptr → Option Ptr → (tracing : ℕ) → CcBox
node traced next prev tracing = record {
  next = next;
  prev = prev;
  metadata = vtable_member (record { layout_size = 40 });
  counter_marker = record { tracing_counter_cell = tracing; counter_cell = 16385 };
  elem = record { traced = traced; trace_panics = false };
}

-- 1 and 3 are in the buffer; 1 and 2 point to each other.
abbrev nodes : Heap
nodes q =
    if q == 1
    then some (node (2 ∷ []) (some 3) none 16384)
    else if q == 2
    then some (node (1 ∷ []) none none 0)
    else if q == 3
    then some (node [] none (some 1) 16384)
    else none

abbrev graph : World
graph = record {
  heap = nodes;
  metadata = λ q. none;
  possible_cycles = record { first = some 1; size = 2 };
  state = State.new;
  state_accessible = true;
  cycles_accessible = true;
  locals = no_locals;
}

abbrev both : List Ptr
both = 1 ∷ 3 ∷ []

-- What holds of the three boxes holds of every one that is there.
each :
    (P : Ptr → CcBox → Type 0)
    → P 1 (node (2 ∷ []) (some 3) none 16384)
    → P 2 (node (1 ∷ []) none none 0)
    → P 3 (node [] none (some 1) 16384)
    → (p : Ptr) (b : CcBox) → nodes p ≡ some b
    → P p b
each P one two three p b at = elim (Bool-cases (p == 1)) [
  | inl hit ↦ go 1 (node (2 ∷ []) (some 3) none 16384) hit refl one
  | inr n1 ↦ elim (Bool-cases (p == 2)) [
    | inl hit ↦ go 2 (node (1 ∷ []) none none 0) hit refl two
    | inr n2 ↦ elim (Bool-cases (p == 3)) [
      | inl hit ↦ go 3 (node [] none (some 1) 16384) hit refl three
      | inr n3 ↦ absurd (ground (arith, at, n1, n2, n3))
    ]
  ]
]
  where
    go : (q : Ptr) (d : CcBox) → (p == q) ≡ true → nodes q ≡ some d → P q d → P p b
    go q d hit there holds =
        subst (λ (r : Ptr). P r b) (sym (==→eq p q hit))
          (subst (P q)
            (ap (λ (o : Option CcBox). elim o [ none ↦ d | some x ↦ x ])
              (sym there ∙ ap nodes (sym (==→eq p q hit)) ∙ at))
            holds)

-- How the pointers of the cycle are counted.
pub occ_one : (p : Ptr) (ps : List Ptr) → Distinct ps → occ p ps ≤ 1
occ_one p [] d = ground arith
occ_one p (x ∷ ps) (out, d) = elim (Bool-cases (p == x)) [
  | inl hit ↦ rw hit (
      ground
        (arith, occ_absent p ps (subst (λ (y : Ptr). has y ps ≡ false) (sym (==→eq p x hit)) out)))
  | inr miss ↦ rw miss (ground (arith, occ_one p ps d))
]
  where
    occ_absent : (q : Ptr) (xs : List Ptr) → has q xs ≡ false → occ q xs ≡ 0
    occ_absent q [] o = refl
    occ_absent q (y ∷ xs) o = ground (arith, o, occ_absent q xs)

abbrev crossing : Ptr → ℕ → ℕ → ℕ
crossing p a b = if p == 2 then a else if p == 1 then b else 0

edges-crossing : (p x : Ptr) → occ p (edges graph x) ≡ crossing p (bit (1 == x)) (bit (2 == x))
edges-crossing p x = elim (Bool-cases (x == 1)) [
  | inl hit ↦ subst Crosses (sym (==→eq x 1 hit)) (ground arith)
  | inr n1 ↦ elim (Bool-cases (x == 2)) [
    | inl hit ↦ subst Crosses (sym (==→eq x 2 hit)) (ground arith)
    | inr n2 ↦
        rw (n1, n2, ne→== 1 x (λ z. ==→ne x 1 n1 (sym z)), ne→== 2 x (λ z. ==→ne x 2 n2 (sym z)))
          (elim (Bool-cases (x == 3)) [
            | inl hit ↦ rw hit (ground arith)
            | inr n3 ↦ rw n3 (ground arith)
          ])
  ]
]
  where
    Crosses : Ptr → Type 0
    Crosses y = occ p (edges graph y) ≡ crossing p (bit (1 == y)) (bit (2 == y))

inbound-crossing : (p : Ptr) (ps : List Ptr) → inbound graph p ps ≡ crossing p (occ 1 ps) (occ 2 ps)
inbound-crossing p [] = ground arith
inbound-crossing p (x ∷ ps) = ground (arith, edges-crossing p x, inbound-crossing p ps)

graph-IsReady : IsReady graph both
unfolding is_in_possible_cycles is_in_list_or_queue tracing_counter
graph-IsReady = record {
  buffered = record {
    buffer = record {
      chain = (
        refl,
        refl,
        node (2 ∷ []) (some 3) none 16384,
        refl,
        refl,
        (refl, refl, node [] none (some 1) 16384, refl, refl, refl),
      );
      counted = refl;
    };
    words =
        each (λ p b. IsWords b.counter_marker)
          (record { tracing_fits = omega arith; counter_fits = omega arith })
          (record { tracing_fits = omega arith; counter_fits = omega arith })
          (record { tracing_fits = omega arith; counter_fits = omega arith });
    marked = each (λ p b. is_in_possible_cycles b.counter_marker ≡ has p both) refl refl refl;
    loose =
        each
          (λ p b.
            p ∉ both
            → is_in_list_or_queue b.counter_marker ≡ false
            → (b.next ≡ none) × (b.prev ≡ none))
          (λ o. absurd (ground (arith, o))) (λ o u. (refl, refl)) (λ o. absurd (ground (arith, o)));
  };
  unlisted = each (λ p b. is_in_list_or_queue b.counter_marker ≡ false) refl refl refl;
  reset =
      each (λ p b. p ∈ both → tracing_counter b.counter_marker ≡ 0) (λ i. refl) (λ i. refl)
        (λ i. refl);
  no_lists = refl;
}

graph-IsTraceable : IsTraceable graph
unfolding has_allocated_for_metadata view
graph-IsTraceable = record {
  words =
      each (λ p b. IsWords b.counter_marker)
        (record { tracing_fits = omega arith; counter_fits = omega arith })
        (record { tracing_fits = omega arith; counter_fits = omega arith })
        (record { tracing_fits = omega arith; counter_fits = omega arith });
  layouts =
      each (λ p b. HasLayout graph b) (record { layout_size = 40 }, refl)
        (record { layout_size = 40 }, refl) (record { layout_size = 40 }, refl);
  calm = each (λ p b. b.elem.trace_panics ≡ false) refl refl refl;
  live = λ p e i. elim (Bool-cases (e == 1)) [
    | inl hit ↦ (node (2 ∷ []) (some 3) none 16384, ap nodes (==→eq e 1 hit))
    | inr n1 ↦ elim (Bool-cases (e == 2)) [
      | inl hit ↦ (node (1 ∷ []) none none 0, ap nodes (==→eq e 2 hit))
      | inr n2 ↦ absurd (ground (arith, i, n1, n2))
    ]
  ];
  owned = λ ps p d. ground (arith, inbound-crossing p ps, occ_one 1 ps d, occ_one 2 ps d);
  bounded = λ p. ground arith;
}

graph-found : (p : Ptr) (b : CcBox) → graph.heap p ≡ some b → p ∈ (1 ∷ 2 ∷ 3 ∷ [])
graph-found = each (λ p b. p ∈ (1 ∷ 2 ∷ 3 ∷ [])) refl refl refl

tracing-IsTraced_example :
    (v : World) × (done : List Ptr) × (s : Snapshot) × ((do trace_counting 4; trace_roots 4) graph
      ≡ ok tt v)
    × IsSnapshot graph v s
    × IsTraced graph both done s
tracing-IsTraced_example =
    tracing-IsTraced graph both graph-IsReady 4 (1 ∷ 2 ∷ 3 ∷ []) graph-IsTraceable graph-found
      (omega arith) (omega arith)

-- The glue drops the pointers that the garbage owns.
abbrev gluing : Client
gluing = owner leaf_client

add_to_list-IsReady_example : Readies (2 ∷ 1 ∷ 3 ∷ []) (add_to_list 2 graph)
add_to_list-IsReady_example =
    add_to_list-IsReady graph both 2 (node (1 ∷ []) none none 0) graph-IsReady refl refl refl
      (omega arith)

remove_from_list-IsReady_example : Readies (1 ∷ []) (remove_from_list 3 graph)
remove_from_list-IsReady_example =
    remove_from_list-IsReady graph both 3 (node [] none (some 1) 16384) graph-IsReady refl refl refl
      (omega arith)
