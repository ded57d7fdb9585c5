-- ===== src/Tracing/Graph.antt =====
-- The objects of a heap and the pointers that the `Trace` implementations visit, and what the
-- collector of src/lib.rs relies on.
use rust_cc.Prelude.{
  ℕ, ◌+◌, ◌≤◌, ◌<◌, ◌≡◌, Bool, true, false, Option, none, some, List, [], ◌∷◌, ◌==◌,
}
use rust_cc.CounterMarker.{counter_mask, has_allocated_for_metadata}
use rust_cc.CounterMarker.View.{IsWords, view}
use rust_cc.Heap.{Ptr, CcBox, vtable_member, boxed_member, VTable, BoxedMetadata}
use rust_cc.Lists.Chain.{◌∈◌, ◌∉◌}
use rust_cc.World.{World}
use rust_cc.Tracing.{bit}

abbrev pub edges_in : Option CcBox → List Ptr
edges_in none = []
edges_in (some b) = b.elem.traced

abbrev pub count_in : Option CcBox → ℕ
count_in none = 0
count_in (some b) = (view b.counter_marker).count

-- The pointers that the value at `p` visits.
abbrev pub edges : World → Ptr → List Ptr
edges env p = edges_in (env.heap p)

-- The reference count of the box at `p`.
abbrev pub count : World → Ptr → ℕ
count env p = count_in (env.heap p)

-- How often `p` occurs.
abbrev pub occ : Ptr → List Ptr → ℕ
occ p [] = 0
occ p (x ∷ xs) = bit (p == x) + occ p xs

-- How many pointers the values at `ps` have to `p`.
abbrev pub inbound : World → Ptr → List Ptr → ℕ
inbound env p [] = 0
inbound env p (x ∷ xs) = occ p (edges env x) + inbound env p xs

abbrev pub Distinct : List Ptr → Type 0
Distinct [] = Unit
Distinct (x ∷ xs) = (x ∉ xs) × Distinct xs

abbrev pub LayoutOf : World → CcBox → Bool → Type 0
LayoutOf env b true =
    (q : Ptr) × (m : BoxedMetadata) × (b.metadata ≡ boxed_member q) × (env.metadata q ≡ some m)
LayoutOf env b false = (v : VTable) × (b.metadata ≡ vtable_member v)

-- What the union in a box holds is what its flag says.
abbrev pub HasLayout : World → CcBox → Type 0
HasLayout env b = LayoutOf env b (has_allocated_for_metadata b.counter_marker)

-- The boxes are well-formed, with counts below the reserved value, and the safety conditions of
-- `Trace` hold: the pointers that a value visits are its own, so there are no
-- more of them than the reference counts say, they point to live boxes, and visiting them does not
-- panic.
pub record IsTraceable (env : World) : Type 0 where
  pub words : (p : Ptr) (b : CcBox) → env.heap p ≡ some b → IsWords b.counter_marker
  pub layouts : (p : Ptr) (b : CcBox) → env.heap p ≡ some b → HasLayout env b
  pub calm : (p : Ptr) (b : CcBox) → env.heap p ≡ some b → b.elem.trace_panics ≡ false
  pub live : (p e : Ptr) → e ∈ edges env p → (b : CcBox) × (env.heap e ≡ some b)
  pub owned : (ps : List Ptr) (p : Ptr) → Distinct ps → inbound env p ps ≤ count env p
  pub bounded : (p : Ptr) → count env p < counter_mask

-- The value at `q` can be reached from that at `p`.
pub data Reach (env : World) (p : Ptr) : Ptr → Type 0 where
  here : Reach env p p
  next : {q r : Ptr} → Reach env p q → r ∈ edges env q → Reach env p r
