-- ===== src/Value/Owned.antt =====
-- The `Cc`s that a value owns, and how often its `trace` visits them.
use rust_cc.Prelude.{true, false, Option, none, some, List, [], ◌∷◌, ◌++◌, ◌+◌, ◌≤◌, ◌≡◌, arith}
use rust_cc.Heap.{Ptr, Elem}
use rust_cc.Tracing.Graph.{occ}
use rust_cc.TraceImpls.{unused, shared, exclusive}
use rust_cc.Value.{
  Value, Values, Fields, plain, phantom_data, cc, weak, cleaner, cleanable, deref, ref_cell,
  option_none, option_some, result_ok, result_err, array, slice, vec, tuple, derived, custom, nil,
  cons, end, field, trace_elem,
}
use rust_cc.Value
use rust_cc.Collector.{Phase}
use rust_cc.Value.Elems.{trace_value, elem_of, elems_of, fields_of, then_elem}

-- The map of a `Cleaner`, where one is allocated.
abbrev pub option_list : Option Ptr → List Ptr
option_list none = []
option_list (some p) = p ∷ []

-- In the order of the fields.
unfoldable mutual
  pub owned : Value → List Ptr
  owned (plain t) = []
  owned phantom_data = []
  owned (cc ptr) = ptr ∷ []
  owned (weak m) = []
  owned (cleaner m) = option_list m
  owned (cleanable m) = []
  owned (deref t v) = owned v
  owned (ref_cell borrow v) = owned v
  owned option_none = []
  owned (option_some v) = owned v
  owned (result_ok v) = owned v
  owned (result_err v) = owned v
  owned (array vs) = owned_each vs
  owned (slice vs) = owned_each vs
  owned (vec vs) = owned_each vs
  owned (tuple vs) = owned_each vs
  owned (derived fs) = owned_fields fs
  owned (custom vs e) = owned_each vs

  pub owned_each : Values → List Ptr
  owned_each nil = []
  owned_each (cons v vs) = owned v ++ owned_each vs

  pub owned_fields : Fields → List Ptr
  owned_fields end = []
  owned_fields (field traced v fs) = owned v ++ owned_fields fs

-- The rule for an implementation of the client's own in the safety section of `Trace`: no `Cc` that
-- is not owned is traced, and none is traced more often than it is owned.
unfoldable mutual
  pub IsLawful : Value → Type 0
  IsLawful (plain t) = Unit
  IsLawful phantom_data = Unit
  IsLawful (cc ptr) = Unit
  IsLawful (weak m) = Unit
  IsLawful (cleaner m) = Unit
  IsLawful (cleanable m) = Unit
  IsLawful (deref t v) = IsLawful v
  IsLawful (ref_cell borrow v) = IsLawful v
  IsLawful option_none = Unit
  IsLawful (option_some v) = IsLawful v
  IsLawful (result_ok v) = IsLawful v
  IsLawful (result_err v) = IsLawful v
  IsLawful (array vs) = AreLawful vs
  IsLawful (slice vs) = AreLawful vs
  IsLawful (vec vs) = AreLawful vs
  IsLawful (tuple vs) = AreLawful vs
  IsLawful (derived fs) = HasLawful fs
  IsLawful (custom vs e) = (p : Ptr) → occ p e.traced ≤ occ p (owned_each vs)

  pub AreLawful : Values → Type 0
  AreLawful nil = Unit
  AreLawful (cons v vs) = IsLawful v × AreLawful vs

  pub HasLawful : Fields → Type 0
  HasLawful end = Unit
  HasLawful (field traced v fs) = IsLawful v × HasLawful fs

occ-append : (p : Ptr) (xs ys : List Ptr) → occ p (xs ++ ys) ≡ occ p xs + occ p ys
occ-append p [] ys = omega arith
occ-append p (x ∷ xs) ys = omega (arith, occ-append p xs ys)

-- Behind a panic nothing is visited.
occ-then_elem :
    (p : Ptr) (a b : Elem) → occ p (then_elem a b).traced ≤ occ p a.traced + occ p b.traced
unfolding then_elem
occ-then_elem p a b = ground (arith, occ-append p a.traced b.traced)

module _ (p : Ptr) where
  occ-both :
      (a b : Elem) (xs ys : List Ptr)
      → occ p a.traced ≤ occ p xs
      → occ p b.traced ≤ occ p ys
      → occ p (then_elem a b).traced ≤ occ p (xs ++ ys)
  occ-both a b xs ys i j = omega (arith, occ-then_elem p a b, occ-append p xs ys, i, j)

  -- Nothing is visited where the cell is borrowed, where the field is ignored, or behind a panic.
  mutual
    unfolding elem_of owned IsLawful

    occ_value : (v : Value) → IsLawful v → occ p (elem_of v).traced ≤ occ p (owned v)
    occ_value (plain t) l = omega arith
    occ_value phantom_data l = omega arith
    occ_value (cc ptr) l = omega arith
    occ_value (weak m) l = omega arith
    occ_value (cleaner m) l = omega arith
    occ_value (cleanable m) l = omega arith
    occ_value (deref t v) l = occ_value v l
    occ_value (ref_cell unused v) l = occ_value v l
    occ_value (ref_cell shared v) l = omega arith
    occ_value (ref_cell exclusive v) l = omega arith
    occ_value option_none l = omega arith
    occ_value (option_some v) l = occ_value v l
    occ_value (result_ok v) l = occ_value v l
    occ_value (result_err v) l = occ_value v l
    occ_value (array vs) l = occ_values vs l
    occ_value (slice vs) l = occ_values vs l
    occ_value (vec vs) l = occ_values vs l
    occ_value (tuple vs) l = occ_values vs l
    occ_value (derived fs) l = occ_fields fs l
    occ_value (custom vs e) l = l p

    occ_values : (vs : Values) → AreLawful vs → occ p (elems_of vs).traced ≤ occ p (owned_each vs)
    occ_values nil l = omega arith
    occ_values (cons v vs) (l, ls) =
        occ-both (elem_of v) (elems_of vs) (owned v) (owned_each vs) (occ_value v l)
          (occ_values vs ls)

    occ_fields :
        (fs : Fields) → HasLawful fs → occ p (fields_of fs).traced ≤ occ p (owned_fields fs)
    occ_fields end l = omega arith
    occ_fields (field true v fs) (l, ls) =
        occ-both (elem_of v) (fields_of fs) (owned v) (owned_fields fs) (occ_value v l)
          (occ_fields fs ls)
    occ_fields (field false v fs) (l, ls) =
        omega (arith, occ_fields fs ls, occ-append p (owned v) (owned_fields fs))

-- `trace` visits no `Cc` more often than the value owns pointers to it, whatever cells are borrowed
-- and fields are ignored, where each implementation of the client's own keeps that rule itself: it
-- is the visit of some `Cc`s in turn, perhaps with a panic behind them, each of which stands among
-- them at most as often as the value owns it.
pub trace-owned :
    (phase : Phase) (v : Value)
    → IsLawful v
    → (visited : Elem) × (Value.trace phase v ≡ trace_elem phase visited)
      × ((p : Ptr) → occ p visited.traced ≤ occ p (owned v))
trace-owned phase v lawful = (elem_of v, trace_value phase v, λ p. occ_value p v lawful)
