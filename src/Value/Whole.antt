-- ===== src/Value/Whole.antt =====
-- Values of which `trace` visits every `Cc` they own.
use rust_cc.Prelude.{true, false, none, [], ◌≡◌, refl, ap, ap₂, ◌∙◌, arith}
use rust_cc.TraceImpls.{unused, shared, exclusive}
use rust_cc.Value.{
  Value, Values, Fields, plain, phantom_data, cc, weak, cleaner, cleanable, deref, ref_cell,
  option_none, option_some, result_ok, result_err, array, slice, vec, tuple, derived, custom, nil,
  cons, end, field, trace_elem,
}
use mathlib.Core.Path.{fun_ext}
use rust_cc.Value
use rust_cc.Collector.{Phase, trace_all}
use rust_cc.Value.Elems.{trace_value, and_then_ok, elem_of, elems_of, fields_of, then_elem}
use rust_cc.Value.Owned.{owned, owned_each, owned_fields}

-- No cell is borrowed, no field that owns a `Cc` is ignored, no cleaner has a map yet, and the
-- implementations of the client's own visit what they own without a panic.
unfoldable mutual
  pub IsOpen : Value → Type 0
  IsOpen (plain t) = Unit
  IsOpen phantom_data = Unit
  IsOpen (cc ptr) = Unit
  IsOpen (weak m) = Unit
  IsOpen (cleaner m) = m ≡ none
  IsOpen (cleanable m) = Unit
  IsOpen (deref t v) = IsOpen v
  IsOpen (ref_cell borrow v) = (borrow ≡ unused) × IsOpen v
  IsOpen option_none = Unit
  IsOpen (option_some v) = IsOpen v
  IsOpen (result_ok v) = IsOpen v
  IsOpen (result_err v) = IsOpen v
  IsOpen (array vs) = AreOpen vs
  IsOpen (slice vs) = AreOpen vs
  IsOpen (vec vs) = AreOpen vs
  IsOpen (tuple vs) = AreOpen vs
  IsOpen (derived fs) = HasOpen fs
  IsOpen (custom vs e) = e ≡ record { traced = owned_each vs; trace_panics = false }

  pub AreOpen : Values → Type 0
  AreOpen nil = Unit
  AreOpen (cons v vs) = IsOpen v × AreOpen vs

  pub HasOpen : Fields → Type 0
  HasOpen end = Unit
  HasOpen (field true v fs) = IsOpen v × HasOpen fs
  HasOpen (field false v fs) = (owned v ≡ []) × HasOpen fs

mutual
  unfolding elem_of owned IsOpen then_elem

  whole_value :
      (v : Value) → IsOpen v → elem_of v ≡ record { traced = owned v; trace_panics = false }
  whole_value (plain t) o = refl
  whole_value phantom_data o = refl
  whole_value (cc ptr) o = refl
  whole_value (weak m) o = refl
  whole_value (cleaner m) o = rw o refl
  whole_value (cleanable m) o = refl
  whole_value (deref t v) o = whole_value v o
  whole_value (ref_cell unused v) (e, o) = whole_value v o
  whole_value (ref_cell shared v) (e, o) = absurd (ground arith)
  whole_value (ref_cell exclusive v) (e, o) = absurd (ground arith)
  whole_value option_none o = refl
  whole_value (option_some v) o = whole_value v o
  whole_value (result_ok v) o = whole_value v o
  whole_value (result_err v) o = whole_value v o
  whole_value (array vs) o = whole_values vs o
  whole_value (slice vs) o = whole_values vs o
  whole_value (vec vs) o = whole_values vs o
  whole_value (tuple vs) o = whole_values vs o
  whole_value (derived fs) o = whole_fields fs o
  whole_value (custom vs e) o = o

  whole_values :
      (vs : Values)
      → AreOpen vs
      → elems_of vs ≡ record { traced = owned_each vs; trace_panics = false }
  whole_values nil o = refl
  whole_values (cons v vs) (o, os) = ap₂ then_elem (whole_value v o) (whole_values vs os)

  whole_fields :
      (fs : Fields)
      → HasOpen fs
      → fields_of fs ≡ record { traced = owned_fields fs; trace_panics = false }
  whole_fields end o = refl
  whole_fields (field true v fs) (o, os) = ap₂ then_elem (whole_value v o) (whole_fields fs os)
  whole_fields (field false v fs) (e, os) = rw e (whole_fields fs os)

-- Where no cell is borrowed, no field that owns a `Cc` is ignored, no `Cleaner` has a map and the
-- implementations of the client's own visit what they own without a panic, `trace` visits exactly
-- the `Cc`s that the value owns, each as often as it is owned, in the order of the parts.
pub trace-owned_all :
    (phase : Phase) (v : Value) → IsOpen v → Value.trace phase v ≡ trace_all phase (owned v)
unfolding trace_elem
trace-owned_all phase v opened =
    trace_value phase v
    ∙ ap (λ e. trace_elem phase e) (whole_value v opened)
    ∙ fun_ext (λ w. and_then_ok (trace_all phase (owned v) w))
