-- ===== src/Value/Elems.antt =====
-- What the collector sees of a value: the `Cc`s that its `trace` visits up to the first panic.
use rust_cc.Prelude.{
  Bool, true, false, some, List, [], ◌∷◌, ◌++◌, ◌≡◌, refl, sym, ap, ◌∙◌, if◌then◌else◌, arith,
}
use mathlib.Core.Path.{fun_ext}
use rust_cc.Heap.{Ptr, VTable, CcBox, Elem}
use rust_cc.Heap
use rust_cc.CcBox.{vtable_of}
use rust_cc.World.{
  World, Run, Cmd, ok, panic, fault, out_of_fuel, and_then, box_at, ◌>>◌, skip, when,
}
use rust_cc.Collector.{Phase, trace_all}
use rust_cc.Collector
use rust_cc.TraceImpls.{Borrow, unused, shared, exclusive, for_each, try_borrow_mut}
use rust_cc.TraceImpls
use rust_cc.Value.{
  Value, Values, Fields, plain, phantom_data, cc, weak, cleaner, cleanable, deref, ref_cell,
  option_none, option_some, result_ok, result_err, array, slice, vec, tuple, derived, custom, nil,
  cons, end, field, trace_elem, trace_each, trace_fields,
}
use rust_cc.Value

abbrev pub no_elem : Elem
no_elem = record { traced = []; trace_panics = false }

abbrev pub visits : Ptr → Elem
visits ptr = record { traced = ptr ∷ []; trace_panics = false }

-- One behind the other; nothing comes behind a panic.
unfoldable pub then_elem : Elem → Elem → Elem
then_elem first second =
    if first.trace_panics
    then first
    else record { traced = first.traced ++ second.traced; trace_panics = second.trace_panics }

unfoldable mutual
  pub elem_of : Value → Elem
  elem_of (plain t) = no_elem
  elem_of phantom_data = no_elem
  elem_of (cc ptr) = visits ptr
  elem_of (weak m) = no_elem
  elem_of (cleaner m) = no_elem
  elem_of (cleanable m) = no_elem
  elem_of (deref t v) = elem_of v
  elem_of (ref_cell unused v) = elem_of v
  elem_of (ref_cell shared v) = no_elem
  elem_of (ref_cell exclusive v) = no_elem
  elem_of option_none = no_elem
  elem_of (option_some v) = elem_of v
  elem_of (result_ok v) = elem_of v
  elem_of (result_err v) = elem_of v
  elem_of (array vs) = elems_of vs
  elem_of (slice vs) = elems_of vs
  elem_of (vec vs) = elems_of vs
  elem_of (tuple vs) = elems_of vs
  elem_of (derived fs) = fields_of fs
  elem_of (custom vs e) = e

  pub elems_of : Values → Elem
  elems_of nil = no_elem
  elems_of (cons v vs) = then_elem (elem_of v) (elems_of vs)

  pub fields_of : Fields → Elem
  fields_of end = no_elem
  fields_of (field true v fs) = then_elem (elem_of v) (fields_of fs)
  fields_of (field false v fs) = fields_of fs

pub and_then_assoc :
    {A B C : Type 0} (r : Run A) (f : A → Cmd B) (g : B → Cmd C)
    → and_then (and_then r f) g ≡ and_then r (λ a w. and_then (f a w) g)
and_then_assoc (ok a w) f g = refl
and_then_assoc (panic w) f g = refl
and_then_assoc fault f g = refl
and_then_assoc out_of_fuel f g = refl

pub and_then_ok : (r : Run (Unit {0})) → and_then r (λ u w. ok u w) ≡ r
and_then_ok (ok a w) = refl
and_then_ok (panic w) = refl
and_then_ok fault = refl
and_then_ok out_of_fuel = refl

module _ (phase : Phase) where
  trace_all-append :
      (xs ys : List Ptr) (w : World)
      → trace_all phase (xs ++ ys) w ≡ and_then (trace_all phase xs w) (λ _. trace_all phase ys)
  unfolding trace_all
  trace_all-append [] ys w = refl
  trace_all-append (x ∷ xs) ys w =
      ap (λ next. and_then (Collector.trace phase x w) next)
        (fun_ext λ u. fun_ext λ v. trace_all-append xs ys v)
      ∙ sym (
          and_then_assoc (Collector.trace phase x w) (λ u. trace_all phase xs)
            (λ u. trace_all phase ys))

  trace_elem-panics :
      (xs : List Ptr) (p : Bool) (b : Elem) (w : World)
      → trace_elem phase (then_elem (record { traced = xs; trace_panics = p }) b) w
        ≡ and_then
            (trace_elem phase (record { traced = xs; trace_panics = p }) w)
            (λ _. trace_elem phase b)
  unfolding trace_elem then_elem
  trace_elem-panics xs true b w =
      sym (and_then_assoc (trace_all phase xs w) (λ u v. panic v) (λ u. trace_elem phase b))
  trace_elem-panics xs false b w =
      ap (λ r. and_then r (λ u. when b.trace_panics (λ v. panic v)))
        (trace_all-append xs b.traced w)
      ∙ and_then_assoc (trace_all phase xs w) (λ u. trace_all phase b.traced)
          (λ u. when b.trace_panics (λ v. panic v))
      ∙ sym (and_then_assoc (trace_all phase xs w) (λ u v. ok tt v) (λ u. trace_elem phase b))

  trace_elem-then_elem :
      (a b : Elem) (w : World)
      → trace_elem phase (then_elem a b) w
        ≡ and_then (trace_elem phase a w) (λ _. trace_elem phase b)
  trace_elem-then_elem a b w = trace_elem-panics a.traced a.trace_panics b w

  command-then_elem :
      (first second : Cmd (Unit {0})) (a b : Elem)
      → first ≡ trace_elem phase a
      → second ≡ trace_elem phase b
      → (first >> second) ≡ trace_elem phase (then_elem a b)
  command-then_elem first second a b e f =
      ap (λ m. m >> second) e
      ∙ ap (λ m. trace_elem phase a >> m) f
      ∙ sym (fun_ext λ w. trace_elem-then_elem a b w)

  trace_elem-no_elem : trace_elem phase no_elem ≡ skip
  unfolding trace_elem trace_all
  trace_elem-no_elem = refl

  trace_elem-visits : (ptr : Ptr) → trace_elem phase (visits ptr) ≡ Collector.trace phase ptr
  unfolding trace_elem trace_all
  trace_elem-visits ptr = fun_ext λ w.
      and_then_ok (and_then (Collector.trace phase ptr w) (λ u v. ok tt v))
      ∙ and_then_ok (Collector.trace phase ptr w)

mutual
  unfolding Value.trace elem_of TraceImpls.empty_trace TraceImpls.trace_phantom_data Value.trace_cc
      Value.trace_weak Value.trace_cleaner Value.trace_cleanable TraceImpls.deref_trace
      TraceImpls.trace_ref_cell TraceImpls.trace_option TraceImpls.trace_result
      TraceImpls.trace_array TraceImpls.trace_slice TraceImpls.trace_vec TraceImpls.trace_tuple
      Value.derived_call for_each

  pub trace_value : (phase : Phase) (v : Value) → Value.trace phase v ≡ trace_elem phase (elem_of v)
  trace_value phase (plain t) = sym (trace_elem-no_elem phase)
  trace_value phase phantom_data = sym (trace_elem-no_elem phase)
  trace_value phase (cc ptr) = sym (trace_elem-visits phase ptr)
  trace_value phase (weak m) = sym (trace_elem-no_elem phase)
  trace_value phase (cleaner m) = sym (trace_elem-no_elem phase)
  trace_value phase (cleanable m) = sym (trace_elem-no_elem phase)
  trace_value phase (deref t v) = trace_value phase v
  trace_value phase (ref_cell unused v) = trace_value phase v
  trace_value phase (ref_cell shared v) = sym (trace_elem-no_elem phase)
  trace_value phase (ref_cell exclusive v) = sym (trace_elem-no_elem phase)
  trace_value phase option_none = sym (trace_elem-no_elem phase)
  trace_value phase (option_some v) = trace_value phase v
  trace_value phase (result_ok v) = trace_value phase v
  trace_value phase (result_err v) = trace_value phase v
  trace_value phase (array vs) = trace_values phase vs
  trace_value phase (slice vs) = trace_values phase vs
  trace_value phase (vec vs) = trace_values phase vs
  trace_value phase (tuple vs) = trace_values phase vs
  trace_value phase (derived fs) = trace_derived phase fs
  trace_value phase (custom vs e) = refl

  trace_values :
      (phase : Phase) (vs : Values)
      → for_each (trace_each phase vs) ≡ trace_elem phase (elems_of vs)
  trace_values phase nil = sym (trace_elem-no_elem phase)
  trace_values phase (cons v vs) =
      command-then_elem phase (Value.trace phase v) (for_each (trace_each phase vs)) (elem_of v)
        (elems_of vs) (trace_value phase v) (trace_values phase vs)

  trace_derived :
      (phase : Phase) (fs : Fields)
      → for_each (trace_fields phase fs) ≡ trace_elem phase (fields_of fs)
  trace_derived phase end = sym (trace_elem-no_elem phase)
  trace_derived phase (field true v fs) =
      command-then_elem phase (Value.trace phase v) (for_each (trace_fields phase fs)) (elem_of v)
        (fields_of fs) (trace_value phase v) (trace_derived phase fs)
  trace_derived phase (field false v fs) = trace_derived phase fs

-- Where a box holds a value, which is to say that what the collector sees of its element are the
-- `Cc`s that the value's `trace` visits up to the first panic, and the box's vtable is read without
-- a change, tracing the box runs the value's `trace`: the implementations of all its parts, in any
-- state, with their panics, faults and effects.
pub trace_inner-elem_of :
    (phase : Phase) (ptr : Ptr) (v : Value) (b : CcBox) (vtable : VTable) (w : World)
    → w.heap ptr ≡ some b
    → b.elem ≡ elem_of v
    → vtable_of b w ≡ ok vtable w
    → Collector.trace_inner phase ptr w ≡ Value.trace phase v w
unfolding Collector.trace_inner Heap.as_ref trace_elem
trace_inner-elem_of phase ptr v b vtable w at holds reads =
    let ran : box_at ptr w ≡ ok b w = ground (arith, at) in
    rw (ran, reads)
      (ap (λ e. trace_elem phase e w) holds ∙ sym (ap (λ m. m w) (trace_value phase v)))
