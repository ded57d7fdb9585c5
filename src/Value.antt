-- ===== src/Value.antt =====
-- Values of the client's types, as far as tracing sees them: trees of the types that
-- implement `Trace` in src/trace.rs, src/cc.rs, src/weak/mod.rs and src/cleaners/mod.rs, of derived
-- types (derive/src/lib.rs) and of types with implementations of the client's own.
pub mod Elems
pub mod Owned
pub mod Whole
use rust_cc.Prelude.{Bool, true, false, Option, none, some, List, [], ◌∷◌, if◌then◌else◌}
use rust_cc.Heap.{Ptr, Elem}
use rust_cc.World.{Cmd, panic, ◌>>=◌, ◌>>◌, skip, when}
use rust_cc.Collector.{Phase}
use rust_cc.Collector
use rust_cc.TraceImpls.{
  Borrow, ok_value, err_value, finalize_default, empty_trace, empty_finalize, trace_phantom_data,
  finalize_phantom_data, deref_trace, deref_finalize, trace_ref_cell, finalize_ref_cell,
  trace_option, finalize_option, trace_result, finalize_result, trace_array, finalize_array,
  trace_slice, finalize_slice, trace_vec, finalize_vec, trace_tuple, finalize_tuple, for_each,
}
use rust_cc.TraceImpls.Plain.{PlainType, DerefType}

mutual
  -- `custom` is a type whose `Trace` the client wrote: what it holds, which `Cc`s its `trace` visits
  -- and whether it panics behind them.
  pub data Value : Type 0 where
    plain : PlainType → Value
    phantom_data : Value
    cc : Ptr → Value
    weak : Option Ptr → Value
    cleaner : Option Ptr → Value
    cleanable : Option Ptr → Value
    deref : DerefType → Value → Value
    ref_cell : Borrow → Value → Value
    option_none : Value
    option_some : Value → Value
    result_ok : Value → Value
    result_err : Value → Value
    array : Values → Value
    slice : Values → Value
    vec : Values → Value
    tuple : Values → Value
    derived : Fields → Value
    custom : Values → Elem → Value

  pub data Values : Type 0 where
    nil : Values
    cons : Value → Values → Values

  -- The fields of the variant that the value has, each with whether the derived `trace` visits it:
  -- neither it nor the variant is annotated with `#[rust_cc(ignore)]`.
  pub data Fields : Type 0 where
    end : Fields
    field : Bool → Value → Fields → Fields

-- `Trace` and `Finalize` of `Cc`.
unfoldable pub trace_cc : Phase → Ptr → Cmd (Unit {0})
trace_cc phase ptr = Collector.trace phase ptr

unfoldable pub finalize_cc : Cmd (Unit {0})
finalize_cc = finalize_default

unfoldable pub trace_weak : Cmd (Unit {0})
trace_weak = skip

unfoldable pub trace_cleaner : Cmd (Unit {0})
trace_cleaner = skip

unfoldable pub trace_cleanable : Cmd (Unit {0})
trace_cleanable = skip

-- What a `Trace` implementation does that visits the `Cc`s of `elem`.
unfoldable pub trace_elem : Phase → Elem → Cmd (Unit {0})
trace_elem phase elem = do
  Collector.trace_all phase elem.traced
  when elem.trace_panics (λ w. panic w)

-- The arm of a derived `trace` for the variant of the value: a call for each field that is traced.
unfoldable pub derived_call : (traced : Bool) → Cmd (Unit {0}) → Cmd (Unit {0})
derived_call traced call = when traced call

unfoldable mutual
  pub trace : Phase → Value → Cmd (Unit {0})
  trace phase (plain t) = empty_trace
  trace phase phantom_data = trace_phantom_data
  trace phase (cc ptr) = trace_cc phase ptr
  trace phase (weak m) = trace_weak
  trace phase (cleaner m) = trace_cleaner
  trace phase (cleanable m) = trace_cleanable
  trace phase (deref t v) = deref_trace (trace phase v)
  trace phase (ref_cell borrow v) = trace_ref_cell borrow (trace phase v)
  trace phase option_none = trace_option none
  trace phase (option_some v) = trace_option (some (trace phase v))
  trace phase (result_ok v) = trace_result (ok_value (trace phase v))
  trace phase (result_err v) = trace_result (err_value (trace phase v))
  trace phase (array vs) = trace_array (trace_each phase vs)
  trace phase (slice vs) = trace_slice (trace_each phase vs)
  trace phase (vec vs) = trace_vec (trace_each phase vs)
  trace phase (tuple vs) = trace_tuple (trace_each phase vs)
  trace phase (derived fs) = for_each (trace_fields phase fs)
  trace phase (custom vs elem) = trace_elem phase elem

  pub trace_each : Phase → Values → List (Cmd (Unit {0}))
  trace_each phase nil = []
  trace_each phase (cons v vs) = trace phase v ∷ trace_each phase vs

  pub trace_fields : Phase → Fields → List (Cmd (Unit {0}))
  trace_fields phase end = []
  trace_fields phase (field traced v fs) =
      derived_call traced (trace phase v) ∷ trace_fields phase fs
