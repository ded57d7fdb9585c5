-- ===== src/TraceImpls.antt =====
-- The implementations of `Trace` and `Finalize` that src/trace.rs gives for the types of the
-- standard library, each as a command built from those of the type's parameters: what `T::trace`
-- is for `T: Trace` is an argument. The two conditions under which a `RefCell` can be borrowed are
-- those that the standard library documents.
pub mod Plain
use rust_cc.Prelude.{Bool, true, false, Option, none, some, List, [], ◌∷◌, if◌then◌else◌}
use rust_cc.World.{Cmd, ◌>>=◌, ◌>>◌, skip, when}

-- The default body of `Finalize::finalize`.
abbrev pub finalize_default : Cmd (Unit {0})
finalize_default = skip

-- `empty_trace!`
unfoldable pub empty_trace : Cmd (Unit {0})
empty_trace = skip

unfoldable pub empty_finalize : Cmd (Unit {0})
empty_finalize = finalize_default

unfoldable pub trace_phantom_data : Cmd (Unit {0})
trace_phantom_data = skip

unfoldable pub finalize_phantom_data : Cmd (Unit {0})
finalize_phantom_data = finalize_default

-- `deref_trace!`, for `Box`, `ManuallyDrop` and `AssertUnwindSafe`.
unfoldable pub deref_trace : (trace_deref : Cmd (Unit {0})) → Cmd (Unit {0})
deref_trace trace_deref = trace_deref

unfoldable pub deref_finalize : (finalize_deref : Cmd (Unit {0})) → Cmd (Unit {0})
deref_finalize finalize_deref = finalize_deref

-- Which borrows of a `RefCell` are alive when it is reached.
pub data Borrow : Type 0 where
  unused shared exclusive : Borrow

abbrev pub try_borrow_mut : Borrow → Bool
try_borrow_mut unused = true
try_borrow_mut _ = false

abbrev pub try_borrow : Borrow → Bool
try_borrow exclusive = false
try_borrow _ = true

-- A cell that is in use is passed over.
unfoldable pub trace_ref_cell : Borrow → (trace_inner : Cmd (Unit {0})) → Cmd (Unit {0})
trace_ref_cell borrow trace_inner = when (try_borrow_mut borrow) trace_inner

unfoldable pub finalize_ref_cell : Borrow → (finalize_inner : Cmd (Unit {0})) → Cmd (Unit {0})
finalize_ref_cell borrow finalize_inner = when (try_borrow borrow) finalize_inner

unfoldable pub trace_option : Option (Cmd (Unit {0})) → Cmd (Unit {0})
trace_option (some inner) = inner
trace_option none = skip

unfoldable pub finalize_option : Option (Cmd (Unit {0})) → Cmd (Unit {0})
finalize_option (some value) = value
finalize_option none = skip

-- `Result<R, E>`
pub data Outcome : Type 0 where
  ok_value err_value : Cmd (Unit {0}) → Outcome

unfoldable pub trace_result : Outcome → Cmd (Unit {0})
trace_result (ok_value ok) = ok
trace_result (err_value err) = err

unfoldable pub finalize_result : Outcome → Cmd (Unit {0})
finalize_result (ok_value value) = value
finalize_result (err_value err) = err

-- `for elem in self { .. }`, by the commands that the body is for the elements.
unfoldable pub for_each : List (Cmd (Unit {0})) → Cmd (Unit {0})
for_each [] = skip
for_each (elem ∷ rest) = do elem; for_each rest

unfoldable pub trace_array : (elems : List (Cmd (Unit {0}))) → Cmd (Unit {0})
trace_array elems = for_each elems

unfoldable pub finalize_array : (elems : List (Cmd (Unit {0}))) → Cmd (Unit {0})
finalize_array elems = for_each elems

unfoldable pub trace_slice : (elems : List (Cmd (Unit {0}))) → Cmd (Unit {0})
trace_slice elems = for_each elems

unfoldable pub finalize_slice : (elems : List (Cmd (Unit {0}))) → Cmd (Unit {0})
finalize_slice elems = for_each elems

unfoldable pub trace_vec : (elems : List (Cmd (Unit {0}))) → Cmd (Unit {0})
trace_vec elems = for_each elems

unfoldable pub finalize_vec : (elems : List (Cmd (Unit {0}))) → Cmd (Unit {0})
finalize_vec elems = for_each elems

-- `tuple_finalize_trace!`: one statement for each component.
unfoldable pub trace_tuple : (components : List (Cmd (Unit {0}))) → Cmd (Unit {0})
trace_tuple components = for_each components

unfoldable pub finalize_tuple : (components : List (Cmd (Unit {0}))) → Cmd (Unit {0})
finalize_tuple components = for_each components
