-- ===== src/Tests/Values.antt =====
-- The tracing of a value with a cell, an ignored field and a type of the
-- client's own.
use rust_cc.Prelude.{◌≡◌, ◌≤◌, refl, true, false, some, [], ◌∷◌, arith}
use rust_cc.Heap.{Ptr, CcBox, Elem, write}
use rust_cc.World.{World}
use rust_cc.CcBox.{vtable_of}
use rust_cc.CounterMarker.{has_allocated_for_metadata}
use rust_cc.Collector.{root_tracing, trace_inner, trace_all}
use rust_cc.Tracing.Graph.{occ}
use rust_cc.TraceImpls.{unused, shared}
use rust_cc.TraceImpls.Plain.{u32_type, boxed}
use rust_cc.Value.{
  Value, plain, cc, weak, cleaner, ref_cell, option_some, vec, tuple, derived, custom, nil, cons,
  end, field, deref, trace_elem,
}
use rust_cc.Value
use rust_cc.Value.Elems.{elem_of, trace_inner-elem_of}
use rust_cc.Value.Owned.{owned, IsLawful, trace-owned}
use rust_cc.Value.Whole.{IsOpen, trace-owned_all}
use rust_cc.Tests.Boxes.{single_box, world}

-- A type that owns two `Cc`s, visits one of them and panics.
abbrev picky : Value
picky = custom (cons (cc 4) (cons (cc 5) nil)) (record { traced = 5 ∷ []; trace_panics = true })

abbrev sample : Value
sample = tuple (
    cons (derived (field true (ref_cell unused (cc 1)) (field false (cc 2) end)))
      (cons (ref_cell shared (vec (cons (cc 3) (cons picky nil)))) (cons picky (cons (cc 6) nil))))

-- The ignored field, the borrowed cell and what is behind the panic are not visited.
sample_elem : elem_of sample ≡ record { traced = 1 ∷ 5 ∷ []; trace_panics = true }
unfolding elem_of Value.Elems.then_elem
sample_elem = refl

sample_owned : owned sample ≡ 1 ∷ 2 ∷ 3 ∷ 4 ∷ 5 ∷ 4 ∷ 5 ∷ 6 ∷ []
unfolding owned
sample_owned = refl

abbrev valued_box : CcBox
valued_box = record single_box { elem = elem_of sample }

abbrev valued : World
valued = record world { heap = write world.heap 2 (some valued_box) }

trace_inner-elem_of_example :
    trace_inner root_tracing 2 valued ≡ Value.trace root_tracing sample valued
unfolding write vtable_of has_allocated_for_metadata
trace_inner-elem_of_example =
    trace_inner-elem_of root_tracing 2 sample valued_box (record { layout_size = 40 }) valued refl
      refl refl

occ-picky : (p : Ptr) → occ p (5 ∷ []) ≤ occ p (4 ∷ 5 ∷ [])
occ-picky p = omega arith

sample-IsLawful : IsLawful sample
unfolding IsLawful owned
sample-IsLawful = ((tt, (tt, tt)), ((tt, (occ-picky, tt)), (occ-picky, (tt, tt))))

trace-owned_example :
    (visited : Elem) × (Value.trace root_tracing sample ≡ trace_elem root_tracing visited)
    × ((p : Ptr) → occ p visited.traced ≤ occ p (owned sample))
trace-owned_example = trace-owned root_tracing sample sample-IsLawful

abbrev whole : Value
whole = vec (
    cons (option_some (deref boxed (cc 1))) (
      cons (derived (field true (ref_cell unused (cc 2)) (field false (plain u32_type) end)))
        (cons (weak (some 9)) (cons (cc 1) nil))))

trace-owned_all_example : Value.trace root_tracing whole ≡ trace_all root_tracing (owned whole)
unfolding IsOpen owned
trace-owned_all_example =
    trace-owned_all root_tracing whole (tt, (((refl, tt), (refl, tt)), (tt, (tt, tt))))
