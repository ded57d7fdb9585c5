-- ===== src/Lib.antt =====
-- A model of rust-cc, a cycle collector with reference-counted pointers for Rust.
--
-- A `Cc` points to a box that holds the value, a pair of links, a counter marker (mark, flags,
-- reference counter, tracing counter in two 16-bit words) and either the vtable or the address of
-- boxed metadata with the weak counter. A box whose pointer is dropped while others are left comes
-- into the list `POSSIBLE_CYCLES`; `clone` and `upgrade` take it out. A collection takes the boxes off
-- that list, traces from them while it counts how many of each box's pointers it met, separates those
-- that have pointers from elsewhere and all that these reach, and drops the rest.
--
-- Which file models which part (paths from the root of the repository; a directory of the same name
-- holds the proofs):
--   CounterMarker       src/counter_marker.rs: the packed words; View is their abstract contents
--   WeakCounterMarker   src/weak/weak_counter_marker.rs
--   Heap                src/cc.rs: CcBox, Metadata, VTable, BoxedMetadata at addresses
--   Lists               src/lists.rs: LinkedList, PossibleCycles, LinkedQueue; Chain and Line say
--                       which sequence of addresses a list stands for
--   State               src/state.rs: the struct State; World.Queries has the public functions
--   World               all state together, commands with panics, and the guards of
--                       replace_state_field! in src/state.rs
--   CcBox               src/cc.rs (impl CcBox, add_to_list, remove_from_list), src/utils.rs
--   Buffered            the invariant that ties the marks to POSSIBLE_CYCLES
--   Cc                  src/cc.rs: new, Clone, Drop, try_unwrap, finalize_again, mark_alive
--   Weak                src/weak/mod.rs: Weak, downgrade, new_cyclic
--   Collector           src/lib.rs and CcBox::trace of src/cc.rs
--   Tracing             the two tracing phases of src/lib.rs: the lists, marks and counters as a
--                       snapshot, and the graph of the objects
--   Sweep               finalizing, dropping and freeing the garbage in __collect of src/lib.rs, and
--                       the rounds of collect
--   Config              src/config.rs
--   Trigger             collections that start by themselves: trigger_collection of src/lib.rs, the
--                       access to the configuration, and Cc::new of src/cc.rs with them; collect_cycles
--   TraceImpls          src/trace.rs: the implementations of Trace and Finalize for standard types, each
--                       by what the implementations of its parameters are
--   Value               values as trees of such types, with Cc, Weak, Cleaner, derived types and types
--                       of the client's own; Value.Elems says what of them the collector sees
--   Derive              derive/src/lib.rs: the scans of attributes and what is generated
--   Prelude, Tests      shared names and lemmas on bits; the theorems at concrete inputs
--
-- Addresses are numbers, and a heap gives the box at an address. Reading an address without a box,
-- or the wrong member of the metadata union, is a fault of the model, where the source has undefined
-- behaviour; a command otherwise ends normally or unwinds with a panic and the state at that point.
-- A method on cells returns the new struct. Machine words wrap at 2 ^ 16 and 2 ^ 64. The features
-- finalization, weak-ptrs and auto-collect are on, debug assertions are off.
--
-- What the client supplies is a parameter: finalizers and destructors are arbitrary commands
-- (Client); the value in a box is an Elem, which lists the pointers that its Trace implementation
-- visits up to the first panic. That a value made of the types of src/trace.rs is such an Elem is a
-- theorem of Value.Elems; which borrows of a RefCell are alive is part of the value. What dropping
-- the garbage may do in a collection is a hypothesis on the client, DropsQuietly in Sweep; Sweep.Owning has the
-- glue that drops the Ccs of each value. The derive
-- macro takes syn and synstructure as parameters, with what they document as the laws
-- IsSynstructure. The address that the allocator returns is an argument of the operations that
-- allocate. The tests of src/config.rs on f64 values are parameters, too.
--
-- Loops of the source take fuel and give `none` or `out_of_fuel` when it is used up. For the loops of
-- the lists more fuel than elements is enough; for those of Config::adjust 64 is, the number of
-- bits of the threshold. The collector's loops take one fuel for all; more than the
-- number of boxes of the heap is enough, since no box is taken twice in a phase.
--
-- Not modelled: how finalization runs through a whole value, since a finalizer may change what the
-- next one of the value finds in a RefCell (each implementation of Finalize is modelled by itself);
-- the actions of src/cleaners, which stands on a third-party slot map (only that a Cleaner is not
-- traced); the thread-local storage but for whether it can be reached; formatting and comparison;
-- the tokens that the derive macros print, but for the parts they are made of; and debug assertions.
mod Prelude
pub mod CounterMarker
pub mod WeakCounterMarker
pub mod Heap
pub mod Lists
pub mod State
pub mod World
pub mod CcBox
pub mod Buffered
pub mod Cc
pub mod Weak
pub mod Collector
pub mod Tracing
pub mod Sweep
pub mod Trigger
pub mod Config
pub mod TraceImpls
pub mod Value
pub mod Derive
pub mod Tests
