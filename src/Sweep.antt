-- ===== src/Sweep.antt =====
-- What a collection of src/lib.rs does with the list of garbage: finalizing, dropping, freeing.
pub mod Drops
pub mod Frees
pub mod Dealloc
pub mod Finalize
pub mod Returned
pub mod PutBack
pub mod Again
pub mod Same
pub mod Refill
pub mod Collect
pub mod Passes
pub mod Rounds
pub mod Whole
pub mod Owning
use rust_cc.Prelude.{◌≡◌, refl, ◌∙◌, Bool, true, Option, none, some, List, [], ◌∷◌, sym, ap}
use rust_cc.CounterMarker.{is_in_list, has_allocated_for_metadata}
use rust_cc.CounterMarker.View.{IsWords}
use rust_cc.Heap.{Ptr, CcBox, Heap, BoxedMetadata}
use rust_cc.World.{World, Client, ok}
use rust_cc.Tracing.Graph.{HasLayout}
use rust_cc.CounterMarker.{set_dropped}
use rust_cc.State
use rust_cc.Buffered.Marker.{remarked}
use rust_cc.Tracing.{Snapshot, IsSnapshot}
use rust_cc.Tracing.Garbage.{IsTraced}

-- `d` is `b` but for its links and its counters, and a box in a list of the collector stays there.
pub record SameBox (b d : CcBox) : Type 0 where
  pub listed :
      IsWords b.counter_marker
      → is_in_list b.counter_marker ≡ true
      → (is_in_list d.counter_marker ≡ true) × (d.next ≡ b.next)
  pub metadata : d.metadata ≡ b.metadata
  pub elem : d.elem ≡ b.elem
  pub marker :
      IsWords b.counter_marker
      → IsWords d.counter_marker
        × (has_allocated_for_metadata d.counter_marker
            ≡ has_allocated_for_metadata b.counter_marker)

-- No box and no metadata goes, and the lists of the collection stay linked.
pub record Spares (w v : World) : Type 0 where
  pub locals : v.locals ≡ w.locals
  pub metadata :
      (q : Ptr) (m : BoxedMetadata)
      → w.metadata q ≡ some m
      → (n : BoxedMetadata) × (v.metadata q ≡ some n)
  pub boxes :
      (q : Ptr) (b : CcBox) → w.heap q ≡ some b → (d : CcBox) × (v.heap q ≡ some d) × SameBox b d

-- The boxes of `env` are still there.
abbrev pub Keeps : World → World → Type 0
Keeps env u =
    (q : Ptr) (b : CcBox)
    → env.heap q ≡ some b
    → (d : CcBox) × (u.heap q ≡ some d) × (d.elem ≡ b.elem)

-- The box `b` at `p` with the flag of a value that is dropped.
abbrev pub flagged : World → Ptr → CcBox → World
flagged w p b = record w { heap = remarked w.heap p b (set_dropped true b.counter_marker) }

-- Dropping the values at these addresses, one after the other, ends normally and frees nothing.
abbrev pub DropsQuietly : Client → List Ptr → World → Type 0
DropsQuietly client [] u = Unit
DropsQuietly client (p ∷ ps) u =
    (b : CcBox)
    → u.heap p ≡ some b
    → (v : World) × (client.drop_elem p (flagged u p b) ≡ ok tt v)
      × Spares (flagged u p b) v
      × DropsQuietly client ps v

-- The garbage of a collection from `start` is dropped quietly, in whatever state and order the
-- tracing phases leave it.
abbrev pub IsQuiet : World → List Ptr → Client → Type 0
IsQuiet env start client =
    (done : List Ptr) (u : World) (s : Snapshot)
    → IsSnapshot env u s
    → IsTraced env start done s
    → DropsQuietly client s.non_roots (record u { state = State.set_dropping true u.state })

-- From `first` the successors are `xs`, in a list of the collector.
abbrev pub Nexts : Heap → Option Ptr → List Ptr → Type 0
Nexts h first [] = first ≡ none
Nexts h first (p ∷ xs) =
    (first ≡ some p)
    × (b : CcBox) × (h p ≡ some b)
    × IsWords b.counter_marker
    × (is_in_list b.counter_marker ≡ true)
    × Nexts h b.next xs

-- The box at `p` has the metadata that it had in `env`, and its layout can be read.
abbrev pub Readable : World → World → Ptr → Type 0
Readable env u p =
    (before : CcBox) × (b : CcBox) × (env.heap p ≡ some before)
    × (u.heap p ≡ some b)
    × (b.metadata ≡ before.metadata)
    × IsWords b.counter_marker
    × HasLayout u b

module _ {w v : World} (k : Spares w v) where
  pub Nexts-Spares :
      (first : Option Ptr) (xs : List Ptr) → Nexts w.heap first xs → Nexts v.heap first xs
  Nexts-Spares first [] e = e
  Nexts-Spares first (p ∷ xs) (e, b, at, words, inside, rest) =
      let (d, atd, same) = k.boxes p b at in
      let (still, next) = same.listed words inside in
      (e, d, atd, (same.marker words).0, still, rw next (Nexts-Spares b.next xs rest))
