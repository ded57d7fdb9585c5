-- ===== src/Cc/Unwrap.antt =====
-- `Cc::try_unwrap` of src/cc.rs.
use mathlib.Core.Option
use rust_cc.Prelude.{
  ℕ, ◌^◌, ◌<◌, ◌≡◌, ◌≢◌, refl, Bool, true, false, not, ◌||◌, Option, none, some, List, ◌==◌,
  if◌then◌else◌, arith, ◌∙◌, ap, length, eq→==, ne→==,
}
use rust_cc.CounterMarker.{counter}
use rust_cc.Heap.{Ptr, CcBox, Elem, Heap, BoxedMetadata, write}
use rust_cc.Lists.Chain.{erase, unlinked, not-mem-erase_self}
use rust_cc.World.{World, Cmd, ok, pure, ◌>>=◌}
use rust_cc.Cc.{strong_count, unwrap_box, try_unwrap}
use rust_cc.Cc.Freed.{
  Release, Release-alike, layout-at, drop_metadata-at, cc_dealloc-at, remove_from_list-kept, Freed,
}
use rust_cc.Buffered.{IsBuffered}
use rust_cc.Buffered.Change.{freed-IsBuffered}
use rust_cc.Buffered.Marker.{as_ref-at}

strong_count-at :
    (w : World) (p : Ptr) (b : CcBox)
    → w.heap p ≡ some b
    → strong_count p w ≡ ok (counter b.counter_marker) w
unfolding strong_count
strong_count-at w p b at = rw (as_ref-at w.heap p b at) refl

-- `try_unwrap` hands the `Cc` back and changes nothing while other pointers are left.
pub try_unwrap-shared :
    (w : World) (p : Ptr) (b : CcBox)
    → w.heap p ≡ some b
    → counter b.counter_marker ≢ 1
    → try_unwrap p w ≡ ok none w
unfolding try_unwrap
try_unwrap-shared w p b at many =
    let shared : (counter b.counter_marker == 1) ≡ false =
      ne→== (counter b.counter_marker) 1 many in
    rw (strong_count-at w p b at) (rw shared refl)

unwrap_box-Freed :
    (w : World) (xs : List Ptr) (p : Ptr) (b : CcBox) (size : ℕ)
    (behind : Ptr → Option BoxedMetadata)
    → IsBuffered w.heap w.possible_cycles xs
    → w.cycles_accessible ≡ true
    → w.heap p ≡ some b
    → Release w.metadata b size behind
    → length xs < 2 ^ 64
    → Freed b.elem w (erase p xs) p size behind (unwrap_box p w)
unfolding unwrap_box write
unwrap_box-Freed w xs p b size behind is reach at release fits =
    let (pc, g, d, ran, is', atd, alloc, metad, elem, rest) =
      remove_from_list-kept w xs p b is reach at fits in
    let u : World = record w { heap = g; possible_cycles = pc } in
    let release2 = Release-alike b d alloc metad release in
    let gone : Heap = write g p none in
    (
      pc,
      gone,
      rw ran (
          rw (as_ref-at g p d atd) (
            rw (layout-at u p d atd release2) (
              rw (drop_metadata-at u p d atd release2) (
                rw (cc_dealloc-at (record u { metadata = behind }) p d size atd) (rw elem refl))))),
      freed-IsBuffered g gone pc (erase p xs) p is'
          (not-mem-erase_self w.heap p none w.possible_cycles.first xs is.buffer.chain)
          (ground arith) (λ q ne. ground arith),
      ground arith,
      λ q ne. let other : gone q ≡ g q = ground arith in ap (Option.map unlinked) other ∙ rest q ne,
    )

chosen :
    (one alive busy : Bool) (refuse unwrap : Cmd (Option Elem))
    → one ≡ true
    → alive ≡ true
    → busy ≡ false
    → (if not one then refuse else if not alive then refuse else if busy then refuse else unwrap)
      ≡ unwrap
chosen one alive busy refuse unwrap e f g = rw (e, f, g) refl

-- Outside of collections, finalizers and destructors, while the state and the buffer can be reached,
-- `try_unwrap` on the only pointer to a box moves the value out and frees the box wherever it was in
-- the buffer: its bytes are no longer counted, it is in no list, and the invariant holds. If it had
-- metadata, that goes with it where no weak pointer is left, and is marked as inaccessible
-- otherwise. All other boxes, but for their links, and all other metadata stay as they were.
pub try_unwrap-Freed :
    (w : World) (xs : List Ptr) (p : Ptr) (b : CcBox) (size : ℕ)
    (behind : Ptr → Option BoxedMetadata)
    → IsBuffered w.heap w.possible_cycles xs
    → w.state_accessible ≡ true
    → (w.state.collecting || w.state.dropping || w.state.finalizing) ≡ false
    → w.cycles_accessible ≡ true
    → w.heap p ≡ some b
    → counter b.counter_marker ≡ 1
    → Release w.metadata b size behind
    → length xs < 2 ^ 64
    → Freed (some b.elem) w (erase p xs) p size behind (try_unwrap p w)
unfolding try_unwrap
try_unwrap-Freed w xs p b size behind is alive idle reach at one release fits =
    let (pc, g, ran, is', gone, rest) =
      unwrap_box-Freed w xs p b size behind is reach at release fits in
    let last : (counter b.counter_marker == 1) ≡ true = eq→== (counter b.counter_marker) 1 one in
    let unwrap : Cmd (Option Elem) = (do t ← unwrap_box p; pure (some t)) in
    let passed =
      chosen (counter b.counter_marker == 1) w.state_accessible
        (w.state.collecting || w.state.dropping || w.state.finalizing) (pure none) unwrap last alive
        idle in
    (
      pc,
      g,
      rw (strong_count-at w p b at) (ap (λ (m : Cmd (Option Elem)). m w) passed ∙ rw ran refl),
      is',
      gone,
      rest,
    )
