-- ===== src/Tracing/Rooting.antt =====
-- What holds between two traced pointers while src/lib.rs traces from the roots.
pub mod Edge
pub mod Element
pub mod Loop
use rust_cc.Prelude.{ℕ, ◌+◌, ◌≡◌, ◌≢◌, Bool, true, false, List, ◌||◌, if◌then◌else◌}
use rust_cc.CounterMarker.{Mark, non_marked_mark, in_list_mark, in_queue_mark}
use rust_cc.Heap.{Ptr}
use rust_cc.Lists.Chain.{has, ◌∈◌, ◌∉◌}
use rust_cc.World.{World, Run}
use rust_cc.Tracing.{Snapshot, Leads, bit}
use rust_cc.Tracing.Graph.{count, edges, inbound, Distinct, Reach}

-- A box whose mark is `m` and whose tracing counter is `n`, with `seen` of the `total` pointers to it
-- counted. `busy` is what is being traced, `gone` was traced from the roots, and `done` was counted.
pub record Placed (m : Mark) (n seen total : ℕ)
    (buffered root non_root queued busy gone done : Bool) : Type 0 where
  pub marks : m ≡ (
      if root || non_root then in_list_mark else if queued then in_queue_mark else non_marked_mark)
  pub empty : buffered ≡ false
  pub tracked : done ≡ true → n ≡ seen
  pub short : root ≡ true → seen ≢ total
  pub full : non_root ≡ true → seen ≡ total
  pub settled : (root || (non_root || (queued || (busy || gone)))) ≡ done
  pub out : (busy || gone) ≡ true → bit root + (bit non_root + bit queued) ≡ 0

abbrev pub PlacedAt : World → List Ptr → Snapshot → (busy gone : List Ptr) → Ptr → Type 0
PlacedAt env done s busy gone p =
    Placed (s.mark p) (s.tracing p) (inbound env p done) (count env p) (has p s.buffered)
      (has p s.roots) (has p s.non_roots) (has p s.queued) (has p busy) (has p gone) (has p done)

-- The value at `p` can be reached from one of `done` to which there is a pointer from elsewhere.
abbrev pub IsHeld : World → List Ptr → Ptr → Type 0
IsHeld env done p = (r : Ptr) × (r ∈ done) × (inbound env r done ≢ count env r) × Reach env r p

pub record IsRooting (env : World) (done : List Ptr) (s : Snapshot) (busy gone : List Ptr)
    : Type 0 where
  pub placed : (p : Ptr) → PlacedAt env done s busy gone p
  pub held : (p : Ptr) → p ∈ done → p ∉ s.non_roots → IsHeld env done p
  pub spread : (p e : Ptr) → p ∈ gone → e ∈ edges env p → e ∉ s.non_roots

-- The command ends normally, what holds before holds again, and `found` are no garbage.
abbrev pub Roots : World → (done busy gone found : List Ptr) → Snapshot → Run (Unit {0}) → Type 0
Roots env done busy gone found s r =
    (t : Snapshot) × Leads env tt t r
    × IsRooting env done t busy gone
    × (t.roots ≡ s.roots)
    × ((q : Ptr) → q ∉ s.non_roots → q ∉ t.non_roots)
    × ((q : Ptr) → q ∈ found → q ∉ t.non_roots)
