-- ===== src/Tracing/Counting.antt =====
-- What holds between two traced pointers while src/lib.rs counts.
pub mod Kept
pub mod Edge
pub mod Element
pub mod Round
pub mod Loop
use rust_cc.Prelude.{ℕ, ◌+◌, ◌≡◌, ◌≢◌, Bool, true, false, List, ◌||◌, if◌then◌else◌}
use rust_cc.CounterMarker.{Mark, non_marked_mark, possible_cycles_mark, in_list_mark, in_queue_mark}
use rust_cc.Heap.{Ptr}
use rust_cc.Lists.Chain.{has, ◌∈◌}
use rust_cc.World.{World, Run}
use rust_cc.Tracing.{Snapshot, Leads, bit}
use rust_cc.Tracing.Graph.{count, Reach}

-- The mark of a pointer by the lists that hold it; `busy` is what is being traced.
abbrev pub place : (buffered root non_root queued busy : Bool) → Mark
place buffered root non_root queued busy =
    if buffered
    then possible_cycles_mark
    else if root || non_root
    then in_list_mark
    else if queued || busy
    then in_queue_mark
    else non_marked_mark

-- A box whose mark is `m` and whose tracing counter is `n`, with `seen` pointers to it traced so far
-- and `total` of them in all; `done` says whether it was traced itself.
pub record Fine (m : Mark) (n seen total : ℕ) (buffered root non_root queued busy done : Bool)
    : Type 0 where
  pub marks : m ≡ place buffered root non_root queued busy
  pub tracked : m ≢ non_marked_mark → n ≡ seen
  pub unseen : m ≡ non_marked_mark → seen ≡ 0
  pub short : root ≡ true → seen ≢ total
  pub full : non_root ≡ true → seen ≡ total
  pub settled : (root || non_root) ≡ done
  pub free : busy ≡ true → bit buffered + (bit root + (bit non_root + bit queued)) ≡ 0

-- The value at `p` can be reached from one of `start`.
abbrev pub Origin : World → List Ptr → Ptr → Type 0
Origin env start p = (b : Ptr) × (b ∈ start) × Reach env b p

abbrev pub FineAt : World → Snapshot → (busy done : List Ptr) → (Ptr → ℕ) → Ptr → Type 0
FineAt env s busy done seen p =
    Fine (s.mark p) (s.tracing p) (seen p) (count env p) (has p s.buffered) (has p s.roots)
      (has p s.non_roots) (has p s.queued) (has p busy) (has p done)

pub record IsCounting (env : World) (start : List Ptr) (s : Snapshot) (busy done : List Ptr)
    (seen : Ptr → ℕ) : Type 0 where
  pub fine : (p : Ptr) → FineAt env s busy done seen p
  pub reached : (p : Ptr) → s.mark p ≢ non_marked_mark → Origin env start p

-- The command ends normally, and what holds before holds again; the buffer is as it was.
abbrev pub Counts :
    World → (start buffered busy done : List Ptr) → (Ptr → ℕ) → Run (Unit {0}) → Type 0
Counts env start buffered busy done seen r =
    (t : Snapshot) × Leads env tt t r
    × (t.buffered ≡ buffered)
    × IsCounting env start t busy done seen
