-- ===== src/Tracing.antt =====
-- The state of a running collection, in src/lib.rs, as the sequences that its four lists stand for
-- and the marks and tracing counters of the boxes.
pub mod Moves
pub mod Adds
pub mod Takes
pub mod Marks
pub mod Reads
pub mod Graph
pub mod Finite
pub mod Layout
pub mod Counting
pub mod Rooting
pub mod Garbage
pub mod Start
pub mod Ready
use rust_cc.Prelude.{ℕ, ◌+◌, ◌≤◌, ◌≡◌, Bool, true, false, none, some, List, if◌then◌else◌}
use rust_cc.CounterMarker.{Mark}
use rust_cc.CounterMarker.View.{IsWords, view}
use rust_cc.Heap.{Ptr, CcBox}
use rust_cc.Lists.Chain.{has, Chain}
use rust_cc.Lists.Buffer.{IsBuffer}
use rust_cc.Lists.Queue.{IsQueue}
use rust_cc.World.{World, Run, ok, Cmd}

pub record Snapshot : Type 0 where
  pub buffered : List Ptr
  pub roots : List Ptr
  pub non_roots : List Ptr
  pub queued : List Ptr
  pub mark : Ptr → Mark
  pub tracing : Ptr → ℕ

-- `b` is the box that was `before` at the start, with the mark and the tracing counter of `s`.
pub record Looks (s : Snapshot) (p : Ptr) (before b : CcBox) : Type 0 where
  pub words : IsWords b.counter_marker
  pub shown :
      view b.counter_marker
      ≡ record (view before.counter_marker) { mark = s.mark p; tracing = s.tracing p }
  pub elem : b.elem ≡ before.elem
  pub metadata : b.metadata ≡ before.metadata

abbrev pub bit : Bool → ℕ
bit b = if b then 1 else 0

-- How many of the four lists hold `p`.
abbrev pub copies : Snapshot → Ptr → ℕ
copies s p =
    bit (has p s.buffered)
    + (bit (has p s.roots) + (bit (has p s.non_roots) + bit (has p s.queued)))

-- In a collection that started at `env`, the state `w` looks like `s`.
pub record IsSnapshot (env w : World) (s : Snapshot) : Type 0 where
  pub framed :
      record w { heap = env.heap; possible_cycles = env.possible_cycles; locals = env.locals } ≡ env
  pub buffer : IsBuffer w.heap w.possible_cycles s.buffered
  pub root_chain : Chain w.heap none w.locals.root_list.first s.roots
  pub non_root_chain : Chain w.heap none w.locals.non_root_list.first s.non_roots
  pub queue : IsQueue w.heap w.locals.queue s.queued
  pub apart : (p : Ptr) → copies s p ≤ 1
  pub boxes :
      (p : Ptr) (before : CcBox)
      → env.heap p ≡ some before
      → (b : CcBox) × (w.heap p ≡ some b) × Looks s p before b
  pub gone : (p : Ptr) → env.heap p ≡ none → w.heap p ≡ none
  pub loose :
      (p : Ptr) (b : CcBox) → w.heap p ≡ some b → copies s p ≡ 0 → (b.next ≡ none) × (b.prev ≡ none)

-- The command ends normally in a state that looks like `s`.
abbrev pub Leads : {A : Type 0} → World → A → Snapshot → Run A → Type 0
Leads env a s r = (v : World) × (r ≡ ok a v) × IsSnapshot env v s
