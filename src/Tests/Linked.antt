-- ===== src/Tests/Linked.antt =====
-- The lists at a heap of three boxes, two of which are linked.
use mathlib.Core.Option
use rust_cc.Prelude.{◌≡◌, refl, false, none, some, Option, [], ◌∷◌, ◌==◌, if◌then◌else◌, arith}
use rust_cc.CounterMarker.{new_with_counter_to_one, possible_cycles_mark}
use rust_cc.Lists.Append.{Appended, mark_self_and_append-Appended}
use rust_cc.Heap.{Ptr, CcBox, Heap, vtable_member}
use rust_cc.Lists.Chain.{Chain, has, IsLoose}
use rust_cc.Lists.LinkedList.{remove, drop_loop}
use rust_cc.Lists.LinkedList.Remove.{Removed, remove-Removed}
use rust_cc.Lists.LinkedList.First.{taken, drop_loop-taken}
use rust_cc.Lists.PossibleCycles.{PossibleCycles}
use rust_cc.Lists.PossibleCycles
use rust_cc.Lists.Buffer.{IsBuffer}
use rust_cc.Lists.LinkedQueue.{LinkedQueue}
use rust_cc.Lists.Queue.{IsQueue}

abbrev box : Option Ptr → Option Ptr → CcBox
box n p = record {
  next = n;
  prev = p;
  metadata = vtable_member (record { layout_size = 40 });
  counter_marker = new_with_counter_to_one false;
  elem = record { traced = []; trace_panics = false };
}

-- 1 and 2 are linked both ways, 3 is in no list.
abbrev linked : Heap
linked q =
    if q == 1
    then some (box (some 2) none)
    else if q == 2
    then some (box none (some 1))
    else if q == 3
    then some (box none none)
    else none

linked-Chain : Chain linked none (some 1) (1 ∷ 2 ∷ [])
linked-Chain =
    (refl, refl, box (some 2) none, refl, refl, (refl, refl, box none (some 1), refl, refl, refl))

box_3-IsLoose : IsLoose linked 3
box_3-IsLoose = (box none none, refl, refl, refl)

remove-Removed_example : Removed linked 2 (1 ∷ 2 ∷ []) (remove 2 (record { first = some 1 }) linked)
remove-Removed_example = remove-Removed linked 2 (some 1) (1 ∷ 2 ∷ []) linked-Chain refl

drop_loop-taken_example :
    (g : Heap) × (drop_loop 3 (record { first = some 1 }) linked
      ≡ some (record { first = none }, g))
    × ((q : Ptr) → g q ≡ (if has q (1 ∷ 2 ∷ []) then Option.map taken (linked q) else linked q))
drop_loop-taken_example = drop_loop-taken 3 linked (some 1) (1 ∷ 2 ∷ []) linked-Chain (omega arith)

abbrev pair : PossibleCycles
pair = record { first = some 1; size = 2 }

pair-IsBuffer : IsBuffer linked pair (1 ∷ 2 ∷ [])
pair-IsBuffer = record { chain = linked-Chain; counted = refl }

-- 1 and 2 are linked forward only.
abbrev queued : Heap
queued q =
    if q == 1
    then some (box (some 2) none)
    else if q == 2
    then some (box none none)
    else if q == 3
    then some (box none none)
    else none

abbrev two_queued : LinkedQueue
two_queued = record { first = some 1; last = some 2 }

two_queued-IsQueue : IsQueue queued two_queued (1 ∷ 2 ∷ [])
two_queued-IsQueue = record {
  line = (refl, refl, box (some 2) none, refl, refl, (refl, refl, box none none, refl, refl, refl));
  end = refl;
}

mark_self_and_append-Appended_example : Appended possible_cycles_mark linked (1 ∷ 2 ∷ []) (3 ∷ []) (
    PossibleCycles.mark_self_and_append 3 possible_cycles_mark
      (record { first = some 3 })
      1
      pair
      linked)
mark_self_and_append-Appended_example =
    mark_self_and_append-Appended 3 possible_cycles_mark linked pair (1 ∷ 2 ∷ [])
      (record { first = some 3 }) 1 (3 ∷ []) pair-IsBuffer
      (refl, refl, box none none, refl, refl, refl) refl (λ q i. ground arith) (omega arith)
      (omega arith)
