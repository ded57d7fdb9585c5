-- ===== src/Lists/Remark.antt =====
-- `mark_self_and_append` of src/lists.rs with nothing to append.
use mathlib.Core.Option
use rust_cc.Prelude.{
  ℕ, ◌^◌, ◌<◌, ◌≡◌, refl, none, some, Option, List, [], ◌∷◌, if◌then◌else◌, arith, subst, length,
  usize_add,
}
use rust_cc.CounterMarker.{Mark}
use rust_cc.Heap.{Ptr, Heap, ◌>>=◌}
use rust_cc.Lists.Chain.{has, Chain, Chain-SameLinks}
use rust_cc.Lists.PossibleCycles.{PossibleCycles, link_behind, append_first, mark_self_and_append}
use rust_cc.Lists.Marking.{marked, mark_loop-marked}
use rust_cc.Lists.Append.{remarked-links}
use rust_cc.Lists.Buffer.{IsBuffer}
use rust_cc.Lists.LinkedList.{LinkedList}

abbrev pub Marked : Mark → Heap → List Ptr → Option (PossibleCycles × Heap) → Type 0
Marked m h xs r =
    (pc : PossibleCycles) × (g : Heap) × (r ≡ some (pc, g))
    × IsBuffer g pc xs
    × ((q : Ptr) → g q ≡ (if has q xs then Option.map (marked m) (h q) else h q))

-- With an empty list to append, the elements are marked and every other box is as it was.
pub mark_self_and_append-Marked :
    (fuel : ℕ) (m : Mark) (h : Heap) (pc : PossibleCycles) (xs : List Ptr) (to_append : LinkedList)
    (size : ℕ)
    → IsBuffer h pc xs
    → to_append.first ≡ none
    → size ≡ 0
    → length xs < fuel
    → length xs < 2 ^ 64
    → Marked m h xs (mark_self_and_append fuel m to_append size pc h)
unfolding mark_self_and_append append_first link_behind
mark_self_and_append-Marked fuel m h pc [] to_append size is empty zero_size enough fits = (
  record { first = to_append.first; size = usize_add pc.size size },
  h,
  rw is.chain refl,
  record { chain = empty; counted = omega (arith, is.counted, zero_size) },
  λ q. refl,
)
mark_self_and_append-Marked fuel m h pc (x ∷ xs) to_append size is empty zero_size enough fits =
    let e = is.chain.0 in
    let chain = subst (λ (o : Option Ptr). Chain h none o (x ∷ xs)) e is.chain in
    let (g, ran, all) = mark_loop-marked fuel m x h none (some x) (x ∷ xs) chain enough in
    (
      record { first = some x; size = usize_add pc.size size },
      g,
      rw e (rw (ran, ◌>>=◌) (rw empty refl)),
      record {
        chain =
            Chain-SameLinks h g none (some x) (x ∷ xs) (remarked-links m h g (x ∷ xs) all) chain;
        counted = omega (arith, is.counted, zero_size, fits);
      },
      all,
    )
