-- ===== src/Lists/Append.antt =====
-- `mark_self_and_append` of src/lists.rs, on the sequences that the lists stand for.
use mathlib.Core.Option
use rust_cc.Prelude.{
  ℕ, ◌+◌, ◌^◌, ◌<◌, ◌≡◌, ◌≢◌, refl, Bool, true, false, Option, none, some, List, [], ◌∷◌, ◌++◌,
  ◌==◌, if◌then◌else◌, arith, eq→==, ◌∙◌, ap, sym, subst, length, length-append, usize_add,
}
use rust_cc.CounterMarker.{Mark}
use rust_cc.Heap.{Ptr, CcBox, Heap, write, as_ref, store, set_next, set_prev, ◌>>=◌}
use rust_cc.Lists.Chain.{
  Chain, ◌∈◌, ◌∉◌, has, unlinked, Chain-at, Chain-frame, SameLinks, links, Chain-SameLinks,
}
use rust_cc.Lists.PossibleCycles.{PossibleCycles, link_behind, append_first, mark_self_and_append}
use rust_cc.Lists.Queue.{has-append}
use rust_cc.Lists.Marking.{last_from, marked, mark_loop-marked}
use rust_cc.Lists.Buffer.{IsBuffer}
use rust_cc.Lists.LinkedList.{LinkedList}

last_from-mem : (x : Ptr) (xs : List Ptr) → last_from x xs ∈ x ∷ xs
last_from-mem x [] = ground (arith, eq→== x x refl)
last_from-mem x (y ∷ ys) = ground (arith, last_from-mem y ys)

module _ (g k : Heap) (l y : Ptr) (ys : List Ptr) (d : CcBox)
    (atl : k l ≡ some (record d { next = some y })) (was : g l ≡ some d)
    (same : (q : Ptr) → q ≢ l → q ≢ y → k q ≡ g q)
    (behind : Chain k (some l) (some y) (y ∷ ys)) where
  Chain-append :
      (before first : Option Ptr) (x : Ptr) (xs : List Ptr)
      → last_from x xs ≡ l
      → ((q : Ptr) → q ∈ x ∷ xs → q ∉ y ∷ ys)
      → Chain g before first (x ∷ xs)
      → Chain k before first ((x ∷ xs) ++ (y ∷ ys))
  Chain-append before first x [] e apart (s, o, b, at, pre, rest) =
      let b-d : b ≡ d = ground (arith, ap g e) in
      (
        s,
        apart x (ground (arith, eq→== x x refl)),
        record d { next = some y },
        ap k e ∙ atl,
        sym (ap (λ (c : CcBox). c.prev) b-d) ∙ pre,
        rw e behind,
      )
  Chain-append before first x (z ∷ zs) e apart (s, o, b, at, pre, rest) =
      let other : x ≢ l =
        λ h. ground (arith, last_from-mem z zs, ap (λ (q : Ptr). has q (z ∷ zs)) (h ∙ sym e)) in
      let out = apart x (ground (arith, eq→== x x refl)) in
      (
        s,
        has-append x (z ∷ zs) (y ∷ ys) ∙ ground (arith, out),
        b,
        same x other (λ h. ground (arith, eq→== x y h)) ∙ at,
        pre,
        Chain-append (some x) b.next z zs e (λ q i. apart q (ground arith)) rest,
      )

append_nil : (xs : List Ptr) → xs ++ [] ≡ xs
append_nil [] = refl
append_nil (x ∷ xs) = ap (λ (r : List Ptr). x ∷ r) (append_nil xs)

-- Two lists without common elements are one behind the other, and nothing but links has changed.
abbrev pub Joined :
    Heap → Ptr → List Ptr → Option Ptr → List Ptr → Option (Unit {0} × Heap) → Type 0
Joined g x xs second ys r =
    (k : Heap) × (r ≡ some (tt, k))
    × Chain k none (some x) ((x ∷ xs) ++ ys)
    × ((q : Ptr) → Option.map unlinked (k q) ≡ Option.map unlinked (g q))

link_run :
    (g : Heap) (l y : Ptr) (d dy : CcBox)
    → g l ≡ some d
    → g y ≡ some dy
    → (y == l) ≡ false
    → link_behind l (some y) g
      ≡ some (
        tt,
        write
            (write g l (some (record d { next = some y })))
            y
            (some (record dy { prev = some l })),
      )
unfolding link_behind set_next set_prev as_ref store write
link_run g l y d dy was aty ne = ground arith

link_behind-Joined :
    (g : Heap) (x : Ptr) (xs : List Ptr) (second : Option Ptr) (ys : List Ptr)
    → Chain g none (some x) (x ∷ xs)
    → Chain g none second ys
    → ((q : Ptr) → q ∈ x ∷ xs → q ∉ ys)
    → Joined g x xs second ys (link_behind (last_from x xs) second g)
unfolding link_behind write
link_behind-Joined g x xs second [] c e apart = (
  g,
  rw e refl,
  subst (λ (zs : List Ptr). Chain g none (some x) zs) (sym (append_nil (x ∷ xs))) c,
  λ q. refl,
)
link_behind-Joined g x xs second (y ∷ ys) c (e, o, dy, aty, pre, rest) apart =
    let l = last_from x xs in
    let i = last_from-mem x xs in
    let (d, was) = Chain-at g l none (some x) (x ∷ xs) c i in
    let out = apart l i in
    let k : Heap =
      write (write g l (some (record d { next = some y }))) y
        (some (record dy { prev = some l })) in
    (
      k,
      rw e (link_run g l y d dy was aty (ground arith)),
      Chain-append g k l y ys d (ground arith) was (λ q n m. ground arith)
          (
            refl,
            o,
            record dy { prev = some l },
            ground arith,
            refl,
            Chain-frame (some y) dy.next ys (λ q j. ground arith) rest,
          )
          none (some x) x xs refl apart c,
      λ q. ground arith,
    )

pub remarked-links :
    (m : Mark) (h g : Heap) (xs : List Ptr)
    → ((q : Ptr) → g q ≡ (if has q xs then Option.map (marked m) (h q) else h q))
    → SameLinks h g
remarked-links m h g xs all q = ap (λ o. Option.map links o) (all q) ∙ go (has q xs) (h q)
  where
    go :
        (b : Bool) (o : Option CcBox)
        → Option.map links (if b then Option.map (marked m) o else o) ≡ Option.map links o
    go true none = refl
    go true (some c) = refl
    go false o = refl

-- The boxes `xs` were marked with `m`, the list `ys` stands behind them, and nothing else but links
-- has changed.
abbrev pub Appended : Mark → Heap → List Ptr → List Ptr → Option (PossibleCycles × Heap) → Type 0
Appended m h xs ys r =
    (pc : PossibleCycles) × (g : Heap) × (r ≡ some (pc, g))
    × IsBuffer g pc (xs ++ ys)
    × ((q : Ptr)
        → Option.map unlinked (g q)
          ≡ Option.map unlinked (if has q xs then Option.map (marked m) (h q) else h q))

append_first-none :
    (fuel : ℕ) (m : Mark) (to_append : LinkedList) (h : Heap)
    → append_first fuel m none to_append h ≡ some (to_append.first, h)
unfolding append_first
append_first-none fuel m to_append h = refl

append_first-run :
    (fuel : ℕ) (m : Mark) (h : Heap) (x : Ptr) (xs : List Ptr) (to_append : LinkedList)
    (ys : List Ptr)
    → Chain h none (some x) (x ∷ xs)
    → Chain h none to_append.first ys
    → ((q : Ptr) → q ∈ x ∷ xs → q ∉ ys)
    → length (x ∷ xs) < fuel
    → (g : Heap) × (append_first fuel m (some x) to_append h ≡ some (some x, g))
      × Chain g none (some x) ((x ∷ xs) ++ ys)
      × ((q : Ptr)
          → Option.map unlinked (g q)
            ≡ Option.map unlinked (if has q (x ∷ xs) then Option.map (marked m) (h q) else h q))
unfolding append_first
append_first-run fuel m h x xs to_append ys c c' apart enough =
    let (g, ran, all) = mark_loop-marked fuel m x h none (some x) (x ∷ xs) c enough in
    let same = remarked-links m h g (x ∷ xs) all in
    let (k, linked, chain, pay) =
      link_behind-Joined g x xs to_append.first ys
        (Chain-SameLinks h g none (some x) (x ∷ xs) same c)
        (Chain-SameLinks h g none to_append.first ys same c') apart in
    (
      k,
      rw (ran, ◌>>=◌) (rw (linked, ◌>>=◌) refl),
      chain,
      λ q. pay q ∙ ap (λ o. Option.map unlinked o) (all q),
    )

-- Appending a list without common elements to the buffer, with more fuel than elements, ends
-- without a fault: the old elements have the mark and a tracing counter of zero, the others stand
-- behind them, and the size counts both; nothing else but links has changed.
pub mark_self_and_append-Appended :
    (fuel : ℕ) (m : Mark) (h : Heap) (pc : PossibleCycles) (xs : List Ptr) (to_append : LinkedList)
    (size : ℕ) (ys : List Ptr)
    → IsBuffer h pc xs
    → Chain h none to_append.first ys
    → size ≡ length ys
    → ((q : Ptr) → q ∈ xs → q ∉ ys)
    → length xs < fuel
    → length xs + length ys < 2 ^ 64
    → Appended m h xs ys (mark_self_and_append fuel m to_append size pc h)
unfolding mark_self_and_append
mark_self_and_append-Appended fuel m h pc [] to_append size ys is c counted apart enough fits =
    let first_is : append_first fuel m pc.first to_append h ≡ some (to_append.first, h) =
      ap (λ (o : Option Ptr). append_first fuel m o to_append h) is.chain
      ∙ append_first-none fuel m to_append h in
    (
      record { first = to_append.first; size = usize_add pc.size size },
      h,
      rw (first_is, ◌>>=◌) refl,
      record { chain = c; counted = omega (arith, is.counted, counted) },
      λ q. refl,
    )
mark_self_and_append-Appended fuel m h pc (x ∷ xs) to_append size ys is c counted apart enough
      fits =
    let e = is.chain.0 in
    let (g, ran, chain, pay) =
      append_first-run fuel m h x xs to_append ys
        (subst (λ (o : Option Ptr). Chain h none o (x ∷ xs)) e is.chain) c apart enough in
    (
      record { first = some x; size = usize_add pc.size size },
      g,
      rw e (rw (ran, ◌>>=◌) refl),
      record {
        chain = chain;
        counted = omega (arith, is.counted, counted, length-append (x ∷ xs) ys);
      },
      pay,
    )
