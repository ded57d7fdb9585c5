-- ===== src/Lists/Chain.antt =====
-- What a linked list stands for: the addresses on it, in order.
use rust_cc.Prelude.{
  ◌≡◌, ◌≢◌, refl, Bool, true, false, Option, none, some, List, [], ◌∷◌, ◌==◌, ◌||◌, if◌then◌else◌,
  arith, Bool-cases, inl, inr, ==→eq, ap, ◌∙◌,
}
use mathlib.Core.Option
use rust_cc.Heap.{Ptr, CcBox, Heap}

abbrev pub has : Ptr → List Ptr → Bool
has p [] = false
has p (x ∷ xs) = (p == x) || has p xs

infix 40 ◌∈◌ ◌∉◌
abbrev pub ◌∈◌ : Ptr → List Ptr → Type 0
p ∈ xs = has p xs ≡ true

abbrev pub ◌∉◌ : Ptr → List Ptr → Type 0
p ∉ xs = has p xs ≡ false

-- From `first` the boxes lead through the distinct addresses `xs` and end; the predecessor of the
-- first one is `before`, and each other one has the one in front of it as predecessor.
abbrev pub Chain : Heap → Option Ptr → Option Ptr → List Ptr → Type 0
Chain h before first [] = first ≡ none
Chain h before first (p ∷ xs) =
    (first ≡ some p)
    × (p ∉ xs)
    × (b : CcBox) × (h p ≡ some b)
    × (b.prev ≡ before)
    × Chain h (some p) b.next xs

-- A box but for its links.
abbrev pub unlinked : CcBox → CcBox
unlinked b = record b { next = none; prev = none }

-- `g` is `h` but for the links of the boxes at `xs`.
pub record Relinked (xs : List Ptr) (h g : Heap) : Type 0 where
  pub same : (q : Ptr) → q ∉ xs → g q ≡ h q
  pub payload : (q : Ptr) → Option.map unlinked (g q) ≡ Option.map unlinked (h q)

-- A box outside every list.
abbrev pub IsLoose : Heap → Ptr → Type 0
IsLoose h p = (b : CcBox) × (h p ≡ some b) × (b.next ≡ none) × (b.prev ≡ none)

-- A chain survives changes at other addresses.
pub Chain-frame :
    {h g : Heap} (before first : Option Ptr) (xs : List Ptr)
    → ((q : Ptr) → q ∈ xs → g q ≡ h q)
    → Chain h before first xs
    → Chain g before first xs
Chain-frame before first [] same c = c
Chain-frame before first (p ∷ xs) same (e, out, b, at, pre, rest) = (
  e,
  out,
  b,
  ground (arith, same p),
  pre,
  Chain-frame (some p) b.next xs (λ q i. same q (ground arith)) rest,
)

module _ (h : Heap) where
  pub Relinked-refl : (xs : List Ptr) → Relinked xs h h
  Relinked-refl xs = record { same = λ q o. refl; payload = λ q. refl }

-- The list without `p`.
abbrev pub erase : Ptr → List Ptr → List Ptr
erase p [] = []
erase p (x ∷ xs) = if p == x then xs else x ∷ erase p xs

pub not-mem-erase : (q p : Ptr) (xs : List Ptr) → q ∉ xs → q ∉ erase p xs
not-mem-erase q p [] o = refl
not-mem-erase q p (x ∷ xs) o = ground (arith, not-mem-erase q p xs)

-- The address, if there is one, is that of another box on the list.
abbrev pub Within : Heap → Ptr → List Ptr → Option Ptr → Type 0
Within h p xs none = Unit
Within h p xs (some n) = (n ∈ xs) × (n ≢ p) × (c : CcBox) × (h n ≡ some c)

-- The address, if there is one, is not on the list.
abbrev pub Outside : List Ptr → Option Ptr → Type 0
Outside xs none = Unit
Outside xs (some m) = m ∉ xs

module _ (h : Heap) (p : Ptr) (b : CcBox) (at : h p ≡ some b) where
  Within-cons : (x : Ptr) (xs : List Ptr) (o : Option Ptr) → Within h p xs o → Within h p (x ∷ xs) o
  Within-cons x xs none w = tt
  Within-cons x xs (some n) (i, ne, c, e) = (ground arith, ne, c, e)

  Chain-Within :
      (x : Ptr) (before first : Option Ptr) (xs : List Ptr)
      → Chain h before first xs
      → p ∉ xs
      → Within h p (x ∷ xs) first
  Chain-Within x before first [] e o = rw e tt
  Chain-Within x before first (y ∷ ys) (e, _, c, at', _, _) o =
      rw e (ground arith, ground arith, c, at')

  -- The successor of a box on a chain is on it too.
  pub next-Within :
      (before first : Option Ptr) (xs : List Ptr)
      → Chain h before first xs
      → p ∈ xs
      → Within h p xs b.next
  next-Within before first [] c i = cc
  next-Within before first (x ∷ xs) (e, o, c, at', pre, rest) i = elim (Bool-cases (p == x)) [
    | inl hit ↦
        let b-c : b ≡ c = ground arith in
        let q : p ≡ x = ==→eq p x hit in rw b-c (Chain-Within x (some x) c.next xs rest (rw q o))
    | inr miss ↦ Within-cons x xs b.next (next-Within (some x) c.next xs rest (ground arith))
  ]

  -- So is its predecessor, but for the first box.
  pub prev-Within_behind :
      (y : Ptr) (c : CcBox) (first : Option Ptr) (xs : List Ptr)
      → h y ≡ some c
      → y ≢ p
      → Chain h (some y) first xs
      → p ∈ xs
      → Within h p (y ∷ xs) b.prev
  prev-Within_behind y c first [] aty ne ch i = cc
  prev-Within_behind y c first (x ∷ xs) aty ne (e, o, d, at', pre, rest) i =
      elim (Bool-cases (p == x)) [
        | inl hit ↦ let b-d : b ≡ d = ground arith in rw (b-d, pre) (ground arith, ne, c, aty)
        | inr miss ↦
            Within-cons y (x ∷ xs) b.prev
              (prev-Within_behind x d d.next xs at' (ground arith) rest (ground arith))
      ]

  pub prev-Within :
      (first : Option Ptr) (xs : List Ptr) → Chain h none first xs → p ∈ xs → Within h p xs b.prev
  prev-Within first [] ch i = cc
  prev-Within first (x ∷ xs) (e, o, d, at', pre, rest) i = elim (Bool-cases (p == x)) [
    | inl hit ↦ let b-d : b ≡ d = ground arith in rw (b-d, pre) tt
    | inr miss ↦ prev-Within_behind x d d.next xs at' (ground arith) rest (ground arith)
  ]

-- Every address on a chain holds a box.
pub Chain-at :
    (h : Heap) (p : Ptr) (before first : Option Ptr) (xs : List Ptr)
    → Chain h before first xs
    → p ∈ xs
    → (b : CcBox) × (h p ≡ some b)
Chain-at h p before first [] c i = cc
Chain-at h p before first (x ∷ xs) (e, o, d, at, pre, rest) i = elim (Bool-cases (p == x)) [
  | inl hit ↦ (d, rw (==→eq p x hit) at)
  | inr miss ↦ Chain-at h p (some x) d.next xs rest (ground arith)
]

-- Heaps whose boxes lie at the same addresses and have the same links.
abbrev pub links : CcBox → Option Ptr × Option Ptr
links b = (b.next, b.prev)

abbrev pub SameLinks : Heap → Heap → Type 0
SameLinks h g = (q : Ptr) → Option.map links (g q) ≡ Option.map links (h q)

map-eq-some :
    (o : Option CcBox) (b : CcBox)
    → Option.map links o ≡ some (links b)
    → (d : CcBox) × (o ≡ some d) × (d.next ≡ b.next) × (d.prev ≡ b.prev)
map-eq-some none b e = cc
map-eq-some (some d) b e = (d, refl, ground arith, ground arith)

-- A chain is a matter of the links alone.
pub Chain-SameLinks :
    (h g : Heap) (before first : Option Ptr) (xs : List Ptr)
    → SameLinks h g
    → Chain h before first xs
    → Chain g before first xs
Chain-SameLinks h g before first [] same c = c
Chain-SameLinks h g before first (p ∷ xs) same (e, o, b, at, pre, rest) =
    let (d, at', en, ep) = map-eq-some (g p) b (same p ∙ ap (Option.map links) at) in
    (e, o, d, at', ep ∙ pre, rw en (Chain-SameLinks h g (some p) b.next xs same rest))

-- The addresses on a chain are distinct, so one that is erased is gone.
pub not-mem-erase_self :
    (h : Heap) (p : Ptr) (before first : Option Ptr) (xs : List Ptr)
    → Chain h before first xs
    → p ∉ erase p xs
not-mem-erase_self h p before first [] c = refl
not-mem-erase_self h p before first (x ∷ xs) (e, o, b, at, pre, rest) = elim (Bool-cases (p == x)) [
  | inl hit ↦ rw hit (rw (==→eq p x hit) o)
  | inr miss ↦ rw miss (ground (arith, not-mem-erase_self h p (some x) b.next xs rest))
]

pub mem-erase_ne : (q p : Ptr) (xs : List Ptr) → q ≢ p → has q (erase p xs) ≡ has q xs
mem-erase_ne q p [] ne = refl
mem-erase_ne q p (x ∷ xs) ne = ground (arith, mem-erase_ne q p xs)
