-- ===== src/Tracing/Finite.antt =====
-- Lists of distinct pointers.
use rust_cc.Prelude.{
  ◌+◌, ◌≤◌, ◌≡◌, ◌≢◌, refl, List, [], ◌∷◌, ◌==◌, arith, ◌∙◌, Bool-cases, inl, inr, eq→==, ne→==, ap,
  length,
}
use rust_cc.Heap.{Ptr}
use rust_cc.Lists.Chain.{has, ◌∈◌, erase, mem-erase_ne}
use rust_cc.Tracing.Graph.{Distinct}

length-erase : (p : Ptr) (xs : List Ptr) → p ∈ xs → length (erase p xs) + 1 ≡ length xs
length-erase p [] i = ground (arith, i)
length-erase p (x ∷ xs) i = elim (Bool-cases (p == x)) [
  | inl hit ↦ rw hit (ground arith)
  | inr miss ↦ rw miss (ground (arith, length-erase p xs, i, miss))
]

-- A list of distinct pointers is no longer than one that has them all.
pub Distinct-length :
    (xs all : List Ptr) → Distinct xs → ((p : Ptr) → p ∈ xs → p ∈ all) → length xs ≤ length all
Distinct-length [] all d within = ground arith
Distinct-length (x ∷ xs) all (out, d) within =
    let i = within x (rw (eq→== x x refl) refl) in
    let shorter = Distinct-length xs (erase x all) d (λ p j.
      let ne : p ≢ x = (λ z. ground (arith, out, j, ap (λ (q : Ptr). has q xs) z)) in
      mem-erase_ne p x all ne ∙ within p (rw (ne→== p x ne) j)) in
    ground (arith, shorter, length-erase x all i)
