-- ===== src/Sweep/Again.antt =====
-- The garbage of a pass of the collection in src/lib.rs is what the next pass finds from it.
use rust_cc.Prelude.{
  ℕ, ◌+◌, ◌≤◌, ◌≡◌, ◌≢◌, ◌↔◌, refl, List, [], ◌∷◌, ◌==◌, arith, Bool-cases, inl, inr, ◌⊎◌, ==→eq,
  ==→ne, eq→==, ne→==, ◌∙◌, ap, sym,
}
use rust_cc.Heap.{Ptr}
use rust_cc.Lists.Chain.{has, ◌∈◌, ◌∉◌, erase, mem-erase_ne, not-mem-erase}
use rust_cc.World.{World}
use rust_cc.Tracing.Graph.{count, edges, occ, inbound, Distinct, Reach, here, next}
use rust_cc.Tracing.Garbage.{mem-occ}
use rust_cc.Tracing.Counting.{Origin}
use rust_cc.Tracing.Rooting.{IsHeld}

Distinct-erase : (p : Ptr) (xs : List Ptr) → Distinct xs → Distinct (erase p xs) × (p ∉ erase p xs)
Distinct-erase p [] d = (tt, refl)
Distinct-erase p (x ∷ xs) (out, d) = elim (Bool-cases (p == x)) [
  | inl hit ↦ rw hit (d, rw (==→eq p x hit) out)
  | inr miss ↦
      let (d1, o1) = Distinct-erase p xs d in
      rw miss ((not-mem-erase x p xs out, d1), ground (arith, miss, o1))
]

apart-mem : (y x : Ptr) (xs : List Ptr) → y ∈ xs → x ∉ xs → y ≢ x
apart-mem y x xs j out same = ground (arith, j, out, ap (λ (q : Ptr). has q xs) same)

mem-tail : (y x : Ptr) (xs : List Ptr) → y ≢ x → y ∈ x ∷ xs → y ∈ xs
mem-tail y x xs ne i = ground (arith, i, ne→== y x ne)

module _ (env : World) (r : Ptr) where
  inbound-erase :
      (x : Ptr) (ys : List Ptr)
      → x ∈ ys
      → inbound env r ys ≡ occ r (edges env x) + inbound env r (erase x ys)
  inbound-erase x [] i = absurd (ground (arith, i))
  inbound-erase x (y ∷ ys) i = elim (Bool-cases (x == y)) [
    | inl hit ↦ rw (hit, ==→eq x y hit) refl
    | inr miss ↦ rw miss (omega (arith, inbound-erase x ys (ground (arith, i, miss))))
  ]

  -- What the others have to `r`, beside a part of them.
  abbrev Parts : List Ptr → List Ptr → Type 0
  Parts xs ys =
      (rest : ℕ) × (inbound env r xs ≡ inbound env r ys + rest)
      × (((x : Ptr) → x ∈ xs → x ∉ ys → occ r (edges env x) ≡ 0) → rest ≡ 0)

  inbound-Parts :
      (xs ys : List Ptr) → Distinct xs → Distinct ys → ((y : Ptr) → y ∈ ys → y ∈ xs) → Parts xs ys
  inbound-Parts [] [] dx dy within = (0, refl, λ h. refl)
  inbound-Parts [] (y ∷ ys) dx dy within =
      absurd (ground (arith, within y (rw (eq→== y y refl) refl)))
  inbound-Parts (x ∷ xs) ys (out, dx) dy within = elim (Bool-cases (has x ys)) [
    | inl inside ↦
        let (d1, o1) = Distinct-erase x ys dy in
        let (rest, sum, none_left) = inbound-Parts xs (erase x ys) dx d1 (λ y j.
          let ne = apart-mem y x (erase x ys) j o1 in
          mem-tail y x xs ne (within y (sym (mem-erase_ne y x ys ne) ∙ j))) in
        (
          rest,
          omega (arith, sum, inbound-erase x ys inside),
          λ h. none_left (λ z i o.
              let ne = apart-mem z x xs i out in
              h z (ground (arith, i)) (sym (mem-erase_ne z x ys ne) ∙ o)),
        )
    | inr outside ↦
        let (rest, sum, none_left) =
          inbound-Parts xs ys dx dy
            (λ y j. mem-tail y x xs (apart-mem y x ys j outside) (within y j)) in
        (
          occ r (edges env x) + rest,
          omega (arith, sum),
          λ h. omega (
            arith,
            h x (rw (eq→== x x refl) refl) outside,
            none_left (λ z i o. h z (ground (arith, i)) o),
          ),
        )
  ]

Reach-trans : (env : World) (p q r : Ptr) → Reach env p q → Reach env q r → Reach env p r
Reach-trans env p z r first here = first
Reach-trans env p z r first (next {q} path j) = next (Reach-trans env p z q first path) j

occ-mem : (e : Ptr) (xs : List Ptr) → occ e xs ≢ 0 → e ∈ xs
occ-mem e [] h = absurd (h refl)
occ-mem e (x ∷ xs) h = elim (Bool-cases (e == x)) [
  | inl hit ↦ rw hit refl
  | inr miss ↦ rw miss (occ-mem e xs (λ z. ground (arith, h, miss, z)))
]

-- `done` and `garbage` are what a pass from `start` finds.
pub record Finds (env : World) (start done garbage : List Ptr) : Type 0 where
  pub distinct : Distinct done
  pub counted : (p : Ptr) → (p ∈ done) ↔ Origin env start p
  pub found : (p : Ptr) → (p ∈ garbage) ↔ ((p ∈ done) × ¬ IsHeld env done p)

module _ (env : World) (start done1 garbage done2 : List Ptr) (one : Finds env start done1 garbage)
    (two : (p : Ptr) → (p ∈ done2) ↔ Origin env garbage p) (apart : Distinct done2)
    (owned : (ps : List Ptr) (p : Ptr) → Distinct ps → inbound env p ps ≤ count env p) where
  closed : (p q : Ptr) → p ∈ done1 → Reach env p q → q ∈ done1
  closed p q i path =
      let (b, j, before) = (one.counted p).0 i in
      (one.counted q).1 (b, j, Reach-trans env b p q before path)

  -- The next pass reaches nothing else.
  within : (p : Ptr) → p ∈ done2 → p ∈ done1
  within p i = let (b, j, path) = (two p).0 i in closed b p ((one.found b).0 j).0 path

  -- What leads to garbage is garbage.
  leads : (p q : Ptr) → p ∈ done1 → Reach env p q → q ∈ garbage → p ∈ garbage
  leads p q i path j = (one.found p).1 (
    i,
    λ held.
        let (r, k, unequal, before) = held in
        ((one.found q).0 j).1 (r, k, unequal, Reach-trans env r p q before path),
  )

  unheld_again : (p : Ptr) → p ∈ garbage → ¬ IsHeld env done2 p
  unheld_again p i (r, j, unequal, path) =
      let i1 = within r j in
      let rg = leads r p i1 path i in
      let (rest, sum, none_left) = inbound-Parts env r done1 done2 one.distinct apart within in
      let full : inbound env r done1 ≡ count env r =
        elim (Bool-cases (inbound env r done1 == count env r)) [
          | inl same ↦ ==→eq (inbound env r done1) (count env r) same
          | inr other ↦ absurd (
              ((one.found r).0 rg).1 (r, i1, ==→ne (inbound env r done1) (count env r) other, here))
        ] in
      let whole : rest ≡ 0 = none_left (λ x ix ox. elim (Bool-cases (occ r (edges env x) == 0)) [
        | inl zero_times ↦ ==→eq (occ r (edges env x)) 0 zero_times
        | inr some_times ↦
            let edge = occ-mem r (edges env x) (==→ne (occ r (edges env x)) 0 some_times) in
            let xg = leads x p ix (Reach-trans env x r p (next here edge) path) i in
            absurd (ground (arith, ox, (two x).1 (x, xg, here)))
      ]) in
      unequal (omega (arith, sum, full, whole))

  held_again :
      (r : Ptr)
      → inbound env r done1 ≢ count env r
      → r ∈ done1
      → (q : Ptr) → Reach env r q
      → (q ∉ done2) ⊎ IsHeld env done2 q
  held_again r unequal i q here = elim (Bool-cases (has r done2)) [
    | inr out ↦ inl out
    | inl inside ↦
        let (rest, sum, none_left) = inbound-Parts env r done1 done2 one.distinct apart within in
        inr (r, inside, λ e. unequal (omega (arith, sum, e, owned done1 r one.distinct)), here)
  ]
  held_again r unequal i x (next {q} path j) = elim (Bool-cases (has x done2)) [
    | inr out ↦ inl out
    | inl inside ↦ elim (held_again r unequal i q path) [
      | inl out ↦ inr (
        x,
        inside,
        λ e. omega (arith, owned (q ∷ done2) x (out, apart), e, mem-occ x (edges env q) j),
        here,
      )
      | inr (r0, k, more, before) ↦ inr (r0, k, more, next before j)
    ]
  ]

  pub same_garbage : (p : Ptr) → (p ∈ garbage) ↔ ((p ∈ done2) × ¬ IsHeld env done2 p)
  same_garbage p = (
    λ i. ((two p).1 (p, i, here), unheld_again p i),
    λ both. (one.found p).1 (
      within p both.0,
      λ held.
          let (r, k, unequal, path) = held in
          elim (held_again r unequal k p path) [
            | inl out ↦ ground (arith, out, both.0)
            | inr again ↦ both.1 again
          ],
    ),
  )
