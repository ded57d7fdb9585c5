-- ===== src/Derive/Filters.antt =====
-- What filters do whose tests append to the errors.
use rust_cc.Prelude.{Bool, List, [], ◌∷◌, ◌++◌, map, ◌≡◌, sym, ap, ◌∙◌, if◌then◌else◌}
use mathlib.Core.List.{append_assoc, append-nil}
use rust_cc.Derive.{Error, Emits, BindingInfo, VariantInfo, retain, retain_bindings}
use rust_cc.Derive.Emits.{IsWriter, run-IsWriter}

-- The elements that pass a test, and what the tests emit.
abbrev pub kept : {A : Type 0} → (A → Bool) → List A → List A
kept test [] = []
kept test (x ∷ xs) = if test x then x ∷ kept test xs else kept test xs

abbrev pub gathered : {A : Type 0} → (A → List Error) → List A → List Error
gathered emits [] = []
gathered emits (x ∷ xs) = emits x ++ gathered emits xs

-- The behaviour of the filters on tests that append to the errors.
module _ {A : Type 0} (f : A → Emits Bool) (writes : (x : A) → IsWriter (f x)) where
  retain_step : A → Bool × List Error → List A × List Error → List A × List Error
  retain_step x r rest = (if r.0 then x ∷ rest.0 else rest.0, rest.1)

  pub retain-kept :
      (xs : List A) (errors : List Error)
      → retain f xs errors ≡ (kept (λ x. (f x []).0) xs, errors ++ gathered (λ x. (f x []).1) xs)
  unfolding retain retain_step
  retain-kept [] errors = ap (λ l. ([], l)) (sym (append-nil errors))
  retain-kept (x ∷ xs) errors =
      ap (λ r. retain_step x r (retain f xs r.1)) (run-IsWriter (f x) (writes x) errors)
      ∙ ap (λ rest. retain_step x (f x []) rest) (retain-kept xs (errors ++ (f x []).1))
      ∙ ap (λ l. (kept (λ y. (f y []).0) (x ∷ xs), l))
          (append_assoc errors (f x []).1 (gathered (λ y. (f y []).1) xs))

module _ {P M : Type 0} where
  abbrev pub only_kept : (BindingInfo P M → Bool) → List (VariantInfo P M) → List (VariantInfo P M)
  only_kept test vs =
      map {A = VariantInfo P M} {B = VariantInfo P M}
        (λ v. record v { bindings = kept test v.bindings }) vs

  pub retain_bindings-kept :
      (f : BindingInfo P M → Emits Bool)
      → ((bi : BindingInfo P M) → IsWriter (f bi))
      → (vs : List (VariantInfo P M)) (errors : List Error)
      → retain_bindings f vs errors ≡ (
        only_kept (λ bi. (f bi []).0) vs,
        errors ++ gathered (λ v. gathered (λ bi. (f bi []).1) v.bindings) vs,
      )
  unfolding retain_bindings
  retain_bindings-kept f writes [] errors = ap (λ l. ([], l)) (sym (append-nil errors))
  retain_bindings-kept f writes (v ∷ vs) errors =
      ap
        (λ r. (
          record v { bindings = r.0 } ∷ (retain_bindings f vs r.1).0,
          (retain_bindings f vs r.1).1,
        ))
        (retain-kept f writes v.bindings errors)
      ∙ ap (λ rest. (record v { bindings = kept (λ bi. (f bi []).0) v.bindings } ∷ rest.0, rest.1))
          (retain_bindings-kept f writes vs (errors ++ gathered (λ bi. (f bi []).1) v.bindings))
      ∙ ap (λ l. (only_kept (λ bi. (f bi []).0) (v ∷ vs), l))
          (append_assoc errors (gathered (λ bi. (f bi []).1) v.bindings)
            (gathered (λ u. gathered (λ bi. (f bi []).1) u.bindings) vs))
