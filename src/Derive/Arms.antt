-- ===== src/Derive/Arms.antt =====
-- The arms of the `match` that is generated.
use rust_cc.Prelude.{
  Bool, true, false, not, ◌||◌, ◌==◌, ◌++◌, if◌then◌else◌, length, ◌&&◌, List, [], ◌∷◌, map, ◌≡◌,
  refl, ap, ◌∙◌, arith,
}
use rust_cc.Derive.{
  Error, Emits, BindingInfo, VariantInfo, Statement, Arm, variant_arm, wildcard, trace_call, retain,
  retain_bindings, Synstructure, trace_field,
}

-- What synstructure documents: the filters apply their tests in order and keep what passes, and
-- `each` calls its closure for the fields of each variant, in order, with one arm for each variant
-- that is left and `_ => {}` behind them once a variant was omitted, so that the `match` has an arm
-- for every value.
abbrev pub run_all :
    {P M : Type 0}
    → (BindingInfo P M → Bool → Statement × Bool)
    → List (BindingInfo P M)
    → Bool
    → List Statement × Bool
run_all f [] flag = ([], flag)
run_all f (bi ∷ bis) flag =
    ((f bi flag).0 ∷ (run_all f bis (f bi flag).1).0, (run_all f bis (f bi flag).1).1)

abbrev pub run_each :
    {P M : Type 0}
    → (BindingInfo P M → Bool → Statement × Bool)
    → List (VariantInfo P M)
    → Bool
    → List Arm × Bool
run_each f [] flag = ([], flag)
run_each f (v ∷ vs) flag = (
  variant_arm (run_all f v.bindings flag).0 ∷ (run_each f vs (run_all f v.bindings flag).1).0,
  (run_each f vs (run_all f v.bindings flag).1).1,
)

abbrev pub wildcard_arm : Bool → List Arm
wildcard_arm omitted = if omitted then wildcard ∷ [] else []

-- Fewer variants are left.
abbrev pub omits : {A : Type 0} → (before after : List A) → Bool
omits before after = not (length after == length before)

pub record IsSynstructure {P M Structure : Type 0} (ss : Synstructure P M Structure) : Type 0 where
  pub filter-variants :
      (f : BindingInfo P M → Emits Bool) (s : Structure) (errors : List Error)
      → (ss.variants (ss.filter f s errors).0, (ss.filter f s errors).1)
        ≡ retain_bindings f (ss.variants s) errors
  pub filter-is_enum :
      (f : BindingInfo P M → Emits Bool) (s : Structure) (errors : List Error)
      → ss.is_enum (ss.filter f s errors).0 ≡ ss.is_enum s
  pub filter_variants-variants :
      (f : VariantInfo P M → Emits Bool) (s : Structure) (errors : List Error)
      → (ss.variants (ss.filter_variants f s errors).0, (ss.filter_variants f s errors).1)
        ≡ retain f (ss.variants s) errors
  pub each-variants :
      (f : BindingInfo P M → Bool → Statement × Bool) (s : Structure) (flag : Bool)
      → ss.each f s flag ≡ (
        (run_each f (ss.variants s) flag).0 ++ wildcard_arm (ss.omitted_variants s),
        (run_each f (ss.variants s) flag).1,
      )
  pub filter-omitted_variants :
      (f : BindingInfo P M → Emits Bool) (s : Structure) (errors : List Error)
      → ss.omitted_variants (ss.filter f s errors).0 ≡ ss.omitted_variants s
  pub filter_variants-omitted_variants :
      (f : VariantInfo P M → Emits Bool) (s : Structure) (errors : List Error)
      → ss.omitted_variants (ss.filter_variants f s errors).0 ≡ (
          ss.omitted_variants s
          || omits (ss.variants s) (ss.variants (ss.filter_variants f s errors).0))

abbrev pub is_nil : {A : Type 0} → List A → Bool
is_nil [] = true
is_nil (x ∷ xs) = false

and_swap : (a b c : Bool) → (b && (a && c)) ≡ ((a && b) && c)
and_swap a b c = ground arith

pub and_true : (a : Bool) → (a && true) ≡ a
and_true a = ground arith

module _ {P M : Type 0} where
  -- One call for each field, in order, and whether there is none at all.
  abbrev pub arms : List (VariantInfo P M) → List Arm
  arms vs =
      map {A = VariantInfo P M}
        (λ v.
          variant_arm (map {A = BindingInfo P M} (λ bi. trace_call bi.ty bi.binding) v.bindings))
        vs

  abbrev pub have_no_fields : List (VariantInfo P M) → Bool
  have_no_fields [] = true
  have_no_fields (v ∷ vs) = is_nil v.bindings && have_no_fields vs

  run_all-trace_field :
      (bis : List (BindingInfo P M)) (flag : Bool)
      → run_all trace_field bis flag
        ≡ (map {A = BindingInfo P M} (λ bi. trace_call bi.ty bi.binding) bis, is_nil bis && flag)
  unfolding trace_field
  run_all-trace_field [] flag = refl
  run_all-trace_field (bi ∷ []) flag = refl
  run_all-trace_field (bi ∷ next ∷ bis) flag =
      ap (λ r. (trace_call bi.ty bi.binding ∷ r.0, r.1)) (run_all-trace_field (next ∷ bis) false)

  pub run_each-trace_field :
      (vs : List (VariantInfo P M)) (flag : Bool)
      → run_each trace_field vs flag ≡ (arms vs, have_no_fields vs && flag)
  run_each-trace_field [] flag = refl
  run_each-trace_field (v ∷ vs) flag =
      ap (λ r. (variant_arm r.0 ∷ (run_each trace_field vs r.1).0, (run_each trace_field vs r.1).1))
        (run_all-trace_field v.bindings flag)
      ∙ ap
          (λ r. (
            variant_arm (map {A = BindingInfo P M} (λ bi. trace_call bi.ty bi.binding) v.bindings)
                ∷ r.0,
            r.1,
          ))
          (run_each-trace_field vs (is_nil v.bindings && flag))
      ∙ ap (λ b. (arms (v ∷ vs), b)) (and_swap (is_nil v.bindings) (have_no_fields vs) flag)
