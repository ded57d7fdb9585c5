-- ===== src/Derive/Generated.antt =====
-- What `derive_trace_trait` generates, and when it aborts.
use rust_cc.Prelude.{
  Bool, true, false, not, none, some, List, [], ◌++◌, ◌≡◌, refl, ap, ap₂, ◌∙◌, ◌||◌, if◌then◌else◌,
}
use rust_cc.Derive.{
  Syn, Attribute, Error, BindingInfo, VariantInfo, Synstructure, fields, no_bounds, Output,
  Expansion, expanded, any_contains, keeps_binding, keeps_variant, trace_field, generate,
  derive_trace_trait, abort_if_dirty, ignore, unsafe_no_drop,
}
use rust_cc.Derive.Emits.{IsWriter, then-IsWriter, pure-IsWriter, any_contains-IsWriter}
use rust_cc.Derive.Filters.{kept, gathered, only_kept, retain-kept, retain_bindings-kept}
use rust_cc.Derive.Arms.{
  IsSynstructure, omits, wildcard_arm, arms, have_no_fields, run_each-trace_field, and_true,
}

-- What is generated for the fields of these variants, where others are omitted or not.
abbrev pub output_of : {P M : Type 0} → Bool → List (VariantInfo P M) → (omitted : Bool) → Output
output_of no_drop vs omitted = record {
  trace_impl = record {
    inline_always = have_no_fields vs;
    body = arms vs ++ wildcard_arm omitted;
    bounds = fields;
  };
  drop_impl = if no_drop then none else some no_bounds;
}

module _ {P M : Type 0} (syn : Syn P M) where
  abbrev pub is_ignored : List (Attribute P M) → Bool
  is_ignored attrs = (any_contains syn attrs ignore []).0

  abbrev pub complaints_of : List (Attribute P M) → List Error
  complaints_of attrs = (any_contains syn attrs ignore []).1

  keeps_binding-IsWriter : (bi : BindingInfo P M) → IsWriter (keeps_binding syn bi)
  unfolding keeps_binding
  keeps_binding-IsWriter bi =
      then-IsWriter (any_contains syn bi.attrs ignore) (λ ignored errors. (not ignored, errors))
        (any_contains-IsWriter syn bi.attrs ignore) (λ ignored. pure-IsWriter (not ignored))

  keeps_variant-IsWriter : (vi : VariantInfo P M) → IsWriter (keeps_variant syn vi)
  unfolding keeps_variant
  keeps_variant-IsWriter vi =
      then-IsWriter (any_contains syn vi.attrs ignore) (λ ignored errors. (not ignored, errors))
        (any_contains-IsWriter syn vi.attrs ignore) (λ ignored. pure-IsWriter (not ignored))

  module _ {Structure : Type 0} (ss : Synstructure P M Structure) where
    -- The variants without the fields that are ignored, and in an enumeration without those that are
    -- ignored themselves.
    abbrev pub with_traced : Structure → List (VariantInfo P M)
    with_traced s = only_kept (λ bi. not (is_ignored bi.attrs)) (ss.variants s)

    abbrev pub shown : Structure → List (VariantInfo P M)
    shown s =
        if ss.is_enum s then kept (λ v. not (is_ignored v.attrs)) (with_traced s) else with_traced s

    -- A variant of the enumeration is ignored, or one was omitted before.
    abbrev pub leaves_out : Structure → Bool
    leaves_out s =
        if ss.is_enum s
        then ss.omitted_variants s
          || omits (with_traced s) (kept (λ v. not (is_ignored v.attrs)) (with_traced s))
        else ss.omitted_variants s

    abbrev pub field_complaints : Structure → List Error
    field_complaints s =
        gathered {A = VariantInfo P M}
          (λ v. gathered {A = BindingInfo P M} (λ bi. complaints_of bi.attrs) v.bindings)
          (ss.variants s)

    -- The errors, in the order in which they are emitted.
    abbrev pub complaints : Structure → List Error
    complaints s =
        let first = (any_contains syn (ss.attrs s) unsafe_no_drop []).1 ++ field_complaints s in
        if ss.is_enum s
        then first ++ gathered {A = VariantInfo P M} (λ v. complaints_of v.attrs) (with_traced s)
        else first

    module _ (laws : IsSynstructure ss) where
      abbrev Seen : Type 0
      Seen = List (VariantInfo P M) × List Error × Bool

      observed : Structure × List Error → Seen
      observed r = (ss.variants r.0, r.1, ss.omitted_variants r.0)

      filtered :
          (s : Structure) (errors : List Error)
          → observed (ss.filter (keeps_binding syn) s errors)
            ≡ (with_traced s, errors ++ field_complaints s, ss.omitted_variants s)
      unfolding keeps_binding observed
      filtered s errors =
          ap₂ (λ r omitted. (r.0, r.1, omitted))
            (laws.filter-variants (keeps_binding syn) s errors
              ∙ retain_bindings-kept (keeps_binding syn) keeps_binding-IsWriter (ss.variants s)
                  errors)
            (laws.filter-omitted_variants (keeps_binding syn) s errors)

      filtered_variants :
          (s : Structure) (errors : List Error)
          → observed (ss.filter_variants (keeps_variant syn) s errors) ≡ (
            kept (λ v. not (is_ignored v.attrs)) (ss.variants s),
            errors ++ gathered {A = VariantInfo P M} (λ v. complaints_of v.attrs) (ss.variants s),
            ss.omitted_variants s
                || omits (ss.variants s) (kept (λ v. not (is_ignored v.attrs)) (ss.variants s)),
          )
      unfolding keeps_variant observed
      filtered_variants s errors =
          let seen =
            laws.filter_variants-variants (keeps_variant syn) s errors
            ∙ retain-kept (keeps_variant syn) keeps_variant-IsWriter (ss.variants s) errors in
          ap₂ (λ r omitted. (r.0, r.1, omitted)) seen
            (laws.filter_variants-omitted_variants (keeps_variant syn) s errors
              ∙ ap (λ r. ss.omitted_variants s || omits (ss.variants s) r.0) seen)

      generate-output_of :
          (no_drop : Bool) (s : Structure)
          → generate syn ss no_drop s ≡ output_of no_drop (ss.variants s) (ss.omitted_variants s)
      unfolding generate
      generate-output_of no_drop s =
          ap
            (λ r. record {
              trace_impl = record { inline_always = r.1; body = r.0; bounds = fields };
              drop_impl = if no_drop then none else some no_bounds;
            })
            (laws.each-variants trace_field s true
              ∙ ap (λ r. (r.0 ++ wildcard_arm (ss.omitted_variants s), r.1))
                  (run_each-trace_field (ss.variants s) true)
              ∙ ap (λ b. (arms (ss.variants s) ++ wildcard_arm (ss.omitted_variants s), b))
                  (and_true (have_no_fields (ss.variants s))))

      -- `seen` is what the filters leave.
      expansion : Bool → Seen → Expansion
      expansion no_drop seen = abort_if_dirty seen.1 (expanded (output_of no_drop seen.0 seen.2))

      select_variants : Bool → Structure × List Error → Structure × List Error
      select_variants is_enum r =
          if is_enum then ss.filter_variants (keeps_variant syn) r.0 r.1 else r

      choose : Bool → Seen → Seen
      choose is_enum seen = (
        if is_enum then kept (λ v. not (is_ignored v.attrs)) seen.0 else seen.0,
        if is_enum
            then seen.1 ++ gathered {A = VariantInfo P M} (λ v. complaints_of v.attrs) seen.0
            else seen.1,
        if is_enum
            then seen.2 || omits seen.0 (kept (λ v. not (is_ignored v.attrs)) seen.0)
            else seen.2,
      )

      selected :
          (is_enum : Bool) (r : Structure × List Error)
          → observed (select_variants is_enum r) ≡ choose is_enum (observed r)
      unfolding select_variants observed choose
      selected true r = filtered_variants r.0 r.1
      selected false r = refl

      -- Where synstructure's filters and `each` do what they document: the macro aborts where a scan
      -- complains of an attribute, of the type for `unsafe_no_drop`, then of the fields, then of the
      -- variants of an enumeration for `ignore`. Otherwise it generates a `trace` with one arm for
      -- each variant that is not ignored, which calls `trace` once for each field that is not
      -- ignored, in order, an empty arm for all other values behind these if a variant of the
      -- enumeration is ignored, bounds for the types of the fields, `#[inline(always)]` where there
      -- is no call, and an empty `Drop` without bounds unless the type has `unsafe_no_drop`.
      pub derive_trace_trait-expansion :
          (s : Structure)
          → derive_trace_trait syn ss s
            ≡ abort_if_dirty (complaints s) (
                expanded (
                  output_of
                    (any_contains syn (ss.attrs s) unsafe_no_drop []).0
                    (shown s)
                    (leaves_out s)))
      unfolding derive_trace_trait select_variants observed choose expansion
      derive_trace_trait-expansion s =
          let (no_drop, errors) = any_contains syn (ss.attrs s) unsafe_no_drop [] in
          let r = ss.filter (keeps_binding syn) s errors in
          let left = select_variants (ss.is_enum r.0) r in
          ap (λ o. abort_if_dirty left.1 (expanded o)) (generate-output_of no_drop left.0)
          ∙ ap (λ b. expansion no_drop (observed (select_variants b r)))
              (laws.filter-is_enum (keeps_binding syn) s errors)
          ∙ ap (λ seen. expansion no_drop seen) (selected (ss.is_enum s) r)
          ∙ ap (λ seen. expansion no_drop (choose (ss.is_enum s) seen)) (filtered s errors)
