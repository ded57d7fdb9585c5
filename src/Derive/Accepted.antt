-- ===== src/Derive/Accepted.antt =====
-- Types whose attributes `derive_trace_trait` accepts.
use rust_cc.Prelude.{
  Bool, true, false, not, Option, none, some, List, [], ◌∷◌, ◌++◌, ◌≡◌, ◌⊎◌, inl, inr, refl, ap,
  ap₂, ◌∙◌, if◌then◌else◌, arith,
}
use Prim.Native.String.{String}
use rust_cc.Derive.{
  Meta, path, list, name_value, Syn, Attribute, Error, BindingInfo, VariantInfo, Synstructure,
  expanded, match_meta, get_meta_items, scan, nested_contains, list_contains, attr_contains,
  any_contains, derive_trace_trait, abort_if_dirty, ignore, unsafe_no_drop,
}
use rust_cc.Derive.Filters.{gathered, only_kept}
use rust_cc.Derive.Arms.{IsSynstructure}
use rust_cc.Derive.Generated.{
  is_ignored, complaints_of, with_traced, shown, leaves_out, field_complaints, output_of,
  derive_trace_trait-expansion,
}

if-calm :
    (b : Bool) (stop rest : Bool × List Error)
    → stop.1 ≡ []
    → rest.1 ≡ []
    → (if b then stop else rest).1 ≡ []
if-calm true stop rest first second = first
if-calm false stop rest first second = second

append-calm : (xs ys : List Error) → xs ≡ [] → ys ≡ [] → xs ++ ys ≡ []
append-calm xs ys first second = ap₂ (λ a b. a ++ b) first second

module _ {P M : Type 0} (syn : Syn P M) where
  -- Nothing is named, or the identifier comes first: what is behind it is not looked at.
  abbrev pub StartsWith : String → List (Meta P M) → Type 0
  StartsWith ident [] = Unit
  StartsWith ident (path p ∷ rest) = syn.is_ident p ident ≡ true
  StartsWith ident (list m ∷ rest) = ⊥
  StartsWith ident (name_value ∷ rest) = ⊥

  abbrev pub ParsedProper : String → Option (List (Meta P M)) → Type 0
  ParsedProper ident none = ⊥
  ParsedProper ident (some nested) = StartsWith ident nested

  abbrev pub MetaProper : String → Meta P M → Type 0
  MetaProper ident (path p) = ⊥
  MetaProper ident (list m) = ParsedProper ident (syn.parse_args m)
  MetaProper ident name_value = ⊥

  -- An attribute of another macro, or `#[rust_cc(ident)]`.
  abbrev pub Proper : String → Attribute P M → Type 0
  Proper ident attr = (syn.is_ident attr.path "rust_cc" ≡ false) ⊎ MetaProper ident attr.meta

  abbrev pub AllProper : String → List (Attribute P M) → Type 0
  AllProper ident [] = Unit
  AllProper ident (attr ∷ attrs) = Proper ident attr × AllProper ident attrs

  abbrev pub FieldsProper : List (BindingInfo P M) → Type 0
  FieldsProper [] = Unit
  FieldsProper (bi ∷ bis) = AllProper ignore bi.attrs × FieldsProper bis

  abbrev pub AllFieldsProper : List (VariantInfo P M) → Type 0
  AllFieldsProper [] = Unit
  AllFieldsProper (v ∷ vs) = FieldsProper v.bindings × AllFieldsProper vs

  abbrev pub VariantsProper : List (VariantInfo P M) → Type 0
  VariantsProper [] = Unit
  VariantsProper (v ∷ vs) = AllProper ignore v.attrs × VariantsProper vs

  scan-calm :
      (ident : String) (nested : List (Meta P M))
      → StartsWith ident nested
      → (scan syn ident nested []).1 ≡ []
  unfolding scan
  scan-calm ident [] proper = refl
  scan-calm ident (path p ∷ rest) proper = rw proper refl
  scan-calm ident (list m ∷ rest) proper = absurd proper
  scan-calm ident (name_value ∷ rest) proper = absurd proper

  nested_contains-calm :
      (ident : String) (nested : Option (List (Meta P M)))
      → ParsedProper ident nested
      → (nested_contains syn nested ident []).1 ≡ []
  unfolding nested_contains
  nested_contains-calm ident none proper = absurd proper
  nested_contains-calm ident (some nested) proper = scan-calm ident nested proper

  guarded-calm :
      (b : Bool) (ident : String) (meta : Meta P M)
      → (b ≡ false) ⊎ MetaProper ident meta
      → (list_contains syn
          (if b then match_meta syn meta [] else (none, [])).0
          ident
          (if b then match_meta syn meta [] else (none, [])).1).1
        ≡ []
  unfolding match_meta list_contains
  guarded-calm true ident meta (inl foreign) = absurd (ground (arith, foreign))
  guarded-calm true ident (path p) (inr proper) = absurd proper
  guarded-calm true ident (list m) (inr proper) =
      nested_contains-calm ident (syn.parse_args m) proper
  guarded-calm true ident name_value (inr proper) = absurd proper
  guarded-calm false ident meta proper = refl

  attr_contains-calm :
      (ident : String) (attr : Attribute P M)
      → Proper ident attr
      → (attr_contains syn attr ident []).1 ≡ []
  unfolding attr_contains get_meta_items
  attr_contains-calm ident attr proper =
      guarded-calm (syn.is_ident attr.path "rust_cc") ident attr.meta proper

  any_contains-calm :
      (ident : String) (attrs : List (Attribute P M))
      → AllProper ident attrs
      → (any_contains syn attrs ident []).1 ≡ []
  unfolding any_contains
  any_contains-calm ident [] proper = refl
  any_contains-calm ident (attr ∷ attrs) (proper, rest) =
      if-calm (attr_contains syn attr ident []).0 (true, (attr_contains syn attr ident []).1)
        (any_contains syn attrs ident (attr_contains syn attr ident []).1)
        (attr_contains-calm ident attr proper)
        (ap (λ errors. (any_contains syn attrs ident errors).1)
            (attr_contains-calm ident attr proper)
          ∙ any_contains-calm ident attrs rest)

  fields-calm :
      (bis : List (BindingInfo P M))
      → FieldsProper bis
      → gathered (λ bi. complaints_of syn bi.attrs) bis ≡ []
  fields-calm [] proper = refl
  fields-calm (bi ∷ bis) (proper, rest) =
      append-calm (complaints_of syn bi.attrs) (gathered (λ b. complaints_of syn b.attrs) bis)
        (any_contains-calm ignore bi.attrs proper) (fields-calm bis rest)

  all_fields-calm :
      (vs : List (VariantInfo P M))
      → AllFieldsProper vs
      → gathered {A = VariantInfo P M}
          (λ v. gathered {A = BindingInfo P M} (λ bi. complaints_of syn bi.attrs) v.bindings)
          vs
        ≡ []
  all_fields-calm [] proper = refl
  all_fields-calm (v ∷ vs) (proper, rest) =
      append-calm (gathered (λ bi. complaints_of syn bi.attrs) v.bindings)
        (gathered {A = VariantInfo P M}
          (λ u. gathered {A = BindingInfo P M} (λ bi. complaints_of syn bi.attrs) u.bindings) vs)
        (fields-calm v.bindings proper) (all_fields-calm vs rest)

  variants-calm :
      (test : BindingInfo P M → Bool) (vs : List (VariantInfo P M))
      → VariantsProper vs
      → gathered {A = VariantInfo P M} (λ v. complaints_of syn v.attrs) (only_kept test vs) ≡ []
  variants-calm test [] proper = refl
  variants-calm test (v ∷ vs) (proper, rest) =
      append-calm (complaints_of syn v.attrs)
        (gathered {A = VariantInfo P M} (λ u. complaints_of syn u.attrs) (only_kept test vs))
        (any_contains-calm ignore v.attrs proper) (variants-calm test vs rest)

  select-calm :
      (is_enum : Bool) (first second : List Error)
      → first ≡ []
      → (is_enum ≡ true → second ≡ [])
      → (if is_enum then first ++ second else first) ≡ []
  select-calm true first second calm later = append-calm first second calm (later refl)
  select-calm false first second calm later = calm

  -- Where synstructure's filters and `each` do what they document, a type is accepted of which each
  -- attribute is another macro's or a `#[rust_cc(..)]` that parses and, unless it is empty, starts
  -- with the identifier that belongs there: `unsafe_no_drop` on the type, `ignore` on the fields
  -- and, in an enumeration, on the variants. The macro does not abort, and generates the
  -- implementations for what is not ignored, with an empty arm for the variants that are.
  pub derive_trace_trait-accepts :
      {Structure : Type 0} (ss : Synstructure P M Structure) (laws : IsSynstructure ss)
      (s : Structure)
      → AllProper unsafe_no_drop (ss.attrs s)
      → AllFieldsProper (ss.variants s)
      → (ss.is_enum s ≡ true → VariantsProper (ss.variants s))
      → derive_trace_trait syn ss s
        ≡ expanded (
            output_of
              (any_contains syn (ss.attrs s) unsafe_no_drop []).0
              (shown syn ss s)
              (leaves_out syn ss s))
  unfolding abort_if_dirty
  derive_trace_trait-accepts ss laws s type_attrs field_attrs variant_attrs =
      derive_trace_trait-expansion syn ss laws s
      ∙ ap
          (λ errors. abort_if_dirty errors (
            expanded (
              output_of (any_contains syn (ss.attrs s) unsafe_no_drop []).0 (shown syn ss s)
                (leaves_out syn ss s))))
          (select-calm (ss.is_enum s)
            ((any_contains syn (ss.attrs s) unsafe_no_drop []).1 ++ field_complaints syn ss s)
            (gathered {A = VariantInfo P M} (λ v. complaints_of syn v.attrs) (with_traced syn ss s))
            (append-calm (any_contains syn (ss.attrs s) unsafe_no_drop []).1
              (field_complaints syn ss s) (any_contains-calm unsafe_no_drop (ss.attrs s) type_attrs)
              (all_fields-calm (ss.variants s) field_attrs))
            (λ e.
              variants-calm (λ bi. not (is_ignored syn bi.attrs)) (ss.variants s)
                (variant_attrs e)))
