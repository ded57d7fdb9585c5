-- ===== src/Tests/Derives.antt =====
-- The derive macro on an enumeration with an ignored field and an ignored variant. Paths are
-- identifiers here, and the structure is the list of its variants.
use rust_cc.Prelude.{
  ◌≡◌, ◌↔◌, refl, Bool, true, false, none, some, Option, List, [], ◌∷◌, map, inl, inr, ◌||◌, ◌++◌,
}
use Prim.Native.Nat.{Ordering}
use Prim.Native.String.{String, compare}
use rust_cc.Derive
use rust_cc.Derive.{
  Meta, path, list, name_value, Syn, Attribute, Error, invalid_attribute,
  invalid_attribute_position, unrecognized_attribute, BindingInfo, VariantInfo, Synstructure,
  variant_arm, wildcard, trace_call, no_bounds, fields, retain, retain_bindings, aborted, expanded,
  abort_if_dirty, any_contains, derive_trace_trait, ignore, unsafe_no_drop,
}
use rust_cc.Derive.Attributes.{Annotated, any_contains-Annotated}
use rust_cc.Derive.Arms.{IsSynstructure, omits, wildcard_arm, run_each}
use rust_cc.Derive.Generated.{
  shown, leaves_out, complaints, output_of, derive_trace_trait-expansion,
}
use rust_cc.Derive.Accepted.{derive_trace_trait-accepts}

abbrev Arguments : Type 0
Arguments = Option (List String)

abbrev is_ident : String → String → Bool
is_ident p ident = elim (compare p ident) [ Ordering.eq ↦ true | _ ↦ false ]

abbrev parse_args : Arguments → Option (List (Meta String Arguments))
parse_args none = none
parse_args (some idents) = some (map path idents)

abbrev syn : Syn String Arguments
syn = record { is_ident = is_ident; parse_args = parse_args }

record Enumeration : Type 0 where
  attrs : List (Attribute String Arguments)
  is_enum : Bool
  variants : List (VariantInfo String Arguments)
  omitted : Bool

abbrev structures : Synstructure String Arguments Enumeration
structures = record {
  attrs = λ s. s.attrs;
  is_enum = λ s. s.is_enum;
  variants = λ s. s.variants;
  omitted_variants = λ s. s.omitted;
  filter = λ f s errors. (
    record s { variants = (retain_bindings f s.variants errors).0 },
    (retain_bindings f s.variants errors).1,
  );
  filter_variants = λ f s errors. (
    record s {
      variants = (retain f s.variants errors).0;
      omitted = s.omitted || omits s.variants (retain f s.variants errors).0;
    },
    (retain f s.variants errors).1,
  );
  each = λ f s flag.
      ((run_each f s.variants flag).0 ++ wildcard_arm s.omitted, (run_each f s.variants flag).1);
}

structures-IsSynstructure : IsSynstructure structures
structures-IsSynstructure = record {
  filter-variants = λ f s errors. refl;
  filter-is_enum = λ f s errors. refl;
  filter_variants-variants = λ f s errors. refl;
  each-variants = λ f s flag. refl;
  filter-omitted_variants = λ f s errors. refl;
  filter_variants-omitted_variants = λ f s errors. refl;
}

abbrev annotation : List String → Attribute String Arguments
annotation idents = record { path = "rust_cc"; meta = list (some idents) }

abbrev doc : Attribute String Arguments
doc = record { path = "doc"; meta = name_value }

abbrev plain_field : BindingInfo String Arguments
plain_field = record { binding = "a"; ty = "Cc<Node>"; attrs = doc ∷ [] }

abbrev ignored_field : BindingInfo String Arguments
ignored_field = record {
  binding = "b";
  ty = "Cc<Node>";
  attrs = doc ∷ annotation ("ignore" ∷ []) ∷ [];
}

abbrev node : Enumeration
node = record {
  attrs = annotation ("unsafe_no_drop" ∷ []) ∷ [];
  is_enum = true;
  omitted = false;
  variants =
      record { attrs = []; bindings = plain_field ∷ ignored_field ∷ plain_field ∷ [] }
      ∷ record { attrs = annotation ("ignore" ∷ []) ∷ []; bindings = plain_field ∷ [] }
      ∷ [];
}

-- The second variant and the second field are ignored; an empty arm stands for the variant.
node_expands :
    derive_trace_trait syn structures node
    ≡ expanded (record {
      trace_impl = record {
        inline_always = false;
        body =
            variant_arm (trace_call "Cc<Node>" "a" ∷ trace_call "Cc<Node>" "a" ∷ [])
            ∷ wildcard
            ∷ [];
        bounds = fields;
      };
      drop_impl = none;
    })
unfolding derive_trace_trait abort_if_dirty retain retain_bindings Derive.keeps_variant any_contains
    Derive.attr_contains Derive.list_contains Derive.get_meta_items Derive.match_meta
    Derive.nested_contains Derive.scan Derive.keeps_binding Derive.generate Derive.trace_field
node_expands = refl

derive_trace_trait-expansion_example :
    derive_trace_trait syn structures node
    ≡ abort_if_dirty (complaints syn structures node) (
        expanded (
          output_of
            (any_contains syn (structures.attrs node) unsafe_no_drop []).0
            (shown syn structures node)
            (leaves_out syn structures node)))
derive_trace_trait-expansion_example =
    derive_trace_trait-expansion syn structures structures-IsSynstructure node

derive_trace_trait-accepts_example :
    derive_trace_trait syn structures node
    ≡ expanded (
        output_of
          (any_contains syn (structures.attrs node) unsafe_no_drop []).0
          (shown syn structures node)
          (leaves_out syn structures node))
derive_trace_trait-accepts_example =
    derive_trace_trait-accepts syn structures structures-IsSynstructure node (inr refl, tt)
      (
        ((inl refl, tt), ((inl refl, (inr refl, tt)), ((inl refl, tt), tt))),
        (((inl refl, tt), tt), tt),
      )
      (λ e. (tt, ((inr refl, tt), tt)))

-- `ignore` on the type is out of place, and the errors of the fields come behind that.
abbrev misplaced : Enumeration
misplaced = record node { attrs = annotation ("ignore" ∷ []) ∷ [] }

misplaced_aborts :
    derive_trace_trait syn structures misplaced ≡ aborted (invalid_attribute_position ∷ [])
unfolding derive_trace_trait abort_if_dirty retain retain_bindings Derive.keeps_variant any_contains
    Derive.attr_contains Derive.list_contains Derive.get_meta_items Derive.match_meta
    Derive.nested_contains Derive.scan Derive.keeps_binding Derive.is_allowed
misplaced_aborts = refl

any_contains-Annotated_example :
    ((any_contains syn ignored_field.attrs ignore []).0 ≡ true)
    ↔ Annotated syn ignore ignored_field.attrs
any_contains-Annotated_example = any_contains-Annotated syn ignore ignored_field.attrs []
