-- ===== src/Derive/Attributes.antt =====
-- What the scans of attributes find.
use rust_cc.Prelude.{
  Bool, true, false, Option, none, some, List, [], ◌∷◌, ◌≡◌, refl, ◌↔◌, ◌⊎◌, inl, inr,
  if◌then◌else◌, arith,
}
use Prim.Native.String.{String}
use rust_cc.Derive.{
  match_meta, nested_contains, list_contains, Meta, path, list, name_value, Syn, Attribute, Error,
  invalid_attribute, emit_error, get_meta_items, scan, attr_contains, any_contains,
}
use rust_cc.Derive.Emits.{complaint}

-- A scan that ends where `b` holds, and goes on elsewhere.
if-either :
    (b : Bool) (P Q : Type 0) (stop rest : Bool × List Error)
    → stop.0 ≡ true
    → (b ≡ true) ↔ P
    → (rest.0 ≡ true) ↔ Q
    → ((if b then stop else rest).0 ≡ true) ↔ (P ⊎ Q)
if-either true P Q stop rest stops first second = (λ e. inl (first.0 refl), λ m. stops)
if-either false P Q stop rest stops first second = (
  λ e. inr (second.0 e),
  λ m. elim m [ inl here ↦ absurd (ground (arith, first.1 here)) | inr later ↦ second.1 later ],
)

module _ {P M : Type 0} (syn : Syn P M) where
  -- The identifier is among the metas.
  abbrev pub InNested : String → List (Meta P M) → Type 0
  InNested ident [] = ⊥
  InNested ident (path p ∷ rest) = (syn.is_ident p ident ≡ true) ⊎ InNested ident rest
  InNested ident (list m ∷ rest) = InNested ident rest
  InNested ident (name_value ∷ rest) = InNested ident rest

  abbrev pub InParsed : String → Option (List (Meta P M)) → Type 0
  InParsed ident none = ⊥
  InParsed ident (some nested) = InNested ident nested

  abbrev pub InMeta : String → Meta P M → Type 0
  InMeta ident (path p) = ⊥
  InMeta ident (list m) = InParsed ident (syn.parse_args m)
  InMeta ident name_value = ⊥

  -- The attribute is `#[rust_cc(..)]` with arguments that parse, one of which is the identifier.
  abbrev pub Names : String → Attribute P M → Type 0
  Names ident attr = (syn.is_ident attr.path "rust_cc" ≡ true) × InMeta ident attr.meta

  -- One of the attributes does.
  abbrev pub Annotated : String → List (Attribute P M) → Type 0
  Annotated ident [] = ⊥
  Annotated ident (attr ∷ attrs) = Names ident attr ⊎ Annotated ident attrs

  scan-InNested :
      (ident : String) (nested : List (Meta P M)) (errors : List Error)
      → ((scan syn ident nested errors).0 ≡ true) ↔ InNested ident nested
  unfolding scan
  scan-InNested ident [] errors = (λ e. absurd (ground (arith, e)), λ m. absurd m)
  scan-InNested ident (path p ∷ rest) errors =
      if-either (syn.is_ident p ident) (syn.is_ident p ident ≡ true) (InNested ident rest)
        (true, errors) (scan syn ident rest (emit_error (complaint syn p) errors)) refl
        (λ e. e, λ e. e) (scan-InNested ident rest (emit_error (complaint syn p) errors))
  scan-InNested ident (list m ∷ rest) errors =
      scan-InNested ident rest (emit_error invalid_attribute errors)
  scan-InNested ident (name_value ∷ rest) errors =
      scan-InNested ident rest (emit_error invalid_attribute errors)

  nested_contains-InParsed :
      (ident : String) (nested : Option (List (Meta P M))) (errors : List Error)
      → ((nested_contains syn nested ident errors).0 ≡ true) ↔ InParsed ident nested
  unfolding nested_contains
  nested_contains-InParsed ident none errors = (λ e. absurd (ground (arith, e)), λ m. absurd m)
  nested_contains-InParsed ident (some nested) errors = scan-InNested ident nested errors

  list_contains-InMeta :
      (ident : String) (meta : Meta P M) (errors : List Error)
      → ((list_contains syn (match_meta syn meta errors).0 ident (match_meta syn meta errors).1).0
          ≡ true)
        ↔ InMeta ident meta
  unfolding match_meta list_contains
  list_contains-InMeta ident (path p) errors = (λ e. absurd (ground (arith, e)), λ m. absurd m)
  list_contains-InMeta ident (list m) errors =
      nested_contains-InParsed ident (syn.parse_args m) errors
  list_contains-InMeta ident name_value errors = (λ e. absurd (ground (arith, e)), λ m. absurd m)

  guarded-Names :
      (b : Bool) (ident : String) (meta : Meta P M) (errors : List Error)
      → ((list_contains syn
            (if b then match_meta syn meta errors else (none, errors)).0
            ident
            (if b then match_meta syn meta errors else (none, errors)).1).0
          ≡ true)
        ↔ ((b ≡ true) × InMeta ident meta)
  unfolding list_contains
  guarded-Names true ident meta errors = (
    λ e. (refl, (list_contains-InMeta ident meta errors).0 e),
    λ m. (list_contains-InMeta ident meta errors).1 m.1,
  )
  guarded-Names false ident meta errors =
      (λ e. absurd (ground (arith, e)), λ m. absurd (ground (arith, m.0)))

  attr_contains-Names :
      (ident : String) (attr : Attribute P M) (errors : List Error)
      → ((attr_contains syn attr ident errors).0 ≡ true) ↔ Names ident attr
  unfolding attr_contains get_meta_items
  attr_contains-Names ident attr errors =
      guarded-Names (syn.is_ident attr.path "rust_cc") ident attr.meta errors

  -- The scan of attributes finds an identifier where one of them is `#[rust_cc(..)]` with arguments
  -- that parse and name it, and nowhere else, whatever errors were emitted before.
  pub any_contains-Annotated :
      (ident : String) (attrs : List (Attribute P M)) (errors : List Error)
      → ((any_contains syn attrs ident errors).0 ≡ true) ↔ Annotated ident attrs
  unfolding any_contains
  any_contains-Annotated ident [] errors = (λ e. absurd (ground (arith, e)), λ m. absurd m)
  any_contains-Annotated ident (attr ∷ attrs) errors =
      if-either (attr_contains syn attr ident errors).0 (Names ident attr) (Annotated ident attrs)
        (true, (attr_contains syn attr ident errors).1)
        (any_contains syn attrs ident (attr_contains syn attr ident errors).1) refl
        (attr_contains-Names ident attr errors)
        (any_contains-Annotated ident attrs (attr_contains syn attr ident errors).1)
