-- ===== src/Derive/Emits.antt =====
-- The scans of attributes append to the errors, and their results do not depend on those.
use rust_cc.Prelude.{
  Bool, true, false, Option, none, some, List, [], ◌∷◌, ◌++◌, ◌≡◌, sym, refl, ap, ◌∙◌,
  if◌then◌else◌,
}
use Prim.Native.String.{String}
use mathlib.Core.List.{append_assoc, append-nil}
use rust_cc.Derive.{
  match_meta, nested_contains, list_contains, Meta, path, list, name_value, Syn, Attribute, Error,
  invalid_attribute, Emits, emit_error, get_meta_items, scan, attr_contains, any_contains,
  is_allowed, allowed_attr_meta_items, invalid_attribute_position, unrecognized_attribute,
}

-- The errors that stand already are kept in front, and do not change the result.
pub IsWriter : {A : Type 0} → Emits A → Type 0
IsWriter f = (old errors : List Error) → f (old ++ errors) ≡ ((f errors).0, old ++ (f errors).1)

pub then-IsWriter :
    {A B : Type 0} (f : Emits A) (g : A → Emits B)
    → IsWriter f
    → ((a : A) → IsWriter (g a))
    → IsWriter (λ errors. g (f errors).0 (f errors).1)
unfolding IsWriter
then-IsWriter f g fs gs old errors =
    ap (λ r. g r.0 r.1) (fs old errors) ∙ gs (f errors).0 old (f errors).1

module _ {A : Type 0} where
  pub pure-IsWriter : (a : A) → IsWriter (λ errors. (a, errors))
  unfolding IsWriter
  pure-IsWriter a old errors = refl

  emit-IsWriter :
      (error : Error) (f : Emits A) → IsWriter f → IsWriter (λ errors. f (emit_error error errors))
  unfolding IsWriter
  emit-IsWriter error f fs old errors =
      ap f (append_assoc old errors (error ∷ [])) ∙ fs old (emit_error error errors)

  if-IsWriter :
      (b : Bool) (f g : Emits A)
      → IsWriter f
      → IsWriter g
      → IsWriter (λ errors. if b then f errors else g errors)
  unfolding IsWriter
  if-IsWriter true f g fs gs = fs
  if-IsWriter false f g fs gs = gs

module _ {P M : Type 0} (syn : Syn P M) where
  -- The error for an item that is not the identifier.
  abbrev pub complaint : P → Error
  complaint p =
      if is_allowed syn p allowed_attr_meta_items
      then invalid_attribute_position
      else unrecognized_attribute

  scan-IsWriter : (ident : String) (nested : List (Meta P M)) → IsWriter (scan syn ident nested)
  unfolding scan
  scan-IsWriter ident [] = pure-IsWriter false
  scan-IsWriter ident (path p ∷ rest) =
      if-IsWriter (syn.is_ident p ident) (λ errors. (true, errors))
        (λ errors. scan syn ident rest (emit_error (complaint p) errors)) (pure-IsWriter true)
        (emit-IsWriter (complaint p) (scan syn ident rest) (scan-IsWriter ident rest))
  scan-IsWriter ident (list m ∷ rest) =
      emit-IsWriter invalid_attribute (scan syn ident rest) (scan-IsWriter ident rest)
  scan-IsWriter ident (name_value ∷ rest) =
      emit-IsWriter invalid_attribute (scan syn ident rest) (scan-IsWriter ident rest)

  match_meta-IsWriter : (meta : Meta P M) → IsWriter (match_meta syn meta)
  unfolding match_meta
  match_meta-IsWriter (list meta) = pure-IsWriter (some meta)
  match_meta-IsWriter (path p) =
      emit-IsWriter invalid_attribute (λ errors. (none, errors)) (pure-IsWriter none)
  match_meta-IsWriter name_value =
      emit-IsWriter invalid_attribute (λ errors. (none, errors)) (pure-IsWriter none)

  get_meta_items-IsWriter : (attr : Attribute P M) → IsWriter (get_meta_items syn attr)
  unfolding get_meta_items
  get_meta_items-IsWriter attr =
      if-IsWriter (syn.is_ident attr.path "rust_cc") (match_meta syn attr.meta)
        (λ errors. (none, errors)) (match_meta-IsWriter attr.meta) (pure-IsWriter none)

  nested_contains-IsWriter :
      (nested : Option (List (Meta P M))) (ident : String)
      → IsWriter (nested_contains syn nested ident)
  unfolding nested_contains
  nested_contains-IsWriter none ident =
      emit-IsWriter invalid_attribute (λ errors. (false, errors)) (pure-IsWriter false)
  nested_contains-IsWriter (some nested) ident = scan-IsWriter ident nested

  list_contains-IsWriter :
      (items : Option M) (ident : String) → IsWriter (list_contains syn items ident)
  unfolding list_contains
  list_contains-IsWriter none ident = pure-IsWriter false
  list_contains-IsWriter (some meta_list) ident =
      nested_contains-IsWriter (syn.parse_args meta_list) ident

  attr_contains-IsWriter :
      (attr : Attribute P M) (ident : String) → IsWriter (attr_contains syn attr ident)
  unfolding attr_contains
  attr_contains-IsWriter attr ident =
      then-IsWriter (get_meta_items syn attr) (λ items. list_contains syn items ident)
        (get_meta_items-IsWriter attr) (λ items. list_contains-IsWriter items ident)

  pub any_contains-IsWriter :
      (attrs : List (Attribute P M)) (ident : String) → IsWriter (any_contains syn attrs ident)
  unfolding any_contains
  any_contains-IsWriter [] ident = pure-IsWriter false
  any_contains-IsWriter (attr ∷ attrs) ident =
      then-IsWriter (λ errors. attr_contains syn attr ident errors)
        (λ found errors. if found then (true, errors) else any_contains syn attrs ident errors)
        (attr_contains-IsWriter attr ident)
        (λ found.
          if-IsWriter found (λ errors. (true, errors)) (any_contains syn attrs ident)
            (pure-IsWriter true) (any_contains-IsWriter attrs ident))

module _ {A : Type 0} where
  pub run-IsWriter :
      (f : Emits A) → IsWriter f → (errors : List Error) → f errors ≡ ((f []).0, errors ++ (f []).1)
  unfolding IsWriter
  run-IsWriter f fs errors = ap f (sym (append-nil errors)) ∙ fs errors []
