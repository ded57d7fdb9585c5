-- ===== src/Derive.antt =====
-- The derive macros of derive/src/lib.rs. The attributes are those of the crate syn, the structure
-- is that of synstructure: both are parameters, with what they document as laws. Errors that are
-- emitted are kept in a list, to which each is appended.
pub mod Emits
pub mod Attributes
pub mod Filters
pub mod Arms
pub mod Generated
pub mod Accepted
use rust_cc.Prelude.{
  ℕ, Bool, true, false, not, ◌&&◌, ◌||◌, Option, none, some, List, [], ◌∷◌, ◌++◌, map, ◌≡◌,
  if◌then◌else◌,
}
use Prim.Native.String.{String}

abbrev pub ignore : String
ignore = "ignore"

abbrev pub unsafe_no_drop : String
unsafe_no_drop = "unsafe_no_drop"

abbrev pub allowed_attr_meta_items : List String
allowed_attr_meta_items = ignore ∷ unsafe_no_drop ∷ []

-- `syn::Meta`, over the types of paths and of arguments that syn gives attributes.
pub data Meta (P M : Type 0) : Type 0 where
  path : P → Meta P M
  list : M → Meta P M
  name_value : Meta P M

-- What the macros ask syn: whether a path is an identifier, and what the arguments of an attribute
-- are when they parse as metas between commas.
pub record Syn (P M : Type 0) : Type 0 where
  pub is_ident : P → String → Bool
  pub parse_args : M → Option (List (Meta P M))

pub record Attribute (P M : Type 0) : Type 0 where
  pub path : P
  pub meta : Meta P M

-- What `emit_error!` is called with.
pub data Error : Type 0 where
  invalid_attribute invalid_attribute_position unrecognized_attribute : Error

abbrev pub Emits : Type 0 → Type 0
Emits A = List Error → A × List Error

abbrev pub emit_error : Error → List Error → List Error
emit_error error errors = errors ++ error ∷ []

-- A field as it is bound in a pattern, with its type as it is spelled.
pub record BindingInfo (P M : Type 0) : Type 0 where
  pub binding : String
  pub ty : String
  pub attrs : List (Attribute P M)

pub record VariantInfo (P M : Type 0) : Type 0 where
  pub attrs : List (Attribute P M)
  pub bindings : List (BindingInfo P M)

-- `<#ty as rust_cc::Trace>::trace(#bi, #ctx);`
pub data Statement : Type 0 where
  trace_call : (ty binding : String) → Statement

-- An arm of the `match` in the body: that of a variant, or `_ => {}`.
pub data Arm : Type 0 where
  variant_arm : List Statement → Arm
  wildcard : Arm

-- An effectful `retain`, in order.
unfoldable pub retain : {A : Type 0} → (A → Emits Bool) → List A → Emits (List A)
retain f [] errors = ([], errors)
retain f (x ∷ xs) errors =
    let (kept, behind) = f x errors in
    let (rest, after) = retain f xs behind in (if kept then x ∷ rest else rest, after)

-- `Structure::filter`: the fields of one variant behind those of another.
unfoldable pub retain_bindings :
    {P M : Type 0}
    → (BindingInfo P M → Emits Bool)
    → List (VariantInfo P M)
    → Emits (List (VariantInfo P M))
retain_bindings f [] errors = ([], errors)
retain_bindings f (v ∷ vs) errors =
    let (kept, behind) = retain f v.bindings errors in
    let (rest, after) = retain_bindings f vs behind in (record v { bindings = kept } ∷ rest, after)

-- What the macros do with a structure, which knows whether variants were omitted from it. `each`
-- gives the arms of a `match` and threads the variable that its closure assigns to.
pub record Synstructure (P M Structure : Type 0) : Type 0 where
  pub attrs : Structure → List (Attribute P M)
  pub is_enum : Structure → Bool
  pub variants : Structure → List (VariantInfo P M)
  pub omitted_variants : Structure → Bool
  pub filter : (BindingInfo P M → Emits Bool) → Structure → Emits Structure
  pub filter_variants : (VariantInfo P M → Emits Bool) → Structure → Emits Structure
  pub each : (BindingInfo P M → Bool → Statement × Bool) → Structure → Bool → List Arm × Bool

pub data AddBounds : Type 0 where
  fields no_bounds : AddBounds

-- The implementations that are generated: that of `Trace` with its attribute and the arms of its
-- body, and the empty one of `Drop`, which keeps the client from writing another.
pub record TraceImpl : Type 0 where
  pub inline_always : Bool
  pub body : List Arm
  pub bounds : AddBounds

pub record Output : Type 0 where
  pub trace_impl : TraceImpl
  pub drop_impl : Option AddBounds

pub data Expansion : Type 0 where
  aborted : List Error → Expansion
  expanded : Output → Expansion

-- `abort_if_dirty()` in front of what follows.
unfoldable pub abort_if_dirty : List Error → Expansion → Expansion
abort_if_dirty [] rest = rest
abort_if_dirty (error ∷ errors) rest = aborted (error ∷ errors)

-- The closure that is given to `each`, with `has_no_variants`.
unfoldable pub trace_field : {P M : Type 0} → BindingInfo P M → Bool → Statement × Bool
trace_field bi has_no_variants = (trace_call bi.ty bi.binding, false)

module _ {P M : Type 0} (syn : Syn P M) where
  -- `match &attr.meta`
  unfoldable pub match_meta : Meta P M → Emits (Option M)
  match_meta (list meta) errors = (some meta, errors)
  match_meta (path p) errors = (none, emit_error invalid_attribute errors)
  match_meta name_value errors = (none, emit_error invalid_attribute errors)

  unfoldable pub get_meta_items : Attribute P M → Emits (Option M)
  get_meta_items attr errors =
      if syn.is_ident attr.path "rust_cc" then match_meta attr.meta errors else (none, errors)

  unfoldable pub is_allowed : P → List String → Bool
  is_allowed p [] = false
  is_allowed p (id ∷ ids) = syn.is_ident p id || is_allowed p ids

  -- `for meta in nested { .. }`, which ends at the identifier.
  unfoldable pub scan : String → List (Meta P M) → Emits Bool
  scan ident [] errors = (false, errors)
  scan ident (path p ∷ rest) errors =
      if syn.is_ident p ident
      then (true, errors)
      else scan ident rest (
          emit_error
            (if is_allowed p allowed_attr_meta_items
              then invalid_attribute_position
              else unrecognized_attribute)
            errors)
  scan ident (list m ∷ rest) errors = scan ident rest (emit_error invalid_attribute errors)
  scan ident (name_value ∷ rest) errors = scan ident rest (emit_error invalid_attribute errors)

  -- Behind `parse_args_with`.
  unfoldable pub nested_contains : Option (List (Meta P M)) → String → Emits Bool
  nested_contains none ident errors = (false, emit_error invalid_attribute errors)
  nested_contains (some nested) ident errors = scan ident nested errors

  -- Behind `get_meta_items`.
  unfoldable pub list_contains : Option M → String → Emits Bool
  list_contains none ident errors = (false, errors)
  list_contains (some meta_list) ident errors =
      nested_contains (syn.parse_args meta_list) ident errors

  unfoldable pub attr_contains : Attribute P M → String → Emits Bool
  attr_contains attr ident errors =
      let (items, behind) = get_meta_items attr errors in list_contains items ident behind

  -- `attrs.iter().any(|attr| attr_contains(attr, ident))`, which stops at the first that does.
  unfoldable pub any_contains : List (Attribute P M) → String → Emits Bool
  any_contains [] ident errors = (false, errors)
  any_contains (attr ∷ attrs) ident errors =
      let (found, behind) = attr_contains attr ident errors in
      let rest = any_contains attrs ident behind in if found then (true, behind) else rest

  unfoldable pub keeps_binding : BindingInfo P M → Emits Bool
  keeps_binding bi errors =
      let (ignored, behind) = any_contains bi.attrs ignore errors in (not ignored, behind)

  unfoldable pub keeps_variant : VariantInfo P M → Emits Bool
  keeps_variant vi errors =
      let (ignored, behind) = any_contains vi.attrs ignore errors in (not ignored, behind)

  module _ {Structure : Type 0} (ss : Synstructure P M Structure) where
    -- Behind `abort_if_dirty`.
    unfoldable pub generate : (no_drop : Bool) → Structure → Output
    generate no_drop s =
        let (body, has_no_variants) = ss.each trace_field s true in
        record {
          trace_impl = record { inline_always = has_no_variants; body = body; bounds = fields };
          drop_impl = if no_drop then none else some no_bounds;
        }

    unfoldable pub derive_trace_trait : Structure → Expansion
    derive_trace_trait s =
        let (no_drop, errors) = any_contains (ss.attrs s) unsafe_no_drop [] in
        let (filtered, behind) = ss.filter keeps_binding s errors in
        let (left, after) =
          if ss.is_enum filtered
          then ss.filter_variants keeps_variant filtered behind
          else (filtered, behind) in
        abort_if_dirty after (expanded (generate no_drop left))

-- The implementation of `Finalize` has no bounds, and no method of its own.
pub record FinalizeImpl : Type 0 where
  pub bounds : AddBounds
  pub methods : List String

unfoldable pub derive_finalize_trait : {Structure : Type 0} → Structure → FinalizeImpl
derive_finalize_trait s = record { bounds = no_bounds; methods = [] }
