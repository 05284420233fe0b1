-- ===== src/Collections.antt =====
-- pkg/schema/collection.go, and `Schemas` and `applyTemplates` of factory.go: the collection of
-- schemas, its templates, its lookups and its cache.
pub mod State
pub mod Running
pub mod Lookups
use brent.Base.{
  ℕ, ◌+◌, String, ◌≡◌, refl, sym, ◌↔◌, Bool, true, false, not, ◌&&◌, Option, none, some, List, [],
  ◌∷◌, ◌++◌, map, Dict, keys, lookup, insert, remove, Comparable, ◌==◌, string_eq, if◌then◌else◌,
  contains, keep, all, for_each, ◌<>◌, to_lower, arith, eq_iff,
}
use brent.AccessControl.AccessSet.{AccessSet}
use brent.AccessControl.ByVerb.{is_empty}
use brent.Api.Errors.{Error, Result, ok, err, panic}
use brent.Api.Types.{ApiSchema, Handler}
use brent.Api.Attributes.{Convert, GroupVersionKind, GroupVersionResource, gvk, gvr, group, kind}

-- `Template`; its functions are external, `store_factory` with the default store
pub record Template : Type 0 where
  pub group : String
  pub kind : String
  pub id : String
  pub customize : Option (ApiSchema → ApiSchema)
  pub formatter : List Handler
  pub store : Option Handler
  pub start : Option Handler
  pub store_factory : Option (Option Handler → Option Handler)

abbrev pub Templates : Type 0
Templates = Dict String (List Template)

abbrev pub or_no_templates : Option (List Template) → List Template
or_no_templates none = []
or_no_templates (some l) = l

-- `c.templates[k]`
abbrev pub templates_at : Templates → String → List Template
templates_at m k = or_no_templates (lookup k m)

abbrev pub add_at : String → Template → Templates → Templates
add_at k t m = insert k (templates_at m k ++ t ∷ []) m

-- one round of `AddTemplate`
abbrev pub add_one_template : Template → Templates → Templates
add_one_template t m =
    if not (t.kind == "")
    then add_at (t.group <> ("/" <> t.kind)) t m
    else if not (t.id == "")
    then add_at t.id t m
    else if t.group == ""
    then add_at "" t m
    else m

-- `AddTemplate`
unfoldable pub add_template : List Template → Templates → Templates
add_template l m = for_each l add_one_template m

abbrev pub first_store : List Template → Option Handler
first_store [] = none
first_store (t ∷ l) = t.store

-- `defaultStore`
unfoldable pub default_store : Templates → Option Handler
default_store m = first_store (templates_at m "")

-- a chain of formatters, the template's first; a nil formatter is the empty chain
abbrev pub take_formatter : Template → ApiSchema → ApiSchema
take_formatter t s =
    if is_empty s.formatter
    then record s { formatter = t.formatter }
    else if is_empty t.formatter
    then s
    else record s { formatter = t.formatter ++ s.formatter }

abbrev pub made_store :
    Templates → Template → Option (Option Handler → Option Handler) → Option Handler
made_store m t none = t.store
made_store m t (some f) = f (default_store m)

abbrev pub take_store : Templates → Template → Option Handler → ApiSchema → ApiSchema
take_store m t none s = record s { store = made_store m t t.store_factory }
take_store m t (some store) s = s

abbrev pub customized : Option (ApiSchema → ApiSchema) → ApiSchema → ApiSchema
customized none s = s
customized (some f) s = f s

abbrev pub apply_template : Templates → Template → ApiSchema → ApiSchema
apply_template m t s =
    let s' = take_formatter t s in customized t.customize (take_store m t s'.store s')

module _ ⦃conv : Convert⦄ where
  -- `applyTemplates`
  unfoldable pub apply_templates : Templates → ApiSchema → ApiSchema
  unfolding default_store
  apply_templates m s =
      for_each
        (templates_at m s.id ++ (templates_at m (group s <> ("/" <> kind s)) ++ templates_at m ""))
        (apply_template m) s

abbrev pub gvr_equal : GroupVersionResource → GroupVersionResource → Bool
gvr_equal a b = a.group == b.group && (a.version == b.version && a.resource == b.resource)

abbrev pub gvk_equal : GroupVersionKind → GroupVersionKind → Bool
gvk_equal a b = a.group == b.group && (a.version == b.version && a.kind == b.kind)

pub gvr_equal_iff : (a b : GroupVersionResource) → (gvr_equal a b ≡ true) ↔ (a ≡ b)
gvr_equal_iff a b =
    ground (arith, eq_iff a.group b.group, eq_iff a.version b.version, eq_iff a.resource b.resource)

pub gvk_equal_iff : (a b : GroupVersionKind) → (gvk_equal a b ≡ true) ↔ (a ≡ b)
gvk_equal_iff a b =
    ground (arith, eq_iff a.group b.group, eq_iff a.version b.version, eq_iff a.kind b.kind)

instance abbrev pub gvr_eq : Comparable GroupVersionResource
gvr_eq = record { equal = gvr_equal; equal_iff = gvr_equal_iff }

instance abbrev pub gvk_eq : Comparable GroupVersionKind
gvk_eq = record { equal = gvk_equal; equal_iff = gvk_equal_iff }
