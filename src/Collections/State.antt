-- ===== src/Collections/State.antt =====
-- The state of a `Collection` and its operations, from pkg/schema/collection.go and `Schemas` of
-- factory.go.
use Prim.Native.Nat.{compare, Ordering}
use brent.Base.{
  ℕ, suc, String, Bool, true, Option, none, some, List, [], ◌∷◌, map, values, Dict, keys, lookup,
  insert, ◌==◌, string_eq, if◌then◌else◌, contains, keep, all, for_each, to_lower,
}
use brent.AccessControl.AccessSet.{AccessSet}
use brent.AccessControl.Store.{ResultCache}
use brent.AccessControl.ByVerb.{is_empty}
use brent.Api.Errors.{Result, ok, err, panic}
use brent.Api.Types.{ApiSchema, Handler}
use brent.Api.Attributes.{Convert, GroupVersionKind, GroupVersionResource, gvk, gvr}
use brent.Api.Schemas.{Schemer, ApiSchemas}
use brent.Factory.{schemas_for_subject}
use brent.Collections.{Template, Templates, templates_at, apply_templates, gvr_eq, gvk_eq}

-- `Collection`, but for its cache; `running` has the schemas whose templates were started
pub record Collection : Type 0 where
  pub schemas : Dict String ApiSchema
  pub templates : Templates
  pub notifiers : List (ℕ × Handler)
  pub notifier_id : ℕ
  pub by_gvr : Dict GroupVersionResource String
  pub by_gvk : Dict GroupVersionKind String
  pub running : List String

-- `NewCollection`
abbrev pub new_collection : Collection
new_collection = record {
  schemas = [];
  templates = [];
  notifiers = [];
  notifier_id = 0;
  by_gvr = [];
  by_gvk = [];
  running = [];
}

abbrev pub drop_notifier : ℕ → List (ℕ × Handler) → List (ℕ × Handler)
drop_notifier id [] = []
drop_notifier id ((j, f) ∷ l) =
    let rest = drop_notifier id l in elim (compare id j) [ Ordering.eq ↦ rest | _ ↦ (j, f) ∷ rest ]

-- `OnChange`, and what it does when its context ends
abbrev pub on_change : Handler → Collection → Collection
on_change f c = record c {
  notifiers = (c.notifier_id, f) ∷ c.notifiers;
  notifier_id = suc c.notifier_id;
}

abbrev pub end_notifier : ℕ → Collection → Collection
end_notifier id c = record c { notifiers = drop_notifier id c.notifiers }

module _ (starts : Handler → Bool) where
  abbrev pub starts_ok : Option Handler → Bool
  starts_ok none = true
  starts_ok (some h) = starts h

  abbrev pub template_starts : Template → Bool
  template_starts t = starts_ok t.start

  -- `start`: whether no template fails; what follows a failure is not started
  unfoldable pub start : List Template → Bool
  start l = all template_starts l

  abbrev pub start_one : Templates → String → List String → List String
  start_one m id running =
      if contains running id
      then running
      else if is_empty (templates_at m id)
      then running
      else if start (templates_at m id)
      then id ∷ running
      else running

  -- `startStopTemplate`
  unfoldable pub start_stop_template : Templates → Dict String ApiSchema → List String → List String
  unfolding start
  start_stop_template m schemas running =
      keep (contains (keys schemas)) (for_each (keys schemas) (start_one m) running)

module _ ⦃conv : Convert⦄ where
  abbrev pub index_gvr :
      ApiSchema → Dict GroupVersionResource String → Dict GroupVersionResource String
  index_gvr s m = if (gvr s).resource == "" then m else insert (gvr s) s.id m

  abbrev pub index_gvk : ApiSchema → Dict GroupVersionKind String → Dict GroupVersionKind String
  index_gvk s m = if (gvk s).kind == "" then m else insert (gvk s) s.id m

  abbrev pub with_templates : Templates → String × ApiSchema → String × ApiSchema
  with_templates m (id, s) = (id, apply_templates m s)

  -- `Reset`, but for the cache, which it empties, and the calls of the notifiers
  unfoldable pub reset : (Handler → Bool) → Dict String ApiSchema → Collection → Collection
  unfolding start_stop_template
  reset starts schemas c = record c {
    schemas = map (with_templates c.templates) schemas;
    by_gvr = for_each (values schemas) index_gvr [];
    by_gvk = for_each (values schemas) index_gvk [];
    running = start_stop_template starts c.templates schemas c.running;
  }

abbrev pub or_no_id : Option String → String
or_no_id none = ""
or_no_id (some id) = id

-- `Schema`
abbrev pub schema_at : Collection → String → Option ApiSchema
schema_at c id = lookup id c.schemas

abbrev pub see : String → List String → List String
see id seen = if contains seen id then seen else id ∷ seen

-- `IDs`, in some order
unfoldable pub ids : Collection → List String
ids c = for_each (values c.by_gvr) see []

-- `ByGVK`
unfoldable pub lookup_gvk : Collection → GroupVersionKind → String
lookup_gvk c g = or_no_id (lookup g c.by_gvk)

abbrev pub or_gvk : Collection → Option String → GroupVersionKind → String
or_gvk c (some id) g = id
or_gvk c none g = lookup_gvk c g

-- `ByGVR`, with the plural that the schemer library guesses
unfoldable pub lookup_gvr : (String → String) → Collection → GroupVersionResource → String
unfolding lookup_gvk
lookup_gvr guess_plural c g =
    or_gvk c (lookup g c.by_gvr)
      (record { group = g.group; version = g.version; kind = guess_plural (to_lower g.resource) })

module _ ⦃conv : Convert⦄ (lib : Schemer) (cache : ResultCache (ApiSchemas lib)) where
  open cache use {Carrier, find, put}

  abbrev fill :
      AccessSet
      → Carrier
      → Dict String ApiSchema
      → Option (ApiSchemas lib)
      → Result (ApiSchemas lib) × Dict String ApiSchema
      → Result (ApiSchemas lib) × Carrier × Dict String ApiSchema
  fill access c schemas (some found) computed = (ok found, c, schemas)
  fill access c schemas none (ok made, changed) = (ok made, put access.id made c, changed)
  fill access c schemas none (err e, changed) = (err e, c, changed)
  fill access c schemas none (panic, changed) = (panic, c, changed)

  -- `Schemas`, for the user's access set and the base schemas: the schemas, the cache, and the
  -- collection's own schemas, which making the user's may change
  unfoldable pub schemas_of_user :
      List ApiSchema
      → List ApiSchema
      → Dict String ApiSchema
      → AccessSet
      → Carrier
      → Result (ApiSchemas lib) × Carrier × Dict String ApiSchema
  schemas_of_user builtin base schemas access c =
      fill access c schemas (find access.id c) (schemas_for_subject access lib builtin base schemas)
