-- ===== src/Factory/Methods.antt =====
-- Which methods a user's copy of a schema offers, and so what the schema's own checks allow.
use brent.Base.{
  String, ◌≡◌, ◌∙◌, ap, ◌↔◌, Bool, true, false, not, ◌&&◌, ◌||◌, none, some, [], ◌∷◌, arith, ◌==◌,
  string_eq, any-append, contains, Bool-cases, inl, inr,
}
use brent.AccessControl.AccessSet.{AccessSet}
use brent.AccessControl.ByVerb.{AccessListByVerb, at_verb, is_empty, any_verb}
use brent.Api.Types.{ApiSchema, method_get, method_post, method_put, method_patch, method_delete}
use brent.Api.Attributes.{Convert, gr, verbs, set_access, set_val}
use brent.Decisions.{allow_if, can_create, can_get, can_list, can_update, can_delete}
use brent.Factory.{
  usable, verb_access, widen_access, touch_shared, set_methods, grow, visit, is_namespaces,
  if_any_method, add_resource_method, add_collection_method,
}
use brent.Factory.VerbAccess.{at_verb-verb_access}

allow_if_iff : (b : Bool) (message : String) → (allow_if b message ≡ none) ↔ (b ≡ true)
allow_if_iff b message = ground arith

-- the user may use the verb on the resource
abbrev pub has : AccessListByVerb → String → Bool
has m verb = not (is_empty (at_verb m verb))

abbrev offers : ApiSchema → String → Bool
offers t x = contains t.resource_methods x

abbrev collects : ApiSchema → String → Bool
collects t x = contains t.collection_methods x

offers-add :
    (m x : String) (t : ApiSchema) → offers (add_resource_method m t) x ≡ (offers t x || m == x)
offers-add m x t = ground (arith, any-append (λ y. y == x) t.resource_methods (m ∷ []))

collects-add :
    (m x : String) (t : ApiSchema)
    → collects (add_collection_method m t) x ≡ (collects t x || m == x)
collects-add m x t = ground (arith, any-append (λ y. y == x) t.collection_methods (m ∷ []))

or_false : (b : Bool) → b ≡ (b || false)
or_false b = ground arith

or_assoc : (a b c : Bool) → ((a || b) || c) ≡ (a || (b || c))
or_assoc a b c = ground arith

gather : (o r d u c : Bool) → ((((o || r) || d) || u) || (c && false)) ≡ (o || (r || (d || u)))
gather o r d u c = ground arith

gather_two :
    (o r c u d : Bool) → ((((o || r) || (d && false)) || (u && false)) || c) ≡ (o || (r || c))
gather_two o r c u d = ground arith

-- a step that offers some methods more when its test passes
offers-grow :
    (b more : Bool) (x : String) (f : ApiSchema → ApiSchema) (s : ApiSchema)
    → offers (f s) x ≡ (offers s x || more)
    → offers (grow b f s) x ≡ (offers s x || (b && more))
offers-grow true more x f s h = h
offers-grow false more x f s h = ground arith

collects-grow :
    (b more : Bool) (x : String) (f : ApiSchema → ApiSchema) (s : ApiSchema)
    → collects (f s) x ≡ (collects s x || more)
    → collects (grow b f s) x ≡ (collects s x || (b && more))
collects-grow true more x f s h = h
collects-grow false more x f s h = ground arith

module _ (m : AccessListByVerb) (x : String) (s : ApiSchema) where
  abbrev add_read : ApiSchema → ApiSchema
  add_read t = add_collection_method method_get (add_resource_method method_get t)

  abbrev add_update : ApiSchema → ApiSchema
  add_update t = add_resource_method method_patch (add_resource_method method_put t)

  abbrev after_read : ApiSchema
  after_read = grow (any_verb m ("list" ∷ "get" ∷ [])) add_read s

  abbrev after_delete : ApiSchema
  after_delete = grow (any_verb m ("delete" ∷ [])) (add_resource_method method_delete) after_read

  abbrev after_update : ApiSchema
  after_update = grow (any_verb m ("update" ∷ [])) add_update after_delete

  offers-set_methods : offers (set_methods m s) x ≡ (
      offers s x
      || ((any_verb m ("list" ∷ "get" ∷ []) && method_get == x)
          || ((any_verb m ("delete" ∷ []) && method_delete == x)
              || (any_verb m ("update" ∷ []) && (method_put == x || method_patch == x)))))
  unfolding set_methods
  offers-set_methods =
      let reads = any_verb m ("list" ∷ "get" ∷ []) in
      let deletes = any_verb m ("delete" ∷ []) in
      let updates = any_verb m ("update" ∷ []) in
      let read = offers-grow reads (method_get == x) x add_read s (offers-add method_get x s) in
      let delete =
        offers-grow deletes (method_delete == x) x (add_resource_method method_delete) after_read
          (offers-add method_delete x after_read) in
      let update =
        offers-grow updates (method_put == x || method_patch == x) x add_update after_delete (
          offers-add method_patch x (add_resource_method method_put after_delete)
          ∙ ap (λ b. b || method_patch == x) (offers-add method_put x after_delete)
          ∙ or_assoc (offers after_delete x) (method_put == x) (method_patch == x)) in
      offers-grow (any_verb m ("create" ∷ [])) false x (add_collection_method method_post)
        after_update (or_false (offers after_update x))
      ∙ ap (λ b. b || (any_verb m ("create" ∷ []) && false))
          (update
            ∙ ap (λ b. b || (updates && (method_put == x || method_patch == x)))
                (delete ∙ ap (λ b. b || (deletes && method_delete == x)) read))
      ∙ gather (offers s x) (reads && method_get == x) (deletes && method_delete == x)
          (updates && (method_put == x || method_patch == x)) (any_verb m ("create" ∷ []))

  collects-set_methods : collects (set_methods m s) x ≡ (
      collects s x
      || ((any_verb m ("list" ∷ "get" ∷ []) && method_get == x)
          || (any_verb m ("create" ∷ []) && method_post == x)))
  unfolding set_methods
  collects-set_methods =
      let reads = any_verb m ("list" ∷ "get" ∷ []) in
      let deletes = any_verb m ("delete" ∷ []) in
      let updates = any_verb m ("update" ∷ []) in
      let read =
        collects-grow reads (method_get == x) x add_read s
          (collects-add method_get x (add_resource_method method_get s)) in
      let delete =
        collects-grow deletes false x (add_resource_method method_delete) after_read
          (or_false (collects after_read x)) in
      let update =
        collects-grow updates false x add_update after_delete
          (or_false (collects after_delete x)) in
      collects-grow (any_verb m ("create" ∷ [])) (method_post == x) x
        (add_collection_method method_post) after_update (collects-add method_post x after_update)
      ∙ ap (λ b. b || (any_verb m ("create" ∷ []) && method_post == x))
          (update
            ∙ ap (λ b. b || (updates && false)) (delete ∙ ap (λ b. b || (deletes && false)) read))
      ∙ gather_two (collects s x) (reads && method_get == x)
          (any_verb m ("create" ∷ []) && method_post == x) updates deletes

if_any_method-eq : (u t : ApiSchema) → if_any_method u ≡ some t → u ≡ t
if_any_method-eq u t h =
    elim (Bool-cases (is_empty u.collection_methods && is_empty u.resource_methods)) [
      | inl nothing ↦ cc (rw nothing at h)
      | inr something ↦ cc (rw something at h)
    ]

module _ ⦃conv : Convert⦄ (access : AccessSet) where
  widen_access-other :
      (s : ApiSchema) (m : AccessListByVerb)
      → is_namespaces (gr s) ≡ false
      → widen_access access s m ≡ m
  unfolding widen_access
  widen_access-other s m other = ground (arith, other)

  touch_shared-other :
      (s : ApiSchema) (m : AccessListByVerb)
      → is_namespaces (gr s) ≡ false
      → touch_shared access s m ≡ s
  unfolding touch_shared
  touch_shared-other s m other = elim (Bool-cases (is_empty m)) [
    | inl nothing ↦ rw (nothing, other)
    | inr something ↦ rw something
  ]

  -- the user may use the verb on the schema's resource
  abbrev pub may : ApiSchema → String → Bool
  may s verb = contains (verbs s) verb && not (is_empty (usable access s verb))

  any_verb-may :
      (s : ApiSchema) (verb : String)
      → any_verb (verb_access access s) (verb ∷ []) ≡ (may s verb || false)
  unfolding any_verb
  any_verb-may s verb = ground (arith, at_verb-verb_access access s verb)

  any_verb-may_read :
      (s : ApiSchema)
      → any_verb (verb_access access s) ("list" ∷ "get" ∷ []) ≡ (may s "list" || may s "get")
  unfolding any_verb
  any_verb-may_read s =
      ground (arith, at_verb-verb_access access s "list", at_verb-verb_access access s "get")

  copy : ApiSchema → ApiSchema
  copy s = set_methods (verb_access access s) (set_access (verb_access access s) s)

  visible-eq :
      (s t : ApiSchema)
      → ((gr s).resource == "") ≡ false
      → is_namespaces (gr s) ≡ false
      → (visit access s).visible ≡ some t
      → copy s ≡ t
  unfolding visit copy
  visible-eq s t real other h =
      let m = verb_access access s in
      let e : if_any_method (
            set_methods (widen_access access s m)
              (set_access (widen_access access s m) (touch_shared access s m)))
          ≡ some t =
        rw real at h in
      if_any_method-eq _ t (rw (widen_access-other s m other, touch_shared-other s m other) at e)

  offers-copy :
      (s : ApiSchema) (x : String)
      → offers (copy s) x ≡ (
          offers s x
          || (((may s "list" || may s "get") && method_get == x)
              || (((may s "delete" || false) && method_delete == x)
                  || ((may s "update" || false) && (method_put == x || method_patch == x)))))
  unfolding copy set_access set_val
  offers-copy s x =
      let m = verb_access access s in
      rw (← any_verb-may_read s, ← any_verb-may s "delete", ← any_verb-may s "update")
        (offers-set_methods m x (set_access m s))

  collects-copy :
      (s : ApiSchema) (x : String)
      → collects (copy s) x ≡ (
          collects s x
          || (((may s "list" || may s "get") && method_get == x)
              || ((may s "create" || false) && method_post == x)))
  unfolding copy set_access set_val
  collects-copy s x =
      let m = verb_access access s in
      rw (← any_verb-may_read s, ← any_verb-may s "create")
        (collects-set_methods m x (set_access m s))

  -- If a user sees a schema of a resource other than `namespaces`, the schema's checks allow
  -- exactly what its own methods allow or the user may do: to delete with the verb delete, to
  -- update with update, to create with create, to get with list or get, and to list with list, get
  -- or create.
  pub visit-allows :
      (s t : ApiSchema)
      → ((gr s).resource == "") ≡ false
      → is_namespaces (gr s) ≡ false
      → (visit access s).visible ≡ some t
      → ((can_delete t ≡ none)
          ↔ ((contains s.resource_methods method_delete || may s "delete") ≡ true))
        × ((can_update t ≡ none)
            ↔ ((contains s.resource_methods method_put || may s "update") ≡ true))
        × ((can_create t ≡ none)
            ↔ ((contains s.collection_methods method_post || may s "create") ≡ true))
        × ((can_get t ≡ none)
            ↔ ((contains s.resource_methods method_get || (may s "list" || may s "get")) ≡ true))
        × ((can_list t ≡ none) ↔ (
            ((contains s.collection_methods method_get || contains s.collection_methods method_post)
              || (may s "list" || (may s "get" || may s "create")))
            ≡ true))
  unfolding can_delete can_update can_create can_get can_list
  visit-allows s t real other h =
      let e = visible-eq s t real other h in
      let offer : (x : String) → offers t x ≡ _ = λ x. rw e at (offers-copy s x) in
      let collect : (x : String) → collects t x ≡ _ = λ x. rw e at (collects-copy s x) in
      (
        ground (arith, offer method_delete),
        ground (arith, offer method_put),
        ground (arith, collect method_post),
        ground (arith, offer method_get),
        ground (arith, collect method_get, collect method_post),
      )
