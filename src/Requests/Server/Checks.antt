-- ===== src/Requests/Server/Checks.antt =====
-- What is checked before a store is called.
use mathlib.Core.Path.{subst}
use brent.Base.{
  ℕ, String, ◌≡◌, refl, sym, ◌⊎◌, inl, inr, ◌||◌, Bool, true, false, Option, none, some, ◌==◌,
  string_eq, eq_iff, if◌then◌else◌, arith, lookup,
}
use brent.Api.Errors.{Result, ok, err, panic}
use brent.Api.Types.{
  ApiSchema, Handler, method_get, method_post, method_put, method_patch, method_delete,
}
use brent.Api.Objects.{ApiObject, ApiObjectList}
use brent.Api.Attributes.{Convert}
use brent.Api.Schemas.{Schemer}
use brent.Requests.Http.{HttpRequest}
use brent.Requests.Parse.{ApiRequest, or_root}
use brent.Requests.Handlers.{
  by_id, list, create, update, delete, Call, stored, custom, served, Outcome, AccessControl, Store,
  Payload, create_handler, update_handler, delete_handler, by_id_handler, list_handler, serve_or,
  link_handler, calling,
}
use brent.Requests.Server.{
  check_csrf, handle_op, by_method, handle_action, act, of_schema, serve_action, handle_one,
  handle_list, validate_action,
}
use brent.Requests.Server.Calls.{
  Each, checked-Each, with_body-Each, with_store-Each, if_can-Each, if-Each, either, Each-and,
}

module _ (lib : Schemer) (control : AccessControl lib) where
  -- the handler of the schema's own for what the request asks, which is called without a check
  abbrev pub IsOwn : ApiRequest lib → ApiSchema → Handler → Type 0
  IsOwn op s h =
      ((op.method ≡ method_get) × ((op.name == "") ≡ true) × (s.list_handler ≡ some h))
      ⊎ (((op.method ≡ method_get) × ((op.name == "") ≡ false) × (s.by_id_handler ≡ some h))
          ⊎ ((((op.method ≡ method_patch) ⊎ (op.method ≡ method_put)) × (s.update_handler ≡ some h))
              ⊎ (((op.method ≡ method_post) × (s.create_handler ≡ some h))
                  ⊎ ((op.method ≡ method_delete) × (s.delete_handler ≡ some h)))))

  -- What must have been decided before a call: the check of the operation passed, for the
  -- request's method, on the schema's own store; a handler of a link needs the check to get, and a
  -- handler of an action the check of that action. A handler of the schema's own needs no check: it is
  -- the one for the request's method.
  abbrev pub Permitted : ApiRequest lib → ApiSchema → Call → Type 0
  Permitted op s (stored by_id store) =
      (op.method ≡ method_get) × (s.store ≡ some store) × (control.can_get op s ≡ none)
  Permitted op s (stored list store) =
      (op.method ≡ method_get) × (s.store ≡ some store) × (control.can_list op s ≡ none)
  Permitted op s (stored create store) =
      (op.method ≡ method_post) × (s.store ≡ some store) × (control.can_create op s ≡ none)
  Permitted op s (stored update store) =
      ((op.method ≡ method_patch) ⊎ (op.method ≡ method_put))
      × (s.store ≡ some store)
      × (control.can_update op s ≡ none)
  Permitted op s (stored delete store) =
      (op.method ≡ method_delete) × (s.store ≡ some store) × (control.can_delete op s ≡ none)
  Permitted op s (custom h) = IsOwn op s h
  Permitted op s (served h) =
      ((lookup op.link s.link_handlers ≡ some h) × (control.can_get op s ≡ none))
      ⊎ ((lookup op.action s.action_handlers ≡ some h) × (control.can_action op s op.action ≡ none))

  module _ ⦃conv : Convert⦄ (store_of : Handler → Store lib) (payload : HttpRequest → Payload)
      (op : ApiRequest lib) (s : ApiSchema) where
    create_handler-Each :
        op.method ≡ method_post
        → Each (Permitted op s) (create_handler lib control store_of payload op s).calls
    unfolding create_handler
    create_handler-Each post = checked-Each (Permitted op s) (control.can_create op s) _ λ can.
        with_body-Each (Permitted op s) _ _
          λ d. with_store-Each (Permitted op s) s.store _ λ store found. ((post, found, can), tt)

    delete_handler-Each :
        op.method ≡ method_delete
        → Each (Permitted op s) (delete_handler lib control store_of payload op s).calls
    unfolding delete_handler
    delete_handler-Each deleting = checked-Each (Permitted op s) (control.can_delete op s) _ λ can.
        with_store-Each (Permitted op s) s.store _ λ store found. ((deleting, found, can), tt)

    update_handler-Each :
        (op.method ≡ method_patch) ⊎ (op.method ≡ method_put)
        → Each (Permitted op s) (update_handler lib control store_of payload op s).calls
    unfolding update_handler
    update_handler-Each updating = checked-Each (Permitted op s) (control.can_update op s) _ λ can.
        with_body-Each (Permitted op s) _ _ λ d.
          with_store-Each (Permitted op s) s.store _ λ store found. ((updating, found, can), tt)

    serve_or-Each :
        (h : Option Handler) (rest : Outcome ApiObject)
        → link_handler lib op s ≡ h
        → control.can_get op s ≡ none
        → Each (Permitted op s) rest.calls
        → Each (Permitted op s) (serve_or h rest).calls
    serve_or-Each none rest found can h = h
    serve_or-Each (some link) rest found can h = (inl (ground (arith, found), can), tt)

    by_id_handler-Each :
        op.method ≡ method_get
        → Each (Permitted op s) (by_id_handler lib control store_of payload op s).calls
    unfolding by_id_handler
    by_id_handler-Each get = checked-Each (Permitted op s) (control.can_get op s) _ λ can.
        with_store-Each (Permitted op s) s.store _
          λ store found. serve_or-Each (link_handler lib op s) _ refl can ((get, found, can), tt)

    list_handler-Each :
        op.method ≡ method_get
        → (op.name == "") ≡ true
        → Each (Permitted op s) (list_handler lib control store_of payload op s).calls
    unfolding list_handler
    list_handler-Each get no_name =
        checked-Each (Permitted op s)
          (if op.name == "" then control.can_list op s else control.can_get op s) _
          λ can.
            with_store-Each (Permitted op s) s.store
              (λ store. calling (stored list store) ((store_of store).list op s))
              λ store found. ((get, found, ground (arith, no_name, can)), tt)

    module _ (one_of : Handler → ApiRequest lib → Result ApiObject)
        (many_of : Handler → ApiRequest lib → Result ApiObjectList) where
      handle_one-Each :
          (code : ℕ) (h : Option Handler) (rest : Outcome ApiObject)
          → ((own : Handler) → h ≡ some own → IsOwn op s own)
          → Each (Permitted op s) rest.calls
          → Each
              (Permitted op s)
              (handle_one lib control store_of payload one_of many_of code op h rest).calls
      handle_one-Each code none rest is_own h = h
      handle_one-Each code (some own) rest is_own h = (is_own own refl, tt)

      handle_list-Each :
          (h : Option Handler) (rest : Outcome ApiObjectList)
          → ((own : Handler) → h ≡ some own → IsOwn op s own)
          → Each (Permitted op s) rest.calls
          → Each
              (Permitted op s)
              (handle_list lib control store_of payload one_of many_of op h rest).calls
      handle_list-Each none rest is_own h = h
      handle_list-Each (some own) rest is_own h = (is_own own refl, tt)

      serve_action-Each :
          (h : Option Handler)
          → lookup op.action s.action_handlers ≡ h
          → control.can_action op s op.action ≡ none
          → Each (Permitted op s) (serve_action h).calls
      serve_action-Each none found can = tt
      serve_action-Each (some own) found can = (inr (found, can), tt)

      handle_action-Each :
          Each
            (Permitted op s)
            (handle_action lib control store_of payload one_of many_of op s).calls
      unfolding handle_action
      handle_action-Each =
          if_can-Each (Permitted op s) (control.can_action op s op.action) _
            λ can. serve_action-Each (lookup op.action s.action_handlers) refl can

      by_method-Each :
          Each (Permitted op s) (by_method lib control store_of payload one_of many_of op s).calls
      unfolding by_method
      by_method-Each =
          let is : (m : String) → (op.method == m) ≡ true → op.method ≡ m =
            λ m. (eq_iff op.method m).0 in
          if-Each (Permitted op s) (op.method == method_get) _ _
            (λ get.
              if-Each (Permitted op s) (op.name == "") _ _
                (λ no_name.
                  handle_list-Each s.list_handler _ (λ own f. inl (is method_get get, no_name, f))
                    (list_handler-Each (is method_get get) no_name))
                (λ named.
                  handle_one-Each 200 s.by_id_handler _
                    (λ own f. inr (inl (is method_get get, named, f)))
                    (by_id_handler-Each (is method_get get))))
            (λ not_get.
              if-Each (Permitted op s) (op.method == method_patch || op.method == method_put) _ _
                (λ update.
                  handle_one-Each 200 s.update_handler _
                    (λ own f. inr (inr (inl (either op.method update, f))))
                    (update_handler-Each (either op.method update)))
                (λ not_update.
                  if-Each (Permitted op s) (op.method == method_post) _ _
                    (λ post.
                      handle_one-Each 201 s.create_handler _
                        (λ own f. inr (inr (inr (inl (is method_post post, f)))))
                        (create_handler-Each (is method_post post)))
                    (λ not_post.
                      if-Each (Permitted op s) (op.method == method_delete) _ _
                        (λ deleting.
                          handle_one-Each 200 s.delete_handler _
                            (λ own f. inr (inr (inr (inr (is method_delete deleting, f)))))
                            (delete_handler-Each (is method_delete deleting)))
                        (λ unknown. tt))))

      act-Each :
          (action : Result Bool)
          → Each
              (Permitted op s)
              (act lib control store_of payload one_of many_of op s action).calls
      act-Each (ok true) = handle_action-Each
      act-Each (ok false) = by_method-Each
      act-Each (err e) = tt
      act-Each panic = tt

-- Every call of a store that handleOp makes has passed the check of its very operation, for the request's
-- method and the schema's own store; every handler of a link or an action that it calls is the schema's, and
-- the check to get or of the action passed. Of the schema's own handlers, which it calls without a check of
-- access, it calls only the one for the request's method, for a list only without a name. When the CSRF check
-- fails nothing is called.
pub handle_op-Permitted :
    (lib : Schemer) ⦃conv : Convert⦄ (control : AccessControl lib) (store_of : Handler → Store lib)
    (payload : HttpRequest → Payload) (one_of : Handler → ApiRequest lib → Result ApiObject)
    (many_of : Handler → ApiRequest lib → Result ApiObjectList) (op : ApiRequest lib)
    (random : Result String) (s : ApiSchema)
    → op.schema ≡ some s
    → Each
        (λ c.
          Permitted lib control op s c
          × ((check_csrf op.method (or_root op.request) random).0 ≡ none))
        (handle_op lib control store_of payload one_of many_of op random).0.calls
unfolding handle_op
handle_op-Permitted lib control store_of payload one_of many_of op random s found =
    let csrf = (check_csrf op.method (or_root op.request) random).0 in
    if_can-Each (λ c. Permitted lib control op s c × (csrf ≡ none)) csrf _
      λ passed.
        subst
          (λ o.
            Each (λ c. Permitted lib control op s c × (csrf ≡ none))
              (of_schema lib control store_of payload one_of many_of op o).calls)
          (sym found)
          (Each-and (Permitted lib control op s) (csrf ≡ none) _ passed (
            act-Each lib control store_of payload op s one_of many_of
              (validate_action lib control store_of payload one_of many_of op s)))
