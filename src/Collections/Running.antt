-- ===== src/Collections/Running.antt =====
-- Which templates run after a reset.
use brent.Base.{
  String, ◌≡◌, refl, ap, Bool, not, ◌&&◌, ◌||◌, List, [], ◌∷◌, Dict, keys, ◌==◌, string_eq, eq_iff,
  any, contains, any-keep, for_each, for_each-any, any_of_contains, arith, Bool-cases, inl, inr,
}
use brent.AccessControl.ByVerb.{is_empty}
use brent.Api.Types.{ApiSchema, Handler}
use brent.Api.Attributes.{Convert}
use brent.Collections.{Templates, templates_at}
use brent.Collections.State.{Collection, start, start_one, start_stop_template, reset}

module _ (starts : Handler → Bool) (m : Templates) where
  -- the schema has templates, and all of them start
  abbrev pub ready : String → Bool
  ready id = not (is_empty (templates_at m id)) && start starts (templates_at m id)

  contains-start_one :
      (k id : String) (running : List String)
      → contains (start_one starts m id running) k ≡ ((id == k && ready id) || contains running k)
  contains-start_one k id running = elim (Bool-cases (contains running id)) [
    | inl old ↦ ground (arith, old, eq_iff id k, any_of_contains (λ x. x == k) running id old)
    | inr new ↦ ground (arith, new)
  ]

  any-ready :
      (k : String) (l : List String) → any (λ id. id == k && ready id) l ≡ (contains l k && ready k)
  any-ready k [] = refl
  any-ready k (x ∷ l) = elim (Bool-cases (x == k)) [
    | inl here ↦ ground (arith, here, any-ready k l, ap ready ((eq_iff x k).0 here))
    | inr other ↦ ground (arith, other, any-ready k l)
  ]

  kept_in :
      (l r : List String) (k : String)
      → any (λ x. contains l x && x == k) r ≡ (contains l k && contains r k)
  kept_in l [] k = ground arith
  kept_in l (x ∷ r) k = elim (Bool-cases (x == k)) [
    | inl here ↦ ground (arith, here, kept_in l r k, ap (contains l) ((eq_iff x k).0 here))
    | inr other ↦ ground (arith, other, kept_in l r k)
  ]

  -- After `startStopTemplate` the templates of a schema run exactly when the schema is among the new
  -- ones and its templates ran before, or it has templates and all of them start.
  contains-start_stop_template :
      (schemas : Dict String ApiSchema) (running : List String) (k : String)
      → contains (start_stop_template starts m schemas running) k
        ≡ (contains (keys schemas) k && (ready k || contains running k))
  unfolding start_stop_template
  contains-start_stop_template schemas running k =
      let started = for_each (keys schemas) (start_one starts m) running in
      ground (
        arith,
        any-keep (λ x. x == k) (contains (keys schemas)) started,
        kept_in (keys schemas) started k,
        for_each-any (λ r. contains r k) (λ id. id == k && ready id) (start_one starts m)
            (contains-start_one k) (keys schemas) running,
        any-ready k (keys schemas),
      )

-- After `Reset` the templates of a schema run exactly when the schema is among the new ones, and
-- they ran before, or there are some and all of them start.
pub contains-running-reset :
    ⦃conv : Convert⦄ (starts : Handler → Bool) (schemas : Dict String ApiSchema) (c : Collection)
    (k : String)
    → contains (reset starts schemas c).running k
      ≡ (contains (keys schemas) k && (ready starts c.templates k || contains c.running k))
unfolding reset
contains-running-reset starts schemas c k =
    contains-start_stop_template starts c.templates schemas c.running k
