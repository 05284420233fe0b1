-- ===== src/Requests/Server/Calls.antt =====
-- Conditions on all calls of an outcome, through the steps of a handler.
use brent.Base.{
  ℕ, String, ◌≡◌, refl, ◌⊎◌, inl, inr, ◌||◌, Bool, true, false, Option, none, some, List, [], ◌∷◌,
  ◌==◌, string_eq, eq_iff, if◌then◌else◌, arith, Bool-cases,
}
use brent.Api.Errors.{Error, Result, ok, err, panic}
use brent.Api.Types.{Handler, method_put, method_patch}
use brent.Api.Objects.{ApiObject}
use brent.Requests.Handlers.{Call, Outcome, checked, with_body, with_store}
use brent.Requests.Server.{Data, if_can}

-- every call meets the condition
abbrev pub Each : (Call → Type 0) → List Call → Type 0
Each P [] = Unit
Each P (c ∷ cs) = P c × Each P cs

module _ {A : Type 0} (P : Call → Type 0) where
  pub checked-Each :
      (check : Option Error) (rest : Outcome A)
      → (check ≡ none → Each P rest.calls)
      → Each P (checked check rest).calls
  checked-Each none rest h = h refl
  checked-Each (some e) rest h = tt

  pub with_body-Each :
      (data_ : Result ApiObject) (rest : ApiObject → Outcome A)
      → ((d : ApiObject) → Each P (rest d).calls)
      → Each P (with_body data_ rest).calls
  with_body-Each (ok d) rest h = h d
  with_body-Each (err e) rest h = tt
  with_body-Each panic rest h = tt

  pub with_store-Each :
      (store : Option Handler) (rest : Handler → Outcome A)
      → ((h : Handler) → store ≡ some h → Each P (rest h).calls)
      → Each P (with_store store rest).calls
  with_store-Each none rest h = tt
  with_store-Each (some store) rest h = h store refl

pub if_can-Each :
    (P : Call → Type 0) (check : Option Error) (rest : Outcome (ℕ × Data))
    → (check ≡ none → Each P rest.calls)
    → Each P (if_can check rest).calls
if_can-Each P none rest h = h refl
if_can-Each P (some e) rest h = tt

pub if-Each :
    {A : Type 0} (P : Call → Type 0) (b : Bool) (x y : Outcome A)
    → (b ≡ true → Each P x.calls)
    → (b ≡ false → Each P y.calls)
    → Each P (if b then x else y).calls
if-Each P true x y f g = f refl
if-Each P false x y f g = g refl

pub either :
    (method : String)
    → (method == method_patch || method == method_put) ≡ true
    → (method ≡ method_patch) ⊎ (method ≡ method_put)
either method h = elim (Bool-cases (method == method_patch)) [
  | inl patch ↦ inl ((eq_iff method method_patch).0 patch)
  | inr other ↦ inr ((eq_iff method method_put).0 (ground (arith, h, other)))
]

pub Each-and :
    (P : Call → Type 0) (Q : Type 0) (cs : List Call) → Q → Each P cs → Each (λ c. P c × Q) cs
Each-and P Q [] q h = tt
Each-and P Q (c ∷ cs) q h = ((h.0, q), Each-and P Q cs q h.1)
