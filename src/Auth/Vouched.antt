-- ===== src/Auth/Vouched.antt =====
-- Who is served: a user that the service vouched for, or one of two without authentication.
use brent.Base.{
  String, ◌≡◌, refl, sym, eq_iff, Bool, true, false, Option, none, some, ◌==◌, string_eq, inl, inr,
  Bool-cases,
}
use mathlib.Core.Path.{subst}
use brent.Auth.{
  User, Incoming, Token, token, token_error, token_of, TokenService, ask, authenticate_token,
  error_user, unauthenticated_user, served_user, failed_mark, authenticated,
}

-- reading the token failed, or the service did
pub data IsFailed (service : TokenService) : Token → Type 0 where
  unreadable : (e : String) → IsFailed service (token_error e)
  refused : (t e : String) → (service t).error ≡ some e → IsFailed service (token t)

-- there is no token, or the service does not know it
pub data IsUnknown (service : TokenService) : Token → Type 0 where
  absent : IsUnknown service (token "")
  unknown :
      (t : String)
      → (service t).error ≡ none
      → (service t).authenticated ≡ false
      → IsUnknown service (token t)

-- the service vouched for the user, for this very token
pub data IsVouched (service : TokenService) (u : Option User) : Token → Type 0 where
  vouched :
      (t : String)
      → (t == "") ≡ false
      → (service t).error ≡ none
      → (service t).authenticated ≡ true
      → (service t).user ≡ u
      → IsVouched service u (token t)

-- who is served for a token, and whether the request is marked
pub data Verdict (service : TokenService) (t : Token) (marked : Bool)
    : Option User → Bool → Type 0 where
  failure : IsFailed service t → Verdict service t marked (some error_user) true
  anonymous : IsUnknown service t → Verdict service t marked (some unauthenticated_user) marked
  known : (u : Option User) → IsVouched service u t → Verdict service t marked u marked

module _ (service : TokenService) where
  answer-Verdict :
      (t : String) (marked : Bool) (e : Option String) (ok : Bool) (u : Option User)
      → (t == "") ≡ false
      → (service t).error ≡ e
      → (service t).authenticated ≡ ok
      → (service t).user ≡ u
      → Verdict service (token t) marked (served_user e ok u) (failed_mark e marked)
  answer-Verdict t marked (some e) ok u full he hok hu = failure (refused t e he)
  answer-Verdict t marked none false u full he hok hu = anonymous (unknown t he hok)
  answer-Verdict t marked none true u full he hok hu = known u (vouched t full he hok hu)

  ask-Verdict :
      (t : Token) (marked : Bool)
      → Verdict service t marked
          (served_user (ask service t).error (ask service t).authenticated (ask service t).user)
          (failed_mark (ask service t).error marked)
  ask-Verdict (token_error e) marked = failure (unreadable e)
  ask-Verdict (token t) marked = elim (Bool-cases (t == "")) [
    | inl empty ↦ rw empty (
        subst (λ w. Verdict service (token w) marked (some unauthenticated_user) marked)
          (sym ((eq_iff t "").0 empty)) (anonymous absent))
    | inr full ↦ rw full (answer-Verdict t marked _ _ _ full refl refl refl)
  ]

-- Whatever the service answers, the request that the next handler is given has the user
-- system:cattle:error, and is marked, where the token could not be read or the service failed;
-- system:unauthenticated where there is no token or the service does not know it; and else the user
-- that the service vouched for, without an error, for the very token of the request, not empty.
-- In the last two cases its mark is as before.
pub authenticated-Verdict :
    (service : TokenService) (req : Incoming)
    → Verdict service
        (token_of req)
        req.auth_failed
        (authenticated (authenticate_token service) req).user
        (authenticated (authenticate_token service) req).auth_failed
unfolding authenticated authenticate_token
authenticated-Verdict service req = ask-Verdict service (token_of req) req.auth_failed
