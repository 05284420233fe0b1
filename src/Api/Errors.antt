-- ===== src/Api/Errors.antt =====
-- pkg/apierror/error.go, and Go's results with an error. A panic is a result of its own.
use mathlib.Core.Path.{subst}
use brent.Base.{ℕ, String, Option, none, some, ◌≡◌, refl}

-- `ErrorCode` of the validation library: its named codes, whose numbers are that library's, and
-- the codes that brent makes itself from a status and a reason.
pub data ErrorCode : Type 0 where
  permission_denied not_found method_not_allowed invalid_action invalid_csrf_token server_error
        invalid_body_content :
      ErrorCode
  made : ℕ → String → ErrorCode

pub record ApiError : Type 0 where
  pub code : ErrorCode
  pub message : String
  pub cause : Option String
  pub field_name : String

-- The dynamic types of `error` that brent tells apart: its own `ApiError`, a bare code,
-- `ErrComplete`, a status of the Kubernetes API, and any other error with its text.
pub data Error : Type 0 where
  api : ApiError → Error
  bare_code : ErrorCode → Error
  complete : Error
  api_status : ℕ → String → String → Error
  other : String → Error

-- `NewAPIError`
abbrev pub new_api_error : ErrorCode → String → Error
new_api_error code message =
    api (record { code = code; message = message; cause = none; field_name = "" })

-- `WrapAPIError`, by the text of the cause
abbrev pub wrap_api_error : String → ErrorCode → String → Error
wrap_api_error cause code message =
    api (record { code = code; message = message; cause = some cause; field_name = "" })

pub data Result {κ} (V : Type κ) : Type κ where
  panic : Result V
  err : Error → Result V
  ok : V → Result V

-- the rest of a function after `if err != nil { return err }`
infixl 5 ◌>>=◌
abbrev pub ◌>>=◌ {κ ι} : {V : Type κ} {W : Type ι} → Result V → (V → Result W) → Result W
panic >>= rest = panic
err e >>= rest = err e
ok v >>= rest = rest v

-- Two steps succeed only when the first does and the rest succeeds on its value.
pub >>=-eq-ok {κ ι} :
    {V : Type κ} {W : Type ι} (first : Result V) (rest : V → Result W) {w : W}
    → first >>= rest ≡ ok w
    → (v : V) × (first ≡ ok v) × (rest v ≡ ok w)
>>=-eq-ok panic rest succeeds = cc
>>=-eq-ok (err e) rest succeeds = cc
>>=-eq-ok (ok v) rest succeeds = (v, refl, succeeds)

pub ok-injective {ℓ} : {A : Type ℓ} {a b : A} → ok a ≡ ok b → a ≡ b
ok-injective p = cc

-- what holds of a result's value, if it has one
abbrev pub Gives {κ ℓ} : {V : Type κ} → (V → Type ℓ) → Result V → Type ℓ
Gives P panic = Unit
Gives P (err e) = Unit
Gives P (ok v) = P v

pub Gives->>= {κ ι ℓ} :
    {V : Type κ} {W : Type ι} (P : W → Type ℓ) (first : Result V) (rest : V → Result W)
    → ((v : V) → first ≡ ok v → Gives P (rest v))
    → Gives P (first >>= rest)
Gives->>= P panic rest each = tt
Gives->>= P (err e) rest each = tt
Gives->>= P (ok v) rest each = each v refl

pub Gives-weaken {κ ℓ ι} :
    {V : Type κ} (P : V → Type ℓ) (Q : V → Type ι) (r : Result V)
    → ((v : V) → P v → Q v)
    → Gives P r
    → Gives Q r
Gives-weaken P Q panic f h = tt
Gives-weaken P Q (err e) f h = tt
Gives-weaken P Q (ok v) f h = f v h

pub Gives-ok {κ ℓ} :
    {V : Type κ} (P : V → Type ℓ) (r : Result V) (v : V) → Gives P r → r ≡ ok v → P v
Gives-ok P panic v h p = cc
Gives-ok P (err e) v h p = cc
Gives-ok P (ok w) v h p = subst P (ok-injective p) h
