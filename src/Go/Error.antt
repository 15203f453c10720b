-- ===== src/Go/Error.antt =====
-- Go error values: sentinels compared by identity, texts, and the `%w` wrapping of fmt.Errorf with
-- the walks of errors.Is and errors.As. Also the result of a fallible call.
use jumble.Shared.{
  ◌⊎◌, inl, inr, ℕ, ◌≡◌, refl, ap, Bool, false, Option, none, some, List, String, nat_eq,
}
use jumble.Go.Text.{◌^^◌}

-- The package-level `errors.New` variables.
pub data Sentinel : Type 0 where
  err_duplicated_email err_user_not_found : Sentinel
  err_forbidden err_kid_missing err_kid_malformed err_user_disabled err_invalid_token : Sentinel
  err_key_not_found : Sentinel

-- `Error` of errs.go.
pub record AppError : Type 0 where
  pub code : ℕ
  pub message : String
  pub func_name : String
  pub file_name : String
  pub fields : List (String × String)

pub data Error : Type 0 where
  sentinel : Sentinel → Error
  plain : String → Error
  wrap : String → Error → Error
  pg_error : (code message : String) → Error
  app : AppError → Error
  validation : List (String × String) → Error

abbrev index : Sentinel → ℕ
index err_duplicated_email = 0
index err_user_not_found = 1
index err_forbidden = 2
index err_kid_missing = 3
index err_kid_malformed = 4
index err_user_disabled = 5
index err_invalid_token = 6
index err_key_not_found = 7

abbrev pub same_sentinel : Sentinel → Sentinel → Bool
same_sentinel a b = nat_eq (index a) (index b)

-- errors.Is(err, target) for a sentinel
unfoldable pub is : Error → Sentinel → Bool
is (sentinel a) t = same_sentinel a t
is (wrap _ e) t = is e t
is _ t = false

-- errors.As(err, &pgerror): the code of the first *pgconn.PgError of the chain
unfoldable pub as_pg_error : Error → Option String
as_pg_error (pg_error code _) = some code
as_pg_error (wrap _ e) = as_pg_error e
as_pg_error _ = none

-- errors.As(err, &appErr)
unfoldable pub as_app_error : Error → Option AppError
as_app_error (app a) = some a
as_app_error (wrap _ e) = as_app_error e
as_app_error _ = none

-- errors.As(err, &validationErrors)
unfoldable pub as_validation : Error → Option (List (String × String))
as_validation (validation fields) = some fields
as_validation (wrap _ e) = as_validation e
as_validation _ = none

sentinel_text : Sentinel → String
sentinel_text err_duplicated_email = "email already in use"
sentinel_text err_user_not_found = "user not found"
sentinel_text err_forbidden = "attempted action is not allowed"
sentinel_text err_kid_missing = "kid missing from token header"
sentinel_text err_kid_malformed = "kid in token header is malformed"
sentinel_text err_user_disabled = "user is disabled"
sentinel_text err_invalid_token = "invalid token"
sentinel_text err_key_not_found = "key not found"

-- err.Error(); the text of a validation error is the validator's own and is left out
unfoldable pub text : Error → String
unfolding sentinel_text
text (sentinel s) = sentinel_text s
text (plain s) = s
text (wrap prefix e) = prefix ^^ (": " ^^ text e)
text (pg_error code message) = message
text (app a) = a.message
text (validation fields) = "validation"

pub data Result {ℓ} (A : Type ℓ) : Type ℓ where
  ok : A → Result A
  err : Error → Result A

-- The rest of a function after a call that may fail.
infixl 5 ◌>>=◌
abbrev pub ◌>>=◌ {ℓ κ} : {X : Type ℓ} {Y : Type κ} → Result X → (rest : X → Result Y) → Result Y
ok val >>= rest = rest val
err problem >>= rest = err problem

-- `if err != nil { return ..., fmt.Errorf("prefix: %w", err) }`
abbrev pub context {ℓ} : {A : Type ℓ} → String → Result A → Result A
context prefix (ok a) = ok a
context prefix (err e) = err (wrap prefix e)

pub Result-cases {ℓ} :
    {X : Type ℓ} (call : Result X)
    → ((x : X) × (call ≡ ok x)) ⊎ ((problem : Error) × (call ≡ err problem))
Result-cases (err problem) = inr (problem, refl)
Result-cases (ok x) = inl (x, refl)

pub >>=-eq-ok {ℓ κ} :
    {X : Type ℓ} {Y : Type κ} (call : Result X) (rest : X → Result Y) {y : Y}
    → (call >>= rest) ≡ ok y
    → (x : X) × (call ≡ ok x) × (rest x ≡ ok y)
>>=-eq-ok (err problem) rest h = absurd (cc h)
>>=-eq-ok (ok x) rest h = (x, refl, h)

value_or {ℓ} : {A : Type ℓ} → A → Result A → A
value_or d (ok a) = a
value_or d (err e) = d

pub ok-injective {ℓ} : {A : Type ℓ} {a b : A} → ok a ≡ ok b → a ≡ b
unfolding value_or
ok-injective {a} e = ap (value_or a) e

pub context-eq-ok {ℓ} :
    {A : Type ℓ} (prefix : String) (m : Result A) {a : A} → context prefix m ≡ ok a → m ≡ ok a
context-eq-ok prefix (ok a) h = h
context-eq-ok prefix (err e) h = cc
