-- ===== src/Mid/Access.antt =====
-- internal/mid/authenticate.go and authorized.go: who may go on to the next handler, and what is
-- logged. The five-second deadline is left out.
pub mod Laws
use jumble.Shared.{ℕ, String, not, Bool, Option, none, some, List, ◌==◌, if◌then◌else◌}
use jumble.Go.Error.{Error, Result, ok, err, is, err_user_not_found, text}
use jumble.Go.Text.{◌^^◌}
use jumble.Bus.Models.{User}
use jumble.Bus.Users
use jumble.Auth
use jumble.Auth.{Claims}
use jumble.Handler.Reply.{Value, user_value, claims_value, other_value}
use jumble.Handler.Endpoints.{App}

-- The keys of gin's context that these handlers set and read.
pub record Keys : Type 0 where
  pub claims : Option Value
  pub user : Option Value

-- `aborts`: c.JSON(code, gin.H{"error": message}); c.Abort(). `proceeds`: c.Next() with these keys.
pub data Verdict : Type 0 where
  aborts : ℕ → (message : String) → Verdict
  proceeds : Keys → Verdict

abbrev pub unauthorized : Verdict
unauthorized = aborts 401 "Unauthorized"

admitted : Claims → Keys → User → Verdict
admitted claims keys usr =
    if usr.enabled
    then proceeds (record { claims = some (claims_value claims); user = some (user_value usr) })
    else aborts 401 "user is disabled"

-- The answer to the lookup of the user.
looked_up : Claims → Keys → Result User → Verdict
looked_up claims keys (ok usr) = admitted claims keys usr
looked_up claims keys (err e) =
    if is e err_user_not_found then unauthorized else aborts 500 "Internal Server Error"

-- The error of the lookup that is logged before a 500.
unknown_error : Result User → Option Error
unknown_error (ok usr) = none
unknown_error (err e) = if is e err_user_not_found then none else some e

module _ {S Private Public : Type 0} (app : App S Private Public) where
  -- The subject of verified claims.
  subject_user : Claims → Keys → S → Verdict
  subject_user claims keys s =
      if claims.subject == ""
      then aborts 401 "you are not authorized to take this action"
      else elim (app.lib.parse_uuid claims.subject) [
        | err e ↦ aborts 401 ("invalid subject: " ^^ claims.subject)
        | ok user_id ↦ looked_up claims keys (Users.query_by_id app.store app.lib user_id s).0
      ]

  -- Authenticate, on the header "authorization"
  unfoldable pub authenticate : String → Keys → S → Verdict
  unfolding subject_user looked_up admitted
  authenticate token keys s = elim (Auth.verify_token app.loader app.jwt token) [
    | err e ↦ aborts 401 (text e)
    | ok claims ↦ subject_user claims keys s
  ]

  -- What is logged of verified claims.
  subject_error : Claims → S → Option Error
  subject_error claims s =
      if claims.subject == "" then none else elim (app.lib.parse_uuid claims.subject) [
        | err e ↦ none
        | ok user_id ↦ unknown_error (Users.query_by_id app.store app.lib user_id s).0
      ]

  -- The error that Authenticate logs, if any.
  unfoldable pub logged : String → S → Option Error
  unfolding subject_error unknown_error
  logged token s = elim (Auth.verify_token app.loader app.jwt token) [
    | err e ↦ none
    | ok claims ↦ subject_error claims s
  ]

checked : Keys → List String → Claims → Verdict
checked keys roles c = elim (Auth.authorized c roles) [
  | none ↦ proceeds keys
  | some e ↦ unauthorized
]

claims_checked : Keys → List String → Option Value → Verdict
claims_checked keys roles none = unauthorized
claims_checked keys roles (some (claims_value c)) = checked keys roles c
claims_checked keys roles (some (user_value u)) = unauthorized
claims_checked keys roles (some other_value) = unauthorized

-- Authorized, for a set of roles
unfoldable pub authorized : List String → Keys → Verdict
unfolding claims_checked checked
authorized roles keys = claims_checked keys roles keys.claims
