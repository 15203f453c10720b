-- ===== src/Handler/Endpoints/Common.antt =====
-- The handler's dependencies (`handler` of handler.go, `Conf` of routes.go), isAdmin, and the steps
-- that several endpoints take.
use jumble.Shared.{ℕ, ◌+◌, String, Bool, ◌||◌, false, Option, none, some, List, [], ◌∷◌, ◌==◌}
use jumble.Go.Error.{Error, text}
use jumble.Go.Text.{◌^^◌}
use jumble.Errs
use jumble.Bus.Roles.{Role, role_admin}
use jumble.Bus.Models.{User, Uuid, Time}
use jumble.Bus.Store.{Store}
use jumble.Bus.Services.{Services}
use jumble.Auth.{Claims, KeyLoader, Jwt}
use jumble.Handler.Binding.{Wire}
use jumble.Handler.Reply.{
  Value, user_value, claims_value, other_value, Request, Endpoint, Step, go, stop, failed, or_fail,
  frame,
}

pub record Conf : Type 0 where
  pub kid : String
  pub issuer : String
  pub token_max_age : Time

-- What uuid.New and the calls of time.Now return while a request is served, in their order.
pub record Moments : Type 0 where
  pub new_id : Uuid
  pub now : Time
  pub issued : Time
  pub expires_from : Time

pub record App (S Private Public : Type 0) : Type 0 where
  pub store : Store S
  pub lib : Services
  pub wire : Wire
  pub loader : KeyLoader Private Public
  pub jwt : Jwt Private Public
  pub conf : Conf

-- slices.Contains(roles, bus.RoleAdmin)
unfoldable pub is_admin : List Role → Bool
is_admin [] = false
is_admin (r ∷ roles) = (r.value == role_admin.value) || is_admin roles

-- c.Error(errs.New(code, prefix + "%s", err)) at a line of a method
abbrev pub problem : String → ℕ → ℕ → String → Error → Error
problem func line code prefix e = Errs.new (frame func line) code (prefix ^^ text e)

-- c.Error(err)
abbrev pub raw : Error → Error
raw e = e

-- c.Error(errs.New(http.StatusUnauthorized, "%s", http.StatusText(http.StatusUnauthorized)))
abbrev pub unauthorized : String → ℕ → Error
unauthorized func line = Errs.new (frame func line) 401 "Unauthorized"

-- c.Get("user") and the assertion to bus.User, which fail at two lines
abbrev pub user_of : String → ℕ → ℕ → Option Value → Step User
user_of func absent other none = stop (failed (unauthorized func absent))
user_of func absent other (some (user_value usr)) = go usr
user_of func absent other (some (claims_value c)) = stop (failed (unauthorized func other))
user_of func absent other (some other_value) = stop (failed (unauthorized func other))

abbrev pub actor : {S : Type 0} → String → ℕ → ℕ → Request → Endpoint S User
actor func absent other r s = (user_of func absent other r.user_key, s)

module _ {S Private Public : Type 0} (app : App S Private Public) where
  -- uuid.Parse(c.Param("id"))
  abbrev pub target : String → ℕ → String → Request → Endpoint S Uuid
  target func line prefix r =
      or_fail (λ e. Errs.new (frame func line) 400 (prefix ^^ r.id_param))
        (app.lib.parse_uuid r.id_param)

  -- The claims of a token for a user.
  unfoldable pub claims_of : Moments → String → List String → Claims
  claims_of m subject roles = record {
    issuer = app.conf.issuer;
    subject = subject;
    issued_at = app.jwt.numeric_date m.issued;
    expires_at = app.jwt.numeric_date (m.expires_from + app.conf.token_max_age);
    roles = roles;
  }
