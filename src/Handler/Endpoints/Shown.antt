-- ===== src/Handler/Endpoints/Shown.antt =====
-- What the endpoints of internal/domains/user/handler/handler.go show of a user and put into a
-- token, field by field.
use jumble.Shared.{◌≡◌, ◌+◌, refl}
use jumble.Bus.Roles.{roles_to_string}
use jumble.Bus.Roles.Laws.{names, roles_to_string-eq-names}
use jumble.Bus.Services.{Services}
use jumble.Bus.Models.{User}
use jumble.Auth.{Claims}
use jumble.Handler.Models as Wire
use jumble.Handler.Models.{to_app_user}
use jumble.Handler.Endpoints.{App, Moments, claims_of}

-- The user as clients see it, without a token.
abbrev pub described : Services → User → Wire.User
described lib usr = record {
  id = lib.uuid_string usr.id;
  name = usr.name;
  email = usr.email.address;
  roles = names usr.roles;
  department = usr.department;
  enabled = usr.enabled;
  created_at = lib.format_rfc3339 usr.created_at;
  updated_at = lib.format_rfc3339 usr.updated_at;
  token = "";
}

pub to_app_user-eq-described :
    (lib : Services) (usr : User) → to_app_user lib usr ≡ described lib usr
unfolding to_app_user
to_app_user-eq-described lib usr = rw (roles_to_string-eq-names usr.roles) refl

module _ {S P K : Type 0} (app : App S P K) where
  -- The claims of a token for the user.
  abbrev pub token_claims : Moments → User → Claims
  token_claims m usr = record {
    issuer = app.conf.issuer;
    subject = app.lib.uuid_string usr.id;
    issued_at = app.jwt.numeric_date m.issued;
    expires_at = app.jwt.numeric_date (m.expires_from + app.conf.token_max_age);
    roles = names usr.roles;
  }

  pub claims_of-eq-token_claims :
      (m : Moments) (usr : User)
      → claims_of app m (app.lib.uuid_string usr.id) (roles_to_string usr.roles)
        ≡ token_claims m usr
  unfolding claims_of
  claims_of-eq-token_claims m usr = rw (roles_to_string-eq-names usr.roles) refl
