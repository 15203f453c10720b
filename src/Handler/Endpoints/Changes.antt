-- ===== src/Handler/Endpoints/Changes.antt =====
-- internal/domains/user/handler/handler.go: the endpoints that change a user on behalf of another.
pub mod Laws
use jumble.Shared.{
  ℕ, String, Bool, true, false, not, ◌&&◌, Option, none, some, nat_eq, if◌then◌else◌,
}
use jumble.Go.Error.{Error, ok, err, is, err_duplicated_email, err_user_not_found}
use jumble.Errs
use jumble.Bus.Models.{Time, User, Uuid}
use jumble.Bus.Models
use jumble.Bus.Users
use jumble.Handler.Models.{
  UpdateUser, to_app_user, to_bus_update_user, to_bus_update_user_roles, Call, returns, panics,
}
use jumble.Handler.Binding.{bind_update_user, bind_update_user_roles}
use jumble.Handler.Reply.{
  Outcome, json, status, failed, panicked, user, Request, Endpoint, Step, go, stop, or_fail,
  or_panic, acts, ends, ◌>>=◌, serve, frame,
}
use jumble.Handler.Endpoints.Common.{App, is_admin, problem, raw, actor, target, unauthorized}

abbrev value_or_zero : {A : Type 0} → A → Call A → Step A
value_or_zero zero_value (returns (ok a)) = go a
value_or_zero zero_value (returns (err e)) = go zero_value
value_or_zero zero_value (panics m) = stop (panicked m)

-- bus.UpdateUser{}
abbrev no_update : Models.UpdateUser
no_update = record {
  name = none;
  email = none;
  roles = none;
  department = none;
  password = none;
  enabled = none;
}

module _ {S : Type 0} where
  -- `updates, _ := f()`
  abbrev ignoring_error : {A : Type 0} → A → Call A → Endpoint S A
  ignoring_error zero_value c s = (value_or_zero zero_value c, s)

  -- `if refused { c.Error(e); return }`
  abbrev refuse_if : Bool → Error → Endpoint S (Unit {0})
  refuse_if refused e s = (if refused then stop (failed e) else go tt, s)

module _ {S Private Public : Type 0} (app : App S Private Public) where
  open app use {store, lib, wire}

  -- The user with the id, or 404, or 500 at the given lines.
  abbrev fetch : String → ℕ → ℕ → Uuid → Endpoint S User
  fetch func absent other user_id =
      acts
        (λ e.
          if is e err_user_not_found
          then problem func absent 404 "" e
          else problem func other 500 "queryByID: " e)
        (Users.query_by_id store lib user_id)

  unfoldable pub delete_user : Request → S → Outcome × S
  delete_user r = serve (do
    user_id ← target app "DeleteUser" 112 "invalid user id: " r
    usr ← actor "DeleteUser" 118 124 r
    allowed ←
        refuse_if (not (nat_eq user_id usr.id) && not (is_admin usr.roles))
          (Errs.new (frame "DeleteUser" 130) 401 "unauthorized to take this action")
    target_user ← fetch "DeleteUser" 136 141 user_id
    deleted ← acts (problem "DeleteUser" 147 500 "delete: ") (Users.delete store lib target_user)
    ends (status 204))

  unfoldable pub update_user : Time → Request → S → Outcome × S
  update_user now r = serve (do
    target_id ← target app "UpdateUser" 161 "invalid user id: " r
    usr ← actor "UpdateUser" 167 173 r
    allowed ← refuse_if (not (nat_eq usr.id target_id)) (unauthorized "UpdateUser" 178)
    uu ← or_fail raw (bind_update_user wire r.body)
    updates ←
        or_panic (problem "UpdateUser" 190 400 "toUpdateBusUser: ") (to_bus_update_user lib uu)
    updated ←
        acts
          (λ e.
            if is e err_duplicated_email
            then problem "UpdateUser" 196 400 "" e
            else problem "UpdateUser" 201 500 "delete: " e)
          (Users.update store lib now usr updates)
    ends (json 200 (user (to_app_user lib updated))))

  unfoldable pub update_role : Time → Request → S → Outcome × S
  update_role now r = serve (do
    admin ← actor "UpdateRole" 214 220 r
    allowed ← refuse_if (not (is_admin admin.roles)) (unauthorized "UpdateRole" 226)
    user_id ← target app "UpdateRole" 234 "invalid user id: " r
    ur ← or_panic raw (bind_update_user_roles wire r.body)
    updates ←
        or_fail (problem "UpdateRole" 246 400 "toBusUpdateUserRoles: ")
          (to_bus_update_user_roles ur)
    usr ← fetch "UpdateRole" 253 258 user_id
    enabled ← refuse_if (not usr.enabled) (Errs.new (frame "UpdateRole" 263) 400 "user is disabled")
    updated ←
        acts (problem "UpdateRole" 269 500 "queryByID: ") (Users.update store lib now usr updates)
    ends (json 200 (user (to_app_user lib updated))))

  -- The update that DisableUser asks for: only `enabled` is set.
  abbrev pub disabling : UpdateUser
  disabling = record {
    name = none;
    email = none;
    department = none;
    password = none;
    password_confirm = none;
    enabled = some false;
  }

  unfoldable pub disable_user : Time → Request → S → Outcome × S
  disable_user now r = serve (do
    user_id ← target app "DisableUser" 284 "invalid user id: " r
    usr ← actor "DisableUser" 291 296 r
    allowed ←
        refuse_if (not (nat_eq user_id usr.id) && not (is_admin usr.roles))
          (unauthorized "DisableUser" 302)
    target_user ← fetch "DisableUser" 308 313 user_id
    updates ← ignoring_error no_update (to_bus_update_user lib disabling)
    updated ←
        acts (problem "DisableUser" 327 500 "update: ")
          (Users.update store lib now target_user updates)
    ends (json 200 (user (to_app_user lib updated))))
