-- ===== src/Handler/Endpoints.antt =====
-- internal/domains/user/handler/handler.go: what the endpoints share, and those that create, read
-- and log in. The others are in Changes.antt.
mod Common
pub mod Changes
pub mod Laws
pub mod Shown
pub mod Listing
pub mod Refusals
pub use Common.{Conf, Moments, App}
unfoldable pub use Common.{is_admin, claims_of, problem, raw, actor, target, unauthorized}
use Prim.Native.String
use jumble.Shared.{ℕ, ◌+◌, String, List, [], ◌∷◌, map, if◌then◌else◌}
use jumble.Go.Error.{Error, is, err_duplicated_email, err_user_not_found, text}
use jumble.Go.Text.{◌^^◌}
use jumble.Page
use jumble.Bus.Roles.{roles_to_string}
use jumble.Bus.Order.{parse_order_by}
use jumble.Bus.Users
use jumble.Auth.{generate_token}
use jumble.Handler.Models.{to_app_user, to_bus_new_user, new_query_result}
use jumble.Handler.Filters.{to_bus_query_filter}
use jumble.Handler.Binding.{bind_new_user, bind_authenticate, bind_filters}
use jumble.Handler.Reply.{
  Outcome, json, user, query_result, token, Request, Endpoint, or_fail, acts, ends, ◌>>=◌, serve,
}

module _ {S Private Public : Type 0} (app : App S Private Public) where
  open app use {store, lib, wire, loader, jwt, conf}

  unfoldable pub create_user : Moments → Request → S → Outcome × S
  create_user m r = serve (do
    nu ← or_fail raw (bind_new_user wire r.body)
    bus_user ← or_fail (problem "CreateUser" 42 400 "toBusNewUser: ") (to_bus_new_user lib nu)
    usr ←
        acts
          (λ e.
            if is e err_duplicated_email
            then problem "CreateUser" 48 400 "create: " e
            else problem "CreateUser" 53 500 "create: " e)
          (Users.create store lib m.now m.new_id bus_user)
    let app_user = to_app_user lib usr
    let claims = claims_of app m app_user.id app_user.roles
    signed ←
        or_fail (problem "CreateUser" 70 500 "generateToken: ")
          (generate_token loader jwt conf.kid claims)
    ends (json 201 (user (record app_user { token = signed }))))

  unfoldable pub query_user_by_id : Request → S → Outcome × S
  query_user_by_id r = serve (do
    user_id ← target app "QueryUserByID" 86 "invalid id: " r
    usr ←
        acts
          (λ e.
            if is e err_user_not_found
            then problem "QueryUserByID" 92 404 "queryByID: " e
            else problem "QueryUserByID" 97 500 "queryByID: " e)
          (Users.query_by_id store lib user_id)
    ends (json 200 (user (to_app_user lib usr))))

  unfoldable pub query : Request → S → Outcome × S
  query r = serve (do
    page ← or_fail (problem "Query" 344 400 "parse pagination: ") (Page.parse r.page r.rows)
    filters ← or_fail raw (bind_filters wire lib r.query)
    bus_filter ←
        or_fail (problem "Query" 357 400 "toBusQueryFilter: ") (to_bus_query_filter lib filters)
    order_by ←
        or_fail (problem "Query" 364 400 "parse order_by query: ") (parse_order_by r.order_by)
    bus_users ←
        acts (problem "Query" 370 500 "query: ") (Users.query store lib bus_filter order_by page)
    total ← acts (problem "Query" 376 500 "count: ") (Users.count store lib bus_filter)
    ends (
        json 200 (
          query_result
            (new_query_result (map (to_app_user lib) bus_users) total page.number page.rows))))

  unfoldable pub authenticate : Moments → Request → S → Outcome × S
  authenticate m r = serve (do
    auth_data ← or_fail raw (bind_authenticate wire r.body)
    email ←
        or_fail (problem "Authenticate" 401 400 "parseAddress: ")
          (lib.parse_address auth_data.email)
    usr ←
        acts (problem "Authenticate" 407 400 "invalid email or password: ")
          (Users.authenticate store lib email auth_data.password)
    let claims = claims_of app m (lib.uuid_string usr.id) (roles_to_string usr.roles)
    signed ←
        or_fail (problem "Authenticate" 423 500 "generateToken: ")
          (generate_token loader jwt conf.kid claims)
    ends (json 200 (token (record { token = signed }))))
