-- ===== src/Examples/Sessions.antt =====
-- Sequences of requests through gin.
use jumble.Shared.{[], ◌∷◌, ◌≡◌, refl, inl, inr}
use jumble.Go.Error.{ok}
use jumble.Userdb.Memory.{Table}
use jumble.Handler.Endpoints.Shown.{described}
use jumble.Auth.{generate_token}
use jumble.Handler.Binding.{bind_authenticate}
use jumble.Handler.Endpoints.Laws.{new_token}
use jumble.Service.Stack.Accounts.{authenticate-create_user}
use jumble.Handler.Reply.{user, token}
use jumble.Handler.Routes
use jumble.Handler.Routes.{endpoint, authenticated, Route, register_routes}
use jumble.Service.Gin.{body, Ctx}
use jumble.Service.Stack.{handle}
use jumble.Examples.{services, ann}
use jumble.Examples.Users.{anna, anna_fits, keeps, empty_up, fresh, free}
use jumble.Examples.Requests.{app, moments, wire, new_ann, login, bound, converted}
use jumble.Examples.Serving.{gin, gin-IsGin, env, asking, login_route}

-- Ann registers and logs in.
abbrev registration : Ctx Table
registration = record (asking "" "new ann") { store = [] }

abbrev create_route : Route
create_route = record {
  verb = "POST";
  path = "/v1/users/";
  chain = endpoint Routes.create_user ∷ [];
}

abbrev login_request : Ctx Table
login_request = record (asking "" "login") {
  store = (handle app gin env create_route registration).store;
}

login_bound : bind_authenticate wire "login" ≡ ok login
unfolding bind_authenticate
login_bound = refl

anna_token : new_token app keeps moments anna ≡ ok "token"
unfolding generate_token
anna_token = refl

authenticate-create_user_example :
    ((handle app gin env create_route registration).response ≡ record {
      status = 201;
      bodies = body (user (record (described services anna) { token = "token" })) ∷ [];
    })
    × ((handle app gin env login_route login_request).response
        ≡ record { status = 200; bodies = body (token (record { token = "token" })) ∷ [] })
authenticate-create_user_example =
    authenticate-create_user app keeps gin gin-IsGin env env registration login_request create_route
      login_route new_ann ann login "$password1" "token" "token" (inl refl, refl, refl)
      (inr (inr (inr (inr (inr (inr (inr (inl refl))))))), refl, refl)
      (refl, refl, refl, refl, refl) empty_up bound converted anna_fits refl refl (fresh 1)
      (free "ann@jumble.org") anna_token (refl, refl, refl, refl, refl) refl login_bound refl refl
      anna_token
