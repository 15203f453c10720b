-- ===== src/Service/Stack/Accounts.antt =====
-- A registration and a login, as two requests: from gin down to the store.
use jumble.Shared.{
  String, none, some, Option, true, Option-cases, [], ◌∷◌, ◌≡◌, ◌∙◌, refl, ap, inl, inr,
}
use jumble.Go.Error.{ok, ok-injective}
use jumble.Bus.Roles.{roles_to_string}
use jumble.Bus.Models.{Uuid, User, Address}
use jumble.Bus.Models
use jumble.Bus.Users
use jumble.Bus.Contract.{stored, is_storable, IsUserStore}
use jumble.Bus.Users.Laws.{registered}
use jumble.Bus.Users.Login.{authenticate-eq-ok_iff}
use jumble.Auth
use jumble.Handler.Models as Wire
use jumble.Handler.Models.{to_bus_new_user}
use jumble.Handler.Endpoints.Shown.{described, claims_of-eq-token_claims}
use jumble.Handler.Binding.{bind_new_user, bind_authenticate}
use jumble.Handler.Reply.{json, user, token, Request}
use jumble.Handler.Endpoints.{App, Moments, authenticate, claims_of}
use jumble.Handler.Endpoints.Laws.{welcomed, new_token, create_user_lem}
use jumble.Handler.Routes
use jumble.Handler.Routes.{Route, endpoint}
use jumble.Service.Stack.Registered.{IsRegistered, create_chain, login_chain}
use jumble.Service.Gin.{body, Ctx, Gin, IsGin}
use jumble.Service.Stack.{Env, seen, handle}
use jumble.Service.Stack.Served.{IsFresh, answers, handle_alone}

module _ {S P K : Type 0} (app : App S P K) {IsUp : S → Type 0} {find : S → Uuid → Option User}
    {holder : S → String → Option User} (keeps : IsUserStore app.store IsUp find holder) where
  -- The user who is found by an address holds it.
  holder_of :
      (t : S) (email : Address) (usr : User)
      → IsUp t
      → Users.query_by_email app.store app.lib email t ≡ (ok usr, t)
      → holder t email.address ≡ some usr
  unfolding Users.query_by_email
  holder_of t email usr up here = elim (Option-cases (holder t email.address)) [
    | inl absent ↦ absurd (cc (ap (λ x. x.0) (rw (keeps.by_email t up email, absent) at here)))
    | inr (u, held) ↦
        held ∙ ap some (ok-injective (ap (λ x. x.0) (rw (keeps.by_email t up email, held) at here)))
  ]

  -- The claims of a token for a user who logs in, as the endpoint makes them.
  abbrev login_claims : Moments → User → Auth.Claims
  login_claims m usr = claims_of app m (app.lib.uuid_string usr.id) (roles_to_string usr.roles)

  logged_in :
      (m : Moments) (r : Request) (t : S) (a : Wire.Authenticate) (email : Address) (usr : User)
      (signed : String)
      → bind_authenticate app.wire r.body ≡ ok a
      → app.lib.parse_address a.email ≡ ok email
      → Users.authenticate app.store app.lib email a.password t ≡ (ok usr, t)
      → Auth.generate_token app.loader app.jwt app.conf.kid (login_claims m usr) ≡ ok signed
      → authenticate app m r t ≡ (json 200 (token (record { token = signed })), t)
  unfolding authenticate
  logged_in m r t a email usr signed bound parsed known made = rw (bound, parsed, known, made) refl

  module _ (gin : Gin S) (gin_laws : IsGin gin) where
    -- Over a store that keeps the contract, while it is up: a request to POST /v1/users/, with a
    -- body that binds and converts, a fresh id, a free address, texts that the columns of the
    -- schema take, a password whose hash bcrypt makes and matches with it and a token that can be
    -- signed, is answered with 201 and the fields of the user asked for and that token. A request
    -- to POST /v1/users/login after it with that address and password, whose token can be signed
    -- too, is answered with 200 and that token. Both tokens are signed for the issuer of the
    -- configuration, the text of the user's id as the subject, its roles, and times that are those
    -- of the calls.
    pub authenticate-create_user :
        (env env2 : Env) (c c2 : Ctx S) (registering logging_in : Route) (nu : Wire.NewUser)
        (bu : Models.NewUser) (a : Wire.Authenticate) (hash signed signed2 : String)
        → IsRegistered "POST" "/v1/users/" registering
        → IsRegistered "POST" "/v1/users/login" logging_in
        → IsFresh c
        → IsUp c.store
        → bind_new_user app.wire c.asked.body ≡ ok nu
        → to_bus_new_user app.lib nu ≡ ok bu
        → is_storable (registered env.moments.now env.moments.new_id hash bu) ≡ true
        → app.lib.generate_from_password bu.password ≡ ok hash
        → app.lib.compare_hash_and_password hash bu.password ≡ none
        → find c.store env.moments.new_id ≡ none
        → holder c.store bu.email.address ≡ none
        → new_token app keeps env.moments (registered env.moments.now env.moments.new_id hash bu)
          ≡ ok signed
        → IsFresh c2
        → c2.store ≡ (handle app gin env registering c).store
        → bind_authenticate app.wire c2.asked.body ≡ ok a
        → app.lib.parse_address a.email ≡ ok bu.email
        → a.password ≡ bu.password
        → new_token app keeps env2.moments (registered env.moments.now env.moments.new_id hash bu)
          ≡ ok signed2
        → ((handle app gin env registering c).response ≡ record {
          status = 201;
          bodies =
              body (
                user
                  (record (described app.lib
                    (registered env.moments.now env.moments.new_id hash bu)) { token = signed }))
              ∷ [];
        })
          × ((handle app gin env2 logging_in c2).response
              ≡ record { status = 200; bodies = body (token (record { token = signed2 })) ∷ [] })
    authenticate-create_user env env2 c c2 registering logging_in nu bu a hash signed signed2 one
          two fresh up bound converted short hashed matches new_id free made fresh2 after bound2
          parsed same made2 =
        let usr = registered env.moments.now env.moments.new_id hash bu in
        let (t, created, up_t, _, by_email) =
          create_user_lem app keeps env.moments (seen app gin env c) c.store nu bu hash up bound
            converted short hashed new_id free in
        let (stored_t, answered, _, _, _) =
          handle_alone app gin gin_laws env registering Routes.create_user
            (create_chain registering one) c fresh in
        let store2 : c2.store ≡ t = after ∙ stored_t ∙ ap (λ x. x.1) created in
        let known =
          (authenticate-eq-ok_iff app.store app.lib keeps t bu.email a.password (stored usr) up_t).1
            (
              holder_of t bu.email (stored usr) up_t by_email,
              ap (λ p. app.lib.compare_hash_and_password hash p) same ∙ matches,
            ) in
        let login =
          logged_in env2.moments (seen app gin env2 c2) t a bu.email (stored usr) signed2 bound2
            parsed known
            (ap (Auth.generate_token app.loader app.jwt app.conf.kid)
                (claims_of-eq-token_claims app env2.moments usr)
              ∙ made2) in
        let (_, answered2, _, _, _) =
          handle_alone app gin gin_laws env2 logging_in Routes.authenticate
            (login_chain logging_in two) c2 fresh2 in
        (
          answered
              ∙ ap (λ x. (answers x.0).0) created
              ∙ ap (λ token. (answers (welcomed app keeps (described app.lib usr) token)).0) made,
          answered2
              ∙ ap (λ s. (answers (authenticate app env2.moments (seen app gin env2 c2) s).0).0)
                  store2
              ∙ ap (λ x. (answers x.0).0) login,
        )
