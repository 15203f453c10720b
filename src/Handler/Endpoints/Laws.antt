-- ===== src/Handler/Endpoints/Laws.antt =====
-- What CreateUser, QueryUserByID and Authenticate of internal/domains/user/handler/handler.go
-- answer, over a store that keeps the domain's contract.
use jumble.Shared.{
  String, ◌≡◌, ◌≢◌, ◌⊎◌, inl, inr, refl, ap, ◌∙◌, true, none, some, Option, Option-cases, All,
}
use mathlib.Core.Path.{subst}
use jumble.Go.Error.{
  Error, Result, ok, err, Result-cases, is, text, >>=-eq-ok, ok-injective, context, context-eq-ok,
}
use jumble.Errs
use jumble.Bus.Services.{Services}
use jumble.Bus.Roles.{parse_many_roles, roles_to_string}
use jumble.Bus.Roles.Laws.{IsRole, parse_many_roles_iff}
use jumble.Bus.Models.{QueryFilter, Uuid, User}
use jumble.Bus.Models
use jumble.Bus.Users
use jumble.Bus.Contract.{found, stored, is_storable, IsUserStore}
use jumble.Bus.Users.Laws.{registered, create-query, create_taken_lem}
use jumble.Auth
use jumble.Handler.Models as Wire
use jumble.Handler.Models.{new_query_result, to_app_user, to_bus_new_user}
use jumble.Handler.Binding.{bind_new_user, bind_authenticate}
use jumble.Handler.Reply.{Outcome, json, failed, user, token, Request, frame}
use jumble.Handler.Endpoints.{
  App, Moments, create_user, query_user_by_id, authenticate, claims_of, problem,
}
use jumble.Handler.Endpoints.Shown.{
  described, token_claims, to_app_user-eq-described, claims_of-eq-token_claims,
}

pub to_bus_new_user-IsRole :
    (lib : Services) (nu : Wire.NewUser) (bu : Models.NewUser)
    → to_bus_new_user lib nu ≡ ok bu
    → All IsRole bu.roles
unfolding to_bus_new_user
to_bus_new_user-IsRole lib nu bu h =
    let (roles, parsed, h') =
      >>=-eq-ok (context "parseManyRoles" (parse_many_roles nu.roles)) _ h in
    let (email, _, e) = >>=-eq-ok (context "parseAddress" (lib.parse_address nu.email)) _ h' in
    let (valid, _) = (parse_many_roles_iff nu.roles roles).0 (context-eq-ok _ _ parsed) in
    subst (λ (x : Models.NewUser). All IsRole x.roles) (ok-injective e) valid

module _ {S Private Public : Type 0} (app : App S Private Public) {IsUp : S → Type 0}
    {find : S → Uuid → Option User} {holder : S → String → Option User}
    (keeps : IsUserStore app.store IsUp find holder) where
  -- The answer to a request for a user.
  abbrev pub shown : Option User → Outcome
  shown none =
      failed (Errs.new (frame "QueryUserByID" 92) 404 "queryByID: queryByID: user not found")
  shown (some usr) = json 200 (user (described app.lib usr))

  answer :
      (r : Request) (s : S) (id : Uuid) (o : Option User)
      → app.lib.parse_uuid r.id_param ≡ ok id
      → app.store.query_by_id id s ≡ found o
      → query_user_by_id app r s ≡ (shown o, s)
  unfolding query_user_by_id Users.query_by_id is text
  answer r s id none e q = rw (e, q) refl
  answer r s id (some usr) e q =
      rw (e, q) (ap (λ u. (json 200 (user u), s)) (to_app_user-eq-described app.lib usr))

  -- QueryUserByID, for a well-formed id, answers with the user whom the store has under it, or with
  -- 404, whoever asks; the store is left as it was.
  pub query_user_by_id_lem :
      (r : Request) (s : S) (id : Uuid)
      → IsUp s
      → app.lib.parse_uuid r.id_param ≡ ok id
      → query_user_by_id app r s ≡ (shown (find s id), s)
  query_user_by_id_lem r s id up e = answer r s id (find s id) e (keeps.by_id s up id)

  -- The answer to a registration, once the user is stored.
  abbrev pub welcomed : Wire.User → Result String → Outcome
  welcomed usr (ok signed) = json 201 (user (record usr { token = signed }))
  welcomed usr (err e) = failed (problem "CreateUser" 70 500 "generateToken: " e)

  -- The token for a user, with the claims that its id and roles ask for.
  abbrev pub new_token : Moments → User → Result String
  new_token m usr = Auth.generate_token app.loader app.jwt app.conf.kid (token_claims app m usr)

  -- The token as the endpoint makes it.
  abbrev made_token : Moments → User → Result String
  made_token m usr =
      Auth.generate_token app.loader app.jwt app.conf.kid
        (claims_of app m (app.lib.uuid_string usr.id) (roles_to_string usr.roles))

  welcome_made :
      (m : Moments) (r : Request) (s t : S) (nu : Wire.NewUser) (bu : Models.NewUser) (usr : User)
      → bind_new_user app.wire r.body ≡ ok nu
      → to_bus_new_user app.lib nu ≡ ok bu
      → Users.create app.store app.lib m.now m.new_id bu s ≡ (ok usr, t)
      → create_user app m r s ≡ (welcomed (to_app_user app.lib usr) (made_token m usr), t)
  unfolding create_user to_app_user
  welcome_made m r s t nu bu usr b c created = elim (Result-cases (made_token m usr)) [
    | inl (signed, g) ↦ rw (b, c, created, g) refl
    | inr (w, g) ↦ rw (b, c, created, g) refl
  ]

  welcome :
      (m : Moments) (r : Request) (s t : S) (nu : Wire.NewUser) (bu : Models.NewUser) (usr : User)
      → bind_new_user app.wire r.body ≡ ok nu
      → to_bus_new_user app.lib nu ≡ ok bu
      → Users.create app.store app.lib m.now m.new_id bu s ≡ (ok usr, t)
      → create_user app m r s ≡ (welcomed (described app.lib usr) (new_token m usr), t)
  welcome m r s t nu bu usr b c created =
      welcome_made m r s t nu bu usr b c created
      ∙ ap (λ u. (welcomed u (made_token m usr), t)) (to_app_user-eq-described app.lib usr)
      ∙ ap
          (λ claims.
            let token = Auth.generate_token app.loader app.jwt app.conf.kid claims in
            (welcomed (described app.lib usr) token, t))
          (claims_of-eq-token_claims app m usr)

  -- Over a store that keeps the contract, while it is up: CreateUser, for a body that binds and
  -- converts, a fresh id, a free address, texts that the columns of the schema take and a password
  -- that bcrypt accepts, answers with 201 and the fields of the user asked for and a token for its
  -- id and roles, or with 500 when that token cannot be signed. Either way lookups by the id and by
  -- the address then answer with the user as it is stored, which has its name as the display name
  -- of its address.
  pub create_user_lem :
      (m : Moments) (r : Request) (s : S) (nu : Wire.NewUser) (bu : Models.NewUser) (hash : String)
      → IsUp s
      → bind_new_user app.wire r.body ≡ ok nu
      → to_bus_new_user app.lib nu ≡ ok bu
      → is_storable (registered m.now m.new_id hash bu) ≡ true
      → app.lib.generate_from_password bu.password ≡ ok hash
      → find s m.new_id ≡ none
      → holder s bu.email.address ≡ none
      → let usr = registered m.now m.new_id hash bu in
        (t : S) × (create_user app m r s ≡ (welcomed (described app.lib usr) (new_token m usr), t))
        × IsUp t
        × (Users.query_by_id app.store app.lib m.new_id t ≡ (ok (stored usr), t))
        × (Users.query_by_email app.store app.lib bu.email t ≡ (ok (stored usr), t))
  create_user_lem m r s nu bu hash up b c short hashed fresh free =
      let usr = registered m.now m.new_id hash bu in
      let (t, created, up', by_id, by_email, _) =
        create-query app.store app.lib keeps s m.now m.new_id bu hash up
          (to_bus_new_user-IsRole app.lib nu bu c) short hashed fresh free in
      (t, welcome m r s t nu bu usr b c created, up', by_id, by_email)

  -- CreateUser, for a body that binds and converts, a password that bcrypt accepts, and an address
  -- or an id that is taken, answers 400 with the text of the duplicated-email error and leaves the
  -- store as it was, while that is up.
  pub create_user_taken :
      (m : Moments) (r : Request) (s : S) (nu : Wire.NewUser) (bu : Models.NewUser) (hash : String)
      → IsUp s
      → bind_new_user app.wire r.body ≡ ok nu
      → to_bus_new_user app.lib nu ≡ ok bu
      → is_storable (registered m.now m.new_id hash bu) ≡ true
      → app.lib.generate_from_password bu.password ≡ ok hash
      → (find s m.new_id ≢ none) ⊎ (holder s bu.email.address ≢ none)
      → create_user app m r s
        ≡ (failed (Errs.new (frame "CreateUser" 48) 400 "create: create: email already in use"), s)
  unfolding create_user is text
  create_user_taken m r s nu bu hash up b c short hashed taken =
      rw
        (
          b,
          c,
          create_taken_lem app.store app.lib keeps s m.now m.new_id bu hash up short hashed taken,
        )
        refl

  -- A login that answers with a token.
  abbrev pub LogsIn : Moments → Request → S → String → Type 0
  LogsIn m r s signed =
      (a : Wire.Authenticate) × (email : Models.Address) × (usr : User) × (bind_authenticate
          app.wire r.body
        ≡ ok a)
      × (app.lib.parse_address a.email ≡ ok email)
      × (holder s email.address ≡ some usr)
      × (app.lib.compare_hash_and_password usr.password_hash a.password ≡ none)
      × (Auth.generate_token app.loader app.jwt app.conf.kid
            (claims_of app m (app.lib.uuid_string usr.id) (roles_to_string usr.roles))
          ≡ ok signed)

  -- Authenticate leaves the store as it was, and answers either with an error or with 200 and a
  -- token; the token is signed for the id and the roles of the user who holds the address of the
  -- body and whose stored hash bcrypt matches with its password.
  pub authenticate-LogsIn :
      (m : Moments) (r : Request) (s : S)
      → IsUp s
      → ((authenticate app m r s).1 ≡ s)
        × (((e : Error) × ((authenticate app m r s).0 ≡ failed e))
            ⊎ ((signed : String) × ((authenticate app m r s).0
                  ≡ json 200 (token (record { token = signed })))
                × LogsIn m r s signed))
  unfolding authenticate Users.authenticate
  authenticate-LogsIn m r s up = elim (Result-cases (bind_authenticate app.wire r.body)) [
    | inr (w, b) ↦ rw b (refl, inl (_, refl))
    | inl (a, b) ↦ elim (Result-cases (app.lib.parse_address a.email)) [
      | inr (w, p) ↦ rw (b, p) (refl, inl (_, refl))
      | inl (email, p) ↦ elim (Option-cases (holder s email.address)) [
        | inl absent ↦ rw (b, p, keeps.by_email s up email, absent) (refl, inl (_, refl))
        | inr (usr, held) ↦
            elim (Option-cases (app.lib.compare_hash_and_password usr.password_hash a.password)) [
              | inr (w, c) ↦ rw (b, p, keeps.by_email s up email, held, c) (refl, inl (_, refl))
              | inl c ↦
                  elim (Result-cases (
                    Auth.generate_token app.loader app.jwt app.conf.kid
                      (claims_of app m (app.lib.uuid_string usr.id) (roles_to_string usr.roles)))) [
                        | inr (w, g) ↦
                            rw (b, p, keeps.by_email s up email, held, c, g) (refl, inl (_, refl))
                        | inl (signed, g) ↦
                            rw (b, p, keeps.by_email s up email, held, c, g)
                              (refl, inr (signed, refl, (a, email, usr, refl, p, held, c, g)))
                      ]
            ]
      ]
    ]
  ]
