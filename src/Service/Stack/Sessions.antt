-- ===== src/Service/Stack/Sessions.antt =====
-- Requests after one another: what becomes of the stored users.
use jumble.Shared.{
  String, some, Option, Option-cases, [], ◌∷◌, ◌≡◌, ◌∙◌, refl, ap, sym, ◌⊎◌, inl, inr, All, All-Any,
  Any, nat_eq, Bool-cases, arith, none,
}
use jumble.Go.Error.{Error, ok, Result-cases}
use jumble.Bus.Roles.Laws.{IsRole}
use jumble.Bus.Models.{Uuid, User, Time, NewUser}
use jumble.Bus.Users
use jumble.Bus.Contract.{IsUserStore, is_storable}
use jumble.Bus.Users.Laws.{registered, create-eq-finished, create_eq, create_taken_lem}
use jumble.Auth
use jumble.Handler.Models.{to_bus_new_user, to_app_user}
use jumble.Handler.Binding.{bind_new_user}
use jumble.Handler.Reply.{Request}
use jumble.Handler.Endpoints.{App, Moments, create_user, query_user_by_id, claims_of}
use jumble.Handler.Endpoints.Listing.{query_lem}
use jumble.Handler.Reply.{failed}
use jumble.Handler.Routes
use jumble.Handler.Routes.{Method, endpoint, authenticated, Route, register_routes}
use jumble.Service.Gin.{Ctx, Gin, IsGin}
use jumble.Service.Stack.{Env, called, seen, handle}
use jumble.Service.Stack.Served.{IsFresh, handle_alone}
use jumble.Service.Stack.Guards.{failed-IsIdle, handle-IsIdle}
use jumble.Service.Stack.Reading.{handle_chain-Begins}
use jumble.Handler.Endpoints.Laws.{authenticate-LogsIn, to_bus_new_user-IsRole}

module _ {S P K : Type 0} (app : App S P K) {IsUp : S → Type 0} {find : S → Uuid → Option User}
    {holder : S → String → Option User} (keeps : IsUserStore app.store IsUp find holder) where
  -- The store is up, and every user is as before.
  abbrev pub Extends : S → S → Type 0
  Extends s t = IsUp t × ((i : Uuid) (usr : User) → find s i ≡ some usr → find t i ≡ some usr)

  -- A registration with texts that are too long, whatever the store answers.
  long_kept :
      (s : S) (now : Time) (id : Uuid) (nu : NewUser) (hash : String)
      → app.lib.generate_from_password nu.password ≡ ok hash
      → (let t = (app.store.create (registered now id hash nu) s).1 in
          IsUp t × ((i : Uuid) → (find t i ≡ find s i) ⊎ ((id ≡ i) × (find s i ≡ none))))
      → Extends s (Users.create app.store app.lib now id nu s).1
  long_kept s now id nu hash hashed (up_t, step) =
      let kept : (i : Uuid) (usr : User)
          → find s i ≡ some usr
          → find (app.store.create (registered now id hash nu) s).1 i ≡ some usr =
        λ i usr h. elim (step i) [
          | inl same ↦ same ∙ h
          | inr (_, absent) ↦ absurd (cc (sym absent ∙ h))
        ] in
      elim (Option-cases (app.store.create (registered now id hash nu) s).0) [
        | inl done ↦
            rw (create-eq-finished app.store app.lib keeps s now id nu hash hashed)
              (rw done (up_t, kept))
        | inr (e, fails) ↦
            rw (create-eq-finished app.store app.lib keeps s now id nu hash hashed)
              (rw fails (up_t, kept))
      ]

  create-Extends :
      (s : S) (now : Time) (id : Uuid) (nu : NewUser)
      → IsUp s
      → All IsRole nu.roles
      → Extends s (Users.create app.store app.lib now id nu s).1
  unfolding Users.create
  create-Extends s now id nu up valid =
      elim (Result-cases (app.lib.generate_from_password nu.password)) [
        | inr (w, e) ↦ rw e (up, λ i usr h. h)
        | inl (hash, hashed) ↦ elim (Bool-cases (is_storable (registered now id hash nu))) [
          | inr long ↦
              long_kept s now id nu hash hashed
                (keeps.create_long s up (registered now id hash nu) valid long)
          | inl short ↦ elim (Option-cases (find s id)) [
            | inr (u, known) ↦
                rw
                  (create_taken_lem app.store app.lib keeps s now id nu hash up short hashed
                    (inl (λ h. absurd (cc (sym known ∙ h)))))
                  (up, λ i usr h. h)
            | inl fresh ↦ elim (Option-cases (holder s nu.email.address)) [
              | inr (u, held) ↦
                  rw
                    (create_taken_lem app.store app.lib keeps s now id nu hash up short hashed
                      (inr (λ h. absurd (cc (sym held ∙ h)))))
                    (up, λ i usr h. h)
              | inl free ↦
                  let usr = registered now id hash nu in
                  let (done, up_t, step) = keeps.create_new s up usr valid short fresh free in
                  rw (create_eq app.store app.lib keeps s now id nu hash hashed done) (
                    up_t,
                    λ i u h. elim (Bool-cases (nat_eq id i)) [
                      | inl same ↦
                          let eq : id ≡ i = ground arith in
                          absurd (cc (sym fresh ∙ ap (find s) eq ∙ h))
                      | inr other ↦ step i ∙ rw other h
                    ],
                  )
            ]
          ]
        ]
      ]

  pub create_user-Extends :
      (m : Moments) (r : Request) (s : S) → IsUp s → Extends s (create_user app m r s).1
  unfolding create_user
  create_user-Extends m r s up = elim (Result-cases (bind_new_user app.wire r.body)) [
    | inr (w, b) ↦ rw b (up, λ i usr h. h)
    | inl (nu, b) ↦ elim (Result-cases (to_bus_new_user app.lib nu)) [
      | inr (w, c) ↦ rw (b, c) (up, λ i usr h. h)
      | inl (bu, c) ↦
          let extends =
            create-Extends s m.now m.new_id bu up (to_bus_new_user-IsRole app.lib nu bu c) in
          elim (Result-cases (Users.create app.store app.lib m.now m.new_id bu s).0) [
            | inr (w, e) ↦ rw (b, c, e) extends
            | inl (usr, e) ↦
                let shown = to_app_user app.lib usr in
                elim (Result-cases (
                  Auth.generate_token app.loader app.jwt app.conf.kid
                    (claims_of app m shown.id shown.roles))) [
                      | inr (w, g) ↦ rw (b, c, e, g) extends
                      | inl (signed, g) ↦ rw (b, c, e, g) extends
                    ]
          ]
    ]
  ]

  module _ (gin : Gin S) (gin_laws : IsGin gin) where
    -- The store after requests through registered routes, each with a context of its own.
    pub data Served : S → S → Type 0 where
      idle : (s : S) → Served s s
      request :
          (s : S) (env : Env) (c : Ctx S) (route : Route)
          → Served s c.store
          → Any (λ r. r ≡ route) register_routes
          → IsFresh c
          → Served s (handle app gin env route c).store

    pub failed_by_id :
        (r : Request) (s : S)
        → ((e : Error) × (query_user_by_id app r s ≡ (failed e, s)))
          ⊎ ((id : Uuid) × (usr : User) × (app.lib.parse_uuid r.id_param ≡ ok id)
              × (app.store.query_by_id id s ≡ ok usr))
    unfolding query_user_by_id Users.query_by_id
    failed_by_id r s = elim (Result-cases (app.lib.parse_uuid r.id_param)) [
      | inr (w, e) ↦ rw e (inl (_, refl))
      | inl (id, e) ↦ elim (Result-cases (app.store.query_by_id id s)) [
        | inl (usr, q) ↦ inr (id, usr, e, q)
        | inr (w, q) ↦ rw (e, q) (inl (_, refl))
      ]
    ]

    -- A route whose chain is one endpoint.
    alone :
        (env : Env) (route : Route) (m : Method) (c : Ctx S)
        → route.chain ≡ endpoint m ∷ []
        → IsFresh c
        → Extends c.store (called app gin env m (seen app gin env c) c.store).1
        → Extends c.store (handle app gin env route c).store
    alone env route m c chain fresh extends =
        rw (handle_alone app gin gin_laws env route m chain c fresh).0 extends

    by_id-store :
        (env : Env) (route : Route) (c : Ctx S)
        → route.chain ≡ endpoint Routes.query_user_by_id ∷ authenticated ∷ []
        → IsFresh c
        → (handle app gin env route c).store ≡ c.store
    by_id-store env route c chain fresh = elim (failed_by_id (seen app gin env c) c.store) [
      | inl (e, fails) ↦
          (failed-IsIdle app gin gin_laws env route Routes.query_user_by_id (authenticated ∷ [])
            chain (tt, tt) c fresh (e, fails)).0
      | inr (id, usr, parsed, found) ↦
          (handle_chain-Begins app gin gin_laws env route chain c fresh id usr parsed found).0
    ]

    -- A request through any registered route.
    handle-Extends :
        (env : Env) (c : Ctx S)
        → IsFresh c
        → IsUp c.store
        → All (λ route. Extends c.store (handle app gin env route c).store) register_routes
    handle-Extends env c fresh up =
        let same : (t : S) → t ≡ c.store → Extends c.store t = λ t e. rw e (up, λ i usr h. h) in
        let (deleted, (updated, (changed, (disabled, _)))) =
          handle-IsIdle app gin gin_laws env c fresh in
        let r = seen app gin env c in
        (
          alone env _ Routes.create_user c refl fresh
              (create_user-Extends env.moments r c.store up),
          (
            same _ (by_id-store env _ c refl fresh),
            (
              same _ deleted.0,
              (
                same _ updated.0,
                (
                  same _ changed.0,
                  (
                    same _ disabled.0,
                    (
                      alone env _ Routes.query c refl fresh (same _ (query_lem app r c.store).0),
                      (
                        alone env _ Routes.authenticate c refl fresh
                            (same _ (authenticate-LogsIn app keeps env.moments r c.store up).0),
                        tt,
                      ),
                    ),
                  ),
                ),
              ),
            ),
          ),
        )

    -- Over a store that keeps the contract, after any sequence of requests through the registered
    -- routes, with any headers, bodies and times, the store is up and every user who was stored
    -- before is stored as it was: users are only added.
    pub Served-find :
        (s t : S)
        → Served s t
        → IsUp s
        → (i : Uuid) (usr : User) → find s i ≡ some usr
        → IsUp t × (find t i ≡ some usr)
    Served-find s t (idle s1) up i usr stored = (up, stored)
    Served-find s t (request s0 env c route before member fresh) up i usr stored =
        let (up_c, stored_c) = Served-find s c.store before up i usr stored in
        let (up_t, kept) =
          All-Any (λ r. Extends c.store (handle app gin env r c).store) register_routes route
            (handle-Extends env c fresh up_c) member in
        (up_t, kept i usr stored_c)
