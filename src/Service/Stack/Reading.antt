-- ===== src/Service/Stack/Reading.antt =====
-- GET /v1/users/:id, whose endpoint answers before its guard.
use jumble.Shared.{none, List, [], ◌∷◌, ◌++◌, ◌≡◌, ◌∙◌, refl, ap}
use jumble.Go.Error.{ok}
use jumble.Metrics.{Metrics}
use jumble.Bus.Models.{User, Uuid}
use jumble.Bus.Users
use jumble.Mid.Access.{Verdict, aborts, proceeds}
use jumble.Handler.Endpoints.Shown.{described, to_app_user-eq-described}
use jumble.Handler.Endpoints.{App, query_user_by_id}
use jumble.Handler.Reply.{json, user, Request}
use jumble.Handler.Routes
use jumble.Handler.Routes.{endpoint, authenticated, Route}
use jumble.Service.Gin.{Reply, body, error, Response, Ctx, Gin, IsGin}
use jumble.Service.Stack.{Env, seen, acts, guarded, handle}
use jumble.Service.Stack.Registered.{IsRegistered, by_id_chain}
use jumble.Service.Stack.Laws.{entered}
use jumble.Service.Stack.Served.{IsFresh, runs, runs-keep, handled-calm, noted-keeps}

-- The status is 200 and the first body that is written is this one.
abbrev pub Begins : Reply → Response → Type 0
Begins b r = (rest : List Reply) × (r ≡ record { status = 200; bodies = b ∷ rest })

module _ {S P K : Type 0} (app : App S P K) (gin : Gin S) (gin_laws : IsGin gin) (env : Env) where
  abbrev Shows : S → Metrics → Reply → Ctx S → Type 0
  Shows s m b d = (d.store ≡ s) × (d.panic ≡ none) × (d.metrics ≡ m) × Begins b d.response

  guarded-Shows :
      (s : S) (m : Metrics) (b : Reply) (v : Verdict) (d : Ctx S)
      → Shows s m b d
      → Shows s m b (guarded gin env v d)
  guarded-Shows s m b (proceeds keys) d shows = shows
  guarded-Shows s m b (aborts code message) d (store, calm, kept, (rest, shown)) = (
    store,
    calm,
    kept,
    (
      rest ++ (error message ∷ []),
      ap (gin.json code (error message)) shown
          ∙ gin_laws.json_later code (error message) b 200 rest,
    ),
  )

  -- A stored user is shown.
  query_user_by_id-found :
      (r : Request) (s : S) (id : Uuid) (usr : User)
      → app.lib.parse_uuid r.id_param ≡ ok id
      → app.store.query_by_id id s ≡ ok usr
      → query_user_by_id app r s ≡ (json 200 (user (described app.lib usr)), s)
  unfolding query_user_by_id Users.query_by_id
  query_user_by_id-found r s id usr parsed found =
      rw (parsed, found) (ap (λ u. (json 200 (user u), s)) (to_app_user-eq-described app.lib usr))

  -- A route whose chain is the endpoint and behind it the guard.
  pub handle_chain-Begins :
      (route : Route)
      → route.chain ≡ endpoint Routes.query_user_by_id ∷ authenticated ∷ []
      → (c : Ctx S) → IsFresh c
      → (id : Uuid) (usr : User) → app.lib.parse_uuid c.asked.id_param ≡ ok id
      → app.store.query_by_id id c.store ≡ ok usr
      → ((handle app gin env route c).store ≡ c.store)
        × Begins (body (user (described app.lib usr))) (handle app gin env route c).response
  handle_chain-Begins route chain c fresh id usr parsed found =
      let (anonymous, none_yet, new, running, calm) = fresh in
      let b = body (user (described app.lib usr)) in
      let c1 = entered gin env c in
      let c2 = acts app gin env (endpoint Routes.query_user_by_id) c1 in
      let shows : Shows c.store c1.metrics b c2 =
        rw (query_user_by_id-found (seen app gin env c) c.store id usr parsed found, new)
          (refl, calm, refl, ([], gin_laws.json_first 200 b 200)) in
      let d = runs app gin gin_laws env (authenticated ∷ []) c2 in
      let (store, calm_d, kept, begins) =
        runs-keep app gin gin_laws env (Shows c.store c1.metrics b) (authenticated ∷ [])
          (
            λ x running shows_x. guarded-Shows c.store _ b _ _ (
                noted-keeps app gin gin_laws env (Shows c.store c1.metrics b) (λ y lines q. q) _ x
                  shows_x),
            tt,
          )
          c2 shows in
      let end = handled-calm app gin gin_laws env route _ _ chain c fresh d refl calm_d kept in
      rw (ap (λ t. t.0) end, ap (λ t. t.1) end) (store, begins)

  -- GET /v1/users/:id of the registered routes, for an id under which the store answers with a
  -- user, answers with status 200 and that user first, field by field, whatever the request's
  -- "authorization" header is, since the guard runs after the endpoint; what the guard writes comes
  -- behind the user. The store is left as it was.
  pub handle-Begins :
      (route : Route)
      → IsRegistered "GET" "/v1/users/:id" route
      → (c : Ctx S) → IsFresh c
      → (id : Uuid) (usr : User) → app.lib.parse_uuid c.asked.id_param ≡ ok id
      → app.store.query_by_id id c.store ≡ ok usr
      → ((handle app gin env route c).store ≡ c.store)
        × Begins (body (user (described app.lib usr))) (handle app gin env route c).response
  handle-Begins route registered = handle_chain-Begins route (by_id_chain route registered)
