-- ===== src/Service/Stack/Guards.antt =====
-- The routes whose guards come after their endpoint.
use jumble.Shared.{
  ℕ, String, true, false, none, List, [], ◌∷◌, ◌≡◌, ◌∙◌, refl, ap, ◌⊎◌, inl, inr, All, All-Any, Any,
  ◌==◌, ◌||◌, if◌then◌else◌, if◌then◌else◌,
}
use jumble.Go.Error.{Error, Result-cases}
use jumble.Metrics.{Metrics}
use jumble.Mid.Access
use jumble.Mid.Access.{Keys, Verdict, aborts, proceeds}
use jumble.Mid.Access.Laws.{authenticate_lem, authorized_lem}
use jumble.Handler.Endpoints.{App}
use jumble.Handler.Endpoints.Changes.{delete_user, update_user, update_role, disable_user}
use jumble.Handler.Reply.{failed, Request}
use jumble.Handler.Routes
use jumble.Handler.Routes.{
  Method, Stage, endpoint, authenticated, authorized, Route, register_routes,
}
use jumble.Service.Gin.{error, Response, Ctx, stopped, Gin, IsGin}
use jumble.Service.Stack.{Env, called, seen, acts, guarded, handle}
use jumble.Service.Stack.Laws.{entered}
use jumble.Service.Stack.Served.{IsFresh, runs, runs-keep, handled-calm, noted-keeps}

abbrev pub changing : List Route → List Route
changing [] = []
changing (route ∷ routes) =
    let rest = changing routes in
    if (route.verb == "PUT") || (route.verb == "DELETE") then route ∷ rest else rest

-- The answer of a guard, which ends the chain.
abbrev pub IsGuarded : Response → Type 0
IsGuarded r =
    (code : ℕ) × (m : String) × (r ≡ record { status = code; bodies = error m ∷ [] })
    × ((code ≡ 401) ⊎ (code ≡ 500))

-- Nothing was changed: an error is recorded, and the answer is an empty 200 or a guard's.
abbrev pub IsIdle : {S : Type 0} → S → Ctx S → Type 0
IsIdle s d =
    (d.store ≡ s)
    × ((e : Error) × (d.errors ≡ e ∷ []))
    × ((d.response ≡ record { status = 200; bodies = [] }) ⊎ IsGuarded d.response)

module _ {S P K : Type 0} (app : App S P K) (gin : Gin S) (gin_laws : IsGin gin) (env : Env) where
  -- While the chain runs: a guard has answered only when the chain is aborted.
  abbrev Waits : S → Metrics → Ctx S → Type 0
  Waits s m d =
      (d.store ≡ s)
      × ((e : Error) × (d.errors ≡ e ∷ []))
      × (d.panic ≡ none)
      × (d.metrics ≡ m)
      × ((d.response ≡ record { status = 200; bodies = [] })
          ⊎ (IsGuarded d.response × (d.aborted ≡ true)))

  abbrev pub IsGuard : Stage → Type 0
  IsGuard (endpoint m) = Unit → ⊥
  IsGuard authenticated = Unit {0}
  IsGuard (authorized roles) = Unit {0}

  -- A chain of an endpoint with guards behind it.
  abbrev pub HasGuards : Route → Type 0
  HasGuards route =
      (m : Method) × (stages : List Stage) × (route.chain ≡ endpoint m ∷ stages)
      × All IsGuard stages

  all-HasGuards : All HasGuards register_routes
  all-HasGuards = (
    (_, _, refl, tt),
    (
      (_, _, refl, (tt, tt)),
      (
        (_, _, refl, (tt, (tt, tt))),
        (
          (_, _, refl, (tt, (tt, tt))),
          (
            (_, _, refl, (tt, (tt, tt))),
            ((_, _, refl, (tt, (tt, tt))), ((_, _, refl, tt), ((_, _, refl, tt), tt))),
          ),
        ),
      ),
    ),
  )

  pub registered-HasGuards :
      (route : Route) → Any (λ r. r ≡ route) register_routes → HasGuards route
  registered-HasGuards route member = All-Any HasGuards register_routes route all-HasGuards member

  -- A guard's verdict.
  abbrev Judges : Verdict → Type 0
  Judges v =
      ((code : ℕ) × (m : String) × (v ≡ aborts code m) × ((code ≡ 401) ⊎ (code ≡ 500)))
      ⊎ ((keys : Keys) × (v ≡ proceeds keys))

  authenticate-Judges :
      (token : String) (keys : Keys) (s : S) → Judges (Access.authenticate app token keys s)
  authenticate-Judges token keys s = elim (authenticate_lem app token keys s) [
    | inl (m, e) ↦ inl (_, _, e, inl refl)
    | inr (inl e) ↦ inl (_, _, e, inr refl)
    | inr (inr (k, e, _)) ↦ inr (k, e)
  ]

  authorized-Judges : (roles : List String) (keys : Keys) → Judges (Access.authorized roles keys)
  authorized-Judges roles keys = elim (authorized_lem roles keys) [
    | inl (e, _) ↦ inr (keys, e)
    | inr (e, _) ↦ inl (_, _, e, inl refl)
  ]

  guarded-Waits :
      (s : S) (m : Metrics) (v : Verdict)
      → Judges v
      → (d : Ctx S) → stopped d ≡ false
      → Waits s m d
      → Waits s m (guarded gin env v d)
  guarded-Waits s m v judges d running (store, errors, calm, kept, inr (_, aborted)) =
      absurd (cc (rw (aborted) at running))
  guarded-Waits s m v (inr (keys, e)) d running (store, errors, calm, kept, inl silent) =
      rw e (store, errors, calm, kept, inl silent)
  guarded-Waits s m v (inl (code, text, e, which)) d running
        (store, errors, calm, kept, inl silent) =
      rw e (
        store,
        errors,
        calm,
        kept,
        inr (
          (
            code,
            text,
            ap (gin.json code (error text)) silent ∙ gin_laws.json_first code (error text) 200,
            which,
          ),
          refl,
        ),
      )

  -- Without a user in the context these endpoints fail.
  pub delete_user-failed :
      (r : Request) (s : S)
      → r.user_key ≡ none
      → (e : Error) × (delete_user app r s ≡ (failed e, s))
  unfolding delete_user
  delete_user-failed r s anonymous = elim (Result-cases (app.lib.parse_uuid r.id_param)) [
    | inr (w, e) ↦ rw e (_, refl)
    | inl (id, e) ↦ rw (e, anonymous) (_, refl)
  ]

  pub update_user-failed :
      (r : Request) (s : S)
      → r.user_key ≡ none
      → (e : Error) × (update_user app env.now r s ≡ (failed e, s))
  unfolding update_user
  update_user-failed r s anonymous = elim (Result-cases (app.lib.parse_uuid r.id_param)) [
    | inr (w, e) ↦ rw e (_, refl)
    | inl (id, e) ↦ rw (e, anonymous) (_, refl)
  ]

  pub update_role-failed :
      (r : Request) (s : S)
      → r.user_key ≡ none
      → (e : Error) × (update_role app env.now r s ≡ (failed e, s))
  unfolding update_role
  update_role-failed r s anonymous = rw anonymous (_, refl)

  pub disable_user-failed :
      (r : Request) (s : S)
      → r.user_key ≡ none
      → (e : Error) × (disable_user app env.now r s ≡ (failed e, s))
  unfolding disable_user
  disable_user-failed r s anonymous = elim (Result-cases (app.lib.parse_uuid r.id_param)) [
    | inr (w, e) ↦ rw e (_, refl)
    | inl (id, e) ↦ rw (e, anonymous) (_, refl)
  ]

  -- The guards of a chain keep what waits for them.
  guards-Waits :
      (s : S) (m : Metrics) (stages : List Stage)
      → All IsGuard stages
      → All
          (λ stage.
            (c : Ctx S) → stopped c ≡ false → Waits s m c → Waits s m (acts app gin env stage c))
          stages
  guards-Waits s m [] guards = guards
  guards-Waits s m (endpoint e ∷ stages) (guard, guards) = absurd (guard tt)
  guards-Waits s m (authenticated ∷ stages) (guard, guards) = (
    λ c running waits.
        let (running_d, waits_d) =
          noted-keeps app gin gin_laws env (λ d. (stopped d ≡ false) × Waits s m d) (λ d lines q. q)
            _ c (running, waits) in
        guarded-Waits s m _ (authenticate-Judges c.http.authorization c.keys c.store) _ running_d
          waits_d,
    guards-Waits s m stages guards,
  )
  guards-Waits s m (authorized roles ∷ stages) (guard, guards) = (
    λ c running waits. guarded-Waits s m _ (authorized-Judges roles c.keys) c running waits,
    guards-Waits s m stages guards,
  )

  -- A chain that begins with an endpoint that fails.
  pub failed-IsIdle :
      (route : Route) (m : Method) (stages : List Stage)
      → route.chain ≡ endpoint m ∷ stages
      → All IsGuard stages
      → (c : Ctx S) → IsFresh c
      → ((e : Error) × (called app gin env m (seen app gin env c) c.store ≡ (failed e, c.store)))
      → IsIdle c.store (handle app gin env route c)
  failed-IsIdle route m stages chain guards c fresh (e, fails) =
      let (anonymous, none_yet, new, running, calm) = fresh in
      let c1 = entered gin env c in
      let c2 = acts app gin env (endpoint m) c1 in
      let waits =
        runs-keep app gin gin_laws env (Waits c.store c1.metrics) stages
          (guards-Waits c.store c1.metrics stages guards) c2
          (rw (fails, none_yet) (refl, (e, refl), calm, refl, inl new)) in
      let d = runs app gin gin_laws env stages c2 in
      let (store, errors, calm_d, kept, answer) = waits in
      let end = handled-calm app gin gin_laws env route m stages chain c fresh d refl calm_d kept in
      rw (ap (λ t. t.0) end, ap (λ t. t.1) end, ap (λ t. t.2) end)
        (
          store,
          errors,
          elim answer [ inl silent ↦ inl silent | inr (guarded_d, _) ↦ inr guarded_d ],
        )

  -- No request through a route with PUT or DELETE changes the store, whatever its token: the
  -- endpoint comes before the guard that names the user, so it records an error, and the response
  -- is an empty 200, or the guards' 401 or 500.
  pub handle-IsIdle :
      (c : Ctx S)
      → IsFresh c
      → All (λ route. IsIdle c.store (handle app gin env route c)) (changing register_routes)
  handle-IsIdle c fresh =
      let r = seen app gin env c in
      (
        failed-IsIdle _ Routes.delete_user _ refl (tt, (tt, tt)) c fresh
            (delete_user-failed r c.store fresh.0),
        (
          failed-IsIdle _ Routes.update_user _ refl (tt, (tt, tt)) c fresh
              (update_user-failed r c.store fresh.0),
          (
            failed-IsIdle _ Routes.update_role _ refl (tt, (tt, tt)) c fresh
                (update_role-failed r c.store fresh.0),
            (
              failed-IsIdle _ Routes.disable_user _ refl (tt, (tt, tt)) c fresh
                  (disable_user-failed r c.store fresh.0),
              tt,
            ),
          ),
        ),
      )
