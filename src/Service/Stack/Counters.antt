-- ===== src/Service/Stack/Counters.antt =====
-- The counters of internal/metrics after requests through the registered routes.
pub mod Totals
use jumble.Shared.{
  ℕ, ◌+◌, ◌≤◌, ◌<◌, ◌^◌, true, false, none, some, List, [], ◌∷◌, ◌≡◌, ◌∙◌, refl, ap, sym, map, All,
  All-Any, Any, leb, length, if◌then◌else◌, arith, ◌⊎◌, inl, inr,
}
use mathlib.Core.Path.{subst}
use jumble.Metrics
use jumble.Metrics.{Metrics}
use jumble.Mid.Access.{Verdict, aborts, proceeds}
use jumble.Mid.Counting
use jumble.Mid.Counting.{Ending, answered, count}
use jumble.Mid.Counting.Laws.{panic_of, error_of, count-requests, count-panics, count-errors}
use jumble.Handler.Endpoints.{App}
use jumble.Handler.Reply.{Outcome, json, status, failed, panicked}
use jumble.Handler.Routes.{
  Method, Stage, endpoint, authenticated, authorized, Route, register_routes,
}
use jumble.Service.Gin.{Ctx, stopped, Gin, IsGin}
use jumble.Service.Stack.{Env, called, seen, acts, guarded, settled, handler_of, recovered, handle}
use jumble.Service.Stack.Laws.{core, entered, left, left-calm, left-panicking, run-stopped}
use jumble.Service.Stack.Served.{
  IsFresh, fresh-stopped, runs, runs-acts, runs-keep, noted-keeps, handled, handled-calm,
}
use jumble.Service.Stack.Guards.{IsGuard, registered-HasGuards}

-- The status that a request with this ending has.
abbrev pub HasStatus : Ending → ℕ → Type 0
HasStatus (answered st) code = code ≡ st
HasStatus Counting.panicked code = code ≡ 500

-- The counters moved as for a request that ended like this.
abbrev pub IsCounted : {S : Type 0} → Env → Ctx S → Ctx S → Type 0
IsCounted env c d =
    (e : Ending) × (d.metrics ≡ (count env.goroutines e c.metrics).1)
    × HasStatus e d.response.status

module _ {S P K : Type 0} (app : App S P K) (gin : Gin S) (gin_laws : IsGin gin) (env : Env) where
  abbrev Calm : Metrics → Ctx S → Type 0
  Calm m d = (d.panic ≡ none) × (d.metrics ≡ m)

  guarded-Calm : (m : Metrics) (v : Verdict) (d : Ctx S) → Calm m d → Calm m (guarded gin env v d)
  guarded-Calm m (aborts code message) d calm = calm
  guarded-Calm m (proceeds keys) d calm = calm

  guards-Calm :
      (m : Metrics) (stages : List Stage)
      → All (IsGuard app gin gin_laws env) stages
      → All
          (λ stage. (c : Ctx S) → stopped c ≡ false → Calm m c → Calm m (acts app gin env stage c))
          stages
  guards-Calm m [] guards = guards
  guards-Calm m (endpoint e ∷ stages) (guard, guards) = absurd (guard tt)
  guards-Calm m (authenticated ∷ stages) (guard, guards) = (
    λ c running calm.
        guarded-Calm m _ _ (noted-keeps app gin gin_laws env (Calm m) (λ d lines q. q) _ c calm),
    guards-Calm m stages guards,
  )
  guards-Calm m (authorized roles ∷ stages) (guard, guards) =
      (λ c running calm. guarded-Calm m _ c calm, guards-Calm m stages guards)

  -- The ending of a chain whose endpoint did not panic.
  runs-IsCounted :
      (c d : Ctx S) (stages : List Stage)
      → All (IsGuard app gin gin_laws env) stages
      → Calm (entered gin env c).metrics d
      → IsCounted env c (left gin env (runs app gin gin_laws env stages d))
  runs-IsCounted c d stages guards calm_d =
      let m = (entered gin env c).metrics in
      let (calm, kept) =
        runs-keep app gin gin_laws env (Calm m) stages (guards-Calm m stages guards) d calm_d in
      let t = runs app gin gin_laws env stages d in
      let end = left-calm gin gin_laws env c t calm kept in
      (answered t.response.status, ap (λ x. x.3) end, ap (λ x. x.1.status) end)

  -- What the middleware make of an endpoint's outcome and the guards behind it.
  settled-IsCounted :
      (c : Ctx S)
      → IsFresh c
      → (stages : List Stage) → All (IsGuard app gin gin_laws env) stages
      → (o : Outcome) (s : S)
      → IsCounted env c (
          left gin env (
            runs app gin gin_laws env stages
              (settled gin env o (record (entered gin env c) { store = s }))))
  settled-IsCounted c fresh stages guards (json code b) s =
      runs-IsCounted c _ stages guards (fresh.4, refl)
  settled-IsCounted c fresh stages guards (status code) s =
      runs-IsCounted c _ stages guards (fresh.4, refl)
  settled-IsCounted c fresh stages guards (failed e) s =
      runs-IsCounted c _ stages guards (fresh.4, refl)
  settled-IsCounted c fresh stages guards (panicked m) s =
      let d = settled gin env (panicked m) (record (entered gin env c) { store = s }) in
      let still =
        run-stopped gin gin_laws (map (handler_of app gin env) stages) d (rw fresh.3 refl) in
      let end =
        ap (λ x. core (left gin env x)) still
        ∙ left-panicking gin gin_laws env c d (recovered m) 200 refl refl refl fresh.2 in
      (Counting.panicked, ap (λ x. x.3) end, ap (λ x. x.1.status) end)

  -- A request through a route whose endpoint comes first.
  pub handle-IsCounted :
      (route : Route) (m : Method) (stages : List Stage)
      → route.chain ≡ endpoint m ∷ stages
      → All (IsGuard app gin gin_laws env) stages
      → (c : Ctx S) → IsFresh c
      → IsCounted env c (handle app gin env route c)
  handle-IsCounted route m stages chain guards c fresh =
      let c1 = entered gin env c in
      let r = called app gin env m (seen app gin env c) c.store in
      let (e, moved, has) = settled-IsCounted c fresh stages guards r.0 r.1 in
      let end =
        handled app gin gin_laws env route c fresh
        ∙ ap (λ chain. core (left gin env (runs app gin gin_laws env chain c1))) chain
        ∙ ap (λ d. core (left gin env d))
            (runs-acts app gin gin_laws env (endpoint m) stages c1 (fresh-stopped c fresh)) in
      (e, ap (λ x. x.3) end ∙ moved, subst (HasStatus e) (sym (ap (λ x. x.1.status) end)) has)

  -- A request through any registered route.
  pub registered-IsCounted :
      (c : Ctx S)
      → IsFresh c
      → (route : Route) → Any (λ r. r ≡ route) register_routes
      → IsCounted env c (handle app gin env route c)
  registered-IsCounted c fresh route member =
      let (m, stages, chain, guards) = registered-HasGuards app gin gin_laws env route member in
      handle-IsCounted route m stages chain guards c fresh
