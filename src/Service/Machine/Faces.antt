-- ===== src/Service/Machine/Faces.antt =====
-- What the calls of the registered routes' handlers leave alone of what is counted.
use jumble.Shared.{
  none, some, Option, List, [], ◌∷◌, ◌≡◌, ◌∙◌, refl, inl, inr, All, map, Bool-cases,
}
use jumble.Go.Error.{Error}
use jumble.Mid.Access
use jumble.Mid.Access.{Verdict, aborts, proceeds}
use jumble.Handler.Endpoints.{App}
use jumble.Handler.Reply.{Outcome, json, status, failed, panicked}
use jumble.Handler.Routes.{Method, Stage, endpoint, authenticated, authorized, Route}
use jumble.Service.Gin.{Ctx, Handler, Span, leave, is_panicking, Gin, IsGin}
use jumble.Service.Stack.{
  Env, telemetry, logger, end_span, settled, noted, guarded, acts, handler_of, called, seen,
}
use jumble.Service.Stack.Served.{IsFresh, leave-simple}
use jumble.Service.Stack.Guards.{IsGuard, HasGuards}
use jumble.Service.Machine.Server.{begun}
use jumble.Service.Machine.Tally.{face, IsClean, IsSettled, Quiet, Settles, Calms, Tallied, waits}

leave-Quiet :
    {S : Type 0} (h : Handler S)
    → ((c : Ctx S) → (face (h.before c) ≡ face c) × ((h.before c).metrics ≡ c.metrics))
    → ((c : Ctx S) → (face (h.after c) ≡ face c) × ((h.after c).metrics ≡ c.metrics))
    → ((c : Ctx S) → (face (h.deferred c) ≡ face c) × ((h.deferred c).metrics ≡ c.metrics))
    → Quiet h
leave-Quiet h before after deferred = (
  before,
  λ d. elim (Bool-cases (is_panicking d.panic)) [
    | inl panicking ↦ rw (leave, panicking) (deferred d)
    | inr calm ↦
        let (faces, kept) = deferred (h.after d) in
        rw (leave, calm) (faces ∙ (after d).0, kept ∙ (after d).1)
  ],
)

module _ {S : Type 0} (gin : Gin S) (env : Env) where
  end_span-Quiet :
      (c : Ctx S) (spans : List Span)
      → (face (end_span gin env c spans) ≡ face c)
        × ((end_span gin env c spans).metrics ≡ c.metrics)
  end_span-Quiet c [] = (refl, refl)
  end_span-Quiet c (span ∷ spans) = (refl, refl)

  telemetry-Quiet : Quiet (telemetry gin env)
  telemetry-Quiet =
      leave-Quiet (telemetry gin env) (λ c. (refl, refl)) (λ c. (refl, refl))
        (λ c. end_span-Quiet c c.open_spans)

  logger-Quiet : Quiet (logger gin env)
  logger-Quiet =
      leave-Quiet (logger gin env) (λ c. (refl, refl)) (λ c. (refl, refl)) (λ c. (refl, refl))

  settled-IsSettled :
      (o : Outcome) (c : Ctx S)
      → IsClean (face c)
      → IsSettled (face (settled gin env o c))
        × ((settled gin env o c).has_metrics ≡ c.has_metrics)
        × ((settled gin env o c).metrics ≡ c.metrics)
  settled-IsSettled (json code b) c clean = (inl clean.1, refl, refl)
  settled-IsSettled (status code) c clean = (inl clean.1, refl, refl)
  settled-IsSettled (failed e) c clean = (inl clean.1, refl, refl)
  settled-IsSettled (panicked m) c clean = (inr clean.0, refl, refl)

  -- What a guard's calls leave alone.
  abbrev IsCalm : Ctx S → Ctx S → Type 0
  IsCalm c d = (d.panic ≡ none) × (d.has_metrics ≡ c.has_metrics) × (d.metrics ≡ c.metrics)

  guarded-IsCalm : (v : Verdict) (c d : Ctx S) → IsCalm c d → IsCalm c (guarded gin env v d)
  guarded-IsCalm (aborts code message) c d calm = calm
  guarded-IsCalm (proceeds keys) c d calm = calm

  noted-IsCalm : (o : Option Error) (c : Ctx S) → c.panic ≡ none → IsCalm c (noted gin env o c)
  noted-IsCalm none c calm = (calm, refl, refl)
  noted-IsCalm (some e) c calm = (calm, refl, refl)

module _ {S P K : Type 0} (app : App S P K) (gin : Gin S) (gin_laws : IsGin gin) (env : Env) where
  endpoint-Settles : (m : Method) → Settles (handler_of app gin env (endpoint m))
  endpoint-Settles m = (
    λ c clean.
        let r = called app gin env m (seen app gin env c) c.store in
        settled-IsSettled gin env r.0 (record c { store = r.1 }) clean,
    leave-simple (acts app gin env (endpoint m)),
  )

  guards-Calms :
      (stages : List Stage)
      → All (IsGuard app gin gin_laws env) stages
      → All Calms (map (handler_of app gin env) stages)
  guards-Calms [] guards = tt
  guards-Calms (endpoint m ∷ stages) (guard, guards) = absurd (guard tt)
  guards-Calms (authenticated ∷ stages) (guard, guards) = (
    (
      λ c calm.
          guarded-IsCalm gin env (Access.authenticate app c.http.authorization c.keys c.store) c _
            (noted-IsCalm gin env (Access.logged app c.http.authorization c.store) c calm),
      leave-simple (acts app gin env authenticated),
    ),
    guards-Calms stages guards,
  )
  guards-Calms (authorized roles ∷ stages) (guard, guards) = (
    (
      λ c calm. guarded-IsCalm gin env (Access.authorized roles c.keys) c c (calm, refl, refl),
      leave-simple (acts app gin env (authorized roles)),
    ),
    guards-Calms stages guards,
  )

  pub begun-Tallied :
      (c : Ctx S)
      → IsFresh c
      → (route : Route) → HasGuards app gin gin_laws env route
      → Tallied gin (begun app gin env route c).todo [] (face c) 0 0 0
  begun-Tallied c (_, _, new, running, calm) route (m, stages, chain, guards) = rw chain (
      waits env (telemetry gin env ∷ logger gin env ∷ []) (handler_of app gin env (endpoint m))
        (map (handler_of app gin env) stages) refl
        (telemetry-Quiet gin env, (logger-Quiet gin env, tt)) tt (endpoint-Settles m)
        (guards-Calms stages guards) (new, calm, running))
