-- ===== src/Service/Stack/Laws.antt =====
-- What the installed middleware makes of the rest of a chain, and lemmas on gin's run.
use jumble.Shared.{
  ℕ, Bool, true, false, Option, none, some, List, [], ◌∷◌, ◌≡◌, ◌∙◌, refl, ap, inl, inr, leb,
  if◌then◌else◌, Bool-cases,
}
use jumble.Go.Error.{Error}
use jumble.Logger.{Arg}
use jumble.Metrics.{Metrics}
use jumble.Mid.Counting.{Ending, answered, recover, count}
use jumble.Mid.Counting
use jumble.Service.Gin.{
  error, Response, Span, Ctx, Handler, stopped, leave, is_panicking, Gin, IsGin,
}
use jumble.Service.Stack.{Env, telemetry, logger, metrics, panics, end_span}

module _ {S : Type 0} (gin : Gin S) (gin_laws : IsGin gin) where
  pub run-running :
      (h : Handler S) (hs : List (Handler S)) (c : Ctx S)
      → stopped c ≡ false
      → gin.run (h ∷ hs) c ≡ leave h (gin.run hs (h.before c))
  run-running h hs c running =
      gin_laws.run_cons h hs c
      ∙ ap (λ b. if b then c else leave h (gin.run hs (h.before c))) running

  pub run-stopped : (hs : List (Handler S)) (c : Ctx S) → stopped c ≡ true → gin.run hs c ≡ c
  run-stopped [] c halted = gin_laws.run_nil c
  run-stopped (h ∷ hs) c halted =
      gin_laws.run_cons h hs c ∙ ap (λ b. if b then c else leave h (gin.run hs (h.before c))) halted

-- What telemetry and logging leave alone.
abbrev pub core : {S : Type 0} → Ctx S → S × Response × List Error × Metrics × Option Arg × Bool
core c = (c.store, c.response, c.errors, c.metrics, c.panic, c.has_metrics)

leave-core :
    {S : Type 0} (h : Handler S)
    → ((c : Ctx S) → core (h.after c) ≡ core c)
    → ((c : Ctx S) → core (h.deferred c) ≡ core c)
    → (d : Ctx S) → core (leave h d) ≡ core d
leave-core h after deferred d = elim (Bool-cases (is_panicking d.panic)) [
  | inl panicking ↦ deferred _ ∙ ap (λ b. core (if b then d else h.after d)) panicking
  | inr calm ↦ deferred _ ∙ ap (λ b. core (if b then d else h.after d)) calm ∙ after d
]

module _ {S : Type 0} (gin : Gin S) (env : Env) where
  -- What the installed middleware hand to the handlers of the route.
  abbrev pub entered : Ctx S → Ctx S
  entered c = (metrics gin env).before ((logger gin env).before ((telemetry gin env).before c))

  abbrev pub left : Ctx S → Ctx S
  left d = leave (metrics gin env) (leave (panics gin env) d)

-- What Metrics and Panic do around the rest of the chain.
module _ {S : Type 0} (gin : Gin S) (gin_laws : IsGin gin) (env : Env) where
  ended-core : (c : Ctx S) (spans : List Span) → core (end_span gin env c spans) ≡ core c
  ended-core c [] = refl
  ended-core c (span ∷ spans) = refl

  -- Telemetry and logging do not change what comes of the rest.
  pub run-core :
      (hs : List (Handler S)) (c : Ctx S)
      → stopped c ≡ false
      → core
          (gin.run (telemetry gin env ∷ logger gin env ∷ metrics gin env ∷ panics gin env ∷ hs) c)
        ≡ core (left gin env (gin.run hs (entered gin env c)))
  run-core hs c running =
      let c1 = (telemetry gin env).before c in
      let c2 = (logger gin env).before c1 in
      ap core (run-running gin gin_laws (telemetry gin env) _ c running)
      ∙ leave-core (telemetry gin env) (λ d. refl) (λ d. ended-core d d.open_spans) _
      ∙ ap core (run-running gin gin_laws (logger gin env) _ c1 running)
      ∙ leave-core (logger gin env) (λ d. refl) (λ d. refl) _
      ∙ ap core (run-running gin gin_laws (metrics gin env) _ c2 running)
      ∙ ap (λ d. core (leave (metrics gin env) d))
          (run-running gin gin_laws (panics gin env) hs (entered gin env c) running)

  -- A chain that ends without a panic keeps its response and errors, and is counted by its status.
  pub left-calm :
      (c d : Ctx S)
      → d.panic ≡ none
      → d.metrics ≡ (entered gin env c).metrics
      → core (left gin env d) ≡ (
        d.store,
        d.response,
        d.errors,
        (count env.goroutines (answered d.response.status) c.metrics).1,
        none,
        d.has_metrics,
      )
  unfolding count recover
  left-calm c d calm kept = elim (Bool-cases (leb 400 d.response.status)) [
    | inl bad ↦ rw (leave, calm, bad, kept) refl
    | inr good ↦ rw (leave, calm, good, kept) refl
  ]

  -- A chain that panics before anything is written is answered with 500 and counted as a panic.
  pub left-panicking :
      (c d : Ctx S) (rec : Arg) (status : ℕ)
      → d.panic ≡ some rec
      → d.metrics ≡ (entered gin env c).metrics
      → d.has_metrics ≡ true
      → d.response ≡ record { status = status; bodies = [] }
      → core (left gin env d) ≡ (
        d.store,
        record { status = 500; bodies = error "Internal Server Error" ∷ [] },
        d.errors,
        (count env.goroutines Counting.panicked c.metrics).1,
        none,
        true,
      )
  unfolding count recover
  left-panicking c d rec status panicking kept has fresh =
      rw
        (
          leave,
          panicking,
          has,
          fresh,
          gin_laws.json_first 500 (error "Internal Server Error") status,
          kept,
        )
        refl
