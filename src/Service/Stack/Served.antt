-- ===== src/Service/Stack/Served.antt =====
-- What the routes of internal/domains/user/handler/routes.go answer behind the middleware that
-- cmd/services/main.go installs.
use jumble.Shared.{
  true, false, none, some, Option, List, [], ◌∷◌, map, ◌≡◌, ◌∙◌, refl, ap, sym, inl, inr, All,
  if◌then◌else◌, Bool-cases,
}
use jumble.Go.Error.{Error}
use jumble.Logger.{Entry}
use jumble.Mid.Counting.{Ending, answered, count}
use jumble.Mid.Counting
use jumble.Handler.Endpoints.{App}
use jumble.Handler.Reply.{Outcome, json, status, failed, panicked}
use jumble.Handler.Routes.{Method, Stage, endpoint, Route}
use jumble.Service.Gin.{
  body, error, Response, Ctx, simple, stopped, leave, is_panicking, Gin, IsGin,
}
use jumble.Service.Stack.{Env, called, seen, acts, handler_of, noted, settled, handle, recovered}
use jumble.Service.Stack.Laws.{
  core, entered, left, run-running, run-stopped, run-core, left-calm, left-panicking,
}

-- A context before any handler has run.
abbrev pub IsFresh : {S : Type 0} → Ctx S → Type 0
IsFresh c =
    (c.keys.user ≡ none)
    × (c.errors ≡ [])
    × (c.response ≡ record { status = 200; bodies = [] })
    × (c.aborted ≡ false)
    × (c.panic ≡ none)

pub fresh-stopped : {S : Type 0} (c : Ctx S) → IsFresh c → stopped c ≡ false
fresh-stopped c (_, _, _, aborted, calm) = rw (aborted, calm) refl

pub leave-simple : {S : Type 0} (f : Ctx S → Ctx S) (d : Ctx S) → leave (simple f) d ≡ d
leave-simple f d = elim (Bool-cases (is_panicking d.panic)) [
  | inl panicking ↦ ap (λ b. if b then d else d) panicking
  | inr calm ↦ ap (λ b. if b then d else d) calm
]

-- Response, errors and counters of an endpoint's outcome.
abbrev pub answers : Outcome → Response × List Error × Ending
answers (json code b) = (record { status = code; bodies = body b ∷ [] }, [], answered code)
answers (status code) = (record { status = code; bodies = [] }, [], answered code)
answers (failed e) = (record { status = 200; bodies = [] }, e ∷ [], answered 200)
answers (panicked m) =
    (record { status = 500; bodies = error "Internal Server Error" ∷ [] }, [], Counting.panicked)

abbrev pub IsAnswered : {S : Type 0} → Env → Ctx S → Outcome × S → Ctx S → Type 0
IsAnswered env c (o, s) d =
    (d.store ≡ s)
    × (d.response ≡ (answers o).0)
    × (d.errors ≡ (answers o).1)
    × (d.metrics ≡ (count env.goroutines (answers o).2 c.metrics).1)
    × (d.panic ≡ none)

module _ {S P K : Type 0} (app : App S P K) (gin : Gin S) (gin_laws : IsGin gin) (env : Env) where
  abbrev pub runs : List Stage → Ctx S → Ctx S
  runs stages c = gin.run (map (handler_of app gin env) stages) c

  pub runs-acts :
      (stage : Stage) (stages : List Stage) (c : Ctx S)
      → stopped c ≡ false
      → runs (stage ∷ stages) c ≡ runs stages (acts app gin env stage c)
  runs-acts stage stages c running =
      run-running gin gin_laws (handler_of app gin env stage) _ c running
      ∙ leave-simple (acts app gin env stage) _

  -- Stages that keep a property while the chain runs keep it to its end.
  pub runs-keep :
      (Q : Ctx S → Type 0) (stages : List Stage)
      → All (λ stage. (c : Ctx S) → stopped c ≡ false → Q c → Q (acts app gin env stage c)) stages
      → (c : Ctx S) → Q c
      → Q (runs stages c)
  runs-keep Q [] keeps c q = rw (gin_laws.run_nil c) q
  runs-keep Q (stage ∷ stages) (keep, keeps) c q = elim (Bool-cases (stopped c)) [
    | inl halted ↦
        rw (run-stopped gin gin_laws (map (handler_of app gin env) (stage ∷ stages)) c halted) q
    | inr running ↦
        rw (runs-acts stage stages c running)
          (runs-keep Q stages keeps (acts app gin env stage c) (keep c running q))
  ]

  -- The context after an endpoint's calls, and what the middleware make of it.
  settled-left :
      (c : Ctx S)
      → IsFresh c
      → (o : Outcome) (s : S)
      → core (left gin env (settled gin env o (record (entered gin env c) { store = s }))) ≡ (
        s,
        (answers o).0,
        (answers o).1,
        (count env.goroutines (answers o).2 c.metrics).1,
        none,
        true,
      )
  settled-left c (_, no_errors, new, _, calm) (json code b) s =
      rw
        (
          left-calm gin gin_laws env c
              (settled gin env (json code b) (record (entered gin env c) { store = s })) calm refl,
          new,
          no_errors,
          gin_laws.json_first code (body b) 200,
        )
        refl
  settled-left c (_, no_errors, new, _, calm) (status code) s =
      rw
        (
          left-calm gin gin_laws env c
              (settled gin env (status code) (record (entered gin env c) { store = s })) calm refl,
          new,
          no_errors,
          gin_laws.set_status_first code 200,
        )
        refl
  settled-left c (_, no_errors, new, _, calm) (failed e) s =
      rw
        (
          left-calm gin gin_laws env c
              (settled gin env (failed e) (record (entered gin env c) { store = s })) calm refl,
          new,
          no_errors,
        )
        refl
  settled-left c (_, no_errors, new, _, calm) (panicked m) s =
      rw
        (
          left-panicking gin gin_laws env c
              (settled gin env (panicked m) (record (entered gin env c) { store = s }))
              (recovered m) 200 refl refl refl new,
          no_errors,
        )
        refl

  -- What does not depend on the log is kept by the line of Authenticate.
  pub noted-keeps :
      (Q : Ctx S → Type 0)
      → ((c : Ctx S) (lines : List Entry) → Q c → Q (record c { log = lines }))
      → (o : Option Error) (c : Ctx S) → Q c
      → Q (noted gin env o c)
  noted-keeps Q step none c q = q
  noted-keeps Q step (some e) c q = step c _ q

  pub handled :
      (route : Route) (c : Ctx S)
      → IsFresh c
      → core (handle app gin env route c)
        ≡ core (left gin env (runs route.chain (entered gin env c)))
  unfolding handle
  handled route c fresh =
      run-core gin gin_laws env (map (handler_of app gin env) route.chain) c (fresh-stopped c fresh)

  -- A chain whose endpoint goes first and that ends without a panic.
  pub handled-calm :
      (route : Route) (m : Method) (stages : List Stage)
      → route.chain ≡ endpoint m ∷ stages
      → (c : Ctx S) → IsFresh c
      → (d : Ctx S) → d ≡ runs stages (acts app gin env (endpoint m) (entered gin env c))
      → d.panic ≡ none
      → d.metrics ≡ (entered gin env c).metrics
      → core (handle app gin env route c) ≡ (
        d.store,
        d.response,
        d.errors,
        (count env.goroutines (answered d.response.status) c.metrics).1,
        none,
        d.has_metrics,
      )
  handled-calm route m stages chain c fresh d is calm kept =
      handled route c fresh
      ∙ ap (λ chain. core (left gin env (runs chain (entered gin env c)))) chain
      ∙ ap (λ d. core (left gin env d))
          (runs-acts (endpoint m) stages (entered gin env c) (fresh-stopped c fresh) ∙ sym is)
      ∙ left-calm gin gin_laws env c d calm kept

  -- A request to a route with one handler ends with that endpoint's effect on the store, its status
  -- and body, and the counters of its status; an endpoint that fails is answered with an empty 200,
  -- since no handler renders the recorded error, and one that panics with 500.
  pub handle_alone :
      (route : Route) (m : Method)
      → route.chain ≡ endpoint m ∷ []
      → (c : Ctx S) → IsFresh c
      → IsAnswered env c
          (called app gin env m (seen app gin env c) c.store)
          (handle app gin env route c)
  handle_alone route m alone c fresh =
      let r = called app gin env m (seen app gin env c) c.store in
      let e =
        handled route c fresh
        ∙ ap (λ chain. core (left gin env (runs chain (entered gin env c)))) alone
        ∙ ap (λ d. core (left gin env d))
            (runs-acts (endpoint m) [] (entered gin env c) (fresh-stopped c fresh)
              ∙ gin_laws.run_nil _)
        ∙ settled-left c fresh r.0 r.1 in
      (ap (λ t. t.0) e, ap (λ t. t.1) e, ap (λ t. t.2) e, ap (λ t. t.3) e, ap (λ t. t.4) e)
