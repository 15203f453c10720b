-- ===== src/Service/Machine/Tally.antt =====
-- What one request adds to the counters of internal/metrics, step by step.
use jumble.Shared.{
  ℕ, ◌+◌, ◌≤◌, ◌<◌, ◌^◌, Bool, true, false, Option, none, some, List, [], ◌∷◌, ◌++◌, ◌≡◌, refl, ◌⊎◌,
  All, arith,
}
use jumble.Metrics
use jumble.Metrics.{Metrics}
use jumble.Logger.{Arg}
use jumble.Service.Gin.{error, Ctx, Handler, Response, leave, Gin, IsGin}
use jumble.Service.Stack.{Env, metrics, panics}
use jumble.Service.Stack.Counters.Totals.{bad}

-- What the counting middleware read of a context.
pub record Face : Type 0 where
  pub response : Response
  pub panic : Option Arg
  pub aborted : Bool
  pub has_metrics : Bool

abbrev pub face : {S : Type 0} → Ctx S → Face
face c = record {
  response = c.response;
  panic = c.panic;
  aborted = c.aborted;
  has_metrics = c.has_metrics;
}

abbrev pub is_new : Response
is_new = record { status = 200; bodies = [] }

abbrev pub IsClean : Face → Type 0
IsClean f = (f.response ≡ is_new) × (f.panic ≡ none) × (f.aborted ≡ false)

-- A panic that is under way came before anything was written.
abbrev pub IsSettled : Face → Type 0
IsSettled f = (f.panic ≡ none) ⊎ (f.response ≡ is_new)

-- The counters are not about to wrap.
abbrev pub HasRoom : Metrics → Type 0
HasRoom m = (m.requests + 1 < 2 ^ 64) × (m.errors + 1 < 2 ^ 64) × (m.panics + 1 < 2 ^ 64)

module _ {S : Type 0} where
  -- Telemetry and logging.
  abbrev pub Quiet : Handler S → Type 0
  Quiet h =
      ((c : Ctx S) → (face (h.before c) ≡ face c) × ((h.before c).metrics ≡ c.metrics))
      × ((c : Ctx S) → (face (leave h c) ≡ face c) × ((leave h c).metrics ≡ c.metrics))

  -- An endpoint, and a guard behind it; neither calls c.Next() before it returns.
  abbrev pub Settles : Handler S → Type 0
  Settles h =
      ((c : Ctx S)
        → IsClean (face c)
        → IsSettled (face (h.before c))
          × ((h.before c).has_metrics ≡ c.has_metrics)
          × ((h.before c).metrics ≡ c.metrics))
      × ((c : Ctx S) → leave h c ≡ c)

  abbrev pub Calms : Handler S → Type 0
  Calms h =
      ((c : Ctx S)
        → c.panic ≡ none
        → ((h.before c).panic ≡ none)
          × ((h.before c).has_metrics ≡ c.has_metrics)
          × ((h.before c).metrics ≡ c.metrics))
      × ((c : Ctx S) → leave h c ≡ c)

  module _ (gin : Gin S) where
    -- Where a request is, with what it has added to "requests", "errors" and "panics".
    pub data Tallied (todo inside : List (Handler S)) (f : Face) : ℕ → ℕ → ℕ → Type 0 where
      waits :
          (env : Env) (outer : List (Handler S)) (e : Handler S) (gs : List (Handler S))
          → todo ≡ outer ++ (metrics gin env ∷ panics gin env ∷ e ∷ gs)
          → All Quiet outer
          → All Quiet inside
          → Settles e
          → All Calms gs
          → IsClean f
          → Tallied todo inside f 0 0 0
      counts :
          (env : Env) (outer : List (Handler S)) (e : Handler S) (gs : List (Handler S))
          → todo ≡ panics gin env ∷ e ∷ gs
          → inside ≡ metrics gin env ∷ outer
          → All Quiet outer
          → Settles e
          → All Calms gs
          → IsClean f
          → f.has_metrics ≡ true
          → Tallied todo inside f 1 0 0
      enters :
          (env : Env) (outer : List (Handler S)) (e : Handler S) (gs : List (Handler S))
          → todo ≡ e ∷ gs
          → inside ≡ panics gin env ∷ metrics gin env ∷ outer
          → All Quiet outer
          → Settles e
          → All Calms gs
          → IsClean f
          → f.has_metrics ≡ true
          → Tallied todo inside f 1 0 0
      runs :
          (env : Env) (outer done : List (Handler S))
          → inside ≡ done ++ (panics gin env ∷ metrics gin env ∷ outer)
          → All Quiet outer
          → All (λ h. (c : Ctx S) → leave h c ≡ c) done
          → All Calms todo
          → IsSettled f
          → f.has_metrics ≡ true
          → Tallied todo inside f 1 0 0
      rescued :
          (env : Env) (outer : List (Handler S)) (panics : ℕ)
          → todo ≡ []
          → inside ≡ metrics gin env ∷ outer
          → All Quiet outer
          → f.panic ≡ none
          → panics ≤ bad f.response.status
          → Tallied todo inside f 1 0 panics
      finishes :
          (panics : ℕ)
          → todo ≡ []
          → All Quiet inside
          → panics ≤ bad f.response.status
          → Tallied todo inside f 1 (bad f.response.status) panics

-- The counters of the middleware's calls.
module _ {S : Type 0} (gin : Gin S) (env : Env) (c : Ctx S) where
  pub entered-metrics :
      HasRoom c.metrics
      → let m = ((metrics gin env).before c).metrics in
        (m.requests ≡ c.metrics.requests + 1)
        × (m.errors ≡ c.metrics.errors)
        × (m.panics ≡ c.metrics.panics)
  unfolding Metrics.add_request Metrics.add_goroutine
  entered-metrics room = ground arith

  pub left-metrics :
      HasRoom c.metrics
      → c.panic ≡ none
      → let d = leave (metrics gin env) c in
        (d.response ≡ c.response)
        × (d.metrics.requests ≡ c.metrics.requests)
        × (d.metrics.errors ≡ c.metrics.errors + bad c.response.status)
        × (d.metrics.panics ≡ c.metrics.panics)
  unfolding Metrics.add_error
  left-metrics room calm = rw (leave, calm) (ground arith)

  pub left-panics : c.panic ≡ none → leave (panics gin env) c ≡ c
  left-panics calm = rw (leave, calm) refl

  pub rescued-panics :
      IsGin gin
      → HasRoom c.metrics
      → (rec : Arg) → c.panic ≡ some rec
      → c.has_metrics ≡ true
      → c.response ≡ is_new
      → let d = leave (panics gin env) c in
        (d.response.status ≡ 500)
        × (d.panic ≡ none)
        × (d.metrics.requests ≡ c.metrics.requests)
        × (d.metrics.errors ≡ c.metrics.errors)
        × (d.metrics.panics ≡ c.metrics.panics + 1)
  unfolding Metrics.add_panic
  rescued-panics gin_laws room rec panicking has new =
      rw (leave, panicking, has, new, gin_laws.json_first 500 (error "Internal Server Error") 200)
        (refl, refl, refl, refl, omega arith)
