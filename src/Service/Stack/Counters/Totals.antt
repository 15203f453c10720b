-- ===== src/Service/Stack/Counters/Totals.antt =====
-- The counters of internal/metrics after any sequence of requests.
use jumble.Shared.{
  ℕ, ◌+◌, ◌≤◌, ◌<◌, ◌^◌, List, [], ◌∷◌, ◌≡◌, ◌∙◌, refl, ap, sym, Any, leb, length, if◌then◌else◌,
  arith,
}
use jumble.Metrics
use jumble.Metrics.{Metrics}
use jumble.Mid.Counting
use jumble.Mid.Counting.{Ending, answered, count}
use jumble.Mid.Counting.Laws.{panic_of, error_of, count-requests, count-panics, count-errors}
use jumble.Handler.Endpoints.{App}
use jumble.Handler.Routes.{Route, register_routes}
use jumble.Service.Gin.{Ctx, Gin, IsGin}
use jumble.Service.Stack.{Env, handle}
use jumble.Service.Stack.Served.{IsFresh}
use jumble.Service.Stack.Counters.{HasStatus, registered-IsCounted}

-- 1 for a status of 400 or more
abbrev pub bad : ℕ → ℕ
bad code = if leb 400 code then 1 else 0

abbrev pub number_bad : List ℕ → ℕ
number_bad [] = 0
number_bad (code ∷ codes) = bad code + number_bad codes

error_of-bad : (e : Ending) (code : ℕ) → HasStatus e code → error_of e ≡ bad code
error_of-bad (answered st) code h = ap bad (sym h)
error_of-bad Counting.panicked code h = sym (ap bad h)

at_most : (e : Ending) → panic_of e ≤ error_of e
at_most (answered st) = omega arith
at_most Counting.panicked = omega arith

one_more : {a b c d e : ℕ} → a ≡ b + c → b ≡ d → c ≡ e → a ≡ e + d
one_more h k l = omega arith

few_bad : (codes : List ℕ) → number_bad codes ≤ length codes
few_bad [] = omega arith
few_bad (code ∷ codes) = let rest = few_bad codes in ground arith

module _ {S P K : Type 0} (app : App S P K) (gin : Gin S) (gin_laws : IsGin gin) where
  -- The statuses of the responses so far, the latest first, and the counters after them.
  pub data Counted : List ℕ → Metrics → Type 0 where
    start : Counted [] Metrics.new
    request :
        (codes : List ℕ) (env : Env) (c : Ctx S) (route : Route)
        → Counted codes c.metrics
        → Any (λ r. r ≡ route) register_routes
        → IsFresh c
        → Counted
            ((handle app gin env route c).response.status ∷ codes)
            (handle app gin env route c).metrics

  -- After any sequence of fewer than 2^64 requests through the registered routes, "requests" is
  -- their number, "errors" the number of responses with status 400 or more, and "panics" at most
  -- that.
  pub Counted-metrics :
      (codes : List ℕ) (m : Metrics)
      → Counted codes m
      → length codes < 2 ^ 64
      → (m.requests ≡ length codes) × (m.errors ≡ number_bad codes) × (m.panics ≤ m.errors)
  unfolding Metrics.new
  Counted-metrics codes m start few = (refl, refl, omega arith)
  Counted-metrics codes m (request before env c route counted member fresh) few =
      let (requests, errors, panics) = Counted-metrics before c.metrics counted (omega arith) in
      let d = handle app gin env route c in
      let (e, moved, has) = registered-IsCounted app gin gin_laws env c fresh route member in
      let errors_few = few_bad before in
      let more = ap (λ x. x.requests) moved ∙ count-requests env.goroutines e c.metrics in
      let worse =
        ap (λ x. x.errors) moved ∙ count-errors env.goroutines e c.metrics (omega arith) in
      let panicked =
        ap (λ x. x.panics) moved ∙ count-panics env.goroutines e c.metrics (omega arith) in
      let status = error_of-bad e d.response.status has in
      let order = at_most e in (omega arith, one_more worse errors status, omega arith)
