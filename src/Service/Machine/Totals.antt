-- ===== src/Service/Machine/Totals.antt =====
-- The counters of internal/metrics while requests through the registered routes overlap.
use jumble.Shared.{◌+◌, ◌≤◌, ◌<◌, ◌^◌, List, ◌∷◌, ◌++◌, ◌≡◌, ap, All, length, arith}
use jumble.Metrics
use jumble.Metrics.{Metrics}
use jumble.Handler.Endpoints.{App}
use jumble.Service.Gin.{Gin, IsGin}
use jumble.Service.Stack.Guards.{registered-HasGuards}
use jumble.Service.Stack.Counters.Totals.{number_bad}
use jumble.Service.Machine.{Thread, step}
use jumble.Service.Machine.Server.{World, over, Serves, idle, arrives, moves}
use jumble.Service.Machine.Turns.{IsDone}
use jumble.Service.Machine.Faces.{begun-Tallied}
use jumble.Service.Machine.Tallies.{next-Tallied}
use jumble.Service.Machine.Sums.{
  length-middle, added, statuses, Tally, Tally-length, Tally-pick, Tally-same, Tally-IsDone,
}

module _ {S P K : Type 0} (app : App S P K) (gin : Gin S) (gin_laws : IsGin gin) where
  Serves-Tally :
      (start w : World S) (ts : List (Thread S))
      → Serves app gin start w ts
      → start.metrics ≡ Metrics.new
      → length ts + 1 < 2 ^ 64
      → Tally gin ts w.metrics.requests w.metrics.errors w.metrics.panics
  unfolding Metrics.new step
  Serves-Tally start w ts idle new small =
      (ap (λ m. m.requests) new, ap (λ m. m.errors) new, ap (λ m. m.panics) new)
  Serves-Tally start w ts (arrives w0 earlier env c route before member fresh) new small =
      let tally = Serves-Tally start w0 earlier before new (omega arith) in
      let m = w0.metrics in
      (
        0,
        0,
        0,
        m.requests,
        m.errors,
        m.panics,
        begun-Tallied app gin gin_laws env c fresh route
            (registered-HasGuards app gin gin_laws env route member),
        tally,
        omega arith,
        omega arith,
        omega arith,
      )
  Serves-Tally start w ts (moves w0 later earlier t before) new small =
      let m = w0.metrics in
      let u = step (over w0 t) in
      let same = length-middle later earlier t u in
      let tally = Serves-Tally start w0 (later ++ (t ∷ earlier)) before new (omega arith) in
      let (rl, el, pl) =
        Tally-length gin (later ++ (t ∷ earlier)) m.requests m.errors m.panics tally in
      let (r, e, p, rs, es, ps, held, rsum, esum, psum, put) =
        Tally-pick gin later earlier t u m.requests m.errors m.panics tally in
      let (r2, e2, p2, moved, rm, em, pm) =
        next-Tallied gin gin_laws t.todo t.inside (over w0 t).ctx r e p held
          (omega arith, omega arith, omega arith) in
      Tally-same gin (later ++ (u ∷ earlier)) _ _ _ _ _ _ (added _ _ _ _ _ rm rsum)
        (added _ _ _ _ _ em esum) (added _ _ _ _ _ pm psum) (put r2 e2 p2 moved)

  -- However fewer than 2^64 - 1 requests through the registered routes overlap, from counters at 0:
  -- when they have all returned, "requests" is their number, "errors" the number of responses with
  -- status 400 or more, and "panics" at most that.
  pub Serves-metrics :
      (start w : World S) (ts : List (Thread S))
      → Serves app gin start w ts
      → start.metrics ≡ Metrics.new
      → length ts + 1 < 2 ^ 64
      → All IsDone ts
      → (w.metrics.requests ≡ length ts)
        × (w.metrics.errors ≡ number_bad (statuses ts))
        × (w.metrics.panics ≤ w.metrics.errors)
  Serves-metrics start w ts serves new small done =
      Tally-IsDone gin ts _ _ _ (Serves-Tally start w ts serves new small) done
