-- ===== src/Mid/Counting.antt =====
-- internal/mid/metrics.go and panics.go: what is counted for a request.
pub mod Laws
use jumble.Shared.{ℕ, suc, ◌%◌, Bool, true, false, nat_eq, leb, if◌then◌else◌, List, [], ◌∷◌}
use jumble.Go.Int.{ℤ, pos, negsuc}
use jumble.Metrics
use jumble.Metrics.{Metrics}

-- How the rest of the chain ended: with a status, or with a panic before anything was written.
pub data Ending : Type 0 where
  answered : (status : ℕ) → Ending
  panicked : Ending

-- reqs % 1000 == 0
abbrev pub every_thousand : ℤ → Bool
every_thousand (pos n) = nat_eq (n % 1000) 0
every_thousand (negsuc n) = nat_eq (suc n % 1000) 0

-- Panic: the recovered request has status 500. The key "metrics" is set by the middleware before
-- it.
unfoldable pub recover : Ending → Metrics → ℕ × Metrics
recover (answered status) m = (status, m)
recover panicked m = (500, (Metrics.add_panic m).1)

-- Metrics, around the rest of the chain; `gs` is the number of goroutines at that moment
unfoldable pub count : ℕ → Ending → Metrics → ℕ × Metrics
unfolding recover
count gs ending m =
    let (reqs, m1) = Metrics.add_request m in
    let m2 = if every_thousand reqs then (Metrics.add_goroutine gs m1).1 else m1 in
    let (status, m3) = recover ending m2 in
    (status, if leb 400 status then (Metrics.add_error m3).1 else m3)
