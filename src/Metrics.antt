-- ===== src/Metrics.antt =====
-- internal/metrics/metrics.go: the counters, int64 bit patterns that wrap.
use jumble.Shared.{ℕ, ◌+◌, ◌%◌, ◌^◌}
use jumble.Go.Int.{ℤ, wrap64}

pub record Metrics : Type 0 where
  pub goroutines : ℕ
  pub requests : ℕ
  pub errors : ℕ
  pub panics : ℕ

-- (*expvar.Int) Add
abbrev pub add : ℕ → ℕ → ℕ
add n d = (n + d) % 2 ^ 64

unfoldable pub new : Metrics
new = record { goroutines = 0; requests = 0; errors = 0; panics = 0 }

-- `gs` is what runtime.NumGoroutine returns
unfoldable pub add_goroutine : ℕ → Metrics → ℕ × Metrics
add_goroutine gs m = (gs, record m { goroutines = add m.goroutines gs })

unfoldable pub add_request : Metrics → ℤ × Metrics
add_request m =
    let requests = add m.requests 1 in (wrap64 requests, record m { requests = requests })

unfoldable pub add_panic : Metrics → ℤ × Metrics
add_panic m = let panics = add m.panics 1 in (wrap64 panics, record m { panics = panics })

unfoldable pub add_error : Metrics → ℤ × Metrics
add_error m = let errors = add m.errors 1 in (wrap64 errors, record m { errors = errors })
