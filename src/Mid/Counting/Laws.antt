-- ===== src/Mid/Counting/Laws.antt =====
-- What the counters of internal/metrics/metrics.go hold after a sequence of requests that
-- internal/mid/metrics.go and panics.go have seen.
use jumble.Shared.{
  ℕ, ◌+◌, ◌^◌, ◌<◌, ◌≤◌, ◌≡◌, ◌∙◌, leb, if◌then◌else◌, List, [], ◌∷◌, length, arith,
}
use jumble.Metrics
use jumble.Metrics.{Metrics, add}
use jumble.Mid.Counting.{Ending, answered, panicked, recover, count}

-- 1 for a panic
abbrev pub panic_of : Ending → ℕ
panic_of (answered status) = 0
panic_of panicked = 1

-- 1 for a response with status 400 or more; a panic is answered with 500
abbrev pub error_of : Ending → ℕ
error_of (answered status) = if leb 400 status then 1 else 0
error_of panicked = 1

abbrev pub total_of : (Ending → ℕ) → List (ℕ × Ending) → ℕ
total_of f [] = 0
total_of f ((gs, e) ∷ es) = f e + total_of f es

-- The counters after requests that follow one another, each with the goroutines at its time.
abbrev pub count_all : List (ℕ × Ending) → Metrics → Metrics
count_all [] m = m
count_all ((gs, e) ∷ es) m = count_all es (count gs e m).1

pub count-requests :
    (gs : ℕ) (e : Ending) (m : Metrics) → (count gs e m).1.requests ≡ add m.requests 1
unfolding count recover Metrics.add_request Metrics.add_goroutine Metrics.add_error
    Metrics.add_panic
count-requests gs e m = ground arith

pub count-panics :
    (gs : ℕ) (e : Ending) (m : Metrics)
    → m.panics + 1 < 2 ^ 64
    → (count gs e m).1.panics ≡ m.panics + panic_of e
unfolding count recover Metrics.add_request Metrics.add_goroutine Metrics.add_error
    Metrics.add_panic
count-panics gs e m h = ground arith

pub count-errors :
    (gs : ℕ) (e : Ending) (m : Metrics)
    → m.errors + 1 < 2 ^ 64
    → (count gs e m).1.errors ≡ m.errors + error_of e
unfolding count recover Metrics.add_request Metrics.add_goroutine Metrics.add_error
    Metrics.add_panic
count-errors gs e m h = ground arith

at_most_one : (e : Ending) → (panic_of e ≤ 1) × (error_of e ≤ 1)
at_most_one (answered status) = (omega arith, ground arith)
at_most_one panicked = (omega arith, omega arith)

-- From counters with room, each counter grows by the number of its events.
counted :
    (es : List (ℕ × Ending)) (m : Metrics)
    → m.requests + length es < 2 ^ 64
    → m.panics + length es < 2 ^ 64
    → m.errors + length es < 2 ^ 64
    → ((count_all es m).requests ≡ m.requests + length es)
      × ((count_all es m).panics ≡ m.panics + total_of panic_of es)
      × ((count_all es m).errors ≡ m.errors + total_of error_of es)
counted [] m r p q = (omega arith, omega arith, omega arith)
counted ((gs, e) ∷ es) m r p q =
    let m' = (count gs e m).1 in
    let er : m'.requests ≡ m.requests + 1 = count-requests gs e m ∙ omega arith in
    let ep : m'.panics ≡ m.panics + panic_of e = count-panics gs e m (omega arith) in
    let eq : m'.errors ≡ m.errors + error_of e = count-errors gs e m (omega arith) in
    let le = at_most_one e in
    let (hr, hp, hq) = counted es m' (omega arith) (omega arith) (omega arith) in
    (omega arith, omega arith, omega arith)

-- After any sequence of fewer than 2^64 requests from the start, "requests" is their number,
-- "panics" the number of those that panicked, and "errors" the number of those that panicked or
-- were answered with status 400 or more.
pub count_all_lem :
    (es : List (ℕ × Ending))
    → length es < 2 ^ 64
    → ((count_all es Metrics.new).requests ≡ length es)
      × ((count_all es Metrics.new).panics ≡ total_of panic_of es)
      × ((count_all es Metrics.new).errors ≡ total_of error_of es)
unfolding Metrics.new
count_all_lem es h =
    let (hr, hp, he) = counted es Metrics.new (omega arith) (omega arith) (omega arith) in
    (omega arith, omega arith, omega arith)
