-- ===== src/Sqldb.antt =====
-- internal/sqldb/sqldb.go: ConnCheck, which waits for the database until a deadline. Times and
-- durations are in nanoseconds. The loop takes fuel; `none` is a run that used it up.
pub mod Opening
pub mod Waiting
pub mod Answering
use jumble.Shared.{ℕ, zero, suc, ◌+◌, ◌*◌, String, Option, none, some, leb, if◌then◌else◌}
use jumble.Go.Error.{Error, Result, ok, err, plain, wrap, text}
use jumble.Go.Text.{◌^^◌}
use jumble.Bus.Models.{Time}

-- context.Context: its deadline, if it has one, and what Err() returns at a time.
pub record Context : Type 0 where
  pub deadline : Option Time
  pub err_at : Time → Option Error

-- *sqlx.DB and time.Sleep: the answer to the ping of an attempt that begins at a time, with how long
-- it took; the answer to `SELECT TRUE`; and how long a sleep of a duration lasts.
pub record Db : Type 0 where
  pub ping : (attempt : ℕ) → Time → Option Error × ℕ
  pub select_true : Time → Option Error
  pub sleep : (duration : ℕ) → ℕ

-- 10 * time.Second
abbrev pub default_timeout : ℕ
default_timeout = 10 * 1000000000

-- time.Duration(attempt) * 100 * time.Millisecond
abbrev pub backoff : ℕ → ℕ
backoff attempt = attempt * 100000000

-- context.WithTimeout on a context without a deadline
abbrev pub with_timeout : Context → Time → ℕ → Context
with_timeout ctx now timeout = record {
  deadline = some (now + timeout);
  err_at =
      λ t. if leb (now + timeout) t then some (plain "context deadline exceeded") else ctx.err_at t;
}

-- The context that the loop asks.
abbrev pub bounded : Context → Option Time → Time → Context
bounded ctx none now = with_timeout ctx now default_timeout
bounded ctx (some d) now = ctx

-- The query of the engine after the loop.
abbrev pub engine : Option Error → Result (Unit {0})
engine none = ok tt
engine (some e) = err (wrap "check sql engine" e)

-- What an attempt ends with: the answer to its ping, the engine's answer, the context's error after
-- the sleep, and what the next attempts end with.
abbrev pub settled :
    Option Error
    → Result (Unit {0})
    → Option Error
    → Option (Result (Unit {0}))
    → Option (Result (Unit {0}))
settled none answer ctx_err rest = some answer
settled (some ping_err) answer (some e) rest =
    some (err (wrap ("deadline exceeded: " ^^ text e) ping_err))
settled (some ping_err) answer none rest = rest

module _ (db : Db) where
  -- The loop, from an attempt that begins at a time.
  unfoldable pub attempts : Context → (fuel attempt : ℕ) → Time → Option (Result (Unit {0}))
  attempts ctx zero attempt t = none
  attempts ctx (suc fuel) attempt t =
      let (answer, took) = db.ping attempt t in
      let woken = t + took + db.sleep (backoff attempt) in
      let rest = attempts ctx fuel (suc attempt) woken in
      settled answer (engine (db.select_true (t + took))) (ctx.err_at woken) rest

  unfoldable pub conn_check : Context → (fuel : ℕ) → Time → Option (Result (Unit {0}))
  unfolding attempts
  conn_check ctx fuel now = attempts (bounded ctx ctx.deadline now) fuel 1 now
