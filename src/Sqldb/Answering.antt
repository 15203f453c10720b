-- ===== src/Sqldb/Answering.antt =====
-- When ConnCheck of internal/sqldb/sqldb.go ends with the engine's answer.
use jumble.Shared.{ℕ, zero, suc, ◌+◌, ◌<◌, ◌≡◌, refl, none, some, arith}
use jumble.Go.Error.{Error}
use jumble.Bus.Models.{Time}
use jumble.Sqldb.{Context, Db, backoff, engine, attempts}

module _ (db : Db) (ctx : Context) where
  -- When the next attempt begins.
  abbrev pub woken : ℕ → Time → Time
  woken attempt t = t + (db.ping attempt t).1 + db.sleep (backoff attempt)

  -- From an attempt that begins at a time, so many pings fail, each with the context alive after
  -- its sleep, and then one is answered; `last` is when.
  pub data Answered : (failures attempt : ℕ) → (t last : Time) → Type 0 where
    answers :
        (attempt : ℕ) (t : Time)
        → (db.ping attempt t).0 ≡ none
        → Answered 0 attempt t (t + (db.ping attempt t).1)
    fails :
        (failures attempt : ℕ) (t last : Time) (e : Error)
        → (db.ping attempt t).0 ≡ some e
        → ctx.err_at (woken attempt t) ≡ none
        → Answered failures (suc attempt) (woken attempt t) last
        → Answered (suc failures) attempt t last

  pub Answered-attempts :
      (failures attempt : ℕ) (t last : Time)
      → Answered failures attempt t last
      → (fuel : ℕ) → failures < fuel
      → attempts db ctx fuel attempt t ≡ some (engine (db.select_true last))
  unfolding attempts
  Answered-attempts failures attempt t last answered zero enough = absurd (omega arith)
  Answered-attempts failures attempt t last (answers a s answered) (suc fuel) enough =
      rw answered refl
  Answered-attempts failures attempt t last (fails n a s u e failed alive later) (suc fuel) enough =
      let rest = Answered-attempts n (suc a) (woken a s) u later fuel (omega arith) in
      rw (failed, alive) rest
