-- ===== src/Sqldb/Waiting.antt =====
-- How long ConnCheck of internal/sqldb/sqldb.go waits.
use jumble.Shared.{
  ℕ, zero, suc, ◌+◌, ◌≤◌, ◌<◌, ◌≡◌, ◌≢◌, ◌⊎◌, inl, inr, refl, none, some, Option-cases, leb,
  Bool-cases, arith,
}
use jumble.Go.Error.{Error, Result, err, wrap, text}
use jumble.Go.Text.{◌^^◌}
use jumble.Bus.Models.{Time}
use jumble.Sqldb.{Context, Db, default_timeout, backoff, with_timeout, engine, attempts, conn_check}

-- The sleeps of as many attempts, from this one on.
abbrev pub waits : (count attempt : ℕ) → ℕ
waits zero attempt = 0
waits (suc n) attempt = backoff attempt + waits n (suc attempt)

below : (limit t : ℕ) → (limit ≤ t → ⊥) → t < limit
below limit t h = elim (Bool-cases (leb limit t)) [
  | inl reached ↦ absurd (h (ground arith))
  | inr early ↦ ground arith
]

module _ (db : Db) where
  -- A sleep lasts at least its duration.
  abbrev pub Sleeps : Type 0
  Sleeps = (d : ℕ) → d ≤ db.sleep d

  -- The answers that the check ends with: some ping was answered and then the engine, or the
  -- engine's error, or the last ping's error with the context's.
  abbrev pub IsAnswer : Result (Unit {0}) → Type 0
  IsAnswer r =
      ((attempt : ℕ) × (t : Time) × ((db.ping attempt t).0 ≡ none)
        × (r ≡ engine (db.select_true (t + (db.ping attempt t).1))))
      ⊎ ((attempt : ℕ) × (t : Time) × (e c : Error) × ((db.ping attempt t).0 ≡ some e)
          × (r ≡ err (wrap ("deadline exceeded: " ^^ text c) e)))

  -- Before a limit after which the context has an error, enough fuel for sleeps up to it gives an
  -- answer.
  pub settles :
      Sleeps
      → (ctx : Context) (limit : Time) → ((t : Time) → limit ≤ t → ctx.err_at t ≢ none)
      → (fuel attempt : ℕ) (t : Time) → t < limit
      → limit ≤ t + waits fuel attempt
      → (r : Result (Unit {0})) × (attempts db ctx fuel attempt t ≡ some r) × IsAnswer r
  unfolding attempts
  settles sleeps ctx limit expires zero attempt t early late = absurd (omega arith)
  settles sleeps ctx limit expires (suc fuel) attempt t early late =
      let woken = t + (db.ping attempt t).1 + db.sleep (backoff attempt) in
      elim (Option-cases (db.ping attempt t).0) [
        | inl answered ↦ rw answered (_, refl, inl (attempt, t, answered, refl))
        | inr (e, failed) ↦ elim (Option-cases (ctx.err_at woken)) [
          | inr (c, expired) ↦ rw (failed, expired) (_, refl, inr (attempt, t, e, c, failed, refl))
          | inl alive ↦
              let before = below limit woken (λ h. expires woken h alive) in
              let slept = sleeps (backoff attempt) in
              let (r, ends, answers) =
                settles sleeps ctx limit expires fuel (suc attempt) woken before (omega arith) in
              rw (failed, alive) (r, ends, answers)
        ]
      ]

  expires_default :
      (ctx : Context) (now t : Time)
      → now + default_timeout ≤ t
      → (with_timeout ctx now default_timeout).err_at t ≢ none
  expires_default ctx now t h e = ground arith

  -- When sleeps last at least as long as they are asked to, ConnCheck with a context without a
  -- deadline ends within 14 attempts, however pings are answered and however long they take; it
  -- ends with the engine's answer after an answered ping, or with the error of the last ping.
  pub conn_check_lem :
      (ctx : Context) (now : Time)
      → Sleeps
      → ctx.deadline ≡ none
      → (r : Result (Unit {0})) × (conn_check db ctx 14 now ≡ some r) × IsAnswer r
  unfolding conn_check
  conn_check_lem ctx now sleeps no_deadline = rw no_deadline (
      settles sleeps (with_timeout ctx now default_timeout) (now + default_timeout)
        (expires_default ctx now) 14 1 now (omega arith) (omega arith))
