-- ===== src/Health/Laws.antt =====
-- The readiness probe always answers.
use jumble.Shared.{
  ℕ, ◌+◌, ◌<◌, Option-cases, none, some, List, [], ◌∷◌, ◌≡◌, ◌⊎◌, inl, inr, refl, ap, sym, ◌∙◌,
}
use jumble.Go.Error.{Result-cases}
use jumble.Bus.Models.{Time}
use jumble.Logger.{Entry}
use jumble.Sqldb.{Db, Context, with_timeout, engine, conn_check, default_timeout}
use jumble.Sqldb.Answering.{Answered, Answered-attempts}
use jumble.Sqldb.Waiting.{Sleeps, conn_check_lem}
use jumble.Telemetry.{Values}
use jumble.Health.{Probes, Response, messages, checked, readiness}

-- ConnCheck makes the same of a context without a deadline and of one with its default.
conn_check-with_timeout :
    (db : Db) (ctx : Context) (fuel : ℕ) (now : Time)
    → ctx.deadline ≡ none
    → conn_check db (with_timeout ctx now default_timeout) fuel now ≡ conn_check db ctx fuel now
unfolding conn_check
conn_check-with_timeout db ctx fuel now free = rw free refl

module _ (h : Probes) where
  -- A ready service.
  abbrev pub IsReady : List Entry → Response × List Entry → Type 0
  IsReady log (r, new_log) =
      (r ≡ record {
        status = 200;
        headers = ("Content-Type", "application/json") ∷ [];
        body = some (messages (("msg", "ok") ∷ []));
      })
      × (new_log ≡ log)

  -- When sleeps last at least as long as they are asked to, the readiness probe of a request
  -- without a deadline answers within 14 pings, however they are answered and however long they
  -- take. The answer is {"msg":"ok"} with 200 only after an answered ping and an answer of the
  -- engine; otherwise it is 500 with an empty body.
  pub readiness_lem :
      (ctx : Context) (values : Values) (now : Time) (log : List Entry)
      → Sleeps h.db
      → ctx.deadline ≡ none
      → (a : Response × List Entry) × (readiness h ctx values 14 now log ≡ some a)
        × ((IsReady log a
              × ((attempt : ℕ) × (t : Time) × ((h.db.ping attempt t).0 ≡ none)
                  × (h.db.select_true (t + (h.db.ping attempt t).1) ≡ none)))
            ⊎ (a.0 ≡ record { status = 500; headers = []; body = none }))
  unfolding readiness checked
  readiness_lem ctx values now log sleeps free =
      let (r, ends, answer) = conn_check_lem h.db ctx now sleeps free in
      let same = conn_check-with_timeout h.db ctx 14 now free ∙ ends in
      elim (Result-cases r) [
        | inr (e, bad) ↦ rw (same, bad) (_, refl, inr refl)
        | inl (done, good) ↦ elim answer [
          | inr (attempt, t, e, c, _, expired) ↦ absurd (cc (sym good ∙ expired))
          | inl (attempt, t, pinged, said) ↦
              elim (Option-cases (h.db.select_true (t + (h.db.ping attempt t).1))) [
                | inl runs ↦
                    rw (same, good) (_, refl, inl ((refl, refl), (attempt, t, pinged, runs)))
                | inr (e, broken) ↦ absurd (cc (sym good ∙ said ∙ ap engine broken))
              ]
        ]
      ]

  -- When the database answers a ping before the probe's ten seconds have passed, and then the query
  -- of the engine, the readiness probe answers {"msg":"ok"} with 200 after as many pings, and logs
  -- nothing; the pings before it may fail.
  pub Answered-readiness :
      (ctx : Context) (values : Values) (now last : Time) (log : List Entry) (failures : ℕ)
      → Answered h.db (with_timeout ctx now default_timeout) failures 1 now last
      → h.db.select_true last ≡ none
      → (fuel : ℕ) → failures < fuel
      → (a : Response × List Entry) × (readiness h ctx values fuel now log ≡ some a) × IsReady log a
  unfolding readiness checked conn_check
  Answered-readiness ctx values now last log failures answered runs fuel enough =
      let ended =
        Answered-attempts h.db (with_timeout ctx now default_timeout) failures 1 now last answered
          fuel enough in
      rw (ended, runs) (_, refl, (refl, refl))
