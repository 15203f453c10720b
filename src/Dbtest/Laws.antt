-- ===== src/Dbtest/Laws.antt =====
-- Which connections internal/dbtest/dbtest.go leaves open.
use jumble.Shared.{
  ◌+◌, arith, some, String, none, List, [], ◌∷◌, ◌≡◌, ◌⊎◌, inl, inr, refl, Option-cases,
}
use jumble.Go.Error.{Result, Result-cases}
use jumble.Go.Text.{◌^^◌}
use jumble.Bus.Models.{Time}
use jumble.Docker.{Container}
use jumble.Sqldb.{conn_check, with_timeout}
use jumble.Sqldb.Waiting.{Sleeps, settles}
use jumble.Sqldb.Opening.{open_db}
use jumble.Migrations
use jumble.Dbtest.{
  Databases, Event, opens, executes, migrates, closes, Ended, value, fatal, new, cleanup, execute,
  config_of, background, check_timeout, terminate_query,
}

-- The connections that are closed.
abbrev pub closed : {Conn : Type 0} → List (Event Conn) → List Conn
closed [] = []
closed (closes c ∷ events) = c ∷ closed events
closed (e ∷ events) = closed events

module _ {Conn : Type 0} (dbs : Databases Conn) where
  -- New made a database.
  abbrev pub IsMade : String → Ended (Conn × Conn) × List (Event Conn) → Type 0
  IsMade db_name r =
      (master : Conn) × (db : Conn) × (r ≡ (
        value (master, db),
        opens master
            ∷ executes master ("CREATE DATABASE " ^^ db_name) []
            ∷ opens db
            ∷ migrates db
            ∷ [],
      ))

  -- New ended early: it closed nothing, also when the server's connection was open.
  abbrev pub IsLeft : Ended (Conn × Conn) × List (Event Conn) → Type 0
  IsLeft r = ((m : String) × (r.0 ≡ fatal m)) × (closed r.1 ≡ [])

  -- The check of a new connection ends within 49 pings, since 49 sleeps last 122.5 seconds.
  checks :
      (conn : Conn) (now : Time)
      → Sleeps (dbs.checked conn)
      → (r : Result (Unit {0})) × (conn_check
            (dbs.checked conn)
            (with_timeout background now check_timeout)
            49
            now
          ≡ some r)
  unfolding conn_check
  checks conn now sleeps =
      let (r, ends, _) =
        settles (dbs.checked conn) sleeps (with_timeout background now check_timeout)
          (now + check_timeout) (λ t late alive. ground arith) 49 1 now (omega arith)
          (omega arith) in
      (r, ends)

  -- When sleeps last at least as long as they are asked to, New with fuel for 49 pings makes a
  -- database, with both connections open, or ends early with t.Fatalf and closes nothing.
  pub new_lem :
      (c : Container) (db_name : String) (now : Time)
      → ((conn : Conn) → Sleeps (dbs.checked conn))
      → IsMade db_name (new dbs c db_name 49 now []) ⊎ IsLeft (new dbs c db_name 49 now [])
  unfolding new execute
  new_lem c db_name now sleeps = elim (Result-cases (open_db dbs.driver (config_of c "postgres"))) [
    | inr (w, o) ↦ rw o (inr ((_, refl), refl))
    | inl (master, o) ↦
        let (answer, k) = checks master now (sleeps master) in
        elim (Result-cases answer) [
          | inr (w, a) ↦ rw (o, k, a) (inr ((_, refl), refl))
          | inl (done, a) ↦
              elim (Option-cases (dbs.exec master ("CREATE DATABASE " ^^ db_name) [])) [
                | inr (w, x) ↦ rw (o, k, a, x) (inr ((_, refl), refl))
                | inl x ↦ elim (Result-cases (open_db dbs.driver (config_of c db_name))) [
                  | inr (w, d) ↦ rw (o, k, a, x, d) (inr ((_, refl), refl))
                  | inl (db, d) ↦
                      elim (Result-cases
                        (Migrations.migrate dbs.driver dbs.migrator db db_name []).0) [
                          | inr (w, g) ↦ rw (o, k, a, x, d, g) (inr ((_, refl), refl))
                          | inl (fine, g) ↦ rw (o, k, a, x, d, g) (inl (master, db, refl))
                        ]
                ]
              ]
        ]
  ]

  -- The function for t.Cleanup closes both connections when its two statements succeed.
  pub cleanup_lem :
      (master db : Conn) (db_name : String)
      → dbs.exec master terminate_query (db_name ∷ []) ≡ none
      → dbs.exec master ("DROP DATABASE " ^^ db_name) [] ≡ none
      → ((cleanup dbs master db db_name []).0 ≡ value tt)
        × (closed (cleanup dbs master db db_name []).1 ≡ db ∷ master ∷ [])
  unfolding cleanup execute
  cleanup_lem master db db_name terminated dropped = rw (terminated, dropped) (refl, refl)
