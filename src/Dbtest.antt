-- ===== src/Dbtest.antt =====
-- internal/dbtest/dbtest.go: a database for a test, in a container. What package testing and the
-- random numbers give are arguments; t.Fatalf ends the function with its text.
pub mod Laws
use jumble.Shared.{ℕ, String, true, Option, none, some, List, [], ◌∷◌, ◌++◌, ◌*◌}
use jumble.Go.Int.{pos}
use jumble.Go.Error.{Error, Result, ok, err, wrap, text}
use jumble.Go.Text.{◌^^◌}
use jumble.Go.Action.{Call, returns, panics}
use jumble.Bus.Models.{Time}
use jumble.Docker.{Container, Daemon, start_container}
use jumble.Docker
use jumble.Sqldb
use jumble.Sqldb.{with_timeout, conn_check}
use jumble.Sqldb.Opening
use jumble.Sqldb.Opening.{Config, Driver, open_db}
use jumble.Migrations
use jumble.Migrations.{Migrator}

module _ {D : Type 0} (docker : Daemon D) where
  abbrev named : Call Container → Call Container
  named (returns (ok c)) = returns (ok c)
  named (returns (err e)) = returns (err (wrap "startContainer" e))
  named (panics m) = panics m

  -- CreateDBContainer
  unfoldable pub create_db_container : D → Call Container × D
  create_db_container d =
      let (r, t) =
        start_container docker "postgres:17" "bustest" "5432"
          ("-e" ∷ "POSTGRES_PASSWORD=postgres" ∷ []) ("-c" ∷ "log_statement=all" ∷ []) d in
      (named r, t)

-- What a test does with its databases, in order.
pub data Event (Conn : Type 0) : Type 0 where
  opens : Conn → Event Conn
  executes : Conn → (query : String) → (args : List String) → Event Conn
  migrates : Conn → Event Conn
  closes : Conn → Event Conn

-- The databases: how they are opened and checked, what a statement returns, and the migrations.
pub record Databases (Conn : Type 0) : Type 1 where
  pub driver : Driver Conn
  pub checked : Conn → Sqldb.Db
  pub exec : Conn → (query : String) → (args : List String) → Option Error
  pub migrator : Migrator Conn

-- A step's value, the text of t.Fatalf, or a check out of fuel.
pub data Ended (A : Type 0) : Type 0 where
  value : A → Ended A
  fatal : String → Ended A
  unfinished : Ended A

abbrev pub Test : Type 0 → Type 0 → Type 0
Test Conn A = List (Event Conn) → Ended A × List (Event Conn)

module _ {Conn A B : Type 0} where
  abbrev continue : Ended A → (A → Test Conn B) → Test Conn B
  continue (value a) f events = f a events
  continue (fatal m) f events = (fatal m, events)
  continue unfinished f events = (unfinished, events)

  infixl 5 ◌>>=◌
  abbrev ◌>>=◌ : Test Conn A → (A → Test Conn B) → Test Conn B
  ◌>>=◌ m f events = continue (m events).0 f (m events).1

abbrev or_fatal : {A : Type 0} → String → Result A → Ended A
or_fatal prefix (ok a) = value a
or_fatal prefix (err e) = fatal (prefix ^^ text e)

abbrev stopped : String → Option Error → Ended (Unit {0})
stopped prefix none = value tt
stopped prefix (some e) = fatal (prefix ^^ text e)

abbrev answered : Option (Result (Unit {0})) → Ended (Unit {0})
answered none = unfinished
answered (some (ok done)) = value tt
answered (some (err e)) = fatal ("connCheck: " ^^ text e)

module _ {Conn : Type 0} where
  abbrev lift : {A : Type 0} → Ended A → Test Conn A
  lift r events = (r, events)

  abbrev does : Event Conn → Test Conn (Unit {0})
  does e events = (value tt, events ++ (e ∷ []))

abbrev config_of : Container → String → Config
config_of c name = record {
  user = "postgres";
  password = "postgres";
  host = c.host_port;
  name = name;
  schema = "";
  max_idle_conns = pos 0;
  max_open_conns = pos 0;
  disable_tls = true;
}

abbrev terminate_query : String
terminate_query = "SELECT pg_terminate_backend(pid) FROM pg_stat_activity WHERE datname = $1"

-- context.Background()
abbrev pub background : Sqldb.Context
background = record { deadline = none; err_at = λ t. none }

-- time.Second*120
abbrev pub check_timeout : ℕ
check_timeout = 120 * 1000000000

module _ {Conn : Type 0} (dbs : Databases Conn) where
  -- A statement, with the text of t.Fatalf before its error.
  execute : Conn → String → String → List String → Test Conn (Unit {0})
  execute conn prefix query args = do
    run ← does (executes conn query args)
    lift (stopped prefix (dbs.exec conn query args))

  -- New, for a name of four random letters, from a time and with fuel for the check: the connection
  -- to the server and the one to the new database. t.Logf is left out.
  unfoldable pub new : Container → String → (fuel : ℕ) → Time → Test Conn (Conn × Conn)
  unfolding execute
  new c db_name fuel now = do
    master ← lift (or_fatal "open conn: " (open_db dbs.driver (config_of c "postgres")))
    noted ← does (opens master)
    checked ← lift (
        answered
          (conn_check (dbs.checked master) (with_timeout background now check_timeout) fuel now))
    created ← execute master "execContext: " ("CREATE DATABASE " ^^ db_name) []
    db ← lift (or_fatal ("open:" ^^ (db_name ^^ ":")) (open_db dbs.driver (config_of c db_name)))
    also ← does (opens db)
    begun ← does (migrates db)
    migrated ←
        lift (
          or_fatal "migration failed: "
            (Migrations.migrate dbs.driver dbs.migrator db db_name []).0)
    lift (value (master, db))

  -- The function that New hands to t.Cleanup.
  unfoldable pub cleanup : Conn → Conn → String → Test Conn (Unit {0})
  unfolding execute
  cleanup master db db_name = do
    ended ←
        execute master ("terminating conn for " ^^ (db_name ^^ ": ")) terminate_query (db_name ∷ [])
    closed ← does (closes db)
    dropped ←
        execute master ("dropping database " ^^ (db_name ^^ ": ")) ("DROP DATABASE " ^^ db_name) []
    does (closes master)
