-- ===== src/Migrations.antt =====
-- internal/migrate/migrate.go and the command of cmd/admin: applying the migrations. cobra and
-- golang-migrate are parameters.
pub mod Laws
use jumble.Shared.{
  String, Bool, true, false, Option, none, some, List, [], ◌∷◌, ◌++◌, ◌==◌, if◌then◌else◌,
}
use jumble.Go.Error.{Error, Result, ok, err, plain, wrap, context, text}
use jumble.Go.Int.{pos}
use jumble.Go.Action.{Action, lift, deferring, within, ◌>>=◌}
use jumble.Sqldb.Opening
use jumble.Sqldb.Opening.{Config, Driver}

-- golang-migrate: the driver over a connection, the source over the embedded files, the instance,
-- and what its Up finds and does.
pub data Up : Type 0 where
  applied : Up
  no_change : Up  -- migrate.ErrNoChange
  stopped : Error → Up

pub record Migrator (Conn : Type 0) : Type 1 where
  pub Source : Type 0
  pub Target : Type 0
  pub Instance : Type 0
  pub with_instance : Conn → Result Target
  pub files : (path : String) → Result Source
  pub new_with_instance : Source → (name : String) → Target → Result Instance
  pub up : Instance → Up

-- `err != nil && err != migrate.ErrNoChange`
abbrev outcome_of : Up → Result (Unit {0})
outcome_of applied = ok tt
outcome_of no_change = ok tt
outcome_of (stopped e) = err (wrap "migration up" e)

-- What a command does outside, in order.
pub data Event (Conn : Type 0) : Type 0 where
  printed : String → Event Conn
  opened : Conn → Event Conn
  migrated : Conn → Up → Event Conn
  closed : Conn → Event Conn

pub record Flags : Type 0 where
  pub dbuser : String
  pub dbpass : String
  pub host : String
  pub name : String

-- init of migrate.go
abbrev pub default_flags : Flags
default_flags = record {
  dbuser = "postgres";
  dbpass = "postgres";
  host = "localhost:5432";
  name = "postgres";
}

-- PreRunE
unfoldable pub pre_run : Flags → Option Error
pre_run f =
    if f.dbuser == ""
    then some (plain "database user is required (--user)")
    else if f.dbpass == ""
    then some (plain "database password is required (--pass)")
    else if f.host == ""
    then some (plain "database host is required (--host)")
    else if f.name == ""
    then some (plain "database name is required (--name)")
    else none

abbrev pub config_of : Flags → Config
config_of f = record {
  user = f.dbuser;
  password = f.dbpass;
  host = f.host;
  name = f.name;
  schema = "";
  max_idle_conns = pos 0;
  max_open_conns = pos 0;
  disable_tls = true;
}

module _ {Conn : Type 0} where
  abbrev pub emits : Event Conn → Action (List (Event Conn)) (Unit {0})
  emits e events = (ok tt, events ++ (e ∷ []))

  abbrev closing : Conn → List (Event Conn) → List (Event Conn)
  closing db events = events ++ (closed db ∷ [])

module _ {Conn : Type 0} (driver : Driver Conn) (migrator : Migrator Conn) where
  open migrator use {with_instance, files, new_with_instance, up}

  upped : Conn → Up → Action (List (Event Conn)) (Unit {0})
  upped db u events = (outcome_of u, events ++ (migrated db u ∷ []))

  -- Migrate
  unfoldable pub migrate : Conn → String → Action (List (Event Conn)) (Unit {0})
  unfolding upped
  migrate db dbname = do
    target ← lift (context "creating dirver" (with_instance db))
    source ← lift (context "creating source from fs" (files "sql"))
    m ← lift (context "creating migration instance" (new_with_instance source dbname target))
    upped db (up m)

  -- The function behind Open, with its deferred Close.
  migrated_with : Flags → Conn → Action (List (Event Conn)) (Unit {0})
  unfolding migrate
  migrated_with f db =
      deferring (closing db)
        (do done ← within "migrate" (migrate db f.name); emits (printed "migration completed!"))

  -- RunE
  unfoldable pub run : Flags → Action (List (Event Conn)) (Unit {0})
  unfolding migrated_with
  run f = do
    said ← emits (printed "applying migrations...")
    db ← lift (context "open connection" (Opening.open_db driver (config_of f)))
    noted ← emits (opened db)
    migrated_with f db
