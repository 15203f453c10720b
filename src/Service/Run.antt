-- ===== src/Service/Run.antt =====
-- cmd/services/main.go: starting, waiting and stopping, as the sequence of what the process does
-- outside. The servers run in goroutines of their own: here they are only started.
pub mod Laws
use jumble.Shared.{
  ℕ, String, Bool, true, false, Option, none, some, List, [], ◌∷◌, ◌++◌, if◌then◌else◌,
}
use jumble.Service.Config.{Web, Db, Auth, Tempo, Config, db_config, tracing_config}
use jumble.Go.Int.{ℤ, pos, decimal}
use jumble.Go.Error.{Error, Result, ok, err, wrap, context}
use jumble.Go.Error
use jumble.Go.Action.{Action, lift, outcome, deferring, ◌>>=◌}
use jumble.Bus.Models.{Time}
use jumble.Logger.{Arg, text, other}
use jumble.Telemetry
use jumble.Telemetry.{Cleanup, Exporters, Globals, setup_otel_sdk}
use jumble.Keystore
use jumble.Keystore.{KeyStore, Pem, load_from_file_system, set_active_key, get_active_kid}
use jumble.Sqldb.Opening
use jumble.Sqldb.Opening.{Driver, open_db}

-- conf.Parse: the help text with ErrHelpWanted, another error, or a configuration.
pub data Parsed : Type 0 where
  help : String → Parsed
  failed : Error → Parsed
  parsed : Config → Parsed

-- The context that signal.NotifyContext makes: it is cancelled by a signal.
pub data Context : Type 0 where
  live : Context
  cancelled : Context

-- context.WithTimeout: a child of a cancelled context is cancelled.
abbrev pub with_timeout : Context → Time → Context
with_timeout live timeout = live
with_timeout cancelled timeout = cancelled

-- What ends the select: the API server's error, or a signal.
pub data Awaited : Type 0 where
  server_failed : Error → Awaited
  signalled : Awaited

pub record Server : Type 0 where
  pub addr : String
  pub read_timeout : Time
  pub write_timeout : Time
  pub idle_timeout : Time

-- What the process finds outside, one answer for each call.
pub record World (Conn Private Public : Type 0) : Type 0 where
  pub build : String
  pub gomaxprocs : ℕ
  pub parse : (prefix : String) → Parsed
  pub conf_string : Config → Result String
  pub driver : Driver Conn
  pub exporters : Exporters
  pub pem : Pem Private Public
  pub dir_fs : String → Keystore.Entry
  pub awaited : Awaited
  pub shutdown : Context → Option Error  -- server.Shutdown

-- What the process does, in order.
pub data Event (Conn : Type 0) : Type 0 where
  prints : String → Event Conn
  logs_info : String → List Arg → Event Conn
  logs_error : String → List Arg → Event Conn
  starts_debug_server : (host : String) → Event Conn
  publishes_build : String → Event Conn  -- expvar.NewString("build")
  opens_db : Conn → Event Conn
  closes_db : Conn → Event Conn
  sets_up_tracing : Cleanup → Event Conn
  cleans_up : Cleanup → Event Conn
  starts_health_server : (host : String) → Event Conn
  starts_api_server : Server → Event Conn
  shuts_down : Context → Event Conn
  cancels : Event Conn
  closes_server : Event Conn

abbrev pub Process : Type 0 → Type 0 → Type 0
Process Conn A = Action (List (Event Conn)) A

module _ {Conn : Type 0} where
  abbrev does : Event Conn → Process Conn (Unit {0})
  does e events = (ok tt, events ++ (e ∷ []))

  -- for a defer
  abbrev later : Event Conn → List (Event Conn) → List (Event Conn)
  later e events = events ++ (e ∷ [])

abbrev no_globals : Globals
no_globals = record { provider = none; propagates = [] }

module _ {Conn Private Public : Type 0} (w : World Conn Private Public) where
  -- The keys: how many were loaded, and the store with the active one.
  keys : Auth → Process Conn (ℕ × KeyStore Private Public)
  keys auth = do
    let loaded = load_from_file_system w.pem (w.dir_fs auth.keys) Keystore.new
    count ← lift (context "loadFromFileSystem" loaded.0)
    said ← does (
        logs_info "loaded rsa keys into in-memory keystore"
          (text "count" ∷ other (decimal (pos count)) ∷ []))
    let active = set_active_key auth.active_key loaded.1
    done ← lift (outcome "setActiveKey" active.0)
    lift (ok (count, active.1))

  -- The branch of the select for a signal: the context is done then.
  stopped : Web → Process Conn (Unit {0})
  stopped web = do
    said ← does (logs_info "server received a shutdown signal" [])
    deferring (later (logs_info "server completed the shutdown process" [])) (
        deferring (later cancels) (do
          let shutdown_ctx = with_timeout cancelled web.shutdown_timeout
          asked ← does (shuts_down shutdown_ctx)
          elim (w.shutdown shutdown_ctx) [
            | none ↦ lift (ok tt)
            | some e ↦ do
              closed ← does closes_server
              lift (err (wrap "failed to gracefully shutdown the server" e))
          ]))

  -- The select.
  waits : Web → Awaited → Process Conn (Unit {0})
  unfolding stopped
  waits web (server_failed e) = lift (err (wrap "server error" (wrap "listenAndServe" e)))
  waits web signalled = stopped web

  -- From the keys on, with the database and the tracer there.
  serves : Config → Process Conn (Unit {0})
  unfolding keys waits
  serves cfg = do
    ks ← keys cfg.auth
    said ← does (
        logs_info "setting active KID was successfull"
          (text "activeKID" ∷ text (get_active_kid ks.1) ∷ []))
    also ← does (logs_info "auth initialized" (text "key-count" ∷ other (decimal (pos ks.0)) ∷ []))
    health ← does (starts_health_server cfg.web.health_check)
    api ← does (
        starts_api_server (record {
          addr = cfg.web.api_host;
          read_timeout = cfg.web.read_timeout;
          write_timeout = cfg.web.write_timeout;
          idle_timeout = cfg.web.idle_timeout;
        }))
    waits cfg.web w.awaited

  -- From the tracer on, with the database there.
  traces : Config → Process Conn (Unit {0})
  unfolding serves
  traces cfg = do
    cleanup ← lift (
        context "setupOTelSDK"
          (setup_otel_sdk w.exporters (tracing_config w.build cfg.tempo) no_globals).0)
    noted ← does (sets_up_tracing cleanup)
    deferring (later (cleans_up cleanup)) (do
      said ← does (
          logs_info "tracer successfully initialized" (
            text "host"
            ∷ text cfg.tempo.host
            ∷ text "probability"
            ∷ other cfg.tempo.probability
            ∷ []))
      serves cfg)

  configured : Config → Process Conn (Unit {0})
  unfolding traces
  configured cfg = do
    out ← lift (context "conf to string" (w.conf_string cfg))
    said ← does (logs_info "app configuration" (text "cfg" ∷ text out ∷ []))
    debug ← does (starts_debug_server cfg.web.debug_host)
    published ← does (publishes_build w.build)
    conn ←
        lift (context "failed to open connection to database" (open_db w.driver (db_config cfg.db)))
    noted ← does (opens_db conn)
    deferring (later (closes_db conn)) (do
      also ← does (logs_info "database initialized" (text "host" ∷ text cfg.db.host ∷ []))
      traces cfg)

  started : Parsed → Process Conn (Unit {0})
  unfolding configured
  started (help usage) = does (prints usage)
  started (failed e) = lift (err (wrap "parsing conf" e))
  started (parsed cfg) = configured cfg

  unfoldable pub run : Process Conn (Unit {0})
  unfolding started
  run = do
    said ← does (
        logs_info "run" (
          text "build"
          ∷ text w.build
          ∷ text "GOMAXPROCS"
          ∷ other (decimal (pos w.gomaxprocs))
          ∷ []))
    started (w.parse "JUMBLE")

  exits : Result (Unit {0}) × List (Event Conn) → ℕ × List (Event Conn)
  exits (ok done, events) = (0, events)
  exits (err e, events) = (
    1,
    events
        ++ (logs_error "main failed to execute run" (text "err" ∷ text (Error.text e) ∷ []) ∷ []),
  )

  -- main: the exit code
  unfoldable pub main : ℕ × List (Event Conn)
  unfolding run exits
  main = exits (run [])
