-- ===== src/Health.antt =====
-- internal/domains/health/handler: the probes. The response is what the handlers tell net/http;
-- encoding/json is a parameter.
pub mod Laws
use jumble.Shared.{ℕ, String, Option, none, some, List, [], ◌∷◌, ◌++◌}
use jumble.Go.Error.{Error, Result, ok, err}
use jumble.Go.Error
use jumble.Bus.Models.{Time}
use jumble.Logger
use jumble.Logger.{Arg, text, Entry, Source}
use jumble.Sqldb.{Db, Context, with_timeout, conn_check, default_timeout}
use jumble.Telemetry.{Values}

-- Info of models.go
pub record Info : Type 0 where
  pub status : String
  pub build : String
  pub host : String
  pub name : String
  pub pod_ip : String
  pub node : String
  pub namespace : String
  pub gomaxprocs : ℕ

-- What is encoded: a map of texts, or the information.
pub data Body : Type 0 where
  messages : List (String × String) → Body
  info : Info → Body

pub record Response : Type 0 where
  pub status : ℕ
  pub headers : List (String × String)
  pub body : Option Body

-- The environment of the process.
pub record Host : Type 0 where
  pub hostname : Result String
  pub getenv : String → String
  pub gomaxprocs : ℕ

-- handler; Conf has the same fields
pub record Probes : Type 0 where
  pub db : Db
  pub logger : Logger.Logger
  pub callers : ℕ → Source
  pub build : String

-- The routes of RegisterRoutes.
pub data Probe : Type 0 where
  readiness_probe liveness_probe : Probe

abbrev pub register_routes : List (String × Probe)
register_routes = ("/v1/readiness", readiness_probe) ∷ ("/v1/liveness", liveness_probe) ∷ []

module _ (h : Probes) where
  -- What readiness makes of the check's result, with the lines of the log.
  unfoldable pub checked : Result (Unit {0}) → Values → List Entry → Response × List Entry
  checked (ok done) values log = (
    record {
      status = 200;
      headers = ("Content-Type", "application/json") ∷ [];
      body = some (messages (("msg", "ok") ∷ []));
    },
    log,
  )
  checked (err e) values log = (
    record { status = 500; headers = []; body = none },
    Logger.log_at h.callers Logger.level_error h.logger values 3 "readiness failed"
        (text "err" ∷ text (Error.text e) ∷ []) log,
  )

  abbrev answered :
      Values → List Entry → Option (Result (Unit {0})) → Option (Response × List Entry)
  answered values log none = none
  answered values log (some r) = some (checked r values log)

  -- readiness: the check runs below a timeout of ten seconds; `none` is a check out of fuel
  unfoldable pub readiness :
      Context → Values → (fuel : ℕ) → Time → List Entry → Option (Response × List Entry)
  readiness ctx values fuel now log =
      answered values log (conn_check h.db (with_timeout ctx now default_timeout) fuel now)

  abbrev host_or : Result String → String
  host_or (ok host) = host
  host_or (err e) = "unavailable"

  unfoldable pub liveness : Host → Response
  liveness host = record {
    status = 200;
    headers = [];
    body = some (
        info (record {
          status = "running";
          build = h.build;
          host = host_or host.hostname;
          name = host.getenv "KUBERNETES_NAME";
          pod_ip = host.getenv "KUBERNETES_POD_IP";
          node = host.getenv "KUBERNETES_NODE_NAME";
          namespace = host.getenv "KUBERNETES_NAMESPACE";
          gomaxprocs = host.gomaxprocs;
        }));
  }
