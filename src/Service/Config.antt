-- ===== src/Service/Config.antt =====
-- cmd/services/main.go: the configuration, and what of it goes to the database and the tracer.
use jumble.Shared.{String, Bool}
use jumble.Go.Int.{ℤ}
use jumble.Bus.Models.{Time}
use jumble.Telemetry
use jumble.Sqldb.Opening

-- The configuration, as conf.Parse fills it.
pub record Web : Type 0 where
  pub read_timeout : Time
  pub write_timeout : Time
  pub idle_timeout : Time
  pub shutdown_timeout : Time
  pub debug_host : String
  pub api_host : String
  pub health_check : String

pub record Db : Type 0 where
  pub user : String
  pub password : String
  pub host : String
  pub name : String
  pub max_idle_conn : ℤ
  pub max_open_conn : ℤ
  pub disable_tls : Bool

pub record Auth : Type 0 where
  pub keys : String
  pub active_key : String
  pub issuer : String
  pub token_max_age : Time

pub record Tempo : Type 0 where
  pub host : String
  pub service_name : String
  pub probability : String

pub record Config : Type 0 where
  pub web : Web
  pub db : Db
  pub auth : Auth
  pub tempo : Tempo

abbrev pub db_config : Db → Opening.Config
db_config db = record {
  user = db.user;
  password = db.password;
  host = db.host;
  name = db.name;
  schema = "";
  max_idle_conns = db.max_idle_conn;
  max_open_conns = db.max_open_conn;
  disable_tls = db.disable_tls;
}

abbrev pub tracing_config : String → Tempo → Telemetry.Config
tracing_config build tempo = record {
  service_name = tempo.service_name;
  host = tempo.host;
  probability = tempo.probability;
  build = build;
}
