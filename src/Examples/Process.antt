-- ===== src/Examples/Process.antt =====
-- The processes: the service, the admin command, the probes and the log.
use jumble.Shared.{
  ℕ, String, true, false, none, some, List, [], ◌∷◌, ◌≡◌, ◌⊎◌, ◌+◌, refl, arith, ◌==◌,
  if◌then◌else◌,
}
use jumble.Go.Int.{pos}
use jumble.Go.Error.{ok, plain}
use jumble.Bus.Models.{Time}
use jumble.Logger
use jumble.Logger.{Arg, text, other, Source, Entry, new, log_at, level_debug, level_info, at_most}
use jumble.Logger.Laws.{paired, line, log_at-paired}
use jumble.Sqldb.Opening.{Driver}
use jumble.Telemetry.{get_trace_id}
use jumble.Migrations.{Migrator, no_change}
use jumble.Admin
use jumble.Admin.{Cobra, migrate_command, refused}
use jumble.Admin.Laws.{IsShown, IsApplied, IsFailed, main-IsApplied}
use jumble.Health.{Probes, Response, readiness}
use jumble.Health.Laws.{IsReady, readiness_lem, Answered-readiness}
use jumble.Sqldb.{with_timeout, default_timeout}
use jumble.Sqldb.Answering.{Answered, answers, fails}
use jumble.Service.Config.{Config}
use jumble.Service.Run.{World, cancelled, parsed, signalled, main}
use jumble.Service.Run.Laws.{asked, resources, IsReleased, EndsWell, main_lem}
use jumble.Examples.Waiting.{silent, waking, background, sleeps}
use jumble.Examples.Keys.{pem, root}

-- A connection is its URL.
abbrev driver : Driver String
driver = record { url_text = λ u. u.host; connect = λ name url. ok url }

-- A database that is up to date.
abbrev migrator : Migrator String
migrator = record {
  Source = String;
  Target = String;
  Instance = String;
  with_instance = λ db. ok db;
  files = λ path. ok path;
  new_with_instance = λ source name target. ok name;
  up = λ m. no_change;
}

-- Without arguments the root command is run; another name than "migrate" is refused.
abbrev cobra : Cobra
cobra = record {
  find = λ args defaults. elim args [
    | [] ↦ Admin.root
    | name ∷ rest ↦
        if name == "migrate" then migrate_command defaults else refused (plain "unknown command")
  ];
  help = "admin cli to perform migration, key generation ... for jumble application";
  usage = λ e. "Error";
}

main-IsApplied_example :
    IsShown driver migrator cobra ("migrate" ∷ [])
    ⊎ IsApplied driver migrator cobra ("migrate" ∷ [])
    ⊎ IsFailed driver migrator cobra ("migrate" ∷ [])
main-IsApplied_example = main-IsApplied driver migrator cobra ("migrate" ∷ [])

abbrev defaults : Config
defaults = record {
  web = record {
    read_timeout = 10;
    write_timeout = 30;
    idle_timeout = 120;
    shutdown_timeout = 120;
    debug_host = "0.0.0.0:3000";
    api_host = "0.0.0.0:8000";
    health_check = "0.0.0.0:9000";
  };
  db = record {
    user = "postgres";
    password = "postgres";
    host = "database:5432";
    name = "postgres";
    max_idle_conn = pos 0;
    max_open_conn = pos 0;
    disable_tls = true;
  };
  auth = record {
    keys = "/etc/rsa-keys";
    active_key = "k";
    issuer = "jumple project";
    token_max_age = 3600;
  };
  tempo = record { host = ""; service_name = "jumble-service"; probability = "1" };
}

-- The service with these settings, idle when the signal comes.
abbrev world : World String ℕ ℕ
world = record {
  build = "development";
  gomaxprocs = 4;
  parse = λ prefix. parsed defaults;
  conf_string = λ cfg. ok "--web-read-timeout=10s";
  driver = driver;
  exporters = record {
    stdout_exporter = ok tt;
    http_exporter = λ host. ok tt;
    grpc_exporter = λ host. ok tt;
  };
  pem = pem;
  dir_fs = λ name. root;
  awaited = signalled;
  shutdown = λ ctx. none;
}

main_lem_example :
    IsReleased (resources (main world).1)
    × ((asked (main world).1 ≡ []) ⊎ (asked (main world).1 ≡ cancelled ∷ []))
    × ((((main world).0 ≡ 0) × EndsWell world) ⊎ ((main world).0 ≡ 1))
main_lem_example = main_lem world

abbrev probes : Probes
probes = record {
  db = silent;
  logger = Logger.new false level_debug "jumble" (some get_trace_id);
  callers = λ frames. record { file = "handler.go"; line = 27 };
  build = "development";
}

readiness_lem_example :
    (a : Response × List Entry) × (readiness probes background [] 14 0 [] ≡ some a)
    × ((IsReady probes [] a
          × ((attempt : ℕ) × (t : Time) × ((silent.ping attempt t).0 ≡ none)
              × (silent.select_true (t + (silent.ping attempt t).1) ≡ none)))
        ⊎ (a.0 ≡ record { status = 500; headers = []; body = none }))
readiness_lem_example = readiness_lem probes background [] 0 [] sleeps refl

abbrev waking_probes : Probes
waking_probes = record probes { db = waking }

second_ping : Answered waking (with_timeout background 0 default_timeout) 1 1 0 102000000
second_ping = fails 0 1 0 102000000 _ refl refl (answers 2 101000000 refl)

Answered-readiness_example :
    (a : Response × List Entry) × (readiness waking_probes background [] 14 0 [] ≡ some a)
    × IsReady waking_probes [] a
Answered-readiness_example =
    Answered-readiness waking_probes background [] 0 102000000 [] 1 second_ping refl 14
      (omega arith)

abbrev here : ℕ → Source
here frames = record { file = "cmd/services/main.go"; line = 56 }

abbrev build_args : List (String × Arg)
build_args = ("build", text "development") ∷ ("GOMAXPROCS", other "4") ∷ []

log_at-paired_example :
    ((false ≡ false)
      × (at_most level_debug level_info ≡ true)
      × (log_at here level_info
            (new false level_debug "jumble" (some get_trace_id))
            []
            3
            "run"
            (paired build_args)
            []
          ≡ line here "jumble" get_trace_id [] level_info 3 "run" build_args ∷ []))
    ⊎ (((false ≡ true) ⊎ (at_most level_debug level_info ≡ false))
        × (log_at here level_info
              (new false level_debug "jumble" (some get_trace_id))
              []
              3
              "run"
              (paired build_args)
              []
            ≡ []))
log_at-paired_example =
    log_at-paired here false level_debug "jumble" get_trace_id level_info [] 3 "run" build_args []
