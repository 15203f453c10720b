-- ===== src/Examples/Serving.antt =====
-- Requests through a concrete gin.
use jumble.Shared.{
  inl, inr, ℕ, String, false, none, some, List, [], ◌∷◌, ◌++◌, ◌≡◌, refl, ap, ◌∙◌, All,
  if◌then◌else◌,
}
use jumble.Go.Int.{pos}
use jumble.Go.Error.{ok}
use jumble.Bus.Contract.{stored, found}
use jumble.Logger
use jumble.Metrics
use jumble.Logger.{Source, Entry}
use jumble.Telemetry.{get_trace_id}
use jumble.Userdb.Memory.{Table}
use jumble.Handler.Endpoints.Shown.{described}
use jumble.Handler.Reply.{user}
use jumble.Handler.Routes
use jumble.Handler.Routes.{endpoint, authenticated, Route, register_routes}
use jumble.Service.Gin.{Reply, body, Response, Ctx, Handler, stopped, leave, Gin, IsGin}
use jumble.Service.Stack.{Env, called, seen, handle}
use jumble.Service.Stack.Served.{IsAnswered, handle_alone}
use jumble.Service.Stack.Guards.{changing, IsIdle, handle-IsIdle}
use jumble.Service.Stack.Reading.{Begins, handle-Begins}
use jumble.Examples.{services, table_store}
use jumble.Examples.Users.{anna, one, one_up, in_one, keeps}
use jumble.Examples.Requests.{app, asks, moments}

unfoldable pub run : {S : Type 0} → List (Handler S) → Ctx S → Ctx S
run [] c = c
run (h ∷ hs) c = let rest = run hs (h.before c) in if stopped c then c else leave h rest

unfoldable pub json : ℕ → Reply → Response → Response
json code b r = elim r.bodies [
  | [] ↦ record { status = code; bodies = b ∷ [] }
  | first ∷ bodies ↦ record { status = r.status; bodies = first ∷ (bodies ++ (b ∷ [])) }
]

unfoldable pub set_status : ℕ → Response → Response
set_status code r = elim r.bodies [
  | [] ↦ record { status = code; bodies = [] }
  | first ∷ bodies ↦ r
]

abbrev pub gin : Gin Table
gin = record { run = run; json = json; set_status = set_status; size = λ r. pos 0 }

pub gin-IsGin : IsGin gin
unfolding run json set_status
gin-IsGin = record {
  run_nil = λ c. refl;
  run_cons = λ h hs c. refl;
  json_first = λ code b status. refl;
  json_later = λ code b first status bodies. refl;
  set_status_first = λ code status. refl;
}

abbrev pub env : Env
env = record {
  logger = Logger.new false Logger.level_debug "jumble" (some get_trace_id);
  callers = λ frames. record { file = "internal/mid/logger.go"; line = 22 };
  trace_id = some "4bf92f3577b34da6a3ce929d0e0e4736";
  goroutines = 10;
  took = "1ms";
  stack = "goroutine 1 [running]";
  moments = moments;
  now = 7000;
}

-- A request from Ann about herself, with her token or without one.
abbrev pub asking : (authorization content : String) → Ctx Table
asking authorization content = record {
  http = record {
    method = "GET";
    route = "/v1/users/:id";
    path = "/v1/users/1";
    raw_query = "";
    url = "/v1/users/1";
    host = "localhost:8000";
    user_agent = "curl";
    client_ip = "127.0.0.1";
    remote_addr = "127.0.0.1:50000";
    authorization = authorization;
  };
  asked = asks content;
  values = [];
  keys = record { claims = none; user = none };
  has_metrics = false;
  errors = [];
  response = record { status = 200; bodies = [] };
  aborted = false;
  panic = none;
  store = one;
  metrics = Metrics.new;
  log = [];
  open_spans = [];
  spans = [];
}

abbrev pub login_route : Route
login_route = record {
  verb = "POST";
  path = "/v1/users/login";
  chain = endpoint Routes.authenticate ∷ [];
}

abbrev by_id : Route
by_id = record {
  verb = "GET";
  path = "/v1/users/:id";
  chain = endpoint Routes.query_user_by_id ∷ authenticated ∷ [];
}

handle_alone_example :
    IsAnswered env
      (asking "" "login")
      (called app gin env Routes.authenticate (seen app gin env (asking "" "login")) one)
      (handle app gin env login_route (asking "" "login"))
handle_alone_example =
    handle_alone app gin gin-IsGin env login_route Routes.authenticate refl (asking "" "login")
      (refl, refl, refl, refl, refl)

handle-IsIdle_example :
    All
      (λ route. IsIdle one (handle app gin env route (asking "Bearer token" "")))
      (changing register_routes)
handle-IsIdle_example =
    handle-IsIdle app gin gin-IsGin env (asking "Bearer token" "") (refl, refl, refl, refl, refl)

parsed : services.parse_uuid "1" ≡ ok 1
parsed = refl

found_one : table_store.query_by_id 1 one ≡ ok (stored anna)
found_one = keeps.by_id one one_up 1 ∙ ap found in_one

handle-Begins_example :
    ((handle app gin env by_id (asking "" "")).store ≡ one)
    × Begins
        (body (user (described services (stored anna))))
        (handle app gin env by_id (asking "" "")).response
handle-Begins_example =
    handle-Begins app gin gin-IsGin env by_id (inr (inl refl), refl, refl) (asking "" "")
      (refl, refl, refl, refl, refl) 1 (stored anna) refl found_one
