-- ===== src/Service/Stack.antt =====
-- internal/mid and the endpoints as handlers of a gin chain, and the chains of a request: what
-- cmd/services/main.go installs with r.Use, then the handlers of the route.
pub mod Laws
pub mod Registered
pub mod Served
pub mod Guards
pub mod Reading
pub mod Accounts
pub mod Sessions
pub mod Counters
use jumble.Shared.{
  ℕ, String, Bool, true, false, Option, none, some, List, [], ◌∷◌, ◌++◌, map, leb, ◌==◌,
  if◌then◌else◌,
}
use jumble.Go.Int.{ℤ, pos, decimal}
use jumble.Go.Error
use jumble.Go.Error.{Error, Result, ok, err}
use jumble.Go.Text.{◌^^◌}
use jumble.Bus.Models.{Time}
use jumble.Logger
use jumble.Logger.{Arg, text, other, Entry, Source}
use jumble.Telemetry.{Values, set_trace_id}
use jumble.Metrics
use jumble.Handler.Models.{nil_dereference}
use jumble.Handler.Reply.{Outcome, json, status, failed, panicked, Request}
use jumble.Handler.Endpoints.{App, Moments}
use jumble.Handler.Endpoints
use jumble.Handler.Endpoints.Changes
use jumble.Handler.Routes
use jumble.Handler.Routes.{Method, Stage, endpoint, authenticated, authorized, Route}
use jumble.Mid.Access
use jumble.Mid.Access.{Verdict, aborts, proceeds}
use jumble.Mid.Counting.{every_thousand}
use jumble.Service.Gin.{
  Reply, body, error, Response, Http, Span, Ctx, Handler, simple, is_panicking, Gin,
}

-- The logger, and what a request finds in the world: its trace id, the number of goroutines, how
-- long it took and the stack of a panic as text, and the times and ids of the endpoints.
pub record Env : Type 0 where
  pub logger : Logger.Logger
  pub callers : ℕ → Source
  pub trace_id : Option String
  pub goroutines : ℕ
  pub took : String
  pub stack : String
  pub moments : Moments
  pub now : Time

-- The value of a panic: a text of the validator, or a runtime.Error.
abbrev pub recovered : String → Arg
recovered m = if m == nil_dereference then other m else text m

-- log.Info and log.Error with the context of the request
abbrev pub logs : {S : Type 0} → Env → Logger.Level → String → List Arg → Ctx S → Ctx S
logs env level msg args c = record c {
  log = Logger.log_at env.callers level env.logger c.values 3 msg args c.log;
}

module _ {S : Type 0} (gin : Gin S) (env : Env) where
  -- c.JSON
  abbrev pub answer : ℕ → Reply → Ctx S → Ctx S
  answer code r c = record c { response = gin.json code r c.response }

  abbrev http_attributes : Http → List (String × String)
  http_attributes h =
      ("http.method", h.method)
      ∷ ("http.route", h.route)
      ∷ ("http.url", h.url)
      ∷ ("http.user_agent", h.user_agent)
      ∷ ("http.client_ip", h.client_ip)
      ∷ ("net.host.name", h.host)
      ∷ []

  abbrev with_trace : Option String → Values → Values
  with_trace none ctx = ctx
  with_trace (some id) ctx = set_trace_id id ctx

  -- span.SetAttributes and span.SetStatus on the latest span
  abbrev finished : Response → List Span → List Span
  finished r [] = []
  finished r (span ∷ spans) =
      record {
        name = span.name;
        attributes =
            span.attributes
            ++ (("http.status_code", decimal (pos r.status))
                ∷ ("http.response_size", decimal (gin.size r))
                ∷ []);
        is_error = if leb 400 r.status then true else span.is_error;
      }
      ∷ spans

  -- span.End()
  abbrev pub end_span : Ctx S → List Span → Ctx S
  end_span c [] = c
  end_span c (span ∷ open_spans) = record c {
    open_spans = open_spans;
    spans = c.spans ++ (span ∷ []);
  }

  -- Telemetry
  abbrev pub telemetry : Handler S
  telemetry = record {
    before = λ c. record c {
      values = with_trace env.trace_id c.values;
      open_spans =
          record { name = "http.request"; attributes = http_attributes c.http; is_error = false }
          ∷ c.open_spans;
    };
    after = λ c. record c { open_spans = finished c.response c.open_spans };
    deferred = λ c. end_span c c.open_spans;
  }

  -- the path with the query
  abbrev pub full_path : Http → String
  full_path h = if h.raw_query == "" then h.path else h.path ^^ ("?" ^^ h.raw_query)

  abbrev request_args : Http → List Arg
  request_args h =
      text "method"
      ∷ text h.method
      ∷ text "path"
      ∷ text (full_path h)
      ∷ text "remoteAddr"
      ∷ text h.remote_addr
      ∷ []

  -- Logger
  abbrev pub logger : Handler S
  logger = record {
    before = λ c. logs env Logger.level_info "request started" (request_args c.http) c;
    after = λ c.
        logs env Logger.level_info "request completed"
          (request_args c.http
            ++ (text "statusCode"
                ∷ other (decimal (pos c.response.status))
                ∷ text "took"
                ∷ other env.took
                ∷ []))
          c;
    deferred = λ c. c;
  }

  abbrev counted : ℤ × Metrics.Metrics → Ctx S → Ctx S
  counted (reqs, m) c = record c {
    metrics = if every_thousand reqs then (Metrics.add_goroutine env.goroutines m).1 else m;
    has_metrics = true;
  }

  -- Metrics
  abbrev pub metrics : Handler S
  metrics = record {
    before = λ c. counted (Metrics.add_request c.metrics) c;
    after = λ c.
        if leb 400 c.response.status
        then record c { metrics = (Metrics.add_error c.metrics).1 }
        else c;
    deferred = λ c. c;
  }

  -- the deferred function of Panic
  abbrev pub rescue : Option Arg → Ctx S → Ctx S
  rescue none c = c
  rescue (some rec) c =
      let m = if c.has_metrics then (Metrics.add_panic c.metrics).1 else c.metrics in
      let d =
        logs env Logger.level_error "PANIC" (rec ∷ text "STACK" ∷ text env.stack ∷ [])
          (record c { metrics = m; panic = none }) in
      record (answer 500 (error "Internal Server Error") d) { aborted = true }

  -- Panic
  abbrev pub panics : Handler S
  panics = record { before = λ c. c; after = λ c. c; deferred = λ c. rescue c.panic c }

  -- The calls that end an endpoint.
  abbrev pub settled : Outcome → Ctx S → Ctx S
  settled (json code b) c = answer code (body b) c
  settled (status code) c = record c { response = gin.set_status code c.response }
  settled (failed e) c = record c { errors = c.errors ++ (e ∷ []) }
  settled (panicked m) c = record c { panic = some (recovered m) }

  -- The line that Authenticate logs before a 500.
  abbrev pub noted : Option Error → Ctx S → Ctx S
  noted none c = c
  noted (some e) c =
      logs env Logger.level_error "queryByID" (text "error" ∷ text (Error.text e) ∷ []) c

  -- A guard's calls.
  abbrev pub guarded : Verdict → Ctx S → Ctx S
  guarded (aborts code message) c = record (answer code (error message) c) { aborted = true }
  guarded (proceeds keys) c = record c { keys = keys }

module _ {S Private Public : Type 0} (app : App S Private Public) (gin : Gin S) (env : Env) where
  abbrev pub called : Method → Request → S → Outcome × S
  called Routes.create_user r s = Endpoints.create_user app env.moments r s
  called Routes.query_user_by_id r s = Endpoints.query_user_by_id app r s
  called Routes.delete_user r s = Changes.delete_user app r s
  called Routes.update_user r s = Changes.update_user app env.now r s
  called Routes.update_role r s = Changes.update_role app env.now r s
  called Routes.disable_user r s = Changes.disable_user app env.now r s
  called Routes.query r s = Endpoints.query app r s
  called Routes.authenticate r s = Endpoints.authenticate app env.moments r s

  -- The request as an endpoint reads it, with c.Get("user").
  abbrev pub seen : Ctx S → Request
  seen c = record c.asked { user_key = c.keys.user }

  abbrev pub ended : Outcome × S → Ctx S → Ctx S
  ended (o, s) c = settled gin env o (record c { store = s })

  abbrev pub acts : Stage → Ctx S → Ctx S
  acts (endpoint m) c = ended (called m (seen c) c.store) c
  acts authenticated c =
      guarded gin env (Access.authenticate app c.http.authorization c.keys c.store)
        (noted gin env (Access.logged app c.http.authorization c.store) c)
  acts (authorized roles) c = guarded gin env (Access.authorized roles c.keys) c

  abbrev pub handler_of : Stage → Handler S
  handler_of stage = simple (acts stage)

  -- r.Use
  abbrev pub installed : List (Handler S)
  installed = telemetry gin env ∷ logger gin env ∷ metrics gin env ∷ panics gin env ∷ []

  unfoldable pub handle : Route → Ctx S → Ctx S
  handle route c = gin.run (installed ++ map handler_of route.chain) c
