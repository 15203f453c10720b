-- ===== src/Telemetry.antt =====
-- pkg/telemetry/context.go and telemetry.go: the trace id in a context, and the choice of a trace
-- provider. The exporters and providers of OpenTelemetry are parameters.
pub mod Laws
use jumble.Shared.{ℕ, String, Option, none, some, List, [], ◌∷◌, nat_eq, ◌==◌, if◌then◌else◌}
use jumble.Go.Error.{Error, Result, ok, err, context}

-- The values of a context, the latest first. A key is the number of a `ctxKey`.
abbrev pub Values : Type 0
Values = List (ℕ × String)

abbrev pub default_trace_id : String
default_trace_id = "00000000000000000000000000000000"

abbrev pub trace_id_key : ℕ
trace_id_key = 1

-- ctx.Value(key)
unfoldable pub value : ℕ → Values → Option String
value key [] = none
value key ((k, v) ∷ ctx) = if nat_eq k key then some v else value key ctx

unfoldable pub set_trace_id : String → Values → Values
set_trace_id trace_id ctx = (trace_id_key, trace_id) ∷ ctx

-- The id, or the default.
or_default : Option String → String
or_default none = default_trace_id
or_default (some v) = v

unfoldable pub get_trace_id : Values → String
unfolding or_default value
get_trace_id ctx = or_default (value trace_id_key ctx)

pub record Config : Type 0 where
  pub service_name : String
  pub host : String
  pub probability : String
  pub build : String

-- The provider that is made: for tests, for standard output, or for a host.
pub data Provider : Type 0 where
  noop : Provider
  stdout : (service build : String) → Provider
  http : (host service build probability : String) → Provider

-- The function that SetupOTelSDK returns: it does nothing, or shuts a provider down.
pub data Cleanup : Type 0 where
  nothing : Cleanup
  shuts : Provider → Cleanup

-- The globals of package otel.
pub record Globals : Type 0 where
  pub provider : Option Provider
  pub propagates : List String

pub record Exporters : Type 0 where
  pub stdout_exporter : Result (Unit {0})
  pub http_exporter : (host : String) → Result (Unit {0})
  pub grpc_exporter : (host : String) → Result (Unit {0})

new_propagator : List String
new_propagator = "tracecontext" ∷ "baggage" ∷ []

module _ (exporters : Exporters) where
  new_http_exporter : String → Result (Unit {0})
  new_http_exporter host = context "new exporter" (exporters.http_exporter host)

  -- newGRPCExporter, which nothing calls
  unfoldable pub new_grpc_exporter : String → Result (Unit {0})
  new_grpc_exporter host = context "creating new exporter" (exporters.grpc_exporter host)

  -- After the switch.
  installed : Result (Provider × Cleanup) → Globals → Result Cleanup × Globals
  unfolding new_propagator
  installed (err e) g = (err e, g)
  installed (ok (p, cleanup)) g =
      (ok cleanup, record { provider = some p; propagates = new_propagator })

  made : Provider → Result (Unit {0}) → Result (Provider × Cleanup)
  made p (err e) = err e
  made p (ok done) = ok (p, shuts p)

  -- The switch over the host.
  choice : Config → Result (Provider × Cleanup)
  unfolding made new_http_exporter
  choice cfg =
      if cfg.host == ""
      then ok (noop, nothing)
      else if cfg.host == "dev"
      then made (stdout cfg.service_name cfg.build)
          (context "stdout exporter" exporters.stdout_exporter)
      else made (http cfg.host cfg.service_name cfg.build cfg.probability)
          (new_http_exporter cfg.host)

  unfoldable pub setup_otel_sdk : Config → Globals → Result Cleanup × Globals
  unfolding choice installed
  setup_otel_sdk cfg g = installed (choice cfg) g
