-- ===== src/Logger.antt =====
-- pkg/logger/logger.go: a logger that adds the trace id, over the text handler of log/slog.
pub mod Laws
use Prim.Native.String.{[], ◌∷◌}
use jumble.Shared.{
  ℕ, suc, ◌+◌, String, Bool, true, false, ◌||◌, Option, none, some, List, [], ◌∷◌, ◌++◌, code,
  nat_eq, leb, ◌==◌, if◌then◌else◌,
}
use jumble.Go.Int.{ℤ, pos, negsuc, decimal}
use jumble.Go.Text.{◌^^◌, is_empty}
use jumble.Telemetry.{Values}

-- Level, a slog.Level
abbrev pub Level : Type 0
Level = ℤ

abbrev pub level_debug : Level
level_debug = negsuc 3

abbrev pub level_info : Level
level_info = pos 0

abbrev pub level_warn : Level
level_warn = pos 4

abbrev pub level_error : Level
level_error = pos 8

-- a <= b on int
abbrev pub at_most : ℤ → ℤ → Bool
at_most (pos m) (pos n) = leb m n
at_most (pos m) (negsuc n) = false
at_most (negsuc m) (pos n) = true
at_most (negsuc m) (negsuc n) = leb n m

pub record Attr : Type 0 where
  pub key : String
  pub value : String

-- An argument of a log call: a string, or a value of another type with its text.
pub data Arg : Type 0 where
  text : String → Arg
  other : String → Arg

abbrev pub shown : Arg → String
shown (text s) = s
shown (other s) = s

-- (*slog.Record) Add: a string is a key for the argument after it.
unfoldable pub add : List Arg → List Attr
add [] = []
add (other v ∷ args) = record { key = "!BADKEY"; value = v } ∷ add args
add (text k ∷ []) = record { key = "!BADKEY"; value = k } ∷ []
add (text k ∷ v ∷ args) = record { key = k; value = shown v } ∷ add args

-- What runtime.Callers finds some frames up.
pub record Source : Type 0 where
  pub file : String
  pub line : ℕ

-- filepath.Base on a path that does not end in a slash
unfoldable pub base : String → String
base [] = []
base (c ∷ path) =
    let rest = base path in
    if has_slash path then rest else if nat_eq (code c) b'/' then path else c ∷ path
  where
    has_slash : String → Bool
    has_slash [] = false
    has_slash (d ∷ s) = nat_eq (code d) b'/' || has_slash s

-- A line of the output.
pub record Entry : Type 0 where
  pub level : Level
  pub file : String
  pub msg : String
  pub attrs : List Attr

-- The text handler that createHandler makes: its least level and the attributes it adds.
pub record Handler : Type 0 where
  pub min_level : Level
  pub attrs : List Attr

pub record Logger : Type 0 where
  pub handler : Handler
  pub discard : Bool
  pub trace_id_fn : Option (Values → String)

-- `fn` of createHandler on the source attribute
unfoldable pub source_name : Source → String
unfolding base
source_name source = base source.file ^^ (":" ^^ decimal (pos source.line))

create_handler : String → Level → Handler
create_handler service min_level = record {
  min_level = min_level;
  attrs = record { key = "service"; value = service } ∷ [];
}

-- New; `discards` is w == io.Discard
unfoldable pub new : Bool → Level → String → Option (Values → String) → Logger
unfolding create_handler
new discards min_level service_name trace_id_fn = record {
  handler = create_handler service_name min_level;
  discard = discards;
  trace_id_fn = trace_id_fn;
}

with_trace_id : Option (Values → String) → Values → List Arg → List Arg
with_trace_id none ctx args = args
with_trace_id (some f) ctx args = args ++ (text "traceID" ∷ text (f ctx) ∷ [])

-- The output, after the lines so far. `callers` gives the source so many frames up.
module _ (callers : ℕ → Source) where
  unfoldable pub write : Logger → Values → Level → ℕ → String → List Arg → List Entry → List Entry
  unfolding with_trace_id source_name add
  write l ctx level skip_stack msg args out =
      if at_most l.handler.min_level level
      then out
        ++ (record {
          level = level;
          file = source_name (callers skip_stack);
          msg = msg;
          attrs = l.handler.attrs ++ add (with_trace_id l.trace_id_fn ctx args);
        }
            ∷ [])
      else out

  -- The methods, at a level and so many frames up.
  unfoldable pub log_at :
      Level → Logger → Values → (caller : ℕ) → String → List Arg → List Entry → List Entry
  unfolding write
  log_at level l ctx caller msg args out =
      if l.discard then out else write l ctx level caller msg args out

  abbrev pub debugc : Logger → Values → ℕ → String → List Arg → List Entry → List Entry
  debugc = log_at level_debug

  abbrev pub debug : Logger → Values → String → List Arg → List Entry → List Entry
  debug l ctx = log_at level_debug l ctx 3

  abbrev pub infoc : Logger → Values → ℕ → String → List Arg → List Entry → List Entry
  infoc = log_at level_info

  abbrev pub info : Logger → Values → String → List Arg → List Entry → List Entry
  info l ctx = log_at level_info l ctx 3

  abbrev pub warnc : Logger → Values → ℕ → String → List Arg → List Entry → List Entry
  warnc = log_at level_warn

  abbrev pub warn : Logger → Values → String → List Arg → List Entry → List Entry
  warn l ctx = log_at level_warn l ctx 3

  abbrev pub errorc : Logger → Values → ℕ → String → List Arg → List Entry → List Entry
  errorc = log_at level_error

  abbrev pub error : Logger → Values → String → List Arg → List Entry → List Entry
  error l ctx = log_at level_error l ctx 3

-- The log.Logger of StdLogger, on a line of net/http: slog.NewLogLogger over the handler, which
-- knows neither the discarding writer nor the trace id. A record without a program counter has the
-- empty source, whose filepath.Base is ".".
unfoldable pub std_logger : Level → Logger → String → List Entry → List Entry
std_logger level l msg out =
    if at_most l.handler.min_level level
    then out ++ (record { level = level; file = ".:0"; msg = msg; attrs = l.handler.attrs } ∷ [])
    else out
