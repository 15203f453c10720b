-- ===== src/Service/Gin.antt =====
-- What the program uses of gin: a context, handlers, and the engine that runs a chain of handlers.
-- The engine is a parameter; IsGin is what gin documents of it.
use jumble.Shared.{
  ℕ, String, Bool, true, false, ◌||◌, Option, none, some, List, [], ◌∷◌, ◌++◌, ◌≡◌, if◌then◌else◌,
}
use jumble.Go.Int.{ℤ}
use jumble.Go.Error.{Error}
use jumble.Metrics.{Metrics}
use jumble.Logger.{Arg, Entry}
use jumble.Telemetry.{Values}
use jumble.Handler.Reply.{Body, Request}
use jumble.Mid.Access.{Keys}

-- What c.JSON is given: a body of an endpoint, or gin.H{"error": text}.
pub data Reply : Type 0 where
  body : Body → Reply
  error : String → Reply

-- c.Writer: c.Writer.Status(), and the bodies that were written, in order.
pub record Response : Type 0 where
  pub status : ℕ
  pub bodies : List Reply

-- What the middleware reads of the request and its route.
pub record Http : Type 0 where
  pub method : String
  pub route : String  -- c.FullPath()
  pub path : String
  pub raw_query : String
  pub url : String
  pub host : String
  pub user_agent : String
  pub client_ip : String
  pub remote_addr : String
  pub authorization : String

pub record Span : Type 0 where
  pub name : String
  pub attributes : List (String × String)
  pub is_error : Bool

-- gin.Context, with the states behind the handlers' pointers: the store, the counters, the lines
-- of the log, and the spans that were started, the latest first, and those that were ended.
pub record Ctx (S : Type 0) : Type 0 where
  pub http : Http
  pub asked : Request
  pub values : Values  -- c.Request.Context()
  pub keys : Keys
  pub has_metrics : Bool  -- c.Get("metrics")
  pub errors : List Error  -- c.Errors
  pub response : Response
  pub aborted : Bool
  pub panic : Option Arg  -- the value of a panic that is under way
  pub store : S
  pub metrics : Metrics
  pub log : List Entry
  pub open_spans : List Span
  pub spans : List Span

-- A handler by what it does before c.Next(), after it, and in its deferred calls. One that does not
-- call c.Next() has it all before.
pub record Handler (S : Type 0) : Type 0 where
  pub before : Ctx S → Ctx S
  pub after : Ctx S → Ctx S
  pub deferred : Ctx S → Ctx S

abbrev pub simple : {S : Type 0} → (Ctx S → Ctx S) → Handler S
simple f = record { before = f; after = λ c. c; deferred = λ c. c }

abbrev pub is_panicking : Option Arg → Bool
is_panicking none = false
is_panicking (some rec) = true

-- No further handler of the chain is run.
abbrev pub stopped : {S : Type 0} → Ctx S → Bool
stopped c = c.aborted || is_panicking c.panic

-- A handler's code behind c.Next(): a panic skips it, but not the deferred calls.
abbrev pub leave : {S : Type 0} → Handler S → Ctx S → Ctx S
leave h c = h.deferred (if is_panicking c.panic then c else h.after c)

pub record Gin (S : Type 0) : Type 1 where
  pub run : List (Handler S) → Ctx S → Ctx S
  pub json : ℕ → Reply → Response → Response
  pub set_status : ℕ → Response → Response
  pub size : Response → ℤ  -- c.Writer.Size()

-- The chain runs in order and stops when it is aborted or panics; each handler's end is run after
-- the handlers behind it. The first c.JSON fixes the status; later ones only add their bodies.
pub record IsGin {S : Type 0} (gin : Gin S) : Type 0 where
  pub run_nil : (c : Ctx S) → gin.run [] c ≡ c
  pub run_cons :
      (h : Handler S) (hs : List (Handler S)) (c : Ctx S)
      → gin.run (h ∷ hs) c ≡ (if stopped c then c else leave h (gin.run hs (h.before c)))
  pub json_first :
      (code : ℕ) (b : Reply) (status : ℕ)
      → gin.json code b (record { status = status; bodies = [] })
        ≡ record { status = code; bodies = b ∷ [] }
  pub json_later :
      (code : ℕ) (b first : Reply) (status : ℕ) (bodies : List Reply)
      → gin.json code b (record { status = status; bodies = first ∷ bodies })
        ≡ record { status = status; bodies = first ∷ (bodies ++ (b ∷ [])) }
  pub set_status_first :
      (code status : ℕ)
      → gin.set_status code (record { status = status; bodies = [] })
        ≡ record { status = code; bodies = [] }
