-- ===== src/Handler/Reply.antt =====
-- How an endpoint ends, and the chain of its steps: what it hands to gin, of which only the calls
-- are recorded.
use jumble.Shared.{ℕ, String, Option}
use jumble.Go.Error.{Error, Result, ok, err}
use jumble.Go.Action.{Action}
use jumble.Go.Text.{◌^^◌}
use jumble.Go.Int.{pos, decimal}
use jumble.Errs.{Frame}
use jumble.Auth.{Claims}
use jumble.Bus.Models
use jumble.Handler.Models.{User, QueryResult, Token, Call, returns, panics}

pub data Body : Type 0 where
  user : User → Body
  query_result : QueryResult → Body
  token : Token → Body

pub data Outcome : Type 0 where
  json : ℕ → Body → Outcome  -- c.JSON(code, body)
  status : ℕ → Outcome  -- c.Status(code)
  failed : Error → Outcome  -- c.Error(err); return
  panicked : String → Outcome

-- A value of gin's context, `any`.
pub data Value : Type 0 where
  user_value : Models.User → Value
  claims_value : Claims → Value
  other_value : Value

-- What an endpoint reads of the request. `user_key` is c.Get("user").
pub record Request : Type 0 where
  pub id_param : String
  pub body : String
  pub query : String
  pub page : String
  pub rows : String
  pub order_by : String
  pub user_key : Option Value

pub data Step (A : Type 0) : Type 0 where
  go : A → Step A
  stop : Outcome → Step A

abbrev pub Endpoint : Type 0 → Type 0 → Type 0
Endpoint S A = S → Step A × S

module _ {S A B : Type 0} where
  abbrev pub continue : Step A → (A → Endpoint S B) → Endpoint S B
  continue (go a) f s = f a s
  continue (stop o) f s = (stop o, s)

  infixl 5 ◌>>=◌
  abbrev pub ◌>>=◌ : Endpoint S A → (A → Endpoint S B) → Endpoint S B
  ◌>>=◌ m f s = continue (m s).0 f (m s).1

abbrev pub step_of : {A : Type 0} → (Error → Error) → Result A → Step A
step_of problem (ok a) = go a
step_of problem (err e) = stop (failed (problem e))

abbrev pub call_of : {A : Type 0} → (Error → Error) → Call A → Step A
call_of problem (returns r) = step_of problem r
call_of problem (panics m) = stop (panicked m)

module _ {S A : Type 0} where
  -- `if err != nil { c.Error(problem); return }`
  abbrev pub or_fail : (Error → Error) → Result A → Endpoint S A
  or_fail problem r s = (step_of problem r, s)

  abbrev pub or_panic : (Error → Error) → Call A → Endpoint S A
  or_panic problem c s = (call_of problem c, s)

  -- the same for a method of Bus
  abbrev pub acts : (Error → Error) → Action S A → Endpoint S A
  acts problem m s = (step_of problem (m s).0, (m s).1)

  abbrev pub ends : Outcome → Endpoint S A
  ends o s = (stop o, s)

-- What gin sees of an endpoint; one that stops without a call leaves the response as it is.
abbrev pub result_of : Step Outcome → Outcome
result_of (go o) = o
result_of (stop o) = o

abbrev pub serve : {S : Type 0} → Endpoint S Outcome → S → Outcome × S
serve m s = (result_of (m s).0, (m s).1)

-- The frame of a line of handler.go, without the directories of the build.
abbrev pub frame : String → ℕ → Frame
frame func line = record {
  func_name = "github.com/hamidoujand/jumble/internal/domains/user/handler.(*handler)." ^^ func;
  file_line = "internal/domains/user/handler/handler.go:" ^^ decimal (pos line);
}
