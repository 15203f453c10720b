-- ===== src/Service/Machine.antt =====
-- A request to the engine of cmd/services/main.go one call at a time: the code of a handler before
-- c.Next(), or its code behind it, is a step. Of the endpoints that a registered route reaches,
-- none finds a user in the context, so only CreateUser changes the store, by one call of it, and
-- requests may overlap at these steps. The two reads of Query are one step here.
pub mod Server
pub mod Turns
pub mod Laws
pub mod Growth
pub mod Calls
pub mod Overlap
pub mod Tally
pub mod Tallies
pub mod Faces
pub mod Sums
pub mod Totals
pub mod Marks
pub mod Answers
pub mod Histories
use jumble.Shared.{ℕ, zero, suc, List, [], ◌∷◌, if◌then◌else◌}
use jumble.Service.Gin.{Ctx, Handler, stopped, leave}

-- The goroutine of a request: the handlers that are still to be run, those that are inside
-- c.Next(), the innermost first, and the context.
pub record Thread (S : Type 0) : Type 0 where
  pub todo : List (Handler S)
  pub inside : List (Handler S)
  pub ctx : Ctx S

abbrev pub thread : {S : Type 0} → List (Handler S) → List (Handler S) → Ctx S → Thread S
thread todo inside c = record { todo = todo; inside = inside; ctx = c }

abbrev pub next : {S : Type 0} → List (Handler S) → List (Handler S) → Ctx S → Thread S
next [] [] c = thread [] [] c
next [] (h ∷ inside) c = thread [] inside (leave h c)
next (h ∷ hs) inside c =
    if stopped c then thread [] inside c else thread hs (h ∷ inside) (h.before c)

-- A handler is entered, or left when none is to be run; an aborted or panicking chain enters none.
unfoldable pub step : {S : Type 0} → Thread S → Thread S
step t = next t.todo t.inside t.ctx

unfoldable pub steps : {S : Type 0} → ℕ → Thread S → Thread S
steps zero t = t
steps (suc n) t = steps n (step t)
