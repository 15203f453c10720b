-- ===== src/Examples/Overlapping.antt =====
-- Two requests of Ann that overlap.
use jumble.Shared.{List, ◌≤◌, Any, All, arith, some, [], ◌∷◌, ◌≡◌, refl, inl, inr}
use jumble.Bus.Contract.{stored}
use jumble.Userdb.Memory.{Table}
use jumble.Handler.Routes
use jumble.Handler.Routes.{endpoint, authenticated, Route, register_routes}
use jumble.Service.Gin.{Ctx}
use jumble.Service.Machine.Marks.{mark, IsAnswer}
use jumble.Service.Machine.Answers.{turns-IsAnswer}
use jumble.Service.Stack.{called, seen}
use jumble.Service.Machine.{Thread, step, steps}
use jumble.Service.Machine.Laws.{moves_on}
use jumble.Service.Machine.Totals.{Serves-metrics}
use jumble.Service.Machine.Sums.{statuses}
use jumble.Service.Stack.Counters.Totals.{number_bad}
use jumble.Service.Machine.Turns.{IsDone, steps-rank}
use jumble.Service.Machine.Server.{
  turns, World, world_of, over, begun, Serves, idle, arrives, moves,
}
use jumble.Service.Machine.Overlap.{Serves-find}
use jumble.Examples.Users.{Up, find_in, anna, one, one_up, in_one, keeps}
use jumble.Examples.Requests.{app}
use jumble.Examples.Serving.{gin, gin-IsGin, env, asking, login_route}

abbrev delete_route : Route
delete_route = record {
  verb = "DELETE";
  path = "/v1/users/:id";
  chain = endpoint Routes.delete_user ∷ authenticated ∷ Routes.admin_or_user ∷ [];
}

-- Ann asks to be deleted, with her token, while she logs in.
abbrev deleting : Ctx Table
deleting = record (asking "Bearer token" "") { store = one }

abbrev login_in : Ctx Table
login_in = record (asking "" "login") { store = one }

abbrev at_start : World Table
at_start = world_of login_in

abbrev first : Thread Table
first = begun app gin env login_route login_in

abbrev second : Thread Table
second = begun app gin env delete_route deleting

-- The second request arrives after the first step of the first one, which then goes on.
abbrev first_on : Thread Table
first_on = step (over at_start first)

abbrev on_the_way : World Table
on_the_way = world_of first_on.ctx

abbrev first_further : Thread Table
first_further = step (over on_the_way first_on)

overlapping : Serves app gin at_start (world_of first_further.ctx) (second ∷ first_further ∷ [])
overlapping = moves on_the_way (second ∷ []) [] first_on (
    arrives on_the_way (first_on ∷ []) env deleting delete_route
      (moves at_start [] [] first (
        arrives at_start [] env login_in login_route idle
          (inr (inr (inr (inr (inr (inr (inr (inl refl)))))))) (refl, refl, refl, refl, refl)))
      (inr (inr (inl refl))) (refl, refl, refl, refl, refl))

-- The second request is served to its end, then the first one.
abbrev second_done : Thread Table
second_done = steps 14 (over (world_of first_further.ctx) second)

abbrev first_done : Thread Table
first_done = steps 14 (over (world_of second_done.ctx) first_further)

served : Serves app gin at_start (world_of first_done.ctx) (second_done ∷ first_done ∷ [])
unfolding steps
served =
    let w = world_of first_further.ctx in
    let w2 = world_of second_done.ctx in
    moves_on app gin gin-IsGin at_start 13 (second_done ∷ []) [] (step (over w2 first_further)) (
      moves w2 (second_done ∷ []) [] first_further (
        moves_on app gin gin-IsGin at_start 13 [] (first_further ∷ []) (step (over w second))
          (moves w [] (first_further ∷ []) second overlapping)))

done : All IsDone (second_done ∷ first_done ∷ [])
unfolding step
done = (steps-rank 14 _ (omega arith), (steps-rank 14 _ (omega arith), tt))

Serves-metrics_example :
    (first_done.ctx.metrics.requests ≡ 2)
    × (first_done.ctx.metrics.errors ≡ number_bad (statuses (second_done ∷ first_done ∷ [])))
    × (first_done.ctx.metrics.panics ≤ first_done.ctx.metrics.errors)
Serves-metrics_example =
    Serves-metrics app gin gin-IsGin at_start (world_of first_done.ctx)
      (second_done ∷ first_done ∷ []) served refl (omega arith) done

Serves-find_example :
    Up first_done.ctx.store × (find_in first_done.ctx.store 1 ≡ some (stored anna))
Serves-find_example =
    Serves-find app keeps gin gin-IsGin at_start (world_of first_done.ctx)
      (second_done ∷ first_done ∷ []) served one_up 1 (stored anna) in_one

-- The shared state changes between two states at each of 14 turns of the login.
abbrev changing : List (World Table)
changing =
    at_start ∷ on_the_way ∷ at_start ∷ on_the_way ∷ at_start ∷ on_the_way ∷ at_start ∷ on_the_way
    ∷ at_start ∷ on_the_way ∷ at_start ∷ on_the_way ∷ at_start ∷ on_the_way ∷ []

turns-IsAnswer_example :
    (w : World Table) × Any (λ v. v ≡ w) changing
    × IsAnswer
        (called app gin env Routes.authenticate (seen app gin env login_in) w.store).0
        (mark (turns changing (begun app gin env login_route login_in)).ctx)
turns-IsAnswer_example =
    turns-IsAnswer app gin gin-IsGin env login_route Routes.authenticate login_in changing
      (inr (inr (inr (inr (inr (inr (inr (inl refl)))))))) refl (refl, refl, refl, refl, refl)
      (omega arith)
