-- ===== src/Service/Machine/Turns.antt =====
-- A request returns however the other requests change the shared state between its steps.
use jumble.Shared.{
  ℕ, zero, suc, ◌+◌, ◌*◌, ◌≤◌, ◌<◌, List, [], ◌∷◌, ◌≡◌, refl, ap, ◌⊎◌, inl, inr, All, All-Any, Any,
  map, length, Bool-cases, arith,
}
use mathlib.Core.Path.{subst}
use jumble.Handler.Endpoints.{App}
use jumble.Handler.Routes.{Stage, Route, register_routes}
use jumble.Service.Gin.{Ctx, Handler, stopped, Gin}
use jumble.Service.Stack.{Env, handler_of}
use jumble.Service.Machine.{Thread, next, step, steps}
use jumble.Service.Machine.Server.{World, world_of, over, begun, turns}

-- A request that has returned.
abbrev pub IsDone : {S : Type 0} → Thread S → Type 0
IsDone t = (t.todo ≡ []) × (t.inside ≡ [])

-- The steps that a request can still make.
abbrev pub rank : {S : Type 0} → Thread S → ℕ
rank t = 2 * length t.todo + length t.inside

next-rank :
    {S : Type 0} (todo inside : List (Handler S)) (c : Ctx S)
    → IsDone (next todo inside c) ⊎ (rank (next todo inside c) < 2 * length todo + length inside)
next-rank [] [] c = inl (refl, refl)
next-rank [] (h ∷ inside) c = inr (omega arith)
next-rank (h ∷ hs) inside c = elim (Bool-cases (stopped c)) [
  | inl halted ↦ rw halted (inr (omega arith))
  | inr running ↦ rw running (inr (omega arith))
]

-- However the shared state changes between its steps, a request returns after that many.
pub step-rank :
    {S : Type 0} (w : World S) (t : Thread S)
    → IsDone (step (over w t)) ⊎ (rank (step (over w t)) < rank t)
unfolding step
step-rank w t = next-rank t.todo t.inside (over w t).ctx

nothing_left :
    {S : Type 0} (todo inside : List (Handler S))
    → 2 * length todo + length inside ≤ 0
    → (todo ≡ []) × (inside ≡ [])
nothing_left [] [] few = (refl, refl)
nothing_left [] (h ∷ inside) few = absurd (omega arith)
nothing_left (h ∷ todo) inside few = absurd (omega arith)

step-IsDone : {S : Type 0} (w : World S) (t : Thread S) → IsDone t → IsDone (step (over w t))
unfolding step
step-IsDone w t (nothing, out) = rw (nothing, out) (refl, refl)

turns-done : {S : Type 0} (ws : List (World S)) (t : Thread S) → IsDone t → IsDone (turns ws t)
unfolding turns
turns-done [] t done = done
turns-done (w ∷ ws) t done = turns-done ws (step (over w t)) (step-IsDone w t done)

turns-rank :
    {S : Type 0} (ws : List (World S)) (t : Thread S) → rank t ≤ length ws → IsDone (turns ws t)
unfolding turns
turns-rank [] t enough = nothing_left t.todo t.inside enough
turns-rank (w ∷ ws) t enough = elim (step-rank w t) [
  | inl done ↦ turns-done ws (step (over w t)) done
  | inr less ↦ turns-rank ws (step (over w t)) (omega arith)
]

-- The shared states that a request finds when it goes on alone.
abbrev worlds : {S : Type 0} → ℕ → Thread S → List (World S)
worlds zero t = []
worlds (suc n) t = world_of t.ctx ∷ worlds n (step t)

worlds-turns :
    {S : Type 0} (n : ℕ) (t : Thread S)
    → (turns (worlds n t) t ≡ steps n t) × (length (worlds n t) ≡ n)
unfolding turns steps
worlds-turns zero t = (refl, refl)
worlds-turns (suc n) t = let (same, long) = worlds-turns n (step t) in (same, ap suc long)

pub steps-rank : {S : Type 0} (n : ℕ) (t : Thread S) → rank t ≤ n → IsDone (steps n t)
steps-rank n t enough =
    let (same, long) = worlds-turns n t in
    subst IsDone same (turns-rank (worlds n t) t (omega arith))

pub short : All (λ route. length route.chain ≤ 3) register_routes
short = ground arith

module _ {S P K : Type 0} (app : App S P K) (gin : Gin S) where
  pub length-map :
      (env : Env) (stages : List Stage)
      → length (map (handler_of app gin env) stages) ≡ length stages
  length-map env [] = refl
  length-map env (stage ∷ stages) = ap suc (length-map env stages)

  -- However the shared state is changed between its turns, a request through a registered route has
  -- returned after 14 turns.
  pub turns-IsDone :
      (env : Env) (route : Route) (c : Ctx S) (ws : List (World S))
      → Any (λ r. r ≡ route) register_routes
      → 14 ≤ length ws
      → IsDone (turns ws (begun app gin env route c))
  turns-IsDone env route c ws member enough =
      let few = All-Any (λ route. length route.chain ≤ 3) register_routes route short member in
      let same = length-map env route.chain in
      turns-rank ws (begun app gin env route c) (omega arith)
