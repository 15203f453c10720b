-- ===== src/Service/Machine/Answers.antt =====
-- What a request answers while the shared state is changed between its turns.
use jumble.Shared.{
  ◌≤◌, false, List, [], ◌∷◌, ◌++◌, ◌≡◌, ◌∙◌, refl, ap, sym, ◌⊎◌, inl, inr, All, Any, map, length,
}
use mathlib.Core.Path.{subst}
use jumble.Handler.Endpoints.{App}
use jumble.Handler.Reply.{Outcome, Request}
use jumble.Handler.Routes.{Method, endpoint, Route, register_routes}
use jumble.Service.Gin.{Ctx, Handler, stopped, Gin, IsGin}
use jumble.Service.Stack.{
  Env, telemetry, logger, metrics, panics, settled, called, seen, ended, acts, installed,
  handler_of,
}
use jumble.Service.Stack.Served.{IsFresh, leave-simple}
use jumble.Service.Machine.{Thread, next, step}
use jumble.Service.Machine.Server.{World, over, begun, turns}
use jumble.Service.Machine.Turns.{IsDone, turns-IsDone}
use jumble.Service.Machine.Marks.{
  Mark, mark, IsOpen, IsAnswer, HasOutcome, Rests, Plain, telemetry-Plain, logger-Plain,
  metrics-Plain, settled-HasOutcome, panics-IsAnswer,
}

module _ {S P K : Type 0} (app : App S P K) (gin : Gin S) (gin_laws : IsGin gin) (env : Env)
    (m : Method) (r : Request) where
  abbrev asked : Handler S
  asked = handler_of app gin env (endpoint m)

  -- The endpoint is still to be called.
  data Before (todo inside : List (Handler S)) (k : Mark) : Type 0 where
    enters :
        (outer : List (Handler S))
        → todo ≡ outer ++ (panics gin env ∷ asked ∷ [])
        → All Plain outer
        → All Rests inside
        → IsOpen r k
        → Before todo inside k
    meets :
        (outer : List (Handler S))
        → todo ≡ asked ∷ []
        → inside ≡ panics gin env ∷ outer
        → All Rests outer
        → IsOpen r k
        → Before todo inside k

  -- The endpoint was called with this outcome.
  data After (o : Outcome) (todo inside : List (Handler S)) (k : Mark) : Type 0 where
    called_it :
        (outer : List (Handler S))
        → todo ≡ []
        → inside ≡ asked ∷ panics gin env ∷ outer
        → All Rests outer
        → HasOutcome o k
        → After o todo inside k
    recovers :
        (outer : List (Handler S))
        → todo ≡ []
        → inside ≡ panics gin env ∷ outer
        → All Rests outer
        → HasOutcome o k
        → After o todo inside k
    rests : todo ≡ [] → All Rests inside → IsAnswer o k → After o todo inside k

  abbrev outcome : World S → Outcome
  outcome w = (called app gin env m r w.store).0

  abbrev Waits : Thread S → Type 0
  Waits t = Before t.todo t.inside (mark t.ctx)

  abbrev Has : Outcome → Thread S → Type 0
  Has o t = After o t.todo t.inside (mark t.ctx)

  open-stopped : (c : Ctx S) → IsOpen r (mark c) → stopped c ≡ false
  open-stopped c (_, _, _, calm, running) = rw (running, calm) refl

  next-Before :
      (todo inside : List (Handler S)) (c : Ctx S)
      → Before todo inside (mark c)
      → Waits (next todo inside c) ⊎ Has (called app gin env m r c.store).0 (next todo inside c)
  next-Before todo inside c (enters [] to_do plain around opens) =
      rw (to_do, open-stopped c opens) (inl (meets inside refl refl around opens))
  next-Before todo inside c (enters (h ∷ outer) to_do (plain, plains) around opens) =
      rw (to_do, open-stopped c opens)
        (inl
          (enters outer refl plains (plain.1, around) (subst (IsOpen r) (sym (plain.0 c)) opens)))
  next-Before todo inside c (meets outer to_do within around opens) =
      let answer = called app gin env m r c.store in
      let d = settled gin env answer.0 (record c { store = answer.1 }) in
      let same : (acts app gin env (endpoint m) c) ≡ d =
        ap (λ q. ended app gin env (called app gin env m q c.store) c) opens.0 in
      let has =
        settled-HasOutcome gin gin_laws env r answer.0 (record c { store = answer.1 }) opens in
      rw (to_do, within, open-stopped c opens)
        (inr (
          called_it outer refl refl around
            (subst (λ d. HasOutcome answer.0 (mark d)) (sym same) has)))

  next-After :
      (o : Outcome) (todo inside : List (Handler S)) (c : Ctx S)
      → After o todo inside (mark c)
      → Has o (next todo inside c)
  next-After o todo inside c (called_it outer to_do within around has) =
      let same = leave-simple (acts app gin env (endpoint m)) c in
      rw (to_do, within)
        (recovers outer refl refl around (subst (λ d. HasOutcome o (mark d)) (sym same) has))
  next-After o todo inside c (recovers outer to_do within around has) =
      rw (to_do, within) (rests refl around (panics-IsAnswer gin gin_laws env o c has))
  next-After o todo [] c (rests to_do around answer) = rw to_do (rests refl tt answer)
  next-After o todo (h ∷ inside) c (rests to_do (rest, around) answer) =
      rw to_do (rests refl around (subst (IsAnswer o) (sym (rest c answer.0)) answer))

  turns-After : (o : Outcome) (ws : List (World S)) (t : Thread S) → Has o t → Has o (turns ws t)
  unfolding turns step
  turns-After o [] t has = has
  turns-After o (w ∷ ws) t has =
      turns-After o ws (step (over w t)) (next-After o t.todo t.inside (over w t).ctx has)

  -- The endpoint is called at one of the turns, or still to be called.
  turns-Before :
      (ws : List (World S)) (t : Thread S)
      → Waits t
      → Waits (turns ws t) ⊎ ((w : World S) × Any (λ v. v ≡ w) ws × Has (outcome w) (turns ws t))
  unfolding turns step
  turns-Before [] t waits = inl waits
  turns-Before (w ∷ ws) t waits = elim (next-Before t.todo t.inside (over w t).ctx waits) [
    | inr has ↦ inr (w, inl refl, turns-After (outcome w) ws (step (over w t)) has)
    | inl still ↦ elim (turns-Before ws (step (over w t)) still) [
      | inl longer ↦ inl longer
      | inr (v, among, has) ↦ inr (v, inr among, has)
    ]
  ]

  returned-Before : (t : Thread S) → IsDone t → Waits t → ⊥
  returned-Before t (nothing, out) (enters [] to_do plain around opens) = cc (sym nothing ∙ to_do)
  returned-Before t (nothing, out) (enters (h ∷ hs) to_do plain around opens) =
      cc (sym nothing ∙ to_do)
  returned-Before t (nothing, out) (meets outer to_do within around opens) =
      cc (sym nothing ∙ to_do)

  done-After : (o : Outcome) (t : Thread S) → IsDone t → Has o t → IsAnswer o (mark t.ctx)
  done-After o t (nothing, out) (called_it outer to_do within around has) =
      absurd (cc (sym out ∙ within))
  done-After o t (nothing, out) (recovers outer to_do within around has) =
      absurd (cc (sym out ∙ within))
  done-After o t (nothing, out) (rests to_do around answer) = answer

module _ {S P K : Type 0} (app : App S P K) (gin : Gin S) (gin_laws : IsGin gin) where
  -- A request that has returned after its turns over these shared states.
  pub done-IsAnswer :
      (env : Env) (route : Route) (m : Method) (c : Ctx S) (ws : List (World S))
      → route.chain ≡ endpoint m ∷ []
      → IsFresh c
      → IsDone (turns ws (begun app gin env route c))
      → (w : World S) × Any (λ v. v ≡ w) ws
        × IsAnswer
            (called app gin env m (seen app gin env c) w.store).0
            (mark (turns ws (begun app gin env route c)).ctx)
  done-IsAnswer env route m c ws alone (_, none_yet, new, running, calm) done =
      let r = seen app gin env c in
      let t = begun app gin env route c in
      let waits : Before app gin gin_laws env m r t.todo [] (mark c) =
        enters (telemetry gin env ∷ logger gin env ∷ metrics gin env ∷ [])
          (ap (λ stages. installed app gin env ++ map (handler_of app gin env) stages) alone)
          (
            telemetry-Plain gin gin_laws env,
            (logger-Plain gin gin_laws env, (metrics-Plain gin gin_laws env, tt)),
          )
          tt (refl, new, none_yet, calm, running) in
      elim (turns-Before app gin gin_laws env m r ws t waits) [
        | inl still ↦ absurd (returned-Before app gin gin_laws env m r (turns ws t) done still)
        | inr (w, among, has) ↦
            (w, among, done-After app gin gin_laws env m r _ (turns ws t) done has)
      ]

  -- However the shared state is changed between its turns, a request with a fresh context through a
  -- registered route with one handler has, after 14 turns or more, no panic under way, and the
  -- response and the recorded errors of its endpoint's outcome over the store of one of its turns.
  pub turns-IsAnswer :
      (env : Env) (route : Route) (m : Method) (c : Ctx S) (ws : List (World S))
      → Any (λ r. r ≡ route) register_routes
      → route.chain ≡ endpoint m ∷ []
      → IsFresh c
      → 14 ≤ length ws
      → (w : World S) × Any (λ v. v ≡ w) ws
        × IsAnswer
            (called app gin env m (seen app gin env c) w.store).0
            (mark (turns ws (begun app gin env route c)).ctx)
  turns-IsAnswer env route m c ws member alone fresh enough =
      done-IsAnswer env route m c ws alone fresh (turns-IsDone app gin env route c ws member enough)
