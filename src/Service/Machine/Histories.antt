-- ===== src/Service/Machine/Histories.antt =====
-- The requests of a server are made of their own turns over shared states that the server reached.
use jumble.Shared.{List, [], ◌∷◌, ◌++◌, ◌≡◌, ◌∙◌, refl, ap, sym, All, All-append, All-split, Any}
use jumble.Handler.Endpoints.{App}
use jumble.Handler.Routes.{Stage, endpoint, authenticated, authorized, Route, register_routes}
use jumble.Service.Gin.{Ctx, Gin, IsGin}
use jumble.Service.Stack.{Env, called, seen}
use jumble.Service.Stack.Served.{IsFresh}
use jumble.Service.Machine.{Thread, step}
use jumble.Service.Machine.Marks.{mark, IsAnswer}
use jumble.Service.Machine.Server.{World, over, turns, begun, Serves, idle, arrives, moves}

turns-snoc :
    {S : Type 0} (ws : List (World S)) (w : World S) (t : Thread S)
    → turns (ws ++ (w ∷ [])) t ≡ step (over w (turns ws t))
unfolding turns
turns-snoc [] w t = refl
turns-snoc (v ∷ ws) w t = turns-snoc ws w (step (over v t))

module _ {S P K : Type 0} (app : App S P K) (gin : Gin S) (start : World S) where
  -- A shared state that the server reached.
  abbrev pub IsReached : World S → Type 0
  IsReached w = (ts : List (Thread S)) × Serves app gin start w ts

  -- A request through a registered route with the turns that it has had.
  abbrev pub HasHistory : Thread S → Type 0
  HasHistory t =
      (env : Env) × (route : Route) × (c : Ctx S) × (ws : List (World S)) × Any (λ r. r ≡ route)
        register_routes
      × IsFresh c
      × All IsReached ws
      × (t ≡ turns ws (begun app gin env route c))

  moved : (w : World S) (t : Thread S) → IsReached w → HasHistory t → HasHistory (step (over w t))
  moved w t reached (env, route, c, ws, member, fresh, all, is) = (
    env,
    route,
    c,
    ws ++ (w ∷ []),
    member,
    fresh,
    All-append IsReached ws (w ∷ []) all (reached, tt),
    ap (λ t. step (over w t)) is ∙ sym (turns-snoc ws w (begun app gin env route c)),
  )

  -- Every request of a server is one that arrived at a registered route and took its turns over
  -- shared states that the server had reached.
  pub Serves-HasHistory :
      (w : World S) (ts : List (Thread S)) → Serves app gin start w ts → All HasHistory ts
  unfolding turns
  Serves-HasHistory w ts idle = tt
  Serves-HasHistory w ts (arrives w0 earlier env c route before member fresh) =
      ((env, route, c, [], member, fresh, tt, refl), Serves-HasHistory w0 earlier before)
  Serves-HasHistory w ts (moves w0 later earlier t before) =
      let all = Serves-HasHistory w0 (later ++ (t ∷ earlier)) before in
      let (first, (mine, rest)) = All-split HasHistory later (t ∷ earlier) all in
      All-append HasHistory later (step (over w0 t) ∷ earlier) first
        (moved w0 t (later ++ (t ∷ earlier), before) mine, rest)

module _ {S P K : Type 0} (app : App S P K) (gin : Gin S) (gin_laws : IsGin gin)
    (start : World S) where
  -- What the chain of one endpoint has answered: that endpoint's outcome over the store of one of
  -- these states.
  abbrev Fits : List Stage → Env → Ctx S → List (World S) → Thread S → Type 0
  Fits (endpoint m ∷ []) env c ws t =
      (v : World S) × Any (λ w. w ≡ v) ws
      × IsAnswer (called app gin env m (seen app gin env c) v.store).0 (mark t.ctx)
  Fits [] env c ws t = Unit
  Fits (endpoint m ∷ stage ∷ stages) env c ws t = Unit
  Fits (authenticated ∷ stages) env c ws t = Unit
  Fits (authorized roles ∷ stages) env c ws t = Unit

  -- The request arrived at this registered route with a fresh context, became what it is by its
  -- turns over these states, each of which the server had reached, and has its answer over one of
  -- them.
  abbrev pub HasAnswer : Thread S → Type 0
  HasAnswer t =
      (env : Env) × (route : Route) × (c : Ctx S) × (ws : List (World S)) × Any (λ r. r ≡ route)
        register_routes
      × IsFresh c
      × All (IsReached app gin start) ws
      × (t ≡ turns ws (begun app gin env route c))
      × Fits route.chain env c ws t
