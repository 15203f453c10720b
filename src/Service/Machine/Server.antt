-- ===== src/Service/Machine/Server.antt =====
-- Requests that overlap: the store, the counters and the log are shared, and the goroutines of the
-- requests take their steps in any order.
use jumble.Shared.{List, [], ◌∷◌, ◌++◌, ◌≡◌, map, Any}
use jumble.Metrics.{Metrics}
use jumble.Logger.{Entry}
use jumble.Handler.Endpoints.{App}
use jumble.Handler.Routes.{Route, register_routes}
use jumble.Service.Gin.{Ctx, Gin}
use jumble.Service.Stack.{Env, installed, handler_of}
use jumble.Service.Stack.Served.{IsFresh}
use jumble.Service.Machine.{Thread, thread, step}

-- What is behind the pointers that the handlers share.
pub record World (S : Type 0) : Type 0 where
  pub store : S
  pub metrics : Metrics
  pub log : List Entry

abbrev pub world_of : {S : Type 0} → Ctx S → World S
world_of c = record { store = c.store; metrics = c.metrics; log = c.log }

-- A goroutine over the shared state as it is now.
abbrev pub over : {S : Type 0} → World S → Thread S → Thread S
over w t =
    thread t.todo t.inside (record t.ctx { store = w.store; metrics = w.metrics; log = w.log })

-- The steps of one goroutine over the shared states that it finds at its turns.
unfoldable pub turns : {S : Type 0} → List (World S) → Thread S → Thread S
turns [] t = t
turns (w ∷ ws) t = turns ws (step (over w t))

module _ {S P K : Type 0} (app : App S P K) (gin : Gin S) where
  -- A request as it arrives.
  abbrev pub begun : Env → Route → Ctx S → Thread S
  begun env route c =
      thread (installed app gin env ++ map (handler_of app gin env) route.chain) [] c

  -- The shared state and the requests that have arrived, the latest first: one more arrives, or one
  -- of them, with those before and after it, takes a step.
  pub data Serves (start : World S) : World S → List (Thread S) → Type 0 where
    idle : Serves start start []
    arrives :
        (w : World S) (ts : List (Thread S)) (env : Env) (c : Ctx S) (route : Route)
        → Serves start w ts
        → Any (λ r. r ≡ route) register_routes
        → IsFresh c
        → Serves start w (begun env route c ∷ ts)
    moves :
        (w : World S) (later earlier : List (Thread S)) (t : Thread S)
        → Serves start w (later ++ (t ∷ earlier))
        → Serves start (world_of (step (over w t)).ctx) (later ++ (step (over w t) ∷ earlier))
