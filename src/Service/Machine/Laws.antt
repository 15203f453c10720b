-- ===== src/Service/Machine/Laws.antt =====
-- The steps of a request that is not interrupted are what gin's engine does.
use jumble.Shared.{
  ℕ, zero, suc, ◌+◌, ◌*◌, ◌-◌, ◌≤◌, List, [], ◌∷◌, ◌++◌, ◌≡◌, ◌∙◌, refl, ap, sym, inl, inr, map,
  length, if◌then◌else◌, Bool-cases, Any, All-Any, arith,
}
use jumble.Handler.Endpoints.{App}
use jumble.Handler.Routes.{Route, register_routes}
use jumble.Service.Gin.{Ctx, Handler, stopped, Gin, IsGin}
use jumble.Service.Stack.{Env, installed, handler_of, handle}
use jumble.Service.Stack.Laws.{run-running, run-stopped}
use jumble.Service.Machine.{Thread, thread, step, steps}
use jumble.Service.Machine.Server.{World, world_of, begun, Serves, arrives, moves}
use jumble.Service.Machine.Turns.{short, length-map}
use jumble.Service.Stack.Served.{IsFresh}

steps-done : {S : Type 0} (n : ℕ) (c : Ctx S) → steps n (thread [] [] c) ≡ thread [] [] c
unfolding steps step
steps-done zero c = refl
steps-done (suc n) c = steps-done n c

steps-add : {S : Type 0} (m n : ℕ) (t : Thread S) → steps (m + n) t ≡ steps n (steps m t)
unfolding steps
steps-add zero n t = let e : 0 + n ≡ n = omega arith in ap (λ k. steps k t) e
steps-add (suc m) n t =
    let e : suc m + n ≡ suc (m + n) = omega arith in ap (λ k. steps k t) e ∙ steps-add m n (step t)

module _ {S : Type 0} (gin : Gin S) (gin_laws : IsGin gin) where
  -- The rest of a chain is run in at most two steps for each handler.
  passes :
      (hs inside : List (Handler S)) (c : Ctx S)
      → (k : ℕ) × (k ≤ 2 * length hs)
        × (steps k (thread hs inside c) ≡ thread [] inside (gin.run hs c))
  unfolding steps step
  passes [] inside c = (0, omega arith, ap (thread [] inside) (sym (gin_laws.run_nil c)))
  passes (h ∷ hs) inside c = elim (Bool-cases (stopped c)) [
    | inl halted ↦ (
      1,
      omega arith,
      ap (λ b. if b then thread [] inside c else thread hs (h ∷ inside) (h.before c)) halted
          ∙ ap (thread [] inside) (sym (run-stopped gin gin_laws (h ∷ hs) c halted)),
    )
    | inr running ↦
        let (k, few, rest) = passes hs (h ∷ inside) (h.before c) in
        (
          suc (k + 1),
          omega arith,
          ap
                (λ b.
                  steps (k + 1)
                    (if b then thread [] inside c else thread hs (h ∷ inside) (h.before c)))
                running
              ∙ steps-add k 1 (thread hs (h ∷ inside) (h.before c))
              ∙ ap (steps 1) rest
              ∙ ap (thread [] inside) (sym (run-running gin gin_laws h hs c running)),
        )
  ]

  pub steps-run :
      (hs : List (Handler S)) (c : Ctx S) (n : ℕ)
      → 2 * length hs ≤ n
      → steps n (thread hs [] c) ≡ thread [] [] (gin.run hs c)
  steps-run hs c n enough =
      let (k, few, rest) = passes hs [] c in
      let split : n ≡ k + (n - k) = omega arith in
      ap (λ n. steps n (thread hs [] c)) split
      ∙ steps-add k (n - k) (thread hs [] c)
      ∙ ap (steps (n - k)) rest
      ∙ steps-done (n - k) (gin.run hs c)

module _ {S P K : Type 0} (app : App S P K) (gin : Gin S) (gin_laws : IsGin gin) where
  -- A request through a registered route that is run one call at a time, without another between
  -- its steps, has returned after 14 steps with the context that the whole chain leaves.
  pub handle-steps :
      (env : Env) (route : Route) (c : Ctx S)
      → Any (λ r. r ≡ route) register_routes
      → steps 14 (begun app gin env route c) ≡ thread [] [] (handle app gin env route c)
  unfolding handle
  handle-steps env route c member =
      let few = All-Any (λ route. length route.chain ≤ 3) register_routes route short member in
      let same = length-map app gin env route.chain in
      steps-run gin gin_laws (installed app gin env ++ map (handler_of app gin env) route.chain) c
        14 (omega arith)

  -- A request that goes on alone from the shared state as it left it.
  pub moves_on :
      (start : World S) (n : ℕ) (later earlier : List (Thread S)) (t : Thread S)
      → Serves app gin start (world_of t.ctx) (later ++ (t ∷ earlier))
      → Serves app gin start (world_of (steps n t).ctx) (later ++ (steps n t ∷ earlier))
  unfolding steps
  moves_on start zero later earlier t serves = serves
  moves_on start (suc n) later earlier t serves =
      moves_on start n later earlier (step t) (moves (world_of t.ctx) later earlier t serves)

  -- Among the orders is the one in which a request that arrives is served to its end at once.
  pub Serves-handle :
      (start : World S) (ts : List (Thread S)) (env : Env) (route : Route) (c : Ctx S)
      → Serves app gin start (world_of c) ts
      → Any (λ r. r ≡ route) register_routes
      → IsFresh c
      → let d = handle app gin env route c in
        Serves app gin start (world_of d) (thread [] [] d ∷ ts)
  Serves-handle start ts env route c serves member fresh =
      rw
        (ap (λ t. Serves app gin start (world_of t.ctx) (t ∷ ts))
          (sym (handle-steps env route c member)))
        (moves_on start 14 [] ts (begun app gin env route c)
          (arrives (world_of c) ts env c route serves member fresh))
