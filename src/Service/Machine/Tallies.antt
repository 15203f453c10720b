-- ===== src/Service/Machine/Tallies.antt =====
-- What overlapping requests make of the counters of internal/metrics.
use jumble.Shared.{
  ℕ, ◌+◌, ◌≤◌, true, false, Option-cases, none, List, [], ◌∷◌, ◌++◌, ◌≡◌, ◌∙◌, refl, ap, sym, inl,
  inr, All, Bool-cases, arith,
}
use mathlib.Core.Path.{subst}
use jumble.Metrics.{Metrics}
use jumble.Service.Gin.{Ctx, Handler, stopped, leave, Gin, IsGin}
use jumble.Service.Stack.{Env, metrics, panics}
use jumble.Service.Stack.Counters.Totals.{bad}
use jumble.Service.Machine.{thread, next, Thread}
use jumble.Service.Machine.Tally.{
  face, IsClean, IsSettled, HasRoom, Quiet, Tallied, waits, counts, enters, runs, rescued, finishes,
  entered-metrics, left-metrics, left-panics, rescued-panics,
}

clean-stopped : {S : Type 0} (c : Ctx S) → IsClean (face c) → stopped c ≡ false
clean-stopped c (_, calm, running) = rw (running, calm) refl

running-calm : {S : Type 0} (c : Ctx S) → stopped c ≡ false → c.panic ≡ none
running-calm c running = elim (Option-cases c.panic) [
  | inl calm ↦ calm
  | inr (rec, panicking) ↦ ground arith
]

module _ {S : Type 0} (gin : Gin S) (gin_laws : IsGin gin) where
  -- The counters before a step and what the request had added, and both after it.
  abbrev Moved : Metrics → (r e p : ℕ) → Thread S → Type 0
  Moved m r e p t =
      (r2 : ℕ) × (e2 : ℕ) × (p2 : ℕ) × Tallied gin t.todo t.inside (face t.ctx) r2 e2 p2
      × (t.ctx.metrics.requests + r ≡ m.requests + r2)
      × (t.ctx.metrics.errors + e ≡ m.errors + e2)
      × (t.ctx.metrics.panics + p ≡ m.panics + p2)

  -- A step that leaves the counters alone.
  still :
      (m : Metrics) (r e p : ℕ) (t : Thread S)
      → Tallied gin t.todo t.inside (face t.ctx) r e p
      → t.ctx.metrics ≡ m
      → Moved m r e p t
  still m r e p t tallied same = rw same (r, e, p, tallied, refl, refl, refl)

  -- The deferred call of Panic.
  rescuing :
      (env : Env) (outer : List (Handler S)) (c : Ctx S)
      → All Quiet outer
      → IsSettled (face c)
      → c.has_metrics ≡ true
      → HasRoom c.metrics
      → Moved c.metrics 1 0 0 (thread [] (metrics gin env ∷ outer) (leave (panics gin env) c))
  rescuing env outer c quiet settled has room = elim (Option-cases c.panic) [
    | inl calm ↦
        let same = left-panics gin env c calm in
        still c.metrics 1 0 0 (thread [] (metrics gin env ∷ outer) (leave (panics gin env) c))
          (subst (λ d. Tallied gin [] (metrics gin env ∷ outer) (face d) 1 0 0) (sym same)
            (rescued env outer 0 refl refl quiet calm (omega arith)))
          (ap (λ d. d.metrics) same)
    | inr (rec, panicking) ↦ elim settled [
      | inl calm ↦ absurd (cc (sym calm ∙ panicking))
      | inr new ↦
          let (status, calm, requests, errors, panicked) =
            rescued-panics gin env c gin_laws room rec panicking has new in
          let few : 1 ≤ bad (leave (panics gin env) c).response.status =
            subst (λ n. 1 ≤ bad n) (sym status) (omega arith) in
          (
            1,
            0,
            1,
            rescued env outer 1 refl refl quiet calm few,
            omega arith,
            omega arith,
            omega arith,
          )
    ]
  ]

  pub next-Tallied :
      (todo inside : List (Handler S)) (c : Ctx S) (r e p : ℕ)
      → Tallied gin todo inside (face c) r e p
      → HasRoom c.metrics
      → Moved c.metrics r e p (next todo inside c)
  next-Tallied todo inside c r e p (waits env [] endpoint gs to_do quiet around settles calms clean)
        room =
      let (requests, errors, panics) = entered-metrics gin env c room in
      rw (to_do, clean-stopped c clean)
        (
          1,
          0,
          0,
          counts env inside endpoint gs refl refl around settles calms clean refl,
          omega arith,
          omega arith,
          omega arith,
        )
  next-Tallied todo inside c r e p
        (waits env (h ∷ outer) endpoint gs to_do (quiet, quiets) around settles calms clean) room =
      let (same, kept) = quiet.0 c in
      rw (to_do, clean-stopped c clean)
        (still c.metrics 0 0 0 (thread _ (h ∷ inside) (h.before c))
          (waits env outer endpoint gs refl quiets (quiet, around) settles calms
            (subst IsClean (sym same) clean))
          kept)
  next-Tallied todo inside c r e p
        (counts env outer endpoint gs to_do within quiet settles calms clean has) room =
      rw (to_do, within, clean-stopped c clean)
        (still c.metrics 1 0 0 (thread _ _ ((panics gin env).before c))
          (enters env outer endpoint gs refl refl quiet settles calms clean has) refl)
  next-Tallied todo inside c r e p
        (enters env outer endpoint gs to_do within quiet settles calms clean has) room =
      let (settled, has2, kept) = settles.0 c clean in
      rw (to_do, within, clean-stopped c clean)
        (still c.metrics 1 0 0
          (thread gs (endpoint ∷ (panics gin env ∷ metrics gin env ∷ outer)) (endpoint.before c))
          (runs env outer (endpoint ∷ []) refl quiet (settles.1, tt) calms settled (has2 ∙ has))
          kept)
  next-Tallied (h ∷ todo) inside c r e p
        (runs env outer done within quiet simple (calm, calms) settled has) room =
      elim (Bool-cases (stopped c)) [
        | inl halted ↦ rw halted (
            still c.metrics 1 0 0 (thread [] inside c)
              (runs env outer done within quiet simple tt settled has) refl)
        | inr running ↦
            let (calm2, has2, kept) = calm.0 c (running-calm c running) in
            rw running (
              still c.metrics 1 0 0 (thread todo (h ∷ inside) (h.before c))
                (runs env outer (h ∷ done) (ap (λ hs. h ∷ hs) within) quiet (calm.1, simple) calms
                  (inl calm2) (has2 ∙ has))
                kept)
      ]
  next-Tallied [] inside c r e p
        (runs env outer (h ∷ done) within quiet (returned, simple) calms settled has) room =
      rw within (
        still c.metrics 1 0 0
          (thread [] (done ++ (panics gin env ∷ metrics gin env ∷ outer)) (leave h c))
          (subst
            (λ d.
              Tallied gin [] (done ++ (panics gin env ∷ metrics gin env ∷ outer)) (face d) 1 0 0)
            (sym (returned c)) (runs env outer done refl quiet simple tt settled has))
          (ap (λ d. d.metrics) (returned c)))
  next-Tallied [] inside c r e p (runs env outer [] within quiet simple calms settled has) room =
      rw within (rescuing env outer c quiet settled has room)
  next-Tallied todo inside c r e p (rescued env outer panics to_do within quiet calm few) room =
      let (same, requests, errors, panicked) = left-metrics gin env c room calm in
      let few2 = subst (λ a. panics ≤ bad a.status) (sym same) few in
      let errors2 = errors ∙ ap (λ a. c.metrics.errors + bad a.status) (sym same) in
      rw (to_do, within)
        (1, _, panics, finishes panics refl quiet few2, omega arith, omega arith, omega arith)
  next-Tallied todo [] c r e p (finishes panics to_do quiet few) room =
      rw to_do (still c.metrics 1 _ panics (thread [] [] c) (finishes panics refl tt few) refl)
  next-Tallied todo (h ∷ inside) c r e p (finishes panics to_do (quiet, quiets) few) room =
      let (same, kept) = quiet.1 c in
      rw to_do (
        still c.metrics 1 _ panics (thread [] inside (leave h c))
          (subst (λ f. Tallied gin [] inside f 1 (bad c.response.status) panics) (sym same)
            (finishes panics refl quiets few))
          kept)
