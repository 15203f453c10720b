-- ===== src/Service/Machine/Sums.antt =====
-- What several requests have added to the counters of internal/metrics together.
use jumble.Shared.{
  ℕ, suc, ◌+◌, ◌≤◌, List, [], ◌∷◌, ◌++◌, ◌≡◌, ◌∙◌, refl, ap, sym, All, length, arith,
}
use mathlib.Core.Path.{subst}
use jumble.Service.Gin.{Ctx, Handler, Gin}
use jumble.Service.Stack.Counters.Totals.{bad, number_bad}
use jumble.Service.Machine.{Thread}
use jumble.Service.Machine.Tally.{face, Tallied, waits, counts, enters, runs, rescued, finishes}
use jumble.Service.Machine.Turns.{IsDone}

bad_few : (code : ℕ) → bad code ≤ 1
bad_few code = ground arith

pub length-middle :
    {A : Type 0} (xs ys : List A) (x y : A) → length (xs ++ (x ∷ ys)) ≡ length (xs ++ (y ∷ ys))
length-middle [] ys x y = refl
length-middle (z ∷ xs) ys x y = ap suc (length-middle xs ys x y)

abbrev pub statuses : {S : Type 0} → List (Thread S) → List ℕ
statuses [] = []
statuses (t ∷ ts) = t.ctx.response.status ∷ statuses ts

-- A counter after a step of a request that had added r.
pub added : (a b r r2 s : ℕ) → a + r ≡ b + r2 → b ≡ r + s → a ≡ r2 + s
added a b r r2 s moved before = omega arith

module _ {S : Type 0} (gin : Gin S) where
  few :
      (todo inside : List (Handler S)) (c : Ctx S) (r e p : ℕ)
      → Tallied gin todo inside (face c) r e p
      → (r ≤ 1) × (e ≤ 1) × (p ≤ 1)
  few todo inside c r e p (waits _ _ _ _ _ _ _ _ _ _) = (omega arith, omega arith, omega arith)
  few todo inside c r e p (counts _ _ _ _ _ _ _ _ _ _ _) = (omega arith, omega arith, omega arith)
  few todo inside c r e p (enters _ _ _ _ _ _ _ _ _ _ _) = (omega arith, omega arith, omega arith)
  few todo inside c r e p (runs _ _ _ _ _ _ _ _ _) = (omega arith, omega arith, omega arith)
  few todo inside c r e p (rescued _ _ panics _ _ _ _ at_most) =
      let b = bad_few c.response.status in (omega arith, omega arith, omega arith)
  few todo inside c r e p (finishes panics _ _ at_most) =
      let b = bad_few c.response.status in (omega arith, omega arith, omega arith)

  abbrev pub Holds : Thread S → (r e p : ℕ) → Type 0
  Holds t r e p = Tallied gin t.todo t.inside (face t.ctx) r e p

  -- What the requests have added together.
  abbrev pub Tally : List (Thread S) → (requests errors panics : ℕ) → Type 0
  Tally [] requests errors panics = (requests ≡ 0) × (errors ≡ 0) × (panics ≡ 0)
  Tally (t ∷ ts) requests errors panics =
      (r : ℕ) × (e : ℕ) × (p : ℕ) × (rs : ℕ) × (es : ℕ) × (ps : ℕ) × Holds t r e p
      × Tally ts rs es ps
      × (requests ≡ r + rs)
      × (errors ≡ e + es)
      × (panics ≡ p + ps)

  pub Tally-length :
      (ts : List (Thread S)) (requests errors panics : ℕ)
      → Tally ts requests errors panics
      → (requests ≤ length ts) × (errors ≤ length ts) × (panics ≤ length ts)
  Tally-length [] requests errors panics tally = (omega arith, omega arith, omega arith)
  Tally-length (t ∷ ts) requests errors panics (r, e, p, rs, es, ps, one, rest, rq, eq, pq) =
      let (r1, e1, p1) = few t.todo t.inside t.ctx r e p one in
      let (rl, el, pl) = Tally-length ts rs es ps rest in (omega arith, omega arith, omega arith)

  pub Tally-same :
      (ts : List (Thread S)) (r2 e2 p2 r e p : ℕ)
      → r2 ≡ r
      → e2 ≡ e
      → p2 ≡ p
      → Tally ts r e p
      → Tally ts r2 e2 p2
  Tally-same ts r2 e2 p2 r e p rq eq pq tally =
      subst (λ n. Tally ts n e2 p2) (sym rq)
        (subst (λ n. Tally ts r n p2) (sym eq) (subst (λ n. Tally ts r e n) (sym pq) tally))

  -- One of the requests in the place of another.
  pub Tally-pick :
      (later earlier : List (Thread S)) (t u : Thread S) (requests errors panics : ℕ)
      → Tally (later ++ (t ∷ earlier)) requests errors panics
      → (r : ℕ) × (e : ℕ) × (p : ℕ) × (rs : ℕ) × (es : ℕ) × (ps : ℕ) × Holds t r e p
        × (requests ≡ r + rs)
        × (errors ≡ e + es)
        × (panics ≡ p + ps)
        × ((r2 e2 p2 : ℕ)
            → Holds u r2 e2 p2
            → Tally (later ++ (u ∷ earlier)) (r2 + rs) (e2 + es) (p2 + ps))
  Tally-pick [] earlier t u requests errors panics (r, e, p, rs, es, ps, one, rest, rq, eq, pq) = (
    r,
    e,
    p,
    rs,
    es,
    ps,
    one,
    rq,
    eq,
    pq,
    λ r2 e2 p2 other. (r2, e2, p2, rs, es, ps, other, rest, refl, refl, refl),
  )
  Tally-pick (s ∷ later) earlier t u requests errors panics
        (r, e, p, rs, es, ps, one, rest, rq, eq, pq) =
      let (rt, et, pt, ro, eo, po, held, rsum, esum, psum, put) =
        Tally-pick later earlier t u rs es ps rest in
      (
        rt,
        et,
        pt,
        r + ro,
        e + eo,
        p + po,
        held,
        omega arith,
        omega arith,
        omega arith,
        λ r2 e2 p2 other. (
          r,
          e,
          p,
          r2 + ro,
          e2 + eo,
          p2 + po,
          one,
          put r2 e2 p2 other,
          omega arith,
          omega arith,
          omega arith,
        ),
      )

  done-Tallied :
      (todo inside : List (Handler S)) (c : Ctx S) (r e p : ℕ)
      → todo ≡ []
      → inside ≡ []
      → Tallied gin todo inside (face c) r e p
      → (r ≡ 1) × (e ≡ bad c.response.status) × (p ≤ bad c.response.status)
  done-Tallied todo inside c r e p nothing out (waits env [] endpoint gs to_do _ _ _ _ _) =
      absurd (cc (sym nothing ∙ to_do))
  done-Tallied todo inside c r e p nothing out (waits env (h ∷ hs) endpoint gs to_do _ _ _ _ _) =
      absurd (cc (sym nothing ∙ to_do))
  done-Tallied todo inside c r e p nothing out (counts env outer endpoint gs to_do _ _ _ _ _ _) =
      absurd (cc (sym nothing ∙ to_do))
  done-Tallied todo inside c r e p nothing out (enters env outer endpoint gs to_do _ _ _ _ _ _) =
      absurd (cc (sym nothing ∙ to_do))
  done-Tallied todo inside c r e p nothing out (runs env outer [] within _ _ _ _ _) =
      absurd (cc (sym out ∙ within))
  done-Tallied todo inside c r e p nothing out (runs env outer (h ∷ done) within _ _ _ _ _) =
      absurd (cc (sym out ∙ within))
  done-Tallied todo inside c r e p nothing out (rescued env outer panics to_do within _ _ _) =
      absurd (cc (sym out ∙ within))
  done-Tallied todo inside c r e p nothing out (finishes panics to_do _ at_most) =
      (refl, refl, at_most)

  pub Tally-IsDone :
      (ts : List (Thread S)) (requests errors panics : ℕ)
      → Tally ts requests errors panics
      → All IsDone ts
      → (requests ≡ length ts) × (errors ≡ number_bad (statuses ts)) × (panics ≤ errors)
  Tally-IsDone [] requests errors panics (r, e, p) done = (r, e, omega arith)
  Tally-IsDone (t ∷ ts) requests errors panics (r, e, p, rs, es, ps, one, rest, rq, eq, pq)
        ((nothing, out), done) =
      let (r1, e1, p1) = done-Tallied t.todo t.inside t.ctx r e p nothing out one in
      let (rl, el, pl) = Tally-IsDone ts rs es ps rest done in
      (
        omega arith,
        rw eq (ap (λ n. n + es) e1 ∙ ap (λ n. bad t.ctx.response.status + n) el),
        omega arith,
      )
