-- ===== src/Service/Machine/Growth.antt =====
-- What overlapping requests make of the stored users.
use jumble.Shared.{
  none, List, [], ◌∷◌, ◌≡◌, ◌∙◌, refl, ap, ◌⊎◌, inl, inr, All, Bool-cases, if◌then◌else◌,
}
use jumble.Service.Gin.{Ctx, Handler, stopped, leave, is_panicking}
use jumble.Service.Machine.{Thread, thread, next}

module _ {S : Type 0} where
  -- What is before c.Next(), and what is behind it, leaves the store alone.
  abbrev pub Keeps : Handler S → Type 0
  Keeps h = (c : Ctx S) → (h.before c).store ≡ c.store

  abbrev pub Ends : Handler S → Type 0
  Ends h = (c : Ctx S) → (leave h c).store ≡ c.store

  abbrev pub Passes : Handler S → Type 0
  Passes h = Keeps h × ((c : Ctx S) → (h.before c).keys.user ≡ c.keys.user)

  pub leave-Ends :
      (h : Handler S)
      → ((c : Ctx S) → (h.after c).store ≡ c.store)
      → ((c : Ctx S) → (h.deferred c).store ≡ c.store)
      → Ends h
  leave-Ends h after deferred d = elim (Bool-cases (is_panicking d.panic)) [
    | inl panicking ↦ deferred _ ∙ ap (λ b. (if b then d else h.after d).store) panicking
    | inr calm ↦ deferred _ ∙ ap (λ b. (if b then d else h.after d).store) calm ∙ after d
  ]

  module _ (Grown : S → S → Type 0) (IsUp : S → Type 0) where
    -- An endpoint of an anonymous request.
    abbrev pub Grows : Handler S → Type 0
    Grows h = (c : Ctx S) → c.keys.user ≡ none → IsUp c.store → Grown c.store (h.before c).store

    -- The chain of a request before its endpoint.
    abbrev pub IsSafe : List (Handler S) → Type 0
    IsSafe [] = Unit
    IsSafe (h ∷ hs) = (Passes h × IsSafe hs) ⊎ (Grows h × All Keeps hs)

    abbrev pub IsCareful : Thread S → Type 0
    IsCareful t =
        All Ends t.todo
        × All Ends t.inside
        × (All Keeps t.todo ⊎ (IsSafe t.todo × (t.ctx.keys.user ≡ none)))

    pub next-IsCareful :
        ((s t : S) → t ≡ s → IsUp s → Grown s t)
        → (todo inside : List (Handler S)) (c : Ctx S) → IsUp c.store
        → IsCareful (thread todo inside c)
        → Grown c.store (next todo inside c).ctx.store × IsCareful (next todo inside c)
    next-IsCareful same [] [] c up careful = (same _ _ refl up, careful)
    next-IsCareful same [] (h ∷ inside) c up (_, (end, ends), stage) =
        (same _ _ (end c) up, (tt, ends, inl tt))
    next-IsCareful same (h ∷ hs) inside c up ((end, ends), around, stage) =
        elim (Bool-cases (stopped c)) [
          | inl halted ↦ rw halted (same _ _ refl up, (tt, around, inl tt))
          | inr running ↦ rw running (elim stage [
            | inl (keep, rest) ↦ (same _ _ (keep c) up, (ends, (end, around), inl rest))
            | inr (inl ((keep, pass), rest), anonymous) ↦
                (same _ _ (keep c) up, (ends, (end, around), inr (rest, pass c ∙ anonymous)))
            | inr (inr (grow, rest), anonymous) ↦
                (grow c anonymous up, (ends, (end, around), inl rest))
          ])
        ]
