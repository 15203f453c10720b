-- ===== src/Service/Machine/Marks.antt =====
-- What the handlers of a request make of its answer, each call for itself.
use jumble.Shared.{
  String, Bool, false, Option, none, some, List, [], ◌∷◌, ◌≡◌, refl, sym, ◌⊎◌, inl, inr, leb,
  Bool-cases,
}
use mathlib.Core.Path.{subst}
use jumble.Go.Error.{Error}
use jumble.Logger.{Arg}
use jumble.Handler.Reply.{Outcome, json, status, failed, panicked, Request}
use jumble.Service.Gin.{body, error, Ctx, Handler, Response, Span, leave, Gin, IsGin}
use jumble.Service.Stack.{Env, telemetry, logger, metrics, panics, settled, recovered, end_span}
use jumble.Service.Stack.Served.{answers}
use jumble.Service.Machine.Tally.{left-panics}

-- What an endpoint reads of a context and leaves in it, apart from the store.
pub record Mark : Type 0 where
  pub request : Request
  pub response : Response
  pub errors : List Error
  pub panic : Option Arg
  pub aborted : Bool

abbrev pub mark : {S : Type 0} → Ctx S → Mark
mark c = record {
  request = record c.asked { user_key = c.keys.user };
  response = c.response;
  errors = c.errors;
  panic = c.panic;
  aborted = c.aborted;
}

abbrev pub is_new : Response
is_new = record { status = 200; bodies = [] }

-- An endpoint that is called for this request finds nothing written yet.
abbrev pub IsOpen : Request → Mark → Type 0
IsOpen r k =
    (k.request ≡ r)
    × (k.response ≡ is_new)
    × (k.errors ≡ [])
    × (k.panic ≡ none)
    × (k.aborted ≡ false)

abbrev pub IsAnswer : Outcome → Mark → Type 0
IsAnswer o k = (k.panic ≡ none) × (k.response ≡ (answers o).0) × (k.errors ≡ (answers o).1)

-- After its calls: it answered, or its panic is under way.
abbrev pub HasOutcome : Outcome → Mark → Type 0
HasOutcome o k =
    IsAnswer o k
    ⊎ ((m : String) × (o ≡ panicked m)
        × (k.panic ≡ some (recovered m))
        × (k.response ≡ is_new)
        × (k.errors ≡ []))

module _ {S : Type 0} where
  -- A handler that leaves a chain without a panic as it is.
  abbrev pub Rests : Handler S → Type 0
  Rests h = (c : Ctx S) → c.panic ≡ none → mark (leave h c) ≡ mark c

  abbrev pub Plain : Handler S → Type 0
  Plain h = ((c : Ctx S) → mark (h.before c) ≡ mark c) × Rests h

module _ {S : Type 0} (gin : Gin S) (gin_laws : IsGin gin) (env : Env) where
  end_span-mark : (c : Ctx S) (spans : List Span) → mark (end_span gin env c spans) ≡ mark c
  end_span-mark c [] = refl
  end_span-mark c (span ∷ spans) = refl

  pub telemetry-Plain : Plain (telemetry gin env)
  telemetry-Plain = (λ c. refl, λ c calm. rw (leave, calm) (end_span-mark _ _))

  pub logger-Plain : Plain (logger gin env)
  logger-Plain = (λ c. refl, λ c calm. rw (leave, calm) refl)

  pub metrics-Plain : Plain (metrics gin env)
  metrics-Plain = (
    λ c. refl,
    λ c calm. elim (Bool-cases (leb 400 c.response.status)) [
      | inl bad ↦ rw (leave, calm, bad) refl
      | inr good ↦ rw (leave, calm, good) refl
    ],
  )

  pub settled-HasOutcome :
      (r : Request) (o : Outcome) (c : Ctx S)
      → IsOpen r (mark c)
      → HasOutcome o (mark (settled gin env o c))
  settled-HasOutcome r (json code b) c (_, new, none_yet, calm, _) =
      inl (calm, rw new (gin_laws.json_first code (body b) 200), none_yet)
  settled-HasOutcome r (status code) c (_, new, none_yet, calm, _) =
      inl (calm, rw new (gin_laws.set_status_first code 200), none_yet)
  settled-HasOutcome r (failed e) c (_, new, none_yet, calm, _) = inl (calm, new, rw none_yet refl)
  settled-HasOutcome r (panicked m) c (_, new, none_yet, calm, _) =
      inr (m, refl, refl, new, none_yet)

  -- Panic answers for an endpoint that panicked.
  pub panics-IsAnswer :
      (o : Outcome) (c : Ctx S)
      → HasOutcome o (mark c)
      → IsAnswer o (mark (leave (panics gin env) c))
  panics-IsAnswer o c (inl (calm, response, errors)) =
      subst (λ d. IsAnswer o (mark d)) (sym (left-panics gin env c calm)) (calm, response, errors)
  panics-IsAnswer o c (inr (m, is, panicking, new, none_yet)) =
      rw (leave, panicking, is, new)
        (refl, gin_laws.json_first 500 (error "Internal Server Error") 200, none_yet)
