-- ===== src/Mid/Errors/Laws.antt =====
-- What internal/mid/errors.go tells a client.
use jumble.Shared.{
  nat_eq, Bool-cases, ℕ, String, false, ◌≡◌, ◌≢◌, ◌⊎◌, refl, ap, sym, Option, none, some, List, [],
  ◌∷◌, ◌++◌, inl, inr, Option-cases, arith,
}
use mathlib.Core.Path.{subst}
use jumble.Logger.{Arg, text, other}
use jumble.Go.Error
use jumble.Go.Error.{Error, AppError, as_app_error, as_validation}
use jumble.Mid.Errors.{
  ErrorBody, app_error, error_text, respond, body_of, app_body, validation_body, last, logged,
  logged_of,
}

-- The message that a client sees.
abbrev pub message_of : ErrorBody → String
message_of (app_error code message fields) = message
message_of (error_text m) = m

last-snoc : (e d : Error) (es : List Error) → last d (es ++ (e ∷ [])) ≡ e
unfolding last
last-snoc e d [] = refl
last-snoc e d (f ∷ es) = last-snoc e f es

respond-snoc :
    (translate : String → String → String) (es : List Error) (e : Error)
    → respond translate false (es ++ (e ∷ [])) ≡ some (body_of translate e)
unfolding respond last
respond-snoc translate [] e = refl
respond-snoc translate (f ∷ es) e = ap (λ x. some (body_of translate x)) (last-snoc e f es)

-- An application's error keeps its code, and its message unless the code is 500.
abbrev pub Tells : AppError → ℕ × ErrorBody → Type 0
Tells a r =
    (r.0 ≡ a.code)
    × (((a.code ≡ 500) × (message_of r.1 ≡ "Internal Server Error"))
        ⊎ ((a.code ≢ 500) × (message_of r.1 ≡ a.message)))

-- The response to each kind of error.
abbrev pub Answers : Error → ℕ × ErrorBody → Type 0
Answers e r =
    ((a : AppError) × (as_app_error e ≡ some a) × Tells a r)
    ⊎ (((fields : List (String × String)) × (as_app_error e ≡ none)
          × (as_validation e ≡ some fields)
          × (r.0 ≡ 400)
          × (message_of r.1 ≡ "validation failed"))
        ⊎ ((as_app_error e ≡ none)
            × (as_validation e ≡ none)
            × (r.0 ≡ 500)
            × (message_of r.1 ≡ "Internal Server Error")))

app_body-Tells : (a : AppError) → Tells a (app_body a)
unfolding app_body
app_body-Tells a = elim (Bool-cases (nat_eq a.code 500)) [
  | inl e ↦ rw e (refl, inl (ground arith, refl))
  | inr e ↦ rw e (refl, inr (ground arith, refl))
]

body_of-Answers :
    (translate : String → String → String) (e : Error) → Answers e (body_of translate e)
unfolding body_of validation_body
body_of-Answers translate e = elim (Option-cases (as_app_error e)) [
  | inr (a, h) ↦ rw (body_of, h) (inl (a, refl, app_body-Tells a))
  | inl h ↦ elim (Option-cases (as_validation e)) [
    | inr (fields, v) ↦ rw (body_of, h, v) (inr (inl (fields, refl, refl, refl, refl)))
    | inl v ↦ rw (body_of, h, v) (inr (inr (refl, refl, refl, refl)))
  ]
]

-- The line that is logged shows the error's text; a failed validation is not logged.
abbrev pub Shows : Error → Option (String × List Arg) → Type 0
Shows e line =
    ((fields : List (String × String)) × (as_app_error e ≡ none)
      × (as_validation e ≡ some fields)
      × (line ≡ none))
    ⊎ ((message : String) × (key : String) × (rest : List Arg) × (line
          ≡ some (message, text key ∷ other (Error.text e) ∷ rest)))

logged_of-Shows : (e : Error) → Shows e (logged_of e)
unfolding logged_of
logged_of-Shows e = elim (Option-cases (as_app_error e)) [
  | inr (a, h) ↦ rw (logged_of, h) (inr (_, _, _, refl))
  | inl h ↦ elim (Option-cases (as_validation e)) [
    | inr (fields, v) ↦ rw (logged_of, h, v) (inl (fields, refl, refl, refl))
    | inl v ↦ rw (logged_of, h, v) (inr (_, _, _, refl))
  ]
]

logged-snoc : (es : List Error) (e : Error) → logged false (es ++ (e ∷ [])) ≡ logged_of e
unfolding logged last
logged-snoc [] e = refl
logged-snoc (f ∷ es) e = ap logged_of (last-snoc e f es)

-- When nothing is written yet, the last recorded error decides the response: an errs.Error keeps
-- its code and message, a failed validation has 400 and any other error 500; the message of a
-- response with 500 is always "Internal Server Error". The log shows the text of every error but a
-- failed validation.
pub respond_lem :
    (translate : String → String → String) (es : List Error) (e : Error)
    → (r : ℕ × ErrorBody) × (respond translate false (es ++ (e ∷ [])) ≡ some r)
      × Answers e r
      × Shows e (logged false (es ++ (e ∷ [])))
respond_lem translate es e = (
  body_of translate e,
  respond-snoc translate es e,
  body_of-Answers translate e,
  subst (Shows e) (sym (logged-snoc es e)) (logged_of-Shows e),
)
