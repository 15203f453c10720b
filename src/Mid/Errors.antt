-- ===== src/Mid/Errors.antt =====
-- internal/mid/errors.go: the response to the errors that handlers recorded.
pub mod Laws
use jumble.Shared.{
  ℕ, String, Bool, true, false, Option, none, some, List, [], ◌∷◌, nat_eq, insert, ◌==◌,
  if◌then◌else◌,
}
use jumble.Go.Error
use jumble.Go.Text.{split}
use jumble.Logger.{Arg, text, other}
use jumble.Go.Error.{Error, AppError, as_app_error, as_validation}

-- The JSON that is written: an `errs.Error`, whose frame is not part of it, or gin.H{"error": …}.
pub data ErrorBody : Type 0 where
  app_error : (code : ℕ) (message : String) (fields : List (String × String)) → ErrorBody
  error_text : String → ErrorBody

-- The name that the validator reports for a field, from its json tag: strings.SplitN(tag, ",",
-- 2)[0], and none for "-".
unfoldable pub tag_name : String → String
tag_name tag = let name = before_comma (split b',' tag) in if name == "-" then "" else name
  where
    before_comma : List String → String
    before_comma [] = ""
    before_comma (name ∷ names) = name

-- c.Errors.Last()
last : Error → List Error → Error
last e [] = e
last e (f ∷ fs) = last f fs

-- fieldErrs, a map; `translate` is the validator's translation of a field's tag
abbrev pub field_errors :
    (String → String → String)
    → List (String × String)
    → List (String × String)
    → List (String × String)
field_errors translate [] m = m
field_errors translate ((f, tag) ∷ es) m = field_errors translate es (insert f (translate f tag) m)

app_body : AppError → ℕ × ErrorBody
app_body a =
    let message = if nat_eq a.code 500 then "Internal Server Error" else a.message in
    (a.code, app_error a.code message a.fields)

validation_body : (String → String → String) → List (String × String) → ℕ × ErrorBody
validation_body translate es =
    (400, app_error 400 "validation failed" (field_errors translate es []))

-- The switch over the kinds of errors.
body_of : (String → String → String) → Error → ℕ × ErrorBody
body_of translate e = elim (as_app_error e) [
  | some a ↦ app_body a
  | none ↦ elim (as_validation e) [
    | some es ↦ validation_body translate es
    | none ↦ (500, error_text "Internal Server Error")
  ]
]

-- What is logged of an error: nothing of a validation error.
unfoldable pub logged_of : Error → Option (String × List Arg)
logged_of e = elim (as_app_error e) [
  | some a ↦ some (
    "error while handling request",
    text "err"
        ∷ other (Error.text e)
        ∷ text "fileName"
        ∷ text a.file_name
        ∷ text "funcName"
        ∷ text a.func_name
        ∷ [],
  )
  | none ↦ elim (as_validation e) [
    | some es ↦ none
    | none ↦ some ("unknown error", text "error" ∷ other (Error.text e) ∷ [])
  ]
]

-- The code and the body that are written after the handlers ran; `none` leaves the response alone.
unfoldable pub respond : (String → String → String) → Bool → List Error → Option (ℕ × ErrorBody)
unfolding body_of app_body validation_body last
respond translate true errors = none
respond translate false [] = none
respond translate false (e ∷ es) = some (body_of translate (last e es))

-- The line of the log that goes with it.
unfoldable pub logged : Bool → List Error → Option (String × List Arg)
unfolding logged_of last
logged true errors = none
logged false [] = none
logged false (e ∷ es) = logged_of (last e es)
