-- ===== src/Handler/Binding.antt =====
-- The `binding` tags of internal/domains/user/handler/models.go and filters.go, as the validator
-- documents them: every field is checked, and a field reports the first of its tags that fails.
-- Decoding the JSON or the query is a parameter.
pub mod Laws
use Prim.Native.String.{count}
use jumble.Shared.{
  ℕ, suc, String, Bool, true, false, not, ◌&&◌, Option, none, some, List, [], ◌∷◌, ◌++◌, leb, ltb,
  length, contains, ◌==◌, if◌then◌else◌,
}
use jumble.Go.Error.{Error, Result, ok, err, validation, ◌>>=◌}
use jumble.Go.Text.{◌^^◌}
use jumble.Go.Int.{pos, decimal}
use jumble.Bus.Services.{Services}
use jumble.Handler.Models.{
  NewUser, UpdateUser, UpdateUserRoles, Authenticate, Call, returns, panics,
}
use jumble.Handler.Filters.{Filters}

-- encoding/json and gin's query decoding, and the validator's test for an email.
pub record Wire : Type 0 where
  pub decode_new_user : String → Result NewUser
  pub decode_update_user : String → Result UpdateUser
  pub decode_update_user_roles : String → Result UpdateUserRoles
  pub decode_authenticate : String → Result Authenticate
  pub decode_filters : String → Result Filters
  pub is_email : String → Bool

-- A tag with the answer of its test.
abbrev pub Rule : Type 0
Rule = Bool × String

abbrev pub Problems : Type 0
Problems = List (String × String)

-- The first failing tag of a field.
abbrev pub field : String → List Rule → Problems
field name [] = []
field name ((passed, tag) ∷ rules) =
    let rest = field name rules in if passed then rest else (name, tag) ∷ []

-- `omitempty` on a pointer
abbrev pub optional : String → (String → List Rule) → Option String → Problems
optional name rules none = []
optional name rules (some s) = field name (rules s)

abbrev pub required : String → Rule
required s = (not (s == ""), "required")

abbrev pub min_length : ℕ → String → Rule
min_length n s = (leb n (count s), "min")

abbrev pub max_length : ℕ → String → Rule
max_length n s = (leb (count s) n, "max")

abbrev pub one_of : List String → String → Rule
one_of values s = (contains values s, "oneof")

abbrev pub role_names : List String
role_names = "admin" ∷ "user" ∷ []

-- `dive,required,oneof=admin user`, from the element with this index
abbrev pub each_role : ℕ → List String → Problems
each_role i [] = []
each_role i (r ∷ rs) =
    field ("roles[" ^^ (decimal (pos i) ^^ "]")) (required r ∷ one_of role_names r ∷ [])
    ++ each_role (suc i) rs

-- `gt=0,dive,…`
abbrev pub roles_field : List String → Problems
roles_field [] = ("roles", "gt") ∷ []
roles_field (r ∷ rs) = each_role 0 (r ∷ rs)

abbrev pub departments : List String
departments = "sales" ∷ "shipping" ∷ "marketing" ∷ []

abbrev pub password_rules : String → List Rule
password_rules s = min_length 8 s ∷ max_length 128 s ∷ []

-- `eqfield=Password` against a pointer that may be nil
abbrev pub same_as : Option String → String → Rule
same_as none s = (false, "eqfield")
same_as (some p) s = (p == s, "eqfield")

-- `dive,oneof=user admin`; a field with no json tag is reported by its Go name
abbrev pub each_filter_role : ℕ → List String → Problems
each_filter_role i [] = []
each_filter_role i (r ∷ rs) =
    field ("Roles[" ^^ (decimal (pos i) ^^ "]")) (one_of role_names r ∷ [])
    ++ each_filter_role (suc i) rs

abbrev pub validated {ℓ} : {A : Type ℓ} → Problems → A → Result A
validated [] a = ok a
validated (p ∷ ps) a = err (validation (p ∷ ps))

module _ (wire : Wire) where
  abbrev pub email_rule : String → Rule
  email_rule s = (wire.is_email s, "email")

  abbrev pub new_user_problems : NewUser → Problems
  new_user_problems nu =
      field "name" (required nu.name ∷ min_length 4 nu.name ∷ [])
      ++ (field "email" (required nu.email ∷ email_rule nu.email ∷ [])
          ++ (roles_field nu.roles
              ++ (field "department"
                    (required nu.department ∷ one_of departments nu.department ∷ [])
                  ++ (field "password" (required nu.password ∷ password_rules nu.password)
                      ++ field "passwordConfirm" (
                          required nu.password_confirm
                          ∷ same_as (some nu.password) nu.password_confirm
                          ∷ [])))))

  abbrev pub update_user_problems : UpdateUser → Problems
  update_user_problems uu =
      optional "name" (λ s. min_length 4 s ∷ []) uu.name
      ++ (optional "email" (λ s. email_rule s ∷ []) uu.email
          ++ (optional "department" (λ s. one_of departments s ∷ []) uu.department
              ++ (optional "password" password_rules uu.password
                  ++ optional "passwordConfirm" (λ s. same_as uu.password s ∷ [])
                      uu.password_confirm)))

  abbrev pub authenticate_problems : Authenticate → Problems
  authenticate_problems a =
      field "email" (required a.email ∷ email_rule a.email ∷ [])
      ++ (field "password" (required a.password ∷ password_rules a.password)
          ++ field "passwordConfirm"
              (required a.password_confirm ∷ same_as (some a.password) a.password_confirm ∷ []))

  -- c.ShouldBindJSON(&nu)
  unfoldable pub bind_new_user : String → Result NewUser
  bind_new_user body = do nu ← wire.decode_new_user body; validated (new_user_problems nu) nu

  unfoldable pub bind_update_user : String → Result UpdateUser
  bind_update_user body = do
    uu ← wire.decode_update_user body
    validated (update_user_problems uu) uu

  unfoldable pub bind_authenticate : String → Result Authenticate
  bind_authenticate body = do
    a ← wire.decode_authenticate body
    validated (authenticate_problems a) a

  -- `required,oneof=user admin` on a slice: without `dive` the validator's oneof panics on the
  -- field's type.
  roles_tag : UpdateUserRoles → Option (List String) → Call UpdateUserRoles
  roles_tag ur none = returns (err (validation (("roles", "required") ∷ [])))
  roles_tag ur (some roles) = panics "Bad field type []string"

  decoded_roles : Result UpdateUserRoles → Call UpdateUserRoles
  decoded_roles (err e) = returns (err e)
  decoded_roles (ok ur) = roles_tag ur ur.roles

  unfoldable pub bind_update_user_roles : String → Call UpdateUserRoles
  unfolding decoded_roles roles_tag
  bind_update_user_roles body = decoded_roles (wire.decode_update_user_roles body)

  module _ (lib : Services) where
    -- `datetime` with the layout of time.RFC3339
    abbrev pub datetime : String → Rule
    datetime s = (elim (lib.parse_rfc3339 s) [ ok t ↦ true | err e ↦ false ], "datetime")

    abbrev pub filters_problems : Filters → Problems
    filters_problems f =
        optional "Name" (λ s. min_length 4 s ∷ max_length 120 s ∷ []) f.name
        ++ (optional "Department" (λ s. one_of ("sales" ∷ "marketing" ∷ []) s ∷ []) f.department
            ++ (each_filter_role 0 f.roles
                ++ (optional "StartCreatedAt" (λ s. datetime s ∷ []) f.start_created_at
                    ++ optional "EndCreatedAt" (λ s. datetime s ∷ []) f.end_created_at)))

    -- c.ShouldBindQuery(&filters)
    unfoldable pub bind_filters : String → Result Filters
    bind_filters query = do f ← wire.decode_filters query; validated (filters_problems f) f
