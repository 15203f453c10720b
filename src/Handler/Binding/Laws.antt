-- ===== src/Handler/Binding/Laws.antt =====
-- What a body that CreateUser binds satisfies, after the `binding` tags of
-- internal/domains/user/handler/models.go.
use Prim.Native.String.{count}
use jumble.Shared.{
  ℕ, suc, ◌≤◌, String, true, false, ◌≡◌, ◌≢◌, ◌⊎◌, refl, sym, some, leb, List, [], ◌∷◌, ◌++◌, All,
  contains, arith, eq_iff, Bool-cases, inl, inr, ◌==◌,
}
use jumble.Go.Error.{ok, err, >>=-eq-ok, ok-injective, wrap, Error, Result-cases}
use jumble.Bus.Roles.{Role, role_admin, role_user, parse_many_roles, parse_role}
use mathlib.Core.Path.{subst}
use jumble.Bus.Roles.Laws.{IsRole, parse_role-value}
use jumble.Bus.Models
use jumble.Bus.Services.{Services}
use jumble.Handler.Models.{NewUser, to_bus_new_user}
use jumble.Handler.Binding.{
  Wire, Rule, Problems, field, required, one_of, role_names, each_role, roles_field, departments,
  validated, new_user_problems, bind_new_user, min_length, same_as, email_rule, password_rules,
}

field-eq-nil :
    (name : String) (rules : List Rule) → field name rules ≡ [] → All (λ r. r.0 ≡ true) rules
field-eq-nil name [] h = tt
field-eq-nil name ((true, tag) ∷ rules) h = (refl, field-eq-nil name rules h)
field-eq-nil name ((false, tag) ∷ rules) h = absurd (cc h)

append-eq-nil : (ps qs : Problems) → (ps ++ qs) ≡ [] → (ps ≡ []) × (qs ≡ [])
append-eq-nil [] qs h = (refl, h)
append-eq-nil (p ∷ ps) qs h = absurd (cc h)

validated-eq-ok :
    {A : Type 0} (ps : Problems) (a b : A) → validated ps a ≡ ok b → (ps ≡ []) × (a ≡ b)
validated-eq-ok [] a b h = (refl, ok-injective h)
validated-eq-ok (p ∷ ps) a b h = absurd (cc h)

role_name : (r : String) → contains role_names r ≡ true → (x : Role) × (parse_role r ≡ ok x)
role_name r h = elim (Bool-cases ("admin" == r)) [
  | inl e ↦ (role_admin, named role_admin r ((eq_iff "admin" r).0 e) (inl refl))
  | inr other ↦ (role_user, named role_user r ((eq_iff "user" r).0 (ground arith)) (inr refl))
]
  where
    named : (x : Role) (s : String) → x.value ≡ s → IsRole x → parse_role s ≡ ok x
    named x s e valid = subst (λ t. parse_role t ≡ ok x) e (parse_role-value x valid)

roles_parse :
    (i : ℕ) (roles : List String)
    → each_role i roles ≡ []
    → (rs : List Role) × (parse_many_roles roles ≡ ok rs)
unfolding parse_many_roles
roles_parse i [] h = ([], refl)
roles_parse i (r ∷ roles) h =
    let (here, there) = append-eq-nil (field _ (required r ∷ one_of role_names r ∷ [])) _ h in
    let (_, (known, _)) = field-eq-nil _ (required r ∷ one_of role_names r ∷ []) here in
    let (x, ex) = role_name r known in
    let (xs, exs) = roles_parse (suc i) roles there in (x ∷ xs, rw (ex, exs) refl)

at_least : (n m : ℕ) → leb n m ≡ true → n ≤ m
at_least n m h = ground arith

-- What the tags of a new user say, in the numbers of code points.
abbrev pub IsValid : Wire → NewUser → Type 0
IsValid wire nu =
    (4 ≤ count nu.name)
    × (wire.is_email nu.email ≡ true)
    × (contains departments nu.department ≡ true)
    × (8 ≤ count nu.password)
    × (count nu.password ≤ 128)
    × (nu.password_confirm ≡ nu.password)
    × (nu.roles ≢ [])
    × ((rs : List Role) × (parse_many_roles nu.roles ≡ ok rs))

roles_field-eq-nil :
    (roles : List String)
    → roles_field roles ≡ []
    → (roles ≢ []) × ((rs : List Role) × (parse_many_roles roles ≡ ok rs))
roles_field-eq-nil [] h = absurd (cc h)
roles_field-eq-nil (r ∷ rs) h = (λ e. absurd (cc e), roles_parse 0 (r ∷ rs) h)

problems-IsValid : (wire : Wire) (nu : NewUser) → new_user_problems wire nu ≡ [] → IsValid wire nu
problems-IsValid wire nu h =
    let name_rules : List Rule = required nu.name ∷ min_length 4 nu.name ∷ [] in
    let email_rules : List Rule = required nu.email ∷ email_rule wire nu.email ∷ [] in
    let department_rules : List Rule =
      required nu.department ∷ one_of departments nu.department ∷ [] in
    let all_password_rules : List Rule = required nu.password ∷ password_rules nu.password in
    let confirm_rules : List Rule =
      required nu.password_confirm ∷ same_as (some nu.password) nu.password_confirm ∷ [] in
    let (hn, h1) = append-eq-nil (field "name" name_rules) _ h in
    let (he, h2) = append-eq-nil (field "email" email_rules) _ h1 in
    let (hr, h3) = append-eq-nil (roles_field nu.roles) _ h2 in
    let (hd, h4) = append-eq-nil (field "department" department_rules) _ h3 in
    let (hp, hc) = append-eq-nil (field "password" all_password_rules) _ h4 in
    let (_, (name, _)) = field-eq-nil "name" name_rules hn in
    let (_, (email, _)) = field-eq-nil "email" email_rules he in
    let (_, (department, _)) = field-eq-nil "department" department_rules hd in
    let (_, (low, (high, _))) = field-eq-nil "password" all_password_rules hp in
    let (_, (same, _)) = field-eq-nil "passwordConfirm" confirm_rules hc in
    let (some_role, parsed) = roles_field-eq-nil nu.roles hr in
    (
      at_least 4 _ name,
      email,
      department,
      at_least 8 _ low,
      at_least _ 128 high,
      sym ((eq_iff nu.password nu.password_confirm).0 same),
      some_role,
      parsed,
    )

-- The conversion to the domain's user succeeds, or the address does not parse.
abbrev pub Converts : Services → NewUser → Type 0
Converts lib nu =
    ((bu : Models.NewUser) × (to_bus_new_user lib nu ≡ ok bu))
    ⊎ ((w : Error) × (lib.parse_address nu.email ≡ err w)
        × (to_bus_new_user lib nu ≡ err (wrap "parseAddress" w)))

converted :
    (lib : Services) (nu : NewUser) (rs : List Role)
    → parse_many_roles nu.roles ≡ ok rs
    → Converts lib nu
unfolding to_bus_new_user
converted lib nu rs parsed = elim (Result-cases (lib.parse_address nu.email)) [
  | inl (a, p) ↦ rw (parsed, p) (inl (_, refl))
  | inr (w, p) ↦ rw (parsed, p) (inr (w, refl, refl))
]

-- A body that CreateUser binds has a name of at least 4 code points, an email, a department of the
-- list, a password of 8 to 128 code points with its confirmation, and at least one role; its roles
-- all parse, so the conversion to the domain's user fails only when its address does not parse.
pub bind_new_user-IsValid :
    (wire : Wire) (lib : Services) (body : String) (nu : NewUser)
    → bind_new_user wire body ≡ ok nu
    → IsValid wire nu × Converts lib nu
unfolding bind_new_user
bind_new_user-IsValid wire lib body nu h =
    let (x, _, checked) = >>=-eq-ok (wire.decode_new_user body) _ h in
    let (none_left, same) = validated-eq-ok (new_user_problems wire x) x nu checked in
    let valid = subst (IsValid wire) same (problems-IsValid wire x none_left) in
    let (_, _, _, _, _, _, _, (rs, parsed)) = valid in (valid, converted lib nu rs parsed)
