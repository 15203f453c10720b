-- ===== src/Bus/Roles/Laws.antt =====
-- The valid roles of internal/domains/user/bus/roles.go and their names.
use jumble.Shared.{
  map, ap, String, ◌≡◌, ◌⊎◌, ◌↔◌, refl, List, [], ◌∷◌, All, arith, eq_iff, inl, inr,
}
use mathlib.Core.Path.{subst}
use jumble.Go.Error.{ok-injective, Result, ok, >>=-eq-ok}
use jumble.Bus.Roles.{Role, role_admin, role_user, parse_role, roles_to_string, parse_many_roles}

-- The two roles of the package.
abbrev pub IsRole : Role → Type 0
IsRole r = (r ≡ role_admin) ⊎ (r ≡ role_user)

pub parse_role-value : (r : Role) → IsRole r → parse_role r.value ≡ ok r
unfolding parse_role
parse_role-value r (inl e) = rw e
parse_role-value r (inr e) = rw e

pub parse_role_sound :
    (val : String) (r : Role) → parse_role val ≡ ok r → IsRole r × (r.value ≡ val)
unfolding parse_role
parse_role_sound val r h = ground (arith, eq_iff "admin" val, eq_iff "user" val)

ok_cases :
    (roles found : List Role) {names : List String}
    → ◌≡◌ {A = Result (List Role)} (ok found) (ok roles)
    → All IsRole found × (roles_to_string found ≡ names)
    → All IsRole roles × (roles_to_string roles ≡ names)
ok_cases roles found {names} e h =
    subst (λ x. All IsRole x × (roles_to_string x ≡ names)) (ok-injective e) h

parse_many_roles_sound :
    (names : List String) (roles : List Role)
    → parse_many_roles names ≡ ok roles
    → All IsRole roles × (roles_to_string roles ≡ names)
unfolding parse_many_roles roles_to_string
parse_many_roles_sound [] roles h = ok_cases roles [] h (tt, refl)
parse_many_roles_sound (name ∷ names) roles h =
    let (r, hr, h') = >>=-eq-ok _ _ h in
    let (rs, hrs, e) = >>=-eq-ok _ _ h' in
    let (valid, same) = parse_role_sound name r hr in
    let (valids, sames) = parse_many_roles_sound names rs hrs in
    ok_cases roles (r ∷ rs) e ((valid, valids), cc)

parse_many_roles_complete :
    (roles : List Role) → All IsRole roles → parse_many_roles (roles_to_string roles) ≡ ok roles
unfolding parse_many_roles roles_to_string
parse_many_roles_complete [] h = refl
parse_many_roles_complete (r ∷ roles) (p, h) =
    rw (parse_role-value r p) (rw (parse_many_roles_complete roles h))

-- The names of roles.
abbrev pub names : List Role → List String
names = map (λ (r : Role). r.value)

pub roles_to_string-eq-names : (roles : List Role) → roles_to_string roles ≡ names roles
unfolding roles_to_string
roles_to_string-eq-names [] = refl
roles_to_string-eq-names (r ∷ roles) = ap (λ rs. r.value ∷ rs) (roles_to_string-eq-names roles)

-- Parsing names gives the roles exactly when these are valid roles with those names, in order.
pub parse_many_roles_iff :
    (names : List String) (roles : List Role)
    → (parse_many_roles names ≡ ok roles) ↔ (All IsRole roles × (roles_to_string roles ≡ names))
parse_many_roles_iff names roles =
    (parse_many_roles_sound names roles, λ h. rw (← h.1) (parse_many_roles_complete roles h.0))
