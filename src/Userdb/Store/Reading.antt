-- ===== src/Userdb/Store/Reading.antt =====
-- Lemmas on reading a row back in internal/domains/user/store/userdb/userdb.go, after what INSERT
-- and UPDATE wrote.
use mathlib.Core.Option
use mathlib.Core.Option.{some-injective}
use mathlib.Core.Path.{subst}
use jumble.Shared.{
  String, ◌≡◌, refl, sym, ap, ◌∙◌, not, Option, none, some, List, All, arith, ◌==◌, eq_iff,
}
use jumble.Go.Error.{Result, ok, err}
use jumble.Bus.Roles.{Role, scan, value}
use jumble.Bus.Roles.Laws.{IsRole}
use jumble.Bus.Roles.ArrayText.{scan-value}
use jumble.Bus.Models
use jumble.Bus.Models.{truncate_microsecond}
use jumble.Bus.Contract.{stored, replaced, found}
use jumble.Userdb.Models.{User, from_bus_user, to_user_bus}
use jumble.Userdb.Database.{Row}
use jumble.Userdb.Postgres.{column_of, nullable, inserted, updated, row_list}
use jumble.Userdb.Store.{struct_scan, null_string, first_user}

-- The user that a row holds, if its roles can be read.
abbrev pub seen : Result User → Option Models.User
seen (ok u) = some (to_user_bus u)
seen (err e) = none

abbrev pub view : Option Row → Option Models.User
view none = none
view (some r) = seen (struct_scan (ok r))

abbrev pub IsReadable : Row → Type 0
IsReadable r = (roles : List Role) × (scan r.roles ≡ ok roles)

abbrev scanned : Row → List Role → User
scanned r roles = record {
  id = r.id;
  name = r.name;
  email = r.email;
  roles = roles;
  password_hash = r.password_hash;
  department = null_string r.department;
  enabled = r.enabled;
  created_at = r.created_at;
  updated_at = r.updated_at;
}

struct_scan_of_IsReadable :
    (r : Row) (roles : List Role)
    → scan r.roles ≡ ok roles
    → struct_scan (ok r) ≡ ok (scanned r roles)
unfolding struct_scan
struct_scan_of_IsReadable r roles h = rw h

pub view_of_IsReadable :
    (r : Row) (roles : List Role)
    → scan r.roles ≡ ok roles
    → view (some r) ≡ some (to_user_bus (scanned r roles))
view_of_IsReadable r roles h = ap seen (struct_scan_of_IsReadable r roles h)

pub first_user-view :
    (o : Option Row)
    → ((r : Row) → o ≡ some r → IsReadable r)
    → first_user (row_list o) ≡ found (view o)
unfolding first_user
first_user-view none h = refl
first_user-view (some r) h = let (roles, e) = h r refl in rw (struct_scan_of_IsReadable r roles e)

-- The fields that identify a row are those of the user that it holds.
pub view_fields :
    (r : Row) (usr : Models.User)
    → IsReadable r
    → view (some r) ≡ some usr
    → (usr.id ≡ r.id) × (usr.email.address ≡ r.email) × (usr.created_at ≡ r.created_at)
unfolding to_user_bus
view_fields r usr (roles, e) h =
    let same : some (to_user_bus (scanned r roles)) ≡ some usr =
      sym (view_of_IsReadable r roles e) ∙ h in
    ground (arith, same)

pub inserted_roles :
    (roles : List Role) → All IsRole roles → scan (column_of (value roles)) ≡ ok roles
inserted_roles roles h = let (v, written, read, _) = scan-value roles h in rw written read

nullable_lem :
    (d : String)
    → (null_string (nullable (record { string = d; valid = not (d == "") }))).string ≡ d
unfolding null_string
nullable_lem d = ground (arith, eq_iff d "")

pub view-inserted :
    (usr : Models.User)
    → All IsRole usr.roles
    → view (some (inserted (from_bus_user usr))) ≡ some (stored usr)
unfolding from_bus_user to_user_bus
view-inserted usr h =
    view_of_IsReadable (inserted (from_bus_user usr)) usr.roles (inserted_roles usr.roles h)
    ∙ ap (λ d. some (record (stored usr) { department = d })) (nullable_lem usr.department)

pub view-updated :
    (usr old : Models.User) (r : Row)
    → All IsRole usr.roles
    → old.created_at ≡ r.created_at
    → view (some (updated (from_bus_user usr) r)) ≡ some (replaced usr old)
unfolding from_bus_user to_user_bus
view-updated usr old r h e =
    view_of_IsReadable (updated (from_bus_user usr) r) usr.roles (inserted_roles usr.roles h)
    ∙ ap (λ d. some (record (stored usr) { department = d; created_at = r.created_at }))
        (nullable_lem usr.department)
    ∙ ap (λ t. some (record (stored usr) { created_at = t })) (sym e)

pub view-some : (r : Row) → IsReadable r → (usr : Models.User) × (view (some r) ≡ some usr)
view-some r (roles, e) = (to_user_bus (scanned r roles), view_of_IsReadable r roles e)

pub inserted-IsReadable :
    (usr : Models.User) → All IsRole usr.roles → IsReadable (inserted (from_bus_user usr))
unfolding from_bus_user
inserted-IsReadable usr h = (usr.roles, inserted_roles usr.roles h)

pub updated-IsReadable :
    (usr : Models.User)
    → All IsRole usr.roles
    → (o : Option Row) (r : Row) → Option.map (updated (from_bus_user usr)) o ≡ some r
    → IsReadable r
unfolding from_bus_user
updated-IsReadable usr h none r e = absurd (cc e)
updated-IsReadable usr h (some old) r e =
    subst IsReadable (some-injective _ _ e) (usr.roles, inserted_roles usr.roles h)

pub view-map-updated :
    (usr : Models.User)
    → All IsRole usr.roles
    → (o : Option Row) → ((r : Row) → o ≡ some r → IsReadable r)
    → view (Option.map (updated (from_bus_user usr)) o) ≡ Option.map (replaced usr) (view o)
view-map-updated usr h none readable = refl
view-map-updated usr h (some r) readable =
    let (old, e) = view-some r (readable r refl) in
    let (_, _, created) = view_fields r old (readable r refl) e in
    view-updated usr old r h created ∙ ap (Option.map (replaced usr)) (sym e)
