-- ===== src/Bus/Roles.antt =====
-- internal/domains/user/bus/roles.go: the roles, their parsing, and their PostgreSQL array form.
pub mod Laws
pub mod ArrayText
use Prim.Native.String.{[], ◌∷◌}
use jumble.Shared.{
  ℕ, String, Bool, true, false, ◌||◌, Option, none, some, List, [], ◌∷◌, map, lookup, insert,
  nat_eq,
}
use jumble.Go.Error.{Result, ok, err, plain, context, ◌>>=◌}
use jumble.Go.Text.{◌^^◌, split, join, trim, is_empty}

pub record Role : Type 0 where
  pub value : String

-- `newRole` adds the role to the global map `validRoles` and returns it.
unfoldable pub new_role : String → List (String × Role) → Role × List (String × Role)
unfolding insert
new_role val roles = let r : Role = record { value = val } in (r, insert val r roles)

abbrev pub role_admin : Role
role_admin = record { value = "admin" }

abbrev pub role_user : Role
role_user = record { value = "user" }

-- The map after the package's variables are initialised.
unfoldable pub valid_roles : List (String × Role)
unfolding new_role
valid_roles = (new_role "user" (new_role "admin" []).1).1

-- (r Role) String
unfoldable pub string : Role → String
string r = r.value

-- (r Role) MarshalText
unfoldable pub marshal_text : Role → Result String
marshal_text r = ok r.value

unfoldable pub parse_role : String → Result Role
unfolding valid_roles lookup
parse_role val = elim (lookup val valid_roles) [
  | none ↦ err (plain ("invalid role: " ^^ val))
  | some r ↦ ok r
]

unfoldable pub roles_to_string : List Role → List String
roles_to_string [] = []
roles_to_string (r ∷ roles) = r.value ∷ roles_to_string roles

unfoldable pub parse_many_roles : List String → Result (List Role)
parse_many_roles [] = ok []
parse_many_roles (r ∷ rr) = do role ← parse_role r; roles ← parse_many_roles rr; ok (role ∷ roles)

-- (rs RoleSlice) Value: the driver's value, a text
unfoldable pub value : List Role → Result String
unfolding string join
value [] = ok "{}"
value (r ∷ rs) = ok ("{" ^^ (join "," (map string (r ∷ rs)) ^^ "}"))

abbrev pub is_brace : ℕ → Bool
is_brace c = nat_eq c b'{' || nat_eq c b'}'

abbrev pub is_quote : ℕ → Bool
is_quote c = nat_eq c b'"'

-- The loop of `parsePostgresArray` over the elements.
unfoldable pub parse_elements : List String → Result (List Role)
parse_elements [] = ok []
parse_elements (elem ∷ elements) = do
  role ← context "invalid role in array" (parse_role (trim is_quote elem))
  roles ← parse_elements elements
  ok (role ∷ roles)

unfoldable pub parse_postgres_array : String → Result (List Role)
parse_postgres_array arr =
    let s = trim is_brace arr in
    let roles = parse_elements (split b',' s) in elim (is_empty s) [ true ↦ ok [] | false ↦ roles ]

-- What the database driver hands to Scan: `any`, of which nil, []byte and string are read.
pub data Column : Type 0 where
  null : Column
  bytes text : String → Column
  other : (type_name : String) → Column

-- (rs *RoleSlice) Scan: the new value of *rs
unfoldable pub scan : Column → Result (List Role)
unfolding parse_postgres_array
scan null = ok []
scan (bytes v) = parse_postgres_array v
scan (text v) = parse_postgres_array v
scan (other type_name) = err (plain ("unsupported type for role slice: " ^^ type_name))
