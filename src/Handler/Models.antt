-- ===== src/Handler/Models.antt =====
-- internal/domains/user/handler/models.go: the bodies of requests and responses, and their
-- conversions. A conversion that dereferences a nil pointer panics.
use jumble.Shared.{String, Bool, Option, none, some, List, []}
pub use jumble.Go.Action.{Call, returns, panics}
use jumble.Go.Error.{Result, ok, context, ◌>>=◌}
use jumble.Go.Int.{ℤ}
use jumble.Bus.Roles.{roles_to_string, parse_many_roles}
use jumble.Bus.Models
use jumble.Bus.Models.{Address}
use jumble.Bus.Services.{Services}

-- `user`: the JSON of a user; an empty token is omitted from it
pub record User : Type 0 where
  pub id : String
  pub name : String
  pub email : String
  pub roles : List String
  pub department : String
  pub enabled : Bool
  pub created_at : String
  pub updated_at : String
  pub token : String

unfoldable pub to_app_user : Services → Models.User → User
to_app_user lib usr = record {
  id = lib.uuid_string usr.id;
  name = usr.name;
  email = usr.email.address;
  roles = roles_to_string usr.roles;
  department = usr.department;
  enabled = usr.enabled;
  created_at = lib.format_rfc3339 usr.created_at;
  updated_at = lib.format_rfc3339 usr.updated_at;
  token = "";
}

pub record QueryResult : Type 0 where
  pub users : List User
  pub total : ℤ
  pub page : ℤ
  pub rows_per_page : ℤ

unfoldable pub new_query_result : List User → ℤ → ℤ → ℤ → QueryResult
new_query_result users total page rows = record {
  users = users;
  total = total;
  page = page;
  rows_per_page = rows;
}

pub record Authenticate : Type 0 where
  pub email : String
  pub password : String
  pub password_confirm : String

pub record Token : Type 0 where
  pub token : String

pub record NewUser : Type 0 where
  pub name : String
  pub email : String
  pub roles : List String
  pub department : String
  pub password : String
  pub password_confirm : String

unfoldable pub to_bus_new_user : Services → NewUser → Result Models.NewUser
to_bus_new_user lib nu = do
  roles ← context "parseManyRoles" (parse_many_roles nu.roles)
  email ← context "parseAddress" (lib.parse_address nu.email)
  ok (record {
    name = nu.name;
    email = email;
    roles = roles;
    department = nu.department;
    password = nu.password;
  })

pub record UpdateUser : Type 0 where
  pub name : Option String
  pub email : Option String
  pub department : Option String
  pub password : Option String
  pub password_confirm : Option String
  pub enabled : Option Bool

abbrev pub nil_dereference : String
nil_dereference = "runtime error: invalid memory address or nil pointer dereference"

-- The email pointer is dereferenced first, whether or not the client sent one.
unfoldable pub to_bus_update_user : Services → UpdateUser → Call Models.UpdateUser
to_bus_update_user lib uu = elim uu.email [
  | none ↦ panics nil_dereference
  | some address ↦ returns (do
    email ← context "parseAddress" (lib.parse_address address)
    ok (record {
      name = uu.name;
      email = some email;
      roles = none;
      department = uu.department;
      password = uu.password;
      enabled = uu.enabled;
    }))
]

-- `updateUserRoles`; a nil slice is `none`
pub record UpdateUserRoles : Type 0 where
  pub roles : Option (List String)

elements : Option (List String) → List String
elements none = []
elements (some roles) = roles

unfoldable pub to_bus_update_user_roles : UpdateUserRoles → Result Models.UpdateUser
unfolding elements
to_bus_update_user_roles ur = do
  roles ← context "parseManyRoles" (parse_many_roles (elements ur.roles))
  ok (record {
    name = none;
    email = none;
    roles = some roles;
    department = none;
    password = none;
    enabled = none;
  })
