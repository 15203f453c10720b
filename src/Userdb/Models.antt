-- ===== src/Userdb/Models.antt =====
-- internal/domains/user/store/userdb/models.go: the stored form of a user.
use jumble.Shared.{String, Bool, not, List, ◌==◌}
use jumble.Bus.Roles.{Role}
use jumble.Bus.Models.{Uuid, Time, Address}
use jumble.Bus.Models

-- sql.NullString
pub record NullString : Type 0 where
  pub string : String
  pub valid : Bool

-- `user` of models.go
pub record User : Type 0 where
  pub id : Uuid
  pub name : String
  pub email : String
  pub roles : List Role
  pub password_hash : String
  pub department : NullString
  pub enabled : Bool
  pub created_at : Time
  pub updated_at : Time

unfoldable pub from_bus_user : Models.User → User
from_bus_user usr = record {
  id = usr.id;
  name = usr.name;
  email = usr.email.address;
  roles = usr.roles;
  password_hash = usr.password_hash;
  department = record { string = usr.department; valid = not (usr.department == "") };
  enabled = usr.enabled;
  created_at = usr.created_at;
  updated_at = usr.updated_at;
}

unfoldable pub to_user_bus : User → Models.User
to_user_bus usr =
    let email : Address = record { name = usr.name; address = usr.email } in
    record {
      id = usr.id;
      name = usr.name;
      email = email;
      roles = usr.roles;
      password_hash = usr.password_hash;
      department = usr.department.string;
      enabled = usr.enabled;
      created_at = usr.created_at;
      updated_at = usr.updated_at;
    }
