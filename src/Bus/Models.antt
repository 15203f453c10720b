-- ===== src/Bus/Models.antt =====
-- internal/domains/user/bus/models.go and filter.go. A pointer field is an option, and a slice that
-- is tested against nil is an option of a list. A time is the number of nanoseconds since Go's
-- zero time, a UUID its 128-bit number, a byte slice a text.
use jumble.Shared.{ℕ, ◌-◌, ◌%◌, String, Bool, Option, List}
use jumble.Bus.Roles.{Role}

-- uuid.UUID
abbrev pub Uuid : Type 0
Uuid = ℕ

-- time.Time
abbrev pub Time : Type 0
Time = ℕ

-- t.Truncate(time.Microsecond)
abbrev pub truncate_microsecond : Time → Time
truncate_microsecond t = t - t % 1000

-- mail.Address
pub record Address : Type 0 where
  pub name : String
  pub address : String

pub record User : Type 0 where
  pub id : Uuid
  pub name : String
  pub email : Address
  pub roles : List Role
  pub password_hash : String
  pub department : String
  pub enabled : Bool
  pub created_at : Time
  pub updated_at : Time

pub record NewUser : Type 0 where
  pub name : String
  pub email : Address
  pub roles : List Role
  pub department : String
  pub password : String

pub record UpdateUser : Type 0 where
  pub name : Option String
  pub email : Option Address
  pub roles : Option (List Role)
  pub department : Option String
  pub password : Option String
  pub enabled : Option Bool

pub record QueryFilter : Type 0 where
  pub name : Option String
  pub department : Option String
  pub roles : Option (List Role)
  pub start_created_at : Option Time
  pub end_created_at : Option Time
