-- ===== src/Examples.antt =====
-- A service with concrete parts, on which the theorems about the program are run: a hash that marks
-- the password, ids and addresses that are read as they are, tokens that show their claims, and the
-- database in memory.
mod Users
mod Access
mod Requests
mod Texts
mod Keys
mod Waiting
mod Serving
mod Sessions
mod Overlapping
mod Process
use Prim.Native.String.{count}
use jumble.Shared.{ℕ, ◌≡◌, String, none, some, List, [], ◌∷◌, ◌==◌, ltb, if◌then◌else◌, true, refl}
use jumble.Go.Error.{ok, err, plain}
use jumble.Go.Text.{◌^^◌}
use jumble.Bus.Roles.{role_user}
use jumble.Bus.Models.{Address, NewUser, User}
use jumble.Bus.Services.{Services}
use jumble.Bus.Store.{Store}
use jumble.Userdb.Store.{new_store}
use jumble.Userdb.Memory.{Table, uuid_text, memory}

-- bcrypt refuses passwords of more than 72 bytes.
abbrev pub services : Services
services = record {
  generate_from_password = λ p.
      if ltb 72 (count p)
      then err (plain "bcrypt: password length exceeds 72 bytes")
      else ok ("$" ^^ p);
  compare_hash_and_password = λ h p.
      if h == ("$" ^^ p)
      then none
      else some (plain "hashedPassword is not the hash of the given password");
  parse_address = λ s.
      if s == "" then err (plain "mail: no address") else ok (record { name = ""; address = s });
  parse_uuid =
      λ s. if s == "1" then ok 1 else if s == "11" then ok 2 else err (plain "invalid UUID length");
  uuid_string = uuid_text;
  parse_rfc3339 = λ s. err (plain "cannot parse");
  format_rfc3339 = λ t. "";
}

abbrev pub table_store : Store Table
table_store = new_store memory uuid_text

abbrev pub ann : NewUser
ann = record {
  name = "Anna";
  email = record { name = ""; address = "ann@jumble.org" };
  roles = role_user ∷ [];
  department = "sales";
  password = "password1";
}
