-- ===== src/Bus/Services.antt =====
-- What the program calls and does not implement: bcrypt, uuid, and the parsers of net/mail and
-- time for RFC 5322 addresses and RFC 3339 times.
use jumble.Shared.{String, Option}
use jumble.Go.Error.{Error, Result}
use jumble.Bus.Models.{Uuid, Time, Address}

pub record Services : Type 0 where
  -- bcrypt.GenerateFromPassword(password, bcrypt.DefaultCost)
  pub generate_from_password : String → Result String
  -- bcrypt.CompareHashAndPassword(hash, password): nil on a match
  pub compare_hash_and_password : String → String → Option Error
  -- mail.ParseAddress
  pub parse_address : String → Result Address
  -- uuid.Parse, and (UUID) String
  pub parse_uuid : String → Result Uuid
  pub uuid_string : Uuid → String
  -- time.Parse(time.RFC3339, s), and Format(time.RFC3339)
  pub parse_rfc3339 : String → Result Time
  pub format_rfc3339 : Time → String
