-- ===== src/Userdb/Database.antt =====
-- What the store uses of the database: sqlx over PostgreSQL, which the program does not implement.
-- `S` is the state of the database.
use jumble.Shared.{String, Option, List, Bool}
use jumble.Go.Error.{Error, Result}
use jumble.Go.Int.{ℤ}
use jumble.Bus.Roles.{Column}
use jumble.Bus.Models.{Uuid, Time}
use jumble.Userdb.Models.{User}
use jumble.Userdb.Filter.{Args}

-- A row of the table `users`, as the driver hands it to StructScan. `department` may be NULL, and
-- the roles are read by their own Scan.
pub record Row : Type 0 where
  pub id : Uuid
  pub name : String
  pub email : String
  pub roles : Column
  pub password_hash : String
  pub department : Option String
  pub enabled : Bool
  pub created_at : Time
  pub updated_at : Time

-- *sqlx.Rows of a query for users: each row, or the error of converting its columns, and what
-- rows.Err() reports after the last.
pub record Rows : Type 0 where
  pub rows : List (Result Row)
  pub problem : Option Error

pub record Database (S : Type 0) : Type 0 where
  -- NamedExecContext(ctx, q, user): the error, and the state after it
  pub named_exec : String → User → S → Option Error × S
  -- NamedQueryContext(ctx, q, data) for the rows of users
  pub named_query : String → Args → S → Result Rows
  -- the same for the count: the rows of `SELECT COUNT(1)`
  pub named_count : String → Args → S → Result (List (Result ℤ))
