-- ===== src/Userdb/Postgres.antt =====
-- The documented behaviour of PostgreSQL on the five statements of the store and on the schema of
-- internal/migrate/sql/20250914214924_init.up.sql: `id` is the primary key, `email` is UNIQUE,
-- VARCHAR(n) takes n characters (a longer value is refused, unless what is too much are spaces,
-- which are cut), and a time is kept to the microsecond. The texts are those without the character
-- NUL, and the times those that a column can hold. The rows are seen through `by_id` and `by_email`.
use Prim.Native.String.{count}
use jumble.Shared.{
  String, Bool, true, false, leb, ◌&&◌, ◌≡◌, ◌≢◌, ◌⊎◌, ◌↔◌, Option, none, some, List, [], ◌∷◌,
  nat_eq, if◌then◌else◌,
}
use mathlib.Core.Option
use jumble.Go.Error.{Result, ok, err, pg_error}
use jumble.Bus.Roles.{Column, null, bytes, value}
use jumble.Bus.Models.{Uuid}
use jumble.Bus.Contract.{to_microsecond}
use jumble.Userdb.Models.{User, NullString}
use jumble.Userdb.Filter.{text}
use jumble.Userdb.Database.{Database, Row, Rows}
use jumble.Userdb.Store.{
  create_query, update_query, delete_query, id_query, email_query, unique_violation,
}

-- What the driver's Valuer makes of the roles, as TEXT[].
abbrev pub column_of : Result String → Column
column_of (ok v) = bytes v
column_of (err e) = null

abbrev pub nullable : NullString → Option String
nullable s = if s.valid then some s.string else none

-- The row that an INSERT writes.
abbrev pub inserted : User → Row
inserted u = record {
  id = u.id;
  name = u.name;
  email = u.email;
  roles = column_of (value u.roles);
  password_hash = u.password_hash;
  department = nullable u.department;
  enabled = u.enabled;
  created_at = to_microsecond u.created_at;
  updated_at = to_microsecond u.updated_at;
}

-- name VARCHAR(200), email VARCHAR(300), department VARCHAR(100)
abbrev pub fits : User → Bool
fits u = leb (count u.name) 200 && leb (count u.email) 300 && leb (count u.department.string) 100

-- The row that an UPDATE leaves: `id` and `created_at` are not set.
abbrev pub updated : User → Row → Row
updated u old = record (inserted u) { created_at = old.created_at }

abbrev pub row_list : Option Row → List (Result Row)
row_list none = []
row_list (some r) = ok r ∷ []

abbrev pub only : Option Row → Result Rows
only r = ok (record { rows = row_list r; problem = none })

module _ {S : Type 0} where
  pub record IsPostgres (db : Database S) (uuid_string : Uuid → String) (IsUp : S → Type 0)
      (by_id : S → Uuid → Option Row) (by_email : S → String → Option Row) : Type 0 where
    pub id_key : (s : S) → IsUp s → (i : Uuid) (r : Row) → by_id s i ≡ some r → r.id ≡ i
    pub email_key :
        (s : S)
        → IsUp s
        → (a : String) (r : Row)
        → (by_email s a ≡ some r) ↔ ((by_id s r.id ≡ some r) × (r.email ≡ a))
    pub select_id :
        (s : S)
        → IsUp s
        → (i : Uuid)
        → db.named_query id_query (("id", text (uuid_string i)) ∷ []) s ≡ only (by_id s i)
    pub select_email :
        (s : S)
        → IsUp s
        → (a : String) → db.named_query email_query (("email", text a) ∷ []) s ≡ only (by_email s a)
    pub insert_new :
        (s : S)
        → IsUp s
        → (u : User) → fits u ≡ true
        → by_id s u.id ≡ none
        → by_email s u.email ≡ none
        → ((db.named_exec create_query u s).0 ≡ none)
          × IsUp (db.named_exec create_query u s).1
          × ((i : Uuid)
              → by_id (db.named_exec create_query u s).1 i
                ≡ (if nat_eq u.id i then some (inserted u) else by_id s i))
    pub insert_taken :
        (s : S)
        → IsUp s
        → (u : User) → fits u ≡ true
        → (by_id s u.id ≢ none) ⊎ (by_email s u.email ≢ none)
        → (m : String) × (db.named_exec create_query u s ≡ (some (pg_error unique_violation m), s))
    -- Nothing is inserted, or a row with cut texts.
    pub insert_long :
        (s : S)
        → IsUp s
        → (u : User) → fits u ≡ false
        → IsUp (db.named_exec create_query u s).1
          × ((i : Uuid)
              → (by_id (db.named_exec create_query u s).1 i ≡ by_id s i)
                ⊎ ((u.id ≡ i)
                    × (by_id s i ≡ none)
                    × ((r : Row)
                        → by_id (db.named_exec create_query u s).1 i ≡ some r
                        → r.roles ≡ column_of (value u.roles))))
    pub update_free :
        (s : S)
        → IsUp s
        → (u : User) → fits u ≡ true
        → ((r : Row) → by_email s u.email ≡ some r → r.id ≡ u.id)
        → ((db.named_exec update_query u s).0 ≡ none)
          × IsUp (db.named_exec update_query u s).1
          × ((i : Uuid)
              → by_id (db.named_exec update_query u s).1 i
                ≡ (if nat_eq u.id i then Option.map (updated u) (by_id s i) else by_id s i))
    pub update_taken :
        (s : S)
        → IsUp s
        → (u : User) (r : Row) → fits u ≡ true
        → by_id s u.id ≢ none
        → by_email s u.email ≡ some r
        → r.id ≢ u.id
        → (m : String) × (db.named_exec update_query u s ≡ (some (pg_error unique_violation m), s))
    pub delete_done :
        (s : S)
        → IsUp s
        → (u : User)
        → ((db.named_exec delete_query u s).0 ≡ none)
          × IsUp (db.named_exec delete_query u s).1
          × ((i : Uuid)
              → by_id (db.named_exec delete_query u s).1 i
                ≡ (if nat_eq u.id i then none else by_id s i))
