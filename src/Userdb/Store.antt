-- ===== src/Userdb/Store.antt =====
-- internal/domains/user/store/userdb/userdb.go: the methods of the store. Tracing is left out: no
-- result depends on it.
mod Reading
pub mod Paging
pub mod Contract
use Prim.Native.String
use jumble.Shared.{
  ℕ, String, Bool, true, false, Option, none, some, List, [], ◌∷◌, map, ◌==◌, if◌then◌else◌,
}
use jumble.Go.Error.{
  Error, Result, ok, err, plain, wrap, sentinel, err_duplicated_email, err_user_not_found, context,
  as_pg_error, ◌>>=◌,
}
use jumble.Go.Text.{◌^^◌}
use jumble.Go.Int.{ℤ, mul64, pred64}
use jumble.Page.{Page}
use jumble.Bus.Roles.{scan}
use jumble.Bus.Order.{Field}
use jumble.Bus.Models
use jumble.Bus.Models.{Uuid, Address, QueryFilter}
use jumble.Bus.Store
use jumble.Userdb.Models.{User, NullString, from_bus_user, to_user_bus}
use jumble.Userdb.Order.{order_by_clause}
use jumble.Userdb.Filter.{Args, text, int, apply_filters}
use jumble.Userdb.Database.{Database, Row, Rows}

abbrev pub unique_violation : String
unique_violation = "23505"

abbrev pub create_query : String
create_query =
    "\n\tINSERT INTO users (id,name,email,password_hash,roles,enabled,department,created_at,updated_at) \n\tVALUES (:id,:name,:email,:password_hash,:roles,:enabled,:department,:created_at,:updated_at) \n\t"

abbrev pub update_query : String
update_query =
    "\n\tUPDATE users \n\tSET \n\t\tname = :name, \n\t\temail = :email, \n\t\tpassword_hash = :password_hash,\n\t\troles = :roles,\n\t\tenabled = :enabled,\n\t\tdepartment = :department, \n\t\tupdated_at = :updated_at\n\tWHERE \n\t\tid = :id;\n\t"

abbrev pub delete_query : String
delete_query = "\n\tDELETE FROM users WHERE id = :id;\n\t"

abbrev pub id_query : String
id_query = "SELECT * FROM users WHERE id = :id"

abbrev pub email_query : String
email_query = "SELECT * FROM users WHERE email = :email;"

-- The error of an INSERT or UPDATE: a unique violation is a duplicated email.
unfoldable pub exec_error : Option Error → Option Error
exec_error none = none
exec_error (some e) = elim (as_pg_error e) [
  | none ↦ some (wrap "namedExecContext" e)
  | some code ↦
      if code == unique_violation
      then some (sentinel err_duplicated_email)
      else some (wrap "namedExecContext" e)
]

unfoldable pub null_string : Option String → NullString
null_string none = record { string = ""; valid = false }
null_string (some s) = record { string = s; valid = true }

-- rows.StructScan(&usr): the columns by their `db` tags, the roles through their Scan, whose error
-- database/sql wraps.
unfoldable pub struct_scan : Result Row → Result User
unfolding null_string
struct_scan row = do
  r ← row
  roles ← context "sql: Scan error on column index 3, name \"roles\"" (scan r.roles)
  ok (record {
    id = r.id;
    name = r.name;
    email = r.email;
    roles = roles;
    password_hash = r.password_hash;
    department = null_string r.department;
    enabled = r.enabled;
    created_at = r.created_at;
    updated_at = r.updated_at;
  })

-- `if !rows.Next() { return not found }`, and the first row
unfoldable pub first_user : List (Result Row) → Result Models.User
first_user [] = err (sentinel err_user_not_found)
first_user (row ∷ _) = do usr ← context "structScan" (struct_scan row); ok (to_user_bus usr)

-- `for rows.Next()`
unfoldable pub scan_users : List (Result Row) → Result (List User)
scan_users [] = ok []
scan_users (row ∷ rows) = do
  usr ← context "structScan" (struct_scan row)
  usrs ← scan_users rows
  ok (usr ∷ usrs)

-- rows.Err() after the loop
unfoldable pub rows_error : Option Error → Result (Unit {0})
rows_error none = ok tt
rows_error (some e) = err (wrap "preparing next row to scan" e)

unfoldable pub first_count : List (Result ℤ) → Result ℤ
first_count [] = err (plain "moving cursor to next row: %!w(<nil>)")
first_count (n ∷ _) = context "structScan" n

module _ {S : Type 0} (db : Database S) (uuid_string : Uuid → String) where
  unfoldable pub create : Models.User → S → Option Error × S
  create usr s =
      let (e, s') = db.named_exec create_query (from_bus_user usr) s in (exec_error e, s')

  unfoldable pub update : Models.User → S → Option Error × S
  update usr s =
      let (e, s') = db.named_exec update_query (from_bus_user usr) s in (exec_error e, s')

  unfoldable pub delete : Models.User → S → Option Error × S
  delete usr s =
      let (e, s') = db.named_exec delete_query (from_bus_user usr) s in
      (elim e [ none ↦ none | some e ↦ some (wrap "namedExecContext" e) ], s')

  unfoldable pub query_by_id : Uuid → S → Result Models.User
  unfolding first_user
  query_by_id id s = do
    rows ←
        context "namedQueryContext" (db.named_query id_query (("id", text (uuid_string id)) ∷ []) s)
    first_user rows.rows

  unfoldable pub query_by_email : Address → S → Result Models.User
  unfolding first_user
  query_by_email email s = do
    rows ←
        context "namedQueryContext"
          (db.named_query email_query (("email", text email.address) ∷ []) s)
    first_user rows.rows

  -- (page.Number - 1) * page.Rows, in 64 bits
  abbrev pub offset : Page → ℤ
  offset page = mul64 (pred64 page.number) page.rows

  unfoldable pub query : QueryFilter → Field → Page → S → Result (List Models.User)
  unfolding scan_users rows_error
  query filters order_by page s = do
    let data_in : Args = ("offset", int (offset page)) ∷ ("rows_per_page", int page.rows) ∷ []
    let filtered = apply_filters filters data_in "SELECT * FROM users "
    order ← context "orderByClause" (order_by_clause order_by)
    let sql = filtered.1 ^^ (order ^^ " OFFSET :offset ROWS FETCH NEXT :rows_per_page ROWS ONLY;")
    rows ← context "namedQueryContext" (db.named_query sql filtered.0 s)
    usrs ← scan_users rows.rows
    done ← rows_error rows.problem
    ok (map to_user_bus usrs)

  unfoldable pub count : QueryFilter → S → Result ℤ
  unfolding first_count
  count filters s = do
    let filtered = apply_filters filters [] "SELECT COUNT(1) FROM users"
    rows ← context "namedQueryContext" (db.named_count filtered.1 filtered.0 s)
    first_count rows

  -- NewStore
  unfoldable pub new_store : Store.Store S
  unfolding create update delete query_by_id query_by_email query count
  new_store = record {
    create = create;
    update = update;
    delete = delete;
    query_by_id = query_by_id;
    query_by_email = query_by_email;
    query = query;
    count = count;
  }
