-- ===== src/Sqldb/Opening.antt =====
-- internal/sqldb/sqldb.go: Open, which makes the URL of a connection. The text of a URL and
-- sqlx.Open are parameters.
use jumble.Shared.{String, Bool, List, [], insert, ◌==◌, if◌then◌else◌}
use jumble.Go.Int.{ℤ}
use jumble.Go.Error.{Result, context}

pub record Config : Type 0 where
  pub user : String
  pub password : String
  pub host : String
  pub name : String
  pub schema : String
  pub max_idle_conns : ℤ
  pub max_open_conns : ℤ
  pub disable_tls : Bool

-- url.URL, with the values that RawQuery encodes
pub record Url : Type 0 where
  pub scheme : String
  pub user : String
  pub password : String
  pub host : String
  pub path : String
  pub query : List (String × String)

-- uri.String() and sqlx.Open
pub record Driver (Conn : Type 0) : Type 0 where
  pub url_text : Url → String
  pub connect : (driver_name source_name : String) → Result Conn

-- The values of the query.
unfoldable pub query_of : Config → List (String × String)
query_of cfg =
    let sslmode = if cfg.disable_tls then "disable" else "require" in
    let q = insert "timezone" "utc" (insert "sslmode" sslmode []) in
    if cfg.schema == "" then q else insert "search_path" cfg.schema q

unfoldable pub uri_of : Config → Url
unfolding query_of
uri_of cfg = record {
  scheme = "postgres";
  user = cfg.user;
  password = cfg.password;
  host = cfg.host;
  path = cfg.name;
  query = query_of cfg;
}

unfoldable pub open_db : {Conn : Type 0} → Driver Conn → Config → Result Conn
unfolding uri_of
open_db driver cfg = context "open connection" (driver.connect "pgx" (driver.url_text (uri_of cfg)))
