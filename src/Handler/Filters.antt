-- ===== src/Handler/Filters.antt =====
-- internal/domains/user/handler/filters.go: the filter of a query.
pub mod Laws
use jumble.Shared.{String, Option, none, some, List, [], ◌∷◌}
use jumble.Go.Error.{Result, ok, ◌>>=◌}
use jumble.Bus.Roles.{Role, parse_many_roles}
use jumble.Bus.Models.{QueryFilter, Time}
use jumble.Bus.Services.{Services}

pub record Filters : Type 0 where
  pub name : Option String
  pub department : Option String
  pub roles : List String
  pub start_created_at : Option String
  pub end_created_at : Option String

-- `if len(f.Roles) != 0`
pub some_roles : List String → Result (Option (List Role))
some_roles [] = ok none
some_roles (r ∷ rs) = do parsed ← parse_many_roles (r ∷ rs); ok (some parsed)

-- `if t != nil { parse }`
pub some_time : Services → Option String → Result (Option Time)
some_time lib none = ok none
some_time lib (some t) = do parsed ← lib.parse_rfc3339 t; ok (some parsed)

unfoldable pub to_bus_query_filter : Services → Filters → Result QueryFilter
unfolding some_roles some_time
to_bus_query_filter lib f = do
  roles ← some_roles f.roles
  start ← some_time lib f.start_created_at
  end ← some_time lib f.end_created_at
  ok (record {
    name = f.name;
    department = f.department;
    roles = roles;
    start_created_at = start;
    end_created_at = end;
  })
