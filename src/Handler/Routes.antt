-- ===== src/Handler/Routes.antt =====
-- internal/domains/user/handler/routes.go: the endpoints with their handlers, in the order in which
-- they are registered.
use jumble.Shared.{String, List, [], ◌∷◌}

pub data Method : Type 0 where
  create_user query_user_by_id delete_user update_user update_role disable_user query authenticate :
      Method

-- A handler of a chain. A role set is the list of its keys.
pub data Stage : Type 0 where
  endpoint : Method → Stage
  authenticated : Stage
  authorized : List String → Stage

pub record Route : Type 0 where
  pub verb : String
  pub path : String
  pub chain : List Stage

abbrev pub admin : Stage
admin = authorized ("admin" ∷ [])

abbrev pub user : Stage
user = authorized ("user" ∷ [])

-- The literal names RoleUser twice.
abbrev pub admin_or_user : Stage
admin_or_user = authorized ("user" ∷ [])

-- RegisterRoutes, below the group "/v1/users"
abbrev pub register_routes : List Route
register_routes =
    record { verb = "POST"; path = "/v1/users/"; chain = endpoint create_user ∷ [] }
    ∷ record {
      verb = "GET";
      path = "/v1/users/:id";
      chain = endpoint query_user_by_id ∷ authenticated ∷ [];
    }
    ∷ record {
      verb = "DELETE";
      path = "/v1/users/:id";
      chain = endpoint delete_user ∷ authenticated ∷ admin_or_user ∷ [];
    }
    ∷ record {
      verb = "PUT";
      path = "/v1/users/:id";
      chain = endpoint update_user ∷ authenticated ∷ user ∷ [];
    }
    ∷ record {
      verb = "PUT";
      path = "/v1/users/roles/:id";
      chain = endpoint update_role ∷ authenticated ∷ admin ∷ [];
    }
    ∷ record {
      verb = "PUT";
      path = "/v1/users/disable/:id";
      chain = endpoint disable_user ∷ authenticated ∷ admin_or_user ∷ [];
    }
    ∷ record { verb = "GET"; path = "/v1/users/"; chain = endpoint query ∷ [] }
    ∷ record { verb = "POST"; path = "/v1/users/login"; chain = endpoint authenticate ∷ [] }
    ∷ []
