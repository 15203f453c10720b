-- ===== src/Examples/Requests.antt =====
-- The endpoints on the database in memory.
use jumble.Shared.{ℕ, String, ◌≡◌, ◌⊎◌, ◌↔◌, refl, none, some, [], ◌∷◌, ◌==◌, if◌then◌else◌, true}
use jumble.Go.Error.{Error, Result, ok, err, plain}
use jumble.Bus.Users
use jumble.Errs
use jumble.Bus.Roles.{parse_many_roles, parse_role}
use jumble.Bus.Models.{User}
use jumble.Bus.Contract.{stored}
use jumble.Auth.{KeyLoader, Jwt, kid, Claims, Parsed}
use jumble.Userdb.Memory.{Table}
use jumble.Handler.Endpoints.Shown.{described}
use jumble.Handler.Models.{
  QueryResult, NewUser, UpdateUser, Authenticate, to_bus_new_user, nil_dereference,
}
use jumble.Handler.Binding.{Wire, bind_new_user}
use jumble.Handler.Filters.{Filters}
use jumble.Handler.Reply.{frame, query_result, Request, user_value, failed, json, panicked, token}
use jumble.Handler.Endpoints.Listing.{IsListing, query_lem}
use jumble.Handler.Endpoints.{query, App, Moments, create_user, authenticate, is_admin}
use jumble.Handler.Endpoints.Laws.{
  welcomed, new_token, LogsIn, create_user_lem, authenticate-LogsIn, create_user_taken,
}
use jumble.Handler.Endpoints.Changes.{delete_user, update_user, update_role, disable_user}
use jumble.Handler.Endpoints.Changes.Laws.{
  ActsAs, MayChange, IsRefused, IsDeleted, IsUpdated, delete_user_lem, update_user_lem,
  update_role_lem, disable_user_lem,
}
use jumble.Examples.{services, table_store, ann}
use jumble.Examples.Users.{keeps, anna, anna_fits, taken, one, empty_up, one_up, fresh, free, Up}

abbrev pub new_ann : NewUser
new_ann = record {
  name = "Anna";
  email = "ann@jumble.org";
  roles = "user" ∷ [];
  department = "sales";
  password = "password1";
  password_confirm = "password1";
}

abbrev pub login : Authenticate
login = record { email = "ann@jumble.org"; password = "password1"; password_confirm = "password1" }

abbrev pub update_body : UpdateUser
update_body = record {
  name = some "Annabel";
  email = some "ann@jumble.org";
  department = none;
  password = none;
  password_confirm = none;
  enabled = none;
}

abbrev no_filters : Filters
no_filters = record {
  name = none;
  department = none;
  roles = [];
  start_created_at = none;
  end_created_at = none;
}

-- Bodies with one text each.
abbrev pub wire : Wire
wire = record {
  decode_new_user = λ b. if b == "new ann" then ok new_ann else err (plain "EOF");
  decode_update_user = λ b. if b == "update" then ok update_body else err (plain "EOF");
  decode_update_user_roles = λ b. ok (record { roles = some ("admin" ∷ []) });
  decode_authenticate = λ b. if b == "login" then ok login else err (plain "EOF");
  decode_filters = λ q. if q == "" then ok no_filters else err (plain "EOF");
  is_email = λ s. true;
}

-- One key, named "k"; a token is its subject's text.
abbrev pub loader : KeyLoader ℕ ℕ
loader = record {
  private_key = λ id. if id == "k" then ok 7 else err (plain "key not found");
  public_key = λ id. if id == "k" then ok 7 else err (plain "key not found");
}

abbrev pub claims_1 : Claims
claims_1 = record {
  issuer = "jumble";
  subject = "1";
  issued_at = 5000;
  expires_at = 8600;
  roles = "user" ∷ [];
}

-- The parser knows one token, which its claims are behind, and asks for the key of its "kid".
abbrev pub parsed : Result ℕ → Result Parsed
parsed (ok k) = ok (record { claims = claims_1; valid = true })
parsed (err e) = err e

abbrev pub jwt : Jwt ℕ ℕ
jwt = record {
  signed_string = λ id c k. if id == "k" then ok "token" else err (plain "no key");
  parse_with_claims =
      λ t key_of. if t == "token" then parsed (key_of (kid "k")) else err (plain "malformed");
  numeric_date = λ t. t;
}

abbrev pub app : App Table ℕ ℕ
app = record {
  store = table_store;
  lib = services;
  wire = wire;
  loader = loader;
  jwt = jwt;
  conf = record { kid = "k"; issuer = "jumble"; token_max_age = 3600 };
}

abbrev pub moments : Moments
moments = record { new_id = 1; now = 5000; issued = 5000; expires_from = 5000 }

-- Ann's request with this body, about the user with id 1.
abbrev pub asks : String → Request
asks body = record {
  id_param = "1";
  body = body;
  query = "";
  page = "";
  rows = "";
  order_by = "";
  user_key = some (user_value (stored anna));
}

pub bound : bind_new_user wire "new ann" ≡ ok new_ann
unfolding bind_new_user
bound = refl

pub converted : to_bus_new_user services new_ann ≡ ok ann
unfolding to_bus_new_user parse_many_roles parse_role
converted = refl

create_user_lem_example :
    (t : Table) × (create_user app moments (asks "new ann") []
      ≡ (welcomed app keeps (described services anna) (new_token app keeps moments anna), t))
    × Up t
    × (Users.query_by_id table_store services 1 t ≡ (ok (stored anna), t))
    × (Users.query_by_email table_store services ann.email t ≡ (ok (stored anna), t))
create_user_lem_example =
    create_user_lem app keeps moments (asks "new ann") [] new_ann ann "$password1" empty_up bound
      converted anna_fits refl (fresh 1) (free "ann@jumble.org")

authenticate-LogsIn_example :
    ((authenticate app moments (asks "login") one).1 ≡ one)
    × (((e : Error) × ((authenticate app moments (asks "login") one).0 ≡ failed e))
        ⊎ ((signed : String) × ((authenticate app moments (asks "login") one).0
              ≡ json 200 (token (record { token = signed })))
            × LogsIn app keeps moments (asks "login") one signed))
authenticate-LogsIn_example = authenticate-LogsIn app keeps moments (asks "login") one one_up

delete_user_lem_example :
    IsRefused (delete_user app (asks "") one) one
    ⊎ IsDeleted app (asks "") one (delete_user app (asks "") one).1
delete_user_lem_example = delete_user_lem app (asks "") one

update_user_lem_example :
    ((update_user app 7000 (asks "update") one).1 ≡ one)
    ⊎ IsUpdated app 7000 (asks "update") one (update_user app 7000 (asks "update") one).1
update_user_lem_example = update_user_lem app 7000 (asks "update") one

update_role_lem_example :
    IsRefused (update_role app 7000 (asks "roles") one) one
    ⊎ ((update_role app 7000 (asks "roles") one ≡ (panicked "Bad field type []string", one))
        × ((usr : User) × ActsAs (asks "roles") usr × (is_admin usr.roles ≡ true)))
update_role_lem_example = update_role_lem app 7000 (asks "roles") one

disable_user_lem_example :
    IsRefused (disable_user app 7000 (asks "") one) one
    ⊎ ((disable_user app 7000 (asks "") one ≡ (panicked nil_dereference, one))
        × ((usr : User) × (id : ℕ) × (target : User) × ActsAs (asks "") usr
            × (services.parse_uuid "1" ≡ ok id)
            × MayChange usr id
            × (table_store.query_by_id id one ≡ ok target)))
disable_user_lem_example = disable_user_lem app 7000 (asks "") one

query_lem_example :
    ((query app (asks "") one).1 ≡ one)
    × (((e : Error) × ((query app (asks "") one).0 ≡ failed e))
        ⊎ ((x : QueryResult) × ((query app (asks "") one).0 ≡ json 200 (query_result x))))
    × ((x : QueryResult)
        → ((query app (asks "") one).0 ≡ json 200 (query_result x)) ↔ IsListing app (asks "") one x)
query_lem_example = query_lem app (asks "") one

create_user_taken_example :
    create_user app moments (asks "new ann") one
    ≡ (failed (Errs.new (frame "CreateUser" 48) 400 "create: create: email already in use"), one)
create_user_taken_example =
    create_user_taken app keeps moments (asks "new ann") one new_ann ann "$password1" one_up bound
      converted anna_fits refl taken
