-- ===== src/Bus/Users.antt =====
-- internal/domains/user/bus/bus.go: the methods of Bus over a store. What uuid.New and time.Now
-- return is an argument.
pub mod Laws
pub mod Login
use jumble.Shared.{ℕ, String, true, Option, none, some, List}
use jumble.Go.Error.{Error, Result, ok, err, wrap, context}
use jumble.Go.Error
use jumble.Go.Int.{ℤ}
use jumble.Go.Action.{Action, lift, reads, run, ◌>>=◌}
use jumble.Page.{Page}
use jumble.Bus.Order.{Field}
use jumble.Bus.Models.{
  Uuid, Time, Address, User, NewUser, UpdateUser, QueryFilter, truncate_microsecond,
}
use jumble.Bus.Store.{Store}
use jumble.Bus.Services.{Services}

-- `if updates.X != nil { usr.X = *updates.X }`
abbrev pub or_old : {A : Type 0} → Option A → A → A
or_old none old = old
or_old (some new) old = new

module _ {S : Type 0} (store : Store S) (lib : Services) where
  unfoldable pub create : Time → Uuid → NewUser → Action S User
  create time_now new_id nu = do
    bs ← lift (context "generateFromPassword" (lib.generate_from_password nu.password))
    let now = truncate_microsecond time_now
    let usr : User = record {
      id = new_id;
      name = nu.name;
      email = nu.email;
      roles = nu.roles;
      password_hash = bs;
      department = nu.department;
      enabled = true;
      created_at = now;
      updated_at = now;
    }
    done ← run "create" (store.create usr)
    lift (ok usr)

  -- The hash of a new password, or the old hash.
  new_hash : Option String → String → Result String
  new_hash none old = ok old
  new_hash (some password) old =
      context "generateFromPassword" (lib.generate_from_password password)

  unfoldable pub update : Time → User → UpdateUser → Action S User
  unfolding new_hash
  update time_now usr updates = do
    bs ← lift (new_hash updates.password usr.password_hash)
    let changed : User = record {
      id = usr.id;
      name = or_old updates.name usr.name;
      email = or_old updates.email usr.email;
      roles = or_old updates.roles usr.roles;
      password_hash = bs;
      department = or_old updates.department usr.department;
      enabled = or_old updates.enabled usr.enabled;
      created_at = usr.created_at;
      updated_at = time_now;
    }
    done ← run "update" (store.update changed)
    lift (ok changed)

  unfoldable pub delete : User → Action S (Unit {0})
  delete usr = run "delete" (store.delete usr)

  unfoldable pub query_by_id : Uuid → Action S User
  query_by_id id = reads (λ s. context "queryByID" (store.query_by_id id s))

  unfoldable pub query_by_email : Address → Action S User
  query_by_email email = reads (λ s. context "queryByEmail" (store.query_by_email email s))

  unfoldable pub count : QueryFilter → Action S ℤ
  count filter = reads (store.count filter)

  unfoldable pub query : QueryFilter → Field → Page → Action S (List User)
  query filters order page = reads (λ s. context "query" (store.query filters order page s))

  -- bcrypt's answer as a result
  compared : Option Error → Result (Unit {0})
  compared none = ok tt
  compared (some e) = err (wrap "compareHashAndPass" e)

  unfoldable pub authenticate : Address → String → Action S User
  unfolding compared
  authenticate email password = do
    usr ← reads (λ s. context "queryByEmail" (store.query_by_email email s))
    matched ← lift (compared (lib.compare_hash_and_password usr.password_hash password))
    lift (ok usr)
