-- ===== src/Examples/Users.antt =====
-- The methods of Bus on the database in memory: registering, changing, deleting and logging in.
use jumble.Shared.{
  ℕ, ◌≡◌, ◌≢◌, ◌⊎◌, ◌↔◌, sym, ◌∙◌, refl, inl, inr, none, some, Option, [], All, nat_eq, arith,
  Bool-cases, String, true,
}
use jumble.Go.Error.{ok, err, wrap, sentinel, err_user_not_found}
use jumble.Bus.Roles.Laws.{IsRole}
use jumble.Bus.Models.{User, UpdateUser}
use jumble.Bus.Contract.{IsUserStore, is_storable, stored, replaced}
use jumble.Bus.Users.{create, update, delete, query_by_id, query_by_email, authenticate}
use jumble.Bus.Users.Login.{authenticate-eq-ok_iff}
use jumble.Bus.Users.Laws.{
  registered, changed, OthersKept, create-query, update-query, delete-query,
}
use jumble.Userdb.Store.Contract.{IsServing, find, holder, new_store-IsUserStore}
use jumble.Userdb.Memory
use jumble.Userdb.Memory.{Table, memory, uuid_text, by_id, by_email}
use jumble.Userdb.Memory.Laws.{IsUnique, memory-IsPostgres}
use jumble.Examples.{services, table_store, ann}

abbrev pub Up : Table → Type 0
Up = IsServing memory uuid_text IsUnique by_id by_email memory-IsPostgres

abbrev pub find_in : Table → ℕ → Option User
find_in = find memory uuid_text IsUnique by_id by_email memory-IsPostgres

abbrev pub holder_in : Table → String → Option User
holder_in = holder memory uuid_text IsUnique by_id by_email memory-IsPostgres

new_store-IsUserStore_example : IsUserStore table_store Up find_in holder_in
new_store-IsUserStore_example =
    new_store-IsUserStore memory uuid_text IsUnique by_id by_email memory-IsPostgres

pub keeps : IsUserStore table_store Up find_in holder_in
keeps = new_store-IsUserStore memory uuid_text IsUnique by_id by_email memory-IsPostgres

abbrev pub anna : User
anna = registered 5000 1 "$password1" ann

-- The table after Ann was registered.
abbrev pub one : Table
one = (table_store.create anna []).1

pub empty_up : Up []
unfolding Memory.by_id
empty_up = (tt, λ i r e. absurd (cc e))

pub ann_valid : All IsRole ann.roles
ann_valid = (inr refl, tt)

-- Her name, address and department are short enough.
pub anna_fits : is_storable anna ≡ true
anna_fits = refl

pub fresh : (i : ℕ) → find_in [] i ≡ none
unfolding Memory.by_id
fresh i = refl

pub free : (a : String) → holder_in [] a ≡ none
unfolding Memory.by_email
free a = refl

pub one_up : Up one
one_up = (keeps.create_new [] empty_up anna ann_valid anna_fits (fresh 1) (free "ann@jumble.org")).1

pub in_one : find_in one 1 ≡ some (stored anna)
in_one =
    (keeps.create_new [] empty_up anna ann_valid anna_fits (fresh 1) (free "ann@jumble.org")).2 1

-- Her second registration is refused.
pub taken : (find_in one 1 ≢ none) ⊎ (holder_in one "ann@jumble.org" ≢ none)
taken = inl (λ h. absurd (cc (sym in_one, h)))

-- Only Ann holds an address.
pub own : (a : String) (other : User) → holder_in one a ≡ some other → other.id ≡ 1
own a other h =
    let (here, _) = (keeps.holder_iff one one_up a other).0 h in
    let step =
      (keeps.create_new [] empty_up anna ann_valid anna_fits (fresh 1) (free "ann@jumble.org")).2
        other.id in
    elim (Bool-cases (nat_eq 1 other.id)) [
      | inl same ↦ ground arith
      | inr differs ↦
          let gone : find_in one other.id ≡ none = step ∙ rw differs (fresh other.id) in
          absurd (cc (sym gone, here))
    ]

create-query_example :
    (t : Table) × (create table_store services 5000 1 ann [] ≡ (ok anna, t))
    × Up t
    × (query_by_id table_store services 1 t ≡ (ok (stored anna), t))
    × (query_by_email table_store services ann.email t ≡ (ok (stored anna), t))
    × OthersKept table_store services keeps 1 [] t
create-query_example =
    create-query table_store services keeps [] 5000 1 ann "$password1" empty_up ann_valid anna_fits
      refl (fresh 1) (free "ann@jumble.org")

delete-query_example :
    (t : Table) × (delete table_store services anna one ≡ (ok tt, t))
    × Up t
    × (query_by_id table_store services 1 t
        ≡ (err (wrap "queryByID" (sentinel err_user_not_found)), t))
    × OthersKept table_store services keeps 1 one t
delete-query_example = delete-query table_store services keeps one anna one_up

-- A new department and a new password.
abbrev pub move : UpdateUser
move = record {
  name = none;
  email = none;
  roles = none;
  department = some "marketing";
  password = some "password2";
  enabled = none;
}

update-query_example :
    (t : Table) × (update table_store services 7000 anna move one
      ≡ (ok (changed 7000 anna "$password2" move), t))
    × Up t
    × (query_by_id table_store services 1 t
        ≡ (ok (replaced (changed 7000 anna "$password2" move) (stored anna)), t))
    × (query_by_email table_store services ann.email t
        ≡ (ok (replaced (changed 7000 anna "$password2" move) (stored anna)), t))
    × OthersKept table_store services keeps 1 one t
update-query_example =
    update-query table_store services keeps one 7000 anna (stored anna) move "$password2" one_up
      in_one (inr ("password2", refl, refl)) ann_valid refl (own "ann@jumble.org")

authenticate-eq-ok_iff_example :
    (authenticate table_store services ann.email "password1" one ≡ (ok (stored anna), one)) ↔ (
      (holder_in one "ann@jumble.org" ≡ some (stored anna))
      × (services.compare_hash_and_password "$password1" "password1" ≡ none))
authenticate-eq-ok_iff_example =
    authenticate-eq-ok_iff table_store services keeps one ann.email "password1" (stored anna) one_up
