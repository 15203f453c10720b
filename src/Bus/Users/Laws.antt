-- ===== src/Bus/Users/Laws.antt =====
-- The methods of Bus in internal/domains/user/bus/bus.go, over any store that keeps the contract.
use jumble.Shared.{
  nat_eq_refl, Bool-cases, String, true, ◌≡◌, ◌≢◌, ◌⊎◌, inl, inr, refl, ap, sym, ◌∙◌, Option, none,
  some, All, nat_eq, arith, if◌then◌else◌,
}
use mathlib.Core.Option.{some-injective}
use mathlib.Core.Path.{subst}
use jumble.Go.Error.{
  Result, ok, err, wrap, sentinel, err_user_not_found, err_duplicated_email, context,
}
use jumble.Bus.Roles.Laws.{IsRole}
use jumble.Bus.Models.{Uuid, Time, Address, User, NewUser, UpdateUser, truncate_microsecond}
use jumble.Go.Action.{◌>>=◌, run, lift}
use jumble.Bus.Store.{Store}
use jumble.Bus.Services.{Services}
use jumble.Bus.Contract.{to_microsecond, is_storable, stored, replaced, found, IsUserStore}
use jumble.Bus.Users.{or_old, create, update, delete, query_by_id, query_by_email}
use mathlib.Core.Option

-- The user that a registration makes at this time.
abbrev pub registered_at : Time → Uuid → String → NewUser → User
registered_at time id hash nu = record {
  id = id;
  name = nu.name;
  email = nu.email;
  roles = nu.roles;
  password_hash = hash;
  department = nu.department;
  enabled = true;
  created_at = time;
  updated_at = time;
}

-- The user that a registration asks for: its times are to the microsecond.
abbrev pub registered : Time → Uuid → String → NewUser → User
registered now = registered_at (to_microsecond now)

truncate_microsecond_lem : (t : Time) → truncate_microsecond t ≡ to_microsecond t
truncate_microsecond_lem t = omega arith

-- A field after an update: the new value where one is given, and otherwise the old one.
abbrev pub given : {A : Type 0} → A → Option A → A
given old none = old
given old (some x) = x

-- The user that an update asks for.
abbrev pub changed : Time → User → String → UpdateUser → User
changed now usr hash updates = record {
  id = usr.id;
  name = given usr.name updates.name;
  email = given usr.email updates.email;
  roles = given usr.roles updates.roles;
  password_hash = hash;
  department = given usr.department updates.department;
  enabled = given usr.enabled updates.enabled;
  created_at = usr.created_at;
  updated_at = now;
}

or_old-eq-given : {A : Type 0} (old : A) (o : Option A) → or_old o old ≡ given old o
or_old-eq-given old none = refl
or_old-eq-given old (some x) = refl

-- The record that Update makes.
abbrev asked : Time → User → String → UpdateUser → User
asked now usr hash updates = record usr {
  name = or_old updates.name usr.name;
  email = or_old updates.email usr.email;
  roles = or_old updates.roles usr.roles;
  password_hash = hash;
  department = or_old updates.department usr.department;
  enabled = or_old updates.enabled usr.enabled;
  updated_at = now;
}

asked-eq-changed :
    (now : Time) (usr : User) (hash : String) (updates : UpdateUser)
    → asked now usr hash updates ≡ changed now usr hash updates
asked-eq-changed now usr hash updates =
    rw
      (
        or_old-eq-given usr.name updates.name,
        or_old-eq-given usr.email updates.email,
        or_old-eq-given usr.roles updates.roles,
        or_old-eq-given usr.department updates.department,
        or_old-eq-given usr.enabled updates.enabled,
      )
      refl

-- The hash that an update stores: the old one, or that of the new password.
abbrev pub IsNewHash : Services → Option String → String → String → Type 0
IsNewHash lib password old hash =
    ((password ≡ none) × (hash ≡ old))
    ⊎ ((p : String) × (password ≡ some p) × (lib.generate_from_password p ≡ ok hash))

module _ {S : Type 0} (store : Store S) (lib : Services) {IsUp : S → Type 0}
    {find : S → Uuid → Option User} {holder : S → String → Option User}
    (keeps : IsUserStore store IsUp find holder) where
  -- The lookup of every other id answers as before.
  abbrev pub OthersKept : Uuid → S → S → Type 0
  OthersKept k s t =
      (i : Uuid) → (k ≡ i) ⊎ ((query_by_id store lib i t).0 ≡ (query_by_id store lib i s).0)

  -- Another id's lookup is not affected by a change of the user with id `k`.
  elsewhere :
      (s t : S) (k : Uuid) (new : Uuid → Option User)
      → IsUp s
      → IsUp t
      → ((i : Uuid) → find t i ≡ (if nat_eq k i then new i else find s i))
      → OthersKept k s t
  unfolding query_by_id
  elsewhere s t k new up up' step i = elim (Bool-cases (nat_eq k i)) [
    | inl same ↦ inl (ground arith)
    | inr other ↦ inr (
        ap (context "queryByID")
          (keeps.by_id t up' i ∙ ap found (step i ∙ rw other) ∙ sym (keeps.by_id s up i)))
  ]

  here :
      (s t : S) (k : Uuid) (new : Uuid → Option User)
      → IsUp t
      → ((i : Uuid) → find t i ≡ (if nat_eq k i then new i else find s i))
      → query_by_id store lib k t ≡ (context "queryByID" (found (new k)), t)
  unfolding query_by_id
  here s t k new up' step = rw (keeps.by_id t up' k, step k, nat_eq_refl k)

  found_by_email :
      (t : S)
      → IsUp t
      → (a : Address) (usr : User) → find t usr.id ≡ some usr
      → usr.email.address ≡ a.address
      → query_by_email store lib a t ≡ (ok usr, t)
  unfolding query_by_email
  found_by_email t up a usr e address =
      rw (keeps.by_email t up a, (keeps.holder_iff t up a.address usr).1 (e, address))

  -- What becomes of the store's answer to a registration.
  abbrev pub finished : User → S → Result User × S
  finished usr s = (do done ← run "create" (store.create usr); lift (ok usr)) s

  pub create-eq-finished :
      (s : S) (now : Time) (id : Uuid) (nu : NewUser) (hash : String)
      → lib.generate_from_password nu.password ≡ ok hash
      → create store lib now id nu s ≡ finished (registered now id hash nu) s
  unfolding create
  create-eq-finished s now id nu hash hashed =
      subst (λ t. create store lib now id nu s ≡ finished (registered_at t id hash nu) s)
        (truncate_microsecond_lem now) (rw hashed refl)

  pub create_eq :
      (s : S) (now : Time) (id : Uuid) (nu : NewUser) (hash : String)
      → lib.generate_from_password nu.password ≡ ok hash
      → (store.create (registered now id hash nu) s).0 ≡ none
      → create store lib now id nu s
        ≡ (ok (registered now id hash nu), (store.create (registered now id hash nu) s).1)
  create_eq s now id nu hash hashed done = create-eq-finished s now id nu hash hashed ∙ rw done refl

  -- While the store is up, registering a user with a fresh id and a free address, valid roles,
  -- texts that the columns of the schema take and a password that bcrypt accepts returns the user
  -- asked for, its times cut to the microsecond; afterwards the store answers lookups by that id
  -- and by that address with the user as it is stored, which has its name as the display name of
  -- its address, and lookups of every other id as before.
  pub create-query :
      (s : S) (now : Time) (id : Uuid) (nu : NewUser) (hash : String)
      → IsUp s
      → All IsRole nu.roles
      → is_storable (registered now id hash nu) ≡ true
      → lib.generate_from_password nu.password ≡ ok hash
      → find s id ≡ none
      → holder s nu.email.address ≡ none
      → let usr = registered now id hash nu in
        (t : S) × (create store lib now id nu s ≡ (ok usr, t))
        × IsUp t
        × (query_by_id store lib id t ≡ (ok (stored usr), t))
        × (query_by_email store lib nu.email t ≡ (ok (stored usr), t))
        × OthersKept id s t
  create-query s now id nu hash up valid short hashed fresh free =
      let usr = registered now id hash nu in
      let (done, up', step) = keeps.create_new s up usr valid short fresh free in
      let t = (store.create usr s).1 in
      (
        t,
        create_eq s now id nu hash hashed done,
        up',
        here s t id (λ i. some (stored usr)) up' step,
        found_by_email t up' nu.email (stored usr) (step id ∙ rw (nat_eq_refl id)) refl,
        elsewhere s t id (λ i. some (stored usr)) up up' step,
      )

  -- While the store is up, a registration whose id or address is taken, with texts that the columns
  -- take and a password that bcrypt accepts, fails with the duplicated-email error, wrapped, and
  -- leaves the store as it was.
  pub create_taken_lem :
      (s : S) (now : Time) (id : Uuid) (nu : NewUser) (hash : String)
      → IsUp s
      → is_storable (registered now id hash nu) ≡ true
      → lib.generate_from_password nu.password ≡ ok hash
      → (find s id ≢ none) ⊎ (holder s nu.email.address ≢ none)
      → create store lib now id nu s ≡ (err (wrap "create" (sentinel err_duplicated_email)), s)
  create_taken_lem s now id nu hash up short hashed taken =
      create-eq-finished s now id nu hash hashed
      ∙ rw (keeps.create_taken s up (registered now id hash nu) short taken) refl

  update_asked :
      (s : S) (now : Time) (usr : User) (updates : UpdateUser) (hash : String)
      → IsNewHash lib updates.password usr.password_hash hash
      → (store.update (asked now usr hash updates) s).0 ≡ none
      → update store lib now usr updates s
        ≡ (ok (asked now usr hash updates), (store.update (asked now usr hash updates) s).1)
  unfolding update
  update_asked s now usr updates hash (inl (e, same)) done =
      rw (e, same) (rw (subst (λ h. (store.update (asked now usr h updates) s).0 ≡ none) same done))
  update_asked s now usr updates hash (inr (p, e, hashed)) done = rw (e, hashed) (rw done)

  update_eq :
      (s : S) (now : Time) (usr : User) (updates : UpdateUser) (hash : String)
      → IsNewHash lib updates.password usr.password_hash hash
      → (store.update (changed now usr hash updates) s).0 ≡ none
      → update store lib now usr updates s
        ≡ (ok (changed now usr hash updates), (store.update (changed now usr hash updates) s).1)
  update_eq s now usr updates hash hashed =
      subst
        (λ x.
          (store.update x s).0 ≡ none
          → update store lib now usr updates s ≡ (ok x, (store.update x s).1))
        (asked-eq-changed now usr hash updates) (update_asked s now usr updates hash hashed)

  -- While the store is up, an update of a stored user to valid roles, texts that the columns of the
  -- schema take, an address that no other user holds and, if one is given, a password that bcrypt
  -- accepts returns the user with the given fields changed, the others kept and the time of the
  -- call as the time of update. Afterwards lookups by its id and by its new address answer with
  -- the user as it is stored: that one, but with its name as the display name of its address, the
  -- time of update cut to the microsecond and the stored time of creation. Lookups of every other
  -- id answer as before.
  pub update-query :
      (s : S) (now : Time) (usr old : User) (updates : UpdateUser) (hash : String)
      → IsUp s
      → find s usr.id ≡ some old
      → IsNewHash lib updates.password usr.password_hash hash
      → All IsRole (given usr.roles updates.roles)
      → is_storable (changed now usr hash updates) ≡ true
      → ((other : User)
          → holder s (given usr.email updates.email).address ≡ some other
          → other.id ≡ usr.id)
      → let new = changed now usr hash updates in
        (t : S) × (update store lib now usr updates s ≡ (ok new, t))
        × IsUp t
        × (query_by_id store lib usr.id t ≡ (ok (replaced new old), t))
        × (query_by_email store lib new.email t ≡ (ok (replaced new old), t))
        × OthersKept usr.id s t
  update-query s now usr old updates hash up exists hashed valid short own =
      let new = changed now usr hash updates in
      let (done, up', step) = keeps.update_free s up new valid short own in
      let t = (store.update new s).1 in
      let after : find t usr.id ≡ some (replaced new old) =
        step usr.id ∙ rw (nat_eq_refl usr.id, exists) in
      (
        t,
        update_eq s now usr updates hash hashed done,
        up',
        here s t usr.id (λ i. Option.map (replaced new) (find s i)) up' step ∙ rw exists,
        found_by_email t up' new.email (replaced new old) after refl,
        elsewhere s t usr.id (λ i. Option.map (replaced new) (find s i)) up up' step,
      )

  -- While the store is up, deleting a user succeeds, whether or not it is stored; afterwards its id
  -- is not found and every other id is looked up as before.
  pub delete-query :
      (s : S) (usr : User)
      → IsUp s
      → (t : S) × (delete store lib usr s ≡ (ok tt, t))
        × IsUp t
        × (query_by_id store lib usr.id t
            ≡ (err (wrap "queryByID" (sentinel err_user_not_found)), t))
        × OthersKept usr.id s t
  unfolding delete
  delete-query s usr up =
      let (done, up', step) = keeps.delete_done s up usr in
      let t = (store.delete usr s).1 in
      (
        t,
        rw done,
        up',
        here s t usr.id (λ i. none) up' step,
        elsewhere s t usr.id (λ i. none) up up' step,
      )
