-- ===== src/Userdb/Store/Contract.antt =====
-- The store of internal/domains/user/store/userdb/userdb.go against the domain's contract, over a
-- database with the behaviour of Postgres.antt.
use mathlib.Core.Option
use mathlib.Core.Option.{some-injective}
use mathlib.Core.Path.{subst}
use jumble.Shared.{
  String, ◌≡◌, ◌≢◌, ◌⊎◌, ◌↔◌, refl, sym, ap, ◌∙◌, Option, none, some, All, nat_eq, inl, inr,
  if◌then◌else◌, Bool-cases, true, false,
}
use jumble.Go.Error.{sentinel, err_duplicated_email, as_pg_error}
use jumble.Bus.Roles.{scan}
use jumble.Bus.Roles.Laws.{IsRole}
use jumble.Bus.Models
use jumble.Bus.Models.{Uuid}
use jumble.Bus.Contract.{is_storable, stored, replaced, found, IsUserStore}
use jumble.Userdb.Models.{from_bus_user}
use jumble.Userdb.Database.{Database, Row}
use jumble.Userdb.Postgres.{IsPostgres, inserted, updated}
use jumble.Userdb.Store.{create, update, delete, query_by_id, query_by_email, new_store, exec_error}
use jumble.Userdb.Store.Reading.{
  view, IsReadable, first_user-view, view_fields, view-inserted, view_of_IsReadable, view-some,
  inserted-IsReadable, inserted_roles, updated-IsReadable, view-map-updated,
}

module _ {S : Type 0} (db : Database S) (uuid_string : Uuid → String) (IsUp : S → Type 0)
    (by_id : S → Uuid → Option Row) (by_email : S → String → Option Row)
    (pg : IsPostgres db uuid_string IsUp by_id by_email) where
  -- The database can be reached, and the roles of every row can be read.
  abbrev pub IsServing : S → Type 0
  IsServing s = IsUp s × ((i : Uuid) (r : Row) → by_id s i ≡ some r → IsReadable r)

  abbrev pub find : S → Uuid → Option Models.User
  find s i = view (by_id s i)

  abbrev pub holder : S → String → Option Models.User
  holder s a = view (by_email s a)

  by_email-IsReadable :
      (s : S) → IsServing s → (a : String) (r : Row) → by_email s a ≡ some r → IsReadable r
  by_email-IsReadable s (is_up, readable) a r e = readable r.id r ((pg.email_key s is_up a r).0 e).0

  view-ne-none : (r : Row) → IsReadable r → view (some r) ≢ none
  view-ne-none r (roles, e) h = cc (view_of_IsReadable r roles e, h)

  none_of_view :
      (o : Option Row) → ((r : Row) → o ≡ some r → IsReadable r) → view o ≡ none → o ≡ none
  none_of_view none h e = refl
  none_of_view (some r) h e = absurd (view-ne-none r (h r refl) e)

  row_of_view : (o : Option Row) (usr : Models.User) → view o ≡ some usr → (r : Row) × (o ≡ some r)
  row_of_view none usr e = cc
  row_of_view (some r) usr e = (r, refl)

  holder_iff :
      (s : S)
      → IsServing s
      → (a : String) (usr : Models.User)
      → (holder s a ≡ some usr) ↔ ((find s usr.id ≡ some usr) × (usr.email.address ≡ a))
  holder_iff s (is_up, readable) a usr = (to, from)
    where
      to : holder s a ≡ some usr → (find s usr.id ≡ some usr) × (usr.email.address ≡ a)
      to h =
          let (r, e) = row_of_view (by_email s a) usr h in
          let (here, address) = (pg.email_key s is_up a r).0 e in
          let seen : view (some r) ≡ some usr = sym (ap view e) ∙ h in
          let (id, email, _) = view_fields r usr (readable r.id r here) seen in
          (ap view (ap (by_id s) id ∙ here) ∙ seen, email ∙ address)

      from : (find s usr.id ≡ some usr) × (usr.email.address ≡ a) → holder s a ≡ some usr
      from (h, address) =
          let (r, e) = row_of_view (by_id s usr.id) usr h in
          let seen : view (some r) ≡ some usr = sym (ap view e) ∙ h in
          let (id, email, _) = view_fields r usr (readable usr.id r e) seen in
          ap view ((pg.email_key s is_up a r).1 (sym (ap (by_id s) id) ∙ e, sym email ∙ address))
          ∙ seen

  by_id_lem : (s : S) → IsServing s → (i : Uuid) → query_by_id db uuid_string i s ≡ found (find s i)
  unfolding query_by_id
  by_id_lem s (is_up, readable) i =
      rw (pg.select_id s is_up i) (first_user-view (by_id s i) (readable i))

  by_email_lem :
      (s : S)
      → IsServing s
      → (a : Models.Address) → query_by_email db uuid_string a s ≡ found (holder s a.address)
  unfolding query_by_email
  by_email_lem s up a =
      rw (pg.select_email s up.0 a.address)
        (first_user-view (by_email s a.address) (by_email-IsReadable s up a.address))

  -- The rows with one id are new, the others are as they were.
  IsServing-step :
      (s t : S) (k : Uuid) (new : Uuid → Option Row)
      → IsServing s
      → IsUp t
      → ((i : Uuid) → by_id t i ≡ (if nat_eq k i then new i else by_id s i))
      → ((i : Uuid) (r : Row) → new i ≡ some r → IsReadable r)
      → IsServing t
  IsServing-step s t k new (_, readable) is_up step here = (
    is_up,
    λ i r e. elim (Bool-cases (nat_eq k i)) [
      | inl same ↦ here i r (sym (step i ∙ rw same) ∙ e)
      | inr other ↦ readable i r (sym (step i ∙ rw other) ∙ e)
    ],
  )

  find-step :
      (s t : S) (k : Uuid) (new : Uuid → Option Row)
      → ((i : Uuid) → by_id t i ≡ (if nat_eq k i then new i else by_id s i))
      → (i : Uuid) → find t i ≡ (if nat_eq k i then view (new i) else find s i)
  find-step s t k new step i = elim (Bool-cases (nat_eq k i)) [
    | inl same ↦ rw same (ap view (step i ∙ rw same))
    | inr other ↦ rw other (ap view (step i ∙ rw other))
  ]

  create_new :
      (s : S)
      → IsServing s
      → (usr : Models.User) → All IsRole usr.roles
      → is_storable usr ≡ true
      → find s usr.id ≡ none
      → holder s usr.email.address ≡ none
      → ((create db uuid_string usr s).0 ≡ none)
        × IsServing (create db uuid_string usr s).1
        × ((i : Uuid)
            → find (create db uuid_string usr s).1 i
              ≡ (if nat_eq usr.id i then some (stored usr) else find s i))
  unfolding create exec_error from_bus_user
  create_new s up usr valid short fresh free =
      let u = from_bus_user usr in
      let (done, is_up, step) =
        pg.insert_new s up.0 u short (none_of_view (by_id s usr.id) (up.1 usr.id) fresh) (
          none_of_view (by_email s usr.email.address) (by_email-IsReadable s up usr.email.address)
            free) in
      (
        ap exec_error done,
        IsServing-step s _ usr.id (λ i. some (inserted u)) up is_up step
            (λ i r e. subst IsReadable (some-injective _ _ e) (inserted-IsReadable usr valid)),
        λ i. find-step s _ usr.id (λ i. some (inserted u)) step i ∙ rw (view-inserted usr valid),
      )

  create_taken :
      (s : S)
      → IsServing s
      → (usr : Models.User) → is_storable usr ≡ true
      → (find s usr.id ≢ none) ⊎ (holder s usr.email.address ≢ none)
      → create db uuid_string usr s ≡ (some (sentinel err_duplicated_email), s)
  unfolding create exec_error from_bus_user as_pg_error
  create_taken s up usr short (inl taken) =
      let (m, e) =
        pg.insert_taken s up.0 (from_bus_user usr) short (inl (λ h. taken (ap view h))) in
      rw e
  create_taken s up usr short (inr taken) =
      let (m, e) =
        pg.insert_taken s up.0 (from_bus_user usr) short (inr (λ h. taken (ap view h))) in
      rw e

  create_long :
      (s : S)
      → IsServing s
      → (usr : Models.User) → All IsRole usr.roles
      → is_storable usr ≡ false
      → IsServing (create db uuid_string usr s).1
        × ((i : Uuid)
            → (find (create db uuid_string usr s).1 i ≡ find s i)
              ⊎ ((usr.id ≡ i) × (find s i ≡ none)))
  unfolding create from_bus_user
  create_long s up usr valid long =
      let (is_up, step) = pg.insert_long s up.0 (from_bus_user usr) long in
      (
        (
          is_up,
          λ i r e. elim (step i) [
            | inl same ↦ up.1 i r (sym same ∙ e)
            | inr (_, _, written) ↦
                (usr.roles, ap scan (written r e) ∙ inserted_roles usr.roles valid)
          ],
        ),
        λ i. elim (step i) [
          | inl same ↦ inl (ap view same)
          | inr (id, absent, _) ↦ inr (id, ap view absent)
        ],
      )

  delete_done :
      (s : S)
      → IsServing s
      → (usr : Models.User)
      → ((delete db uuid_string usr s).0 ≡ none)
        × IsServing (delete db uuid_string usr s).1
        × ((i : Uuid)
            → find (delete db uuid_string usr s).1 i ≡ (if nat_eq usr.id i then none else find s i))
  unfolding delete from_bus_user
  delete_done s up usr =
      let (done, is_up, step) = pg.delete_done s up.0 (from_bus_user usr) in
      (
        rw done,
        IsServing-step s _ usr.id (λ i. none) up is_up step (λ i r e. absurd (cc e)),
        find-step s _ usr.id (λ i. none) step,
      )

  -- The holder of an address, as the row with that address.
  holder-row :
      (s : S)
      → IsServing s
      → (a : String) (r : Row) → by_email s a ≡ some r
      → (usr : Models.User) × (holder s a ≡ some usr) × (usr.id ≡ r.id)
  holder-row s up a r e =
      let readable = by_email-IsReadable s up a r e in
      let (usr, h) = view-some r readable in
      let (id, _, _) = view_fields r usr readable h in (usr, ap view e ∙ h, id)

  update_free :
      (s : S)
      → IsServing s
      → (usr : Models.User) → All IsRole usr.roles
      → is_storable usr ≡ true
      → ((other : Models.User) → holder s usr.email.address ≡ some other → other.id ≡ usr.id)
      → ((update db uuid_string usr s).0 ≡ none)
        × IsServing (update db uuid_string usr s).1
        × ((i : Uuid)
            → find (update db uuid_string usr s).1 i
              ≡ (if nat_eq usr.id i then Option.map (replaced usr) (find s i) else find s i))
  unfolding update exec_error from_bus_user
  update_free s up usr valid short own =
      let u = from_bus_user usr in
      let (done, is_up, step) = pg.update_free s up.0 u short (λ r e.
        let (other, h, id) = holder-row s up usr.email.address r e in sym id ∙ own other h) in
      (
        ap exec_error done,
        IsServing-step s _ usr.id (λ i. Option.map (updated u) (by_id s i)) up is_up step
            (λ i r e. updated-IsReadable usr valid (by_id s i) r e),
        λ i.
            find-step s _ usr.id (λ i. Option.map (updated u) (by_id s i)) step i
            ∙ rw (view-map-updated usr valid (by_id s i) (up.1 i)),
      )

  update_taken :
      (s : S)
      → IsServing s
      → (usr other : Models.User) → is_storable usr ≡ true
      → find s usr.id ≢ none
      → holder s usr.email.address ≡ some other
      → other.id ≢ usr.id
      → update db uuid_string usr s ≡ (some (sentinel err_duplicated_email), s)
  unfolding update exec_error from_bus_user as_pg_error
  update_taken s up usr other short exists held differs =
      let (r, e) = row_of_view (by_email s usr.email.address) other held in
      let (id, _, _) =
        view_fields r other (by_email-IsReadable s up usr.email.address r e)
          (sym (ap view e) ∙ held) in
      let (m, done) =
        pg.update_taken s up.0 (from_bus_user usr) r short (λ h. exists (ap view h)) e
          (λ h. differs (id ∙ h)) in
      rw done

  -- Over such a database the store keeps the domain's contract: lookups by id and by address agree
  -- and addresses stay unique. For texts that the columns take: a created or updated user is read
  -- back with its own name as the display name and its times to the microsecond, an update keeps
  -- the time of creation, and a taken address is reported as the duplicated-email error with
  -- nothing changed. Creating a user with longer texts affects no user who is stored.
  pub new_store-IsUserStore : IsUserStore (new_store db uuid_string) IsServing find holder
  unfolding new_store
  new_store-IsUserStore = record {
    holder_iff = holder_iff;
    by_id = by_id_lem;
    by_email = by_email_lem;
    create_new = create_new;
    create_taken = create_taken;
    create_long = create_long;
    update_free = update_free;
    update_taken = update_taken;
    delete_done = delete_done;
  }
