-- ===== src/Bus/Users/Login.antt =====
-- Logging in with the Authenticate of internal/domains/user/bus/bus.go, over any store that keeps
-- the contract.
use jumble.Shared.{
  nat_eq_refl, String, true, ◌≡◌, ◌↔◌, inl, inr, refl, ap, sym, ◌∙◌, Option, none, some,
  Option-cases, All,
}
use mathlib.Core.Option.{some-injective}
use mathlib.Core.Path.{subst}
use jumble.Go.Error.{ok, ok-injective}
use jumble.Bus.Roles.Laws.{IsRole}
use jumble.Bus.Models.{Uuid, Time, Address, User, NewUser}
use jumble.Bus.Store.{Store}
use jumble.Bus.Services.{Services}
use jumble.Bus.Contract.{is_storable, stored, found, IsUserStore}
use jumble.Bus.Users.{create, authenticate}
use jumble.Bus.Users.Laws.{registered, create_eq}

module _ {S : Type 0} (store : Store S) (lib : Services) {IsUp : S → Type 0}
    {find : S → Uuid → Option User} {holder : S → String → Option User}
    (keeps : IsUserStore store IsUp find holder) where
  logged_in :
      (s : S) (email : Address) (password : String) (usr : User) (o : Option User)
      → store.query_by_email email s ≡ found o
      → (authenticate store lib email password s ≡ (ok usr, s))
        ↔ ((o ≡ some usr) × (lib.compare_hash_and_password usr.password_hash password ≡ none))
  unfolding authenticate
  logged_in s email password usr none e =
      rw e (λ h. absurd (cc (ap (λ x. x.0) h)), λ h. absurd (cc h.0))
  logged_in s email password usr (some u) e =
      elim (Option-cases (lib.compare_hash_and_password u.password_hash password)) [
        | inl m ↦
            rw (e, m)
              (
                λ h.
                    let same = ok-injective (ap (λ x. x.0) h) in
                    (
                      ap some same,
                      subst (λ x. lib.compare_hash_and_password x.password_hash password ≡ none)
                          same m,
                    ),
                λ h. ap (λ x. (ok x, s)) (some-injective _ _ h.0),
              )
        | inr (w, m) ↦
            rw (e, m)
              (
                λ h. absurd (cc (ap (λ x. x.0) h)),
                λ h. absurd (
                    cc (
                      sym m,
                      subst (λ x. lib.compare_hash_and_password x.password_hash password ≡ none)
                          (sym (some-injective _ _ h.0)) h.1,
                    )),
              )
      ]

  -- While the store is up, logging in succeeds exactly for the user who holds the address, and when
  -- bcrypt matches the password with the stored hash; the store is left as it was.
  pub authenticate-eq-ok_iff :
      (s : S) (email : Address) (password : String) (usr : User)
      → IsUp s
      → (authenticate store lib email password s ≡ (ok usr, s)) ↔ (
          (holder s email.address ≡ some usr)
          × (lib.compare_hash_and_password usr.password_hash password ≡ none))
  authenticate-eq-ok_iff s email password usr up =
      logged_in s email password usr (holder s email.address) (keeps.by_email s up email)

  -- While the store is up, a user registered with a fresh id, a free address, valid roles, texts
  -- that the columns take and a password whose hash bcrypt makes and matches with it can log in
  -- afterwards with that address and password.
  pub authenticate-create :
      (s : S) (now : Time) (id : Uuid) (nu : NewUser) (hash : String)
      → IsUp s
      → All IsRole nu.roles
      → is_storable (registered now id hash nu) ≡ true
      → lib.generate_from_password nu.password ≡ ok hash
      → lib.compare_hash_and_password hash nu.password ≡ none
      → find s id ≡ none
      → holder s nu.email.address ≡ none
      → let usr = registered now id hash nu in
        (t : S) × (create store lib now id nu s ≡ (ok usr, t))
        × (authenticate store lib nu.email nu.password t ≡ (ok (stored usr), t))
  authenticate-create s now id nu hash up valid short hashed matches fresh free =
      let usr = registered now id hash nu in
      let (done, up', step) = keeps.create_new s up usr valid short fresh free in
      let t = (store.create usr s).1 in
      let here_now : find t id ≡ some (stored usr) = step id ∙ rw (nat_eq_refl id) in
      let held = (keeps.holder_iff t up' nu.email.address (stored usr)).1 (here_now, refl) in
      (
        t,
        create_eq store lib keeps s now id nu hash hashed done,
        (authenticate-eq-ok_iff t nu.email nu.password (stored usr) up').1 (held, matches),
      )
