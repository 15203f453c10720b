-- ===== src/Auth/Laws.antt =====
-- Tokens and roles of internal/auth/auth.go: who is let through.
use Prim.Native.String.{[], ◌∷◌}
use jumble.Shared.{
  ℕ, suc, code, nat_eq, ◌&&◌, String, true, false, ◌≡◌, ◌⊎◌, ◌↔◌, inl, inr, refl, ap, ◌∙◌, sym,
  none, some, List, [], ◌∷◌, Any, contains, arith, eq_iff, Bool-cases,
}
use text.Mathlib.TextEquality.{Char-path}
use mathlib.Core.Path.{subst}
use jumble.Go.Error.{
  Result, ok, err, Result-cases, plain, sentinel, err_forbidden, >>=-eq-ok, context-eq-ok,
  ok-injective,
}
use jumble.Go.Text.{◌^^◌, has_prefix, drop}
use jumble.Auth.{
  Claims, Kid, kid, missing, not_text, KeyLoader, Jwt, generate_token, key_func, verify_token,
  authorized_roles, authorized,
}

-- The claims name a role of the set.
abbrev pub SharesRole : List String → List String → Type 0
SharesRole roles role_set = Any (λ role. Any (λ r. r ≡ role) role_set) roles

contains_iff :
    (rs : List String) (role : String) → (contains rs role ≡ true) ↔ Any (λ r. r ≡ role) rs
contains_iff [] role = (λ h. absurd (cc h), λ h. absurd (h tt))
contains_iff (r ∷ rs) role =
    let (to, from) = contains_iff rs role in
    (λ h. ground (arith, eq_iff r role, to), λ h. ground (arith, eq_iff r role, from))

authorized_roles_iff :
    (roles rs : List String) → (authorized_roles roles rs ≡ none) ↔ SharesRole roles rs
unfolding authorized_roles
authorized_roles_iff [] rs = (λ h. absurd (cc h), λ h. absurd (h tt))
authorized_roles_iff (role ∷ roles) rs =
    let (to, from) = contains_iff rs role in
    let (to', from') = authorized_roles_iff roles rs in
    elim (Bool-cases (contains rs role)) [
      | inl e ↦ rw e (λ h. inl (to e), λ h. refl)
      | inr e ↦ rw e (
        λ h. inr (to' h),
        λ h. elim h [ inl here ↦ absurd (cc (sym e, from here)) | inr there ↦ from' there ],
      )
    ]

authorized_roles_error :
    (roles rs : List String)
    → (authorized_roles roles rs ≡ none)
      ⊎ (authorized_roles roles rs ≡ some (sentinel err_forbidden))
unfolding authorized_roles
authorized_roles_error [] rs = inr refl
authorized_roles_error (role ∷ roles) rs = elim (Bool-cases (contains rs role)) [
  | inl e ↦ rw e (inl refl)
  | inr e ↦ rw e (authorized_roles_error roles rs)
]

-- The claims are authorized exactly when they name a role of the set, and the only other answer is
-- the forbidden error.
pub authorized-eq-none_iff :
    (c : Claims) (role_set : List String)
    → ((authorized c role_set ≡ none) ↔ SharesRole c.roles role_set)
      × ((authorized c role_set ≡ none) ⊎ (authorized c role_set ≡ some (sentinel err_forbidden)))
unfolding authorized
authorized-eq-none_iff c role_set =
    (authorized_roles_iff c.roles role_set, authorized_roles_error c.roles role_set)

size : String → ℕ
size [] = 0
size (c ∷ s) = suc (size s)

has_prefix-drop : (s p : String) → has_prefix s p ≡ true → s ≡ p ^^ drop (size p) s
unfolding size
has_prefix-drop s [] h = refl
has_prefix-drop [] (d ∷ p) h = absurd (cc h)
has_prefix-drop (c ∷ s) (d ∷ p) h = elim (Bool-cases (nat_eq (code c) (code d))) [
  | inl e ↦ cc (Char-path c d (ground arith), has_prefix-drop s p (rw (← h) (rw e)))
  | inr e ↦ absurd (cc (sym h, ap (λ b. b && has_prefix s p) e))
]

-- The documented behaviour of golang-jwt. `IsSigned token k c public`: the token is unexpired, its
-- header has for "kid" what `k` says, which may be nothing or no text, it has the claims `c`, and
-- its signature is one that `public` verifies. The key function is asked whatever the header holds.
pub record IsJwt {Private Public : Type 0} (jwt : Jwt Private Public)
    (IsSigned : String → Kid → Claims → Public → Type 0) (IsPair : Private → Public → Type 0)
    (IsLive : Claims → Type 0) : Type 0 where
  pub parse_iff :
      (token : String) (key_of : Kid → Result Public) (c : Claims)
      → (jwt.parse_with_claims token key_of ≡ ok (record { claims = c; valid = true }))
        ↔ ((k : Kid) × (public : Public) × (key_of k ≡ ok public) × IsSigned token k c public)
  pub sign_signed :
      (id token : String) (c : Claims) (private : Private) (public : Public)
      → jwt.signed_string id c private ≡ ok token
      → IsPair private public
      → IsLive c
      → IsSigned token (kid id) c public

verify_refused :
    {Private Public : Type 0} (loader : KeyLoader Private Public) (jwt : Jwt Private Public)
    (bearer : String)
    → has_prefix bearer "Bearer " ≡ false
    → verify_token loader jwt bearer
      ≡ err (plain "expected authorization header format: Bearer <token>")
unfolding verify_token
verify_refused loader jwt bearer e = rw e

prefix_of :
    {Private Public : Type 0} (loader : KeyLoader Private Public) (jwt : Jwt Private Public)
    (bearer : String) (c : Claims)
    → verify_token loader jwt bearer ≡ ok c
    → has_prefix bearer "Bearer " ≡ true
unfolding verify_token
prefix_of loader jwt bearer c h = elim (Bool-cases (has_prefix bearer "Bearer ")) [
  | inl e ↦ e
  | inr e ↦ absurd (cc (sym h, verify_refused loader jwt bearer e))
]

module _ {Private Public : Type 0} (loader : KeyLoader Private Public) (jwt : Jwt Private Public)
    {IsSigned : String → Kid → Claims → Public → Type 0} {IsPair : Private → Public → Type 0}
    {IsLive : Claims → Type 0} (parses : IsJwt jwt IsSigned IsPair IsLive) where
  -- What a verified token proves.
  abbrev pub Verified : String → Claims → Type 0
  Verified bearer c =
      (token id : String) × (public : Public) × (bearer ≡ "Bearer " ^^ token)
      × (loader.public_key id ≡ ok public)
      × IsSigned token (kid id) c public

  -- The key function gives a key only for a "kid" that is a text.
  key_of_text :
      (k : Kid) (public : Public)
      → key_func loader jwt k ≡ ok public
      → (id : String) × (k ≡ kid id) × (loader.public_key id ≡ ok public)
  unfolding key_func
  key_of_text missing public e = absurd (cc e)
  key_of_text not_text public e = absurd (cc e)
  key_of_text (kid id) public e = (id, refl, context-eq-ok _ _ e)

  parse_verified :
      (token : String) (c : Claims)
      → (jwt.parse_with_claims token (key_func loader jwt)
          ≡ ok (record { claims = c; valid = true }))
        ↔ ((id : String) × (public : Public) × (loader.public_key id ≡ ok public)
            × IsSigned token (kid id) c public)
  unfolding key_func
  parse_verified token c =
      let (to, from) = parses.parse_iff token (key_func loader jwt) c in
      (
        λ h.
            let (k, public, e, signed) = to h in
            let (id, is, loaded) = key_of_text k public e in
            (id, public, loaded, subst (λ k. IsSigned token k c public) is signed),
        λ h. let (id, public, e, signed) = h in from (kid id, public, rw e, signed),
      )

  valid_iff :
      (bearer : String) (c : Claims)
      → has_prefix bearer "Bearer " ≡ true
      → (verify_token loader jwt bearer ≡ ok c) ↔ (
          jwt.parse_with_claims (drop 7 bearer) (key_func loader jwt)
          ≡ ok (record { claims = c; valid = true }))
  unfolding verify_token
  valid_iff bearer c p =
      rw p (elim (Result-cases (jwt.parse_with_claims (drop 7 bearer) (key_func loader jwt))) [
        | inl (v, e) ↦ rw e (elim (Bool-cases v.valid) [
          | inl is_valid ↦
              rw is_valid
                (λ h. ap ok (cc (ok-injective h)), λ h. ap (λ x. ok x.claims) (ok-injective h))
          | inr invalid ↦
              rw invalid (λ h. absurd (cc h), λ h. absurd (cc (ap (λ x. x.valid) (ok-injective h))))
        ])
        | inr (w, e) ↦ rw e (λ h. absurd (cc h), λ h. absurd (cc h))
      ])

  -- VerifyToken accepts a header with claims exactly when it is "Bearer " and a live token with
  -- those claims, whose header has a text for "kid" and whose signature is verified by the public
  -- key that the loader has for that text.
  pub verify_token-eq-ok_iff :
      (bearer : String) (c : Claims) → (verify_token loader jwt bearer ≡ ok c) ↔ Verified bearer c
  unfolding size
  verify_token-eq-ok_iff bearer c = (to, from)
    where
      to : verify_token loader jwt bearer ≡ ok c → Verified bearer c
      to h =
          let p = prefix_of loader jwt bearer c h in
          let (id, public, loaded, signed) =
            (parse_verified (drop 7 bearer) c).0 ((valid_iff bearer c p).0 h) in
          (drop 7 bearer, id, public, has_prefix-drop bearer "Bearer " p, loaded, signed)

      from : Verified bearer c → verify_token loader jwt bearer ≡ ok c
      from (token, id, public, e, loaded, signed) = rw e (
          (valid_iff ("Bearer " ^^ token) c refl).1
            ((parse_verified token c).1 (id, public, loaded, signed)))

  -- A token that GenerateToken signs is accepted with its claims, while they are live and the
  -- loader's public key is the private key's.
  pub verify_token-generate_token :
      (id token : String) (c : Claims) (private : Private) (public : Public)
      → loader.private_key id ≡ ok private
      → loader.public_key id ≡ ok public
      → IsPair private public
      → IsLive c
      → generate_token loader jwt id c ≡ ok token
      → verify_token loader jwt ("Bearer " ^^ token) ≡ ok c
  unfolding generate_token
  verify_token-generate_token id token c private public ep eq pair live h =
      let (k, ek, signed) = >>=-eq-ok _ _ h in
      let same : private ≡ k = ok-injective (sym ep ∙ context-eq-ok _ _ ek) in
      (verify_token-eq-ok_iff ("Bearer " ^^ token) c).1 (
        token,
        id,
        public,
        refl,
        eq,
        parses.sign_signed id token c private public
            (ap (jwt.signed_string id c) same ∙ context-eq-ok _ _ signed) pair live,
      )
