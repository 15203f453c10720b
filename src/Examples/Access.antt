-- ===== src/Examples/Access.antt =====
-- Tokens, roles, error responses and counters.
use jumble.Shared.{
  ℕ, String, ◌≡◌, ◌⊎◌, ◌↔◌, ◌<◌, ◌^◌, refl, ap, sym, inl, inr, none, some, List, [], ◌∷◌, ◌++◌,
  ◌==◌, true, false, arith, eq_iff, Bool-cases, length,
}
use mathlib.Core.Path.{subst}
use jumble.Go.Error.{Result, ok, plain, validation, ok-injective, Result-cases}
use jumble.Go.Text.{◌^^◌}
use jumble.Auth.{Claims, Kid, kid, Parsed, generate_token, verify_token}
use jumble.Auth.Laws.{
  SharesRole, IsJwt, Verified, verify_token-eq-ok_iff, verify_token-generate_token,
}
use jumble.Bus.Contract.{stored}
use jumble.Handler.Reply.{user_value, claims_value}
use jumble.Mid.Access
use jumble.Mid.Access.{Keys, aborts, proceeds}
use jumble.Mid.Access.Laws.{authorized_lem, authenticate_lem, IsAuthentic}
use jumble.Mid.Errors.{ErrorBody, respond, logged}
use jumble.Mid.Errors.Laws.{Answers, Shows, respond_lem}
use jumble.Mid.Counting.{Ending, answered, panicked}
use jumble.Examples.Users.{anna, one}
use jumble.Examples.Requests.{loader, jwt, claims_1, app}

abbrev IsSigned : String → Kid → Claims → ℕ → Type 0
IsSigned t k c public = (t ≡ "token") × (k ≡ kid "k") × (c ≡ claims_1)

abbrev IsPair : ℕ → ℕ → Type 0
IsPair a b = a ≡ b

abbrev IsLive : Claims → Type 0
IsLive c = c ≡ claims_1

abbrev proof_of : Claims → Parsed
proof_of c = record { claims = c; valid = true }

Signed : String → (Kid → Result ℕ) → Claims → Type 0
Signed t key_of c = (k : Kid) × (public : ℕ) × (key_of k ≡ ok public) × IsSigned t k c public

parse_to :
    (t : String) (key_of : Kid → Result ℕ) (c : Claims)
    → jwt.parse_with_claims t key_of ≡ ok (proof_of c)
    → Signed t key_of c
unfolding Signed
parse_to t key_of c h = elim (Bool-cases (t == "token")) [
  | inr other ↦ absurd (cc (rw other at h))
  | inl same ↦ elim (Result-cases (key_of (kid "k"))) [
    | inr (w, e) ↦ absurd (cc (rw (same, e) at h))
    | inl (p, e) ↦ (
      kid "k",
      p,
      e,
      (
        (eq_iff t "token").0 same,
        refl,
        ap (λ (x : Parsed). x.claims) (sym (ok-injective (rw (same, e) at h))),
      ),
    )
  ]
]

parse_from :
    (t : String) (key_of : Kid → Result ℕ) (c : Claims)
    → Signed t key_of c
    → jwt.parse_with_claims t key_of ≡ ok (proof_of c)
unfolding Signed
parse_from t key_of c (k, p, e, (et, ek, ec)) =
    let key : key_of (kid "k") ≡ ok p = subst (λ k. key_of k ≡ ok p) ek e in rw (et, ec, key) refl

pub parses : IsJwt jwt IsSigned IsPair IsLive
unfolding Signed
parses = record {
  parse_iff = λ t key_of c. (parse_to t key_of c, parse_from t key_of c);
  sign_signed = λ id t c private public h pair live. signed id t c h live;
}
  where
    signed :
        (id t : String) (c : Claims)
        → jwt.signed_string id c 0 ≡ ok t
        → IsLive c
        → IsSigned t (kid id) c 0
    signed id t c h live = elim (Bool-cases (id == "k")) [
      | inl same ↦ (sym (ok-injective (rw same at h)), ap kid ((eq_iff id "k").0 same), live)
      | inr other ↦ absurd (cc (rw other at h))
    ]

verify_token-eq-ok_iff_example :
    (verify_token loader jwt "Bearer token" ≡ ok claims_1)
    ↔ Verified loader jwt parses "Bearer token" claims_1
verify_token-eq-ok_iff_example = verify_token-eq-ok_iff loader jwt parses "Bearer token" claims_1

signs : generate_token loader jwt "k" claims_1 ≡ ok "token"
unfolding generate_token
signs = refl

verify_token-generate_token_example : verify_token loader jwt ("Bearer " ^^ "token") ≡ ok claims_1
verify_token-generate_token_example =
    verify_token-generate_token loader jwt parses "k" "token" claims_1 7 7 refl refl refl refl signs

-- Anna's keys, after she was authenticated.
abbrev pub keys : Keys
keys = record { claims = some (claims_value claims_1); user = some (user_value (stored anna)) }

authorized_lem_example :
    ((Access.authorized ("admin" ∷ []) keys ≡ proceeds keys)
      × ((c : Claims) × (some (claims_value claims_1) ≡ some (claims_value c))
          × SharesRole c.roles ("admin" ∷ [])))
    ⊎ ((Access.authorized ("admin" ∷ []) keys ≡ aborts 401 "Unauthorized")
        × (((c : Claims) × (some (claims_value claims_1) ≡ some (claims_value c))
              × SharesRole c.roles ("admin" ∷ []))
            → ⊥))
authorized_lem_example = authorized_lem ("admin" ∷ []) keys

abbrev no_keys : Keys
no_keys = record { claims = none; user = none }

authenticate_lem_example :
    ((m : String) × (Access.authenticate app "Bearer token" no_keys one ≡ aborts 401 m))
    ⊎ ((Access.authenticate app "Bearer token" no_keys one ≡ aborts 500 "Internal Server Error")
        ⊎ ((k : Keys) × (Access.authenticate app "Bearer token" no_keys one ≡ proceeds k)
            × IsAuthentic app "Bearer token" k one))
authenticate_lem_example = authenticate_lem app "Bearer token" no_keys one

abbrev translate : String → String → String
translate f tag = f

respond_lem_example :
    (r : ℕ × ErrorBody) × (respond translate false
        ((plain "first" ∷ []) ++ (validation (("name", "min") ∷ []) ∷ []))
      ≡ some r)
    × Answers (validation (("name", "min") ∷ [])) r
    × Shows
        (validation (("name", "min") ∷ []))
        (logged false ((plain "first" ∷ []) ++ (validation (("name", "min") ∷ []) ∷ [])))
respond_lem_example = respond_lem translate (plain "first" ∷ []) (validation (("name", "min") ∷ []))

-- Three requests: one is answered, one has a wrong token, one panics.
abbrev served : List (ℕ × Ending)
served = (9, answered 200) ∷ (9, answered 401) ∷ (9, panicked) ∷ []

few : length served < 2 ^ 64
few = omega arith
