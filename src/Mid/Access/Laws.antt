-- ===== src/Mid/Access/Laws.antt =====
-- Who goes on to the next handler, after internal/mid/authenticate.go and authorized.go.
use jumble.Shared.{
  String, true, ◌≡◌, ◌≢◌, ◌∙◌, Option-cases, ◌⊎◌, inl, inr, refl, ap, none, some, List, [], sym,
  Bool-cases, ◌==◌, Option, if◌then◌else◌,
}
use mathlib.Core.Path.{subst}
use jumble.Go.Error.{ok, Result-cases, is, err_user_not_found}
use jumble.Bus.Models.{User, Uuid}
use jumble.Bus.Users
use jumble.Auth
use jumble.Auth.{Claims}
use jumble.Auth.Laws.{SharesRole, authorized-eq-none_iff}
use jumble.Handler.Reply.{Value, user_value, claims_value, other_value}
use jumble.Handler.Endpoints.{App}
use jumble.Mid.Access.{
  Keys, aborts, proceeds, authenticate, subject_user, looked_up, admitted, authorized, checked,
  claims_checked,
}

roles_in : Option Value → List String
roles_in (some (claims_value c)) = c.roles
roles_in _ = []

admitted_lem :
    (c : Claims) (keys : Keys) (usr : User)
    → usr.enabled ≡ true
    → admitted c keys usr
      ≡ proceeds (record { claims = some (claims_value c); user = some (user_value usr) })
unfolding admitted
admitted_lem c keys usr h =
    ap
      (λ b.
        if b
        then proceeds (record { claims = some (claims_value c); user = some (user_value usr) })
        else aborts 401 "user is disabled")
      h

-- A context's value holds claims, or none.
Claims-cases :
    (roles : List String) (keys : Keys) (o : Option Value)
    → ((c : Claims) × (o ≡ some (claims_value c)))
      ⊎ ((claims_checked keys roles o ≡ aborts 401 "Unauthorized")
          × ((c : Claims) → o ≢ some (claims_value c)))
unfolding claims_checked
Claims-cases roles keys none = inr (refl, λ c h. cc h)
Claims-cases roles keys (some (claims_value c)) = inl (c, refl)
Claims-cases roles keys (some (user_value u)) = inr (refl, λ c h. cc h)
Claims-cases roles keys (some other_value) = inr (refl, λ c h. cc h)

checked_lem :
    (roles : List String) (keys : Keys) (c : Claims)
    → ((checked keys roles c ≡ proceeds keys) × SharesRole c.roles roles)
      ⊎ ((checked keys roles c ≡ aborts 401 "Unauthorized") × (SharesRole c.roles roles → ⊥))
unfolding checked
checked_lem roles keys c =
    let ((to, from), _) = authorized-eq-none_iff c roles in
    elim (Option-cases (Auth.authorized c roles)) [
      | inl e ↦ rw (checked, e) (inl (refl, to e))
      | inr (w, e) ↦ rw (checked, e) (inr (refl, λ h. absurd (cc (sym e, from h))))
    ]

-- Authorized lets a chain go on, with its keys as they were, exactly when the claims in them name a
-- role of the set; otherwise it aborts with 401.
pub authorized_lem :
    (roles : List String) (keys : Keys)
    → ((authorized roles keys ≡ proceeds keys)
        × ((c : Claims) × (keys.claims ≡ some (claims_value c)) × SharesRole c.roles roles))
      ⊎ ((authorized roles keys ≡ aborts 401 "Unauthorized")
          × (((c : Claims) × (keys.claims ≡ some (claims_value c)) × SharesRole c.roles roles) → ⊥))
unfolding authorized claims_checked roles_in
authorized_lem roles keys = elim (Claims-cases roles keys keys.claims) [
  | inr (e, no_claims) ↦ inr (e, λ (c, h, _). no_claims c h)
  | inl (c, e) ↦ elim (checked_lem roles keys c) [
    | inl (p, shares) ↦ inl (ap (claims_checked keys roles) e ∙ p, (c, e, shares))
    | inr (p, no_role) ↦ inr (
      ap (claims_checked keys roles) e ∙ p,
      λ (d, h, shares). no_role (subst (λ x. SharesRole x roles) (ap roles_in (sym h ∙ e)) shares),
    )
  ]
]

module _ {S Private Public : Type 0} (app : App S Private Public) where
  -- The keys that an authenticated request carries: verified claims, and the enabled user whom the
  -- store has under their subject.
  abbrev pub IsAuthentic : String → Keys → S → Type 0
  IsAuthentic token keys s =
      (c : Claims) × (id : Uuid) × (usr : User) × (Auth.verify_token app.loader app.jwt token
        ≡ ok c)
      × (app.lib.parse_uuid c.subject ≡ ok id)
      × (app.store.query_by_id id s ≡ ok usr)
      × (usr.enabled ≡ true)
      × (keys.claims ≡ some (claims_value c))
      × (keys.user ≡ some (user_value usr))

  -- Authenticate either aborts with 401, or with 500, or lets the chain go on with verified claims
  -- and the enabled user whom the store has under their subject.
  pub authenticate_lem :
      (token : String) (keys : Keys) (s : S)
      → ((m : String) × (authenticate app token keys s ≡ aborts 401 m))
        ⊎ ((authenticate app token keys s ≡ aborts 500 "Internal Server Error")
            ⊎ ((k : Keys) × (authenticate app token keys s ≡ proceeds k) × IsAuthentic token k s))
  unfolding authenticate subject_user looked_up admitted Users.query_by_id is
  authenticate_lem token keys s = elim (Result-cases (Auth.verify_token app.loader app.jwt token)) [
    | inr (w, e) ↦ rw (authenticate, e) (inl (_, refl))
    | inl (c, e) ↦ elim (Bool-cases (c.subject == "")) [
      | inl empty ↦ rw (authenticate, e, subject_user, empty) (inl (_, refl))
      | inr subject ↦ elim (Result-cases (app.lib.parse_uuid c.subject)) [
        | inr (w, i) ↦ rw (authenticate, e, subject_user, subject, i) (inl (_, refl))
        | inl (id, i) ↦ elim (Result-cases (app.store.query_by_id id s)) [
          | inr (w, q) ↦ elim (Bool-cases (is w err_user_not_found)) [
            | inl unknown ↦
                rw (authenticate, e, subject_user, subject, i, q, looked_up, unknown)
                  (inl (_, refl))
            | inr other ↦
                rw (authenticate, e, subject_user, subject, i, q, looked_up, other) (inr (inl refl))
          ]
          | inl (usr, q) ↦ elim (Bool-cases usr.enabled) [
            | inl enabled ↦
                rw
                  (
                    authenticate,
                    e,
                    subject_user,
                    subject,
                    i,
                    q,
                    looked_up,
                    admitted_lem c keys usr enabled,
                  )
                  (inr (inr (_, refl, (c, id, usr, refl, i, q, enabled, refl, refl))))
            | inr disabled ↦
                rw (authenticate, e, subject_user, subject, i, q, looked_up, admitted, disabled)
                  (inl (_, refl))
          ]
        ]
      ]
    ]
  ]
