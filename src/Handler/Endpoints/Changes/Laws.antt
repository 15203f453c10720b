-- ===== src/Handler/Endpoints/Changes/Laws.antt =====
-- Who may change whom in DeleteUser, UpdateUser, UpdateRole and DisableUser of
-- internal/domains/user/handler/handler.go.
use jumble.Shared.{
  ℕ, String, true, false, not, ◌≡◌, ◌⊎◌, ◌&&◌, inl, inr, refl, ap, none, some, nat_eq, Bool-cases,
  Option, Option-cases, arith, Any, eq_iff, List, [], ◌∷◌,
}
use jumble.Go.Error.{Error, ok, Result-cases}
use jumble.Bus.Roles.{Role}
use jumble.Bus.Models.{Uuid, User, Time}
use jumble.Bus.Models
use jumble.Bus.Users
use jumble.Handler.Models.{UpdateUser, to_bus_update_user, nil_dereference}
use jumble.Go.Action.{Call-cases, returns}
use jumble.Handler.Binding.{bind_update_user, bind_update_user_roles}
use jumble.Handler.Reply.{
  stop, panicked, Outcome, failed, Value, user_value, claims_value, other_value, Request,
}
use jumble.Handler.Endpoints.Common.{App, is_admin, user_of}
use jumble.Handler.Endpoints.Changes.{delete_user, update_user, update_role, disable_user}

-- The request's context holds this user: what Authenticate stores there.
abbrev pub ActsAs : Request → User → Type 0
ActsAs r usr = r.user_key ≡ some (user_value usr)

Value-cases :
    (func : String) (absent other : ℕ) (o : Option Value)
    → ((usr : User) × (o ≡ some (user_value usr)))
      ⊎ ((e : Error) × (user_of func absent other o ≡ stop (failed e)))
Value-cases func absent other none = inr (_, refl)
Value-cases func absent other (some (user_value usr)) = inl (usr, refl)
Value-cases func absent other (some (claims_value c)) = inr (_, refl)
Value-cases func absent other (some other_value) = inr (_, refl)

-- The user has the id, or one of its roles is that of an administrator.
abbrev pub MayChange : User → Uuid → Type 0
MayChange usr id = (usr.id ≡ id) ⊎ Any (λ (r : Role). r.value ≡ "admin") usr.roles

is_admin_lem :
    (roles : List Role) → is_admin roles ≡ true → Any (λ (r : Role). r.value ≡ "admin") roles
unfolding is_admin
is_admin_lem [] h = absurd (cc h)
is_admin_lem (r ∷ roles) h = ground (arith, eq_iff r.value "admin", is_admin_lem roles)

may_change :
    (usr : User) (id : Uuid)
    → (not (nat_eq id usr.id) && not (is_admin usr.roles)) ≡ false
    → MayChange usr id
may_change usr id h = elim (Bool-cases (is_admin usr.roles)) [
  | inl admin ↦ inr (is_admin_lem usr.roles admin)
  | inr other ↦ inl (ground arith)
]

-- The answer to a refused request: an error goes to gin, and the store is as before.
abbrev pub IsRefused : {S : Type 0} → Outcome × S → S → Type 0
IsRefused r s = ((e : Error) × (r.0 ≡ failed e)) × (r.1 ≡ s)

module _ {S Private Public : Type 0} (app : App S Private Public) where
  -- The store after the stored user with the id was deleted for a user who may.
  abbrev pub IsDeleted : Request → S → S → Type 0
  IsDeleted r s t =
      (usr : User) × (id : Uuid) × (target : User) × ActsAs r usr
      × (app.lib.parse_uuid r.id_param ≡ ok id)
      × MayChange usr id
      × (app.store.query_by_id id s ≡ ok target)
      × (t ≡ (app.store.delete target s).1)

  -- DeleteUser refuses a request and leaves the store as it was, or else the request names the id
  -- of a stored user, comes from that user or from one who has the role "admin", and the store's
  -- Delete is called with that user.
  pub delete_user_lem :
      (r : Request) (s : S)
      → IsRefused (delete_user app r s) s ⊎ IsDeleted r s (delete_user app r s).1
  unfolding delete_user Users.query_by_id Users.delete
  delete_user_lem r s = elim (Result-cases (app.lib.parse_uuid r.id_param)) [
    | inr (w, e) ↦ rw e (inl ((_, refl), refl))
    | inl (id, e) ↦ elim (Value-cases "DeleteUser" 118 124 r.user_key) [
      | inr (w, u) ↦ rw (e, u) (inl ((_, refl), refl))
      | inl (usr, u) ↦ elim (Bool-cases (not (nat_eq id usr.id) && not (is_admin usr.roles))) [
        | inl refused ↦ rw (e, u, refused) (inl ((_, refl), refl))
        | inr allowed ↦ elim (Result-cases (app.store.query_by_id id s)) [
          | inr (w, q) ↦ rw (e, u, allowed, q) (inl ((_, refl), refl))
          | inl (target, q) ↦ elim (Option-cases (app.store.delete target s).0) [
            | inl d ↦
                rw (e, u, allowed, q, d)
                  (inr (usr, id, target, refl, refl, may_change usr id allowed, q, refl))
            | inr (w, d) ↦
                rw (e, u, allowed, q, d)
                  (inr (usr, id, target, refl, refl, may_change usr id allowed, q, refl))
          ]
        ]
      ]
    ]
  ]

  -- The store after a user changed itself.
  abbrev pub IsUpdated : Time → Request → S → S → Type 0
  IsUpdated now r s t =
      (usr : User) × (updates : Models.UpdateUser) × ActsAs r usr
      × (app.lib.parse_uuid r.id_param ≡ ok usr.id)
      × (updates.roles ≡ none)
      × (t ≡ (Users.update app.store app.lib now usr updates s).1)

  -- The updates that UpdateUser makes never touch the roles.
  roles_kept :
      (uu : UpdateUser) (updates : Models.UpdateUser)
      → to_bus_update_user app.lib uu ≡ returns (ok updates)
      → updates.roles ≡ none
  unfolding to_bus_update_user
  roles_kept uu updates h = ground arith

  -- UpdateUser either does not touch the store, or else the request names the id of the user it
  -- comes from, and that user is updated, with its roles kept.
  pub update_user_lem :
      (now : Time) (r : Request) (s : S)
      → ((update_user app now r s).1 ≡ s) ⊎ IsUpdated now r s (update_user app now r s).1
  unfolding update_user
  update_user_lem now r s = elim (Result-cases (app.lib.parse_uuid r.id_param)) [
    | inr (w, e) ↦ rw e (inl refl)
    | inl (id, e) ↦ elim (Value-cases "UpdateUser" 167 173 r.user_key) [
      | inr (w, u) ↦ rw (e, u) (inl refl)
      | inl (usr, u) ↦ elim (Bool-cases (not (nat_eq usr.id id))) [
        | inl refused ↦ rw (e, u, refused) (inl refl)
        | inr allowed ↦ elim (Result-cases (bind_update_user app.wire r.body)) [
          | inr (w, b) ↦ rw (e, u, allowed, b) (inl refl)
          | inl (uu, b) ↦ elim (Call-cases (to_bus_update_user app.lib uu)) [
            | inl (w, c) ↦ rw (e, u, allowed, b, c) (inl refl)
            | inr (inl (w, c)) ↦ rw (e, u, allowed, b, c) (inl refl)
            | inr (inr (updates, c)) ↦
                elim (Result-cases (Users.update app.store app.lib now usr updates s).0) [
                  | inl (new, d) ↦
                      rw (e, u, allowed, b, c, d)
                        (inr
                          (usr, updates, refl, ap ok (ground arith), roles_kept uu updates c, refl))
                  | inr (w, d) ↦
                      rw (e, u, allowed, b, c, d)
                        (inr
                          (usr, updates, refl, ap ok (ground arith), roles_kept uu updates c, refl))
                ]
          ]
        ]
      ]
    ]
  ]

  -- UpdateRole changes no roles: every request is refused with an error or, when it comes from an
  -- administrator and its body has a list of roles, panics in the validator, whose "oneof" takes no
  -- slice; the store is left as it was.
  pub update_role_lem :
      (now : Time) (r : Request) (s : S)
      → IsRefused (update_role app now r s) s
        ⊎ ((update_role app now r s ≡ (panicked "Bad field type []string", s))
            × ((usr : User) × ActsAs r usr × (is_admin usr.roles ≡ true)))
  unfolding update_role bind_update_user_roles
  update_role_lem now r s = elim (Value-cases "UpdateRole" 214 220 r.user_key) [
    | inr (w, u) ↦ rw u (inl ((_, refl), refl))
    | inl (usr, u) ↦ elim (Bool-cases (is_admin usr.roles)) [
      | inr refused ↦ rw (u, refused) (inl ((_, refl), refl))
      | inl allowed ↦ elim (Result-cases (app.lib.parse_uuid r.id_param)) [
        | inr (w, e) ↦ rw (u, allowed, e) (inl ((_, refl), refl))
        | inl (id, e) ↦ elim (Result-cases (app.wire.decode_update_user_roles r.body)) [
          | inr (w, b) ↦ rw (u, allowed, e, b) (inl ((_, refl), refl))
          | inl (ur, b) ↦ elim (Option-cases ur.roles) [
            | inl absent ↦ rw (u, allowed, e, b, absent) (inl ((_, refl), refl))
            | inr (roles, given) ↦ rw (u, allowed, e, b, given) (inr (refl, (usr, refl, allowed)))
          ]
        ]
      ]
    ]
  ]

  -- DisableUser disables no user: every request is refused with an error or, once the user to be
  -- disabled was found for a user who may, panics on the nil email of the update; the store is left
  -- as it was.
  pub disable_user_lem :
      (now : Time) (r : Request) (s : S)
      → IsRefused (disable_user app now r s) s
        ⊎ ((disable_user app now r s ≡ (panicked nil_dereference, s))
            × ((usr : User) × (id : Uuid) × (target : User) × ActsAs r usr
                × (app.lib.parse_uuid r.id_param ≡ ok id)
                × MayChange usr id
                × (app.store.query_by_id id s ≡ ok target)))
  unfolding disable_user to_bus_update_user Users.query_by_id
  disable_user_lem now r s = elim (Result-cases (app.lib.parse_uuid r.id_param)) [
    | inr (w, e) ↦ rw e (inl ((_, refl), refl))
    | inl (id, e) ↦ elim (Value-cases "DisableUser" 291 296 r.user_key) [
      | inr (w, u) ↦ rw (e, u) (inl ((_, refl), refl))
      | inl (usr, u) ↦ elim (Bool-cases (not (nat_eq id usr.id) && not (is_admin usr.roles))) [
        | inl refused ↦ rw (e, u, refused) (inl ((_, refl), refl))
        | inr allowed ↦ elim (Result-cases (app.store.query_by_id id s)) [
          | inr (w, q) ↦ rw (e, u, allowed, q) (inl ((_, refl), refl))
          | inl (target, q) ↦
              rw (e, u, allowed, q)
                (inr (refl, (usr, id, target, refl, refl, may_change usr id allowed, q)))
        ]
      ]
    ]
  ]
