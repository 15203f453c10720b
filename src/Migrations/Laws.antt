-- ===== src/Migrations/Laws.antt =====
-- The connection of cmd/admin's migrate command, and when it succeeds.
use jumble.Shared.{[], ◌∷◌, ◌≡◌, ◌⊎◌, inl, inr, refl}
use jumble.Go.Error.{Error, ok, err, wrap, Result-cases}
use jumble.Sqldb.Opening
use jumble.Sqldb.Opening.{Driver}
use jumble.Migrations.{
  Migrator, Up, applied, no_change, stopped, printed, opened, migrated, closed, Flags, config_of,
  migrate, migrated_with, run, upped,
}

module _ {Conn : Type 0} (driver : Driver Conn) (migrator : Migrator Conn) where
  open migrator use {with_instance, files, new_with_instance, up}

  -- The database could not be opened, and nothing else was done.
  abbrev pub IsUnopened : Flags → Type 0
  IsUnopened f =
      ((e : Error) × (Opening.open_db driver (config_of f) ≡ err e))
      × ((e : Error) × (run driver migrator f [] ≡ (err e, printed "applying migrations..." ∷ [])))

  -- Nothing was migrated.
  abbrev pub IsUnmigrated : Flags → Conn → Type 0
  IsUnmigrated f db =
      (e : Error) × (run driver migrator f []
        ≡ (err e, printed "applying migrations..." ∷ opened db ∷ closed db ∷ []))

  -- The migrations ran, with success or not.
  abbrev pub IsMigrated : Flags → Conn → Type 0
  IsMigrated f db =
      (u : Up) × ((((u ≡ applied) ⊎ (u ≡ no_change))
          × (run driver migrator f [] ≡ (
            ok tt,
            printed "applying migrations..."
                ∷ opened db
                ∷ migrated db u
                ∷ printed "migration completed!"
                ∷ closed db
                ∷ [],
          )))
        ⊎ ((e : Error) × (w : Error) × (u ≡ stopped e)
            × (run driver migrator f [] ≡ (
              err w,
              printed "applying migrations..." ∷ opened db ∷ migrated db u ∷ closed db ∷ [],
            ))))

  Up-cases : (u : Up) → (u ≡ applied) ⊎ ((u ≡ no_change) ⊎ ((e : Error) × (u ≡ stopped e)))
  Up-cases applied = inl refl
  Up-cases no_change = inr (inl refl)
  Up-cases (stopped e) = inr (inr (e, refl))

  -- The command either cannot open the database, or opens it once and closes it at the end, on
  -- every path; it succeeds exactly when the migrations were applied or there was nothing to
  -- change, and otherwise fails after at most one attempt to migrate.
  pub run_lem :
      (f : Flags)
      → IsUnopened f
        ⊎ ((db : Conn) × (Opening.open_db driver (config_of f) ≡ ok db)
            × (IsUnmigrated f db ⊎ IsMigrated f db))
  unfolding run migrated_with migrate upped
  run_lem f = elim (Result-cases (Opening.open_db driver (config_of f))) [
    | inr (w, o) ↦ inl ((w, o), rw o (_, refl))
    | inl (db, o) ↦ inr (
      db,
      o,
      elim (Result-cases (with_instance db)) [
        | inr (w, i) ↦ inl (rw (o, i) (_, refl))
        | inl (target, i) ↦ elim (Result-cases (files "sql")) [
          | inr (w, s) ↦ inl (rw (o, i, s) (_, refl))
          | inl (source, s) ↦ elim (Result-cases (new_with_instance source f.name target)) [
            | inr (w, n) ↦ inl (rw (o, i, s, n) (_, refl))
            | inl (m, n) ↦ inr (elim (Up-cases (up m)) [
              | inl u ↦ (applied, inl (inl refl, rw (o, i, s, n, u) refl))
              | inr (inl u) ↦ (no_change, inl (inr refl, rw (o, i, s, n, u) refl))
              | inr (inr (e, u)) ↦ (
                stopped e,
                inr (e, wrap "migrate" (wrap "migration up" e), refl, rw (o, i, s, n, u) refl),
              )
            ])
          ]
        ]
      ],
    )
  ]
