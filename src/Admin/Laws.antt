-- ===== src/Admin/Laws.antt =====
-- What the exit code of cmd/admin tells.
use jumble.Shared.{
  String, false, none, some, List, [], ◌∷◌, ◌++◌, ◌≡◌, ◌∙◌, refl, sym, ◌⊎◌, inl, inr, ◌≢◌, ◌==◌,
  Bool-cases, eq_iff,
}
use jumble.Go.Error.{Error, ok, text}
use jumble.Sqldb.Opening
use jumble.Sqldb.Opening.{Driver}
use jumble.Migrations.{
  Migrator, Up, applied, no_change, stopped, Event, printed, opened, migrated, closed, Flags,
  default_flags, config_of, pre_run,
}
use jumble.Migrations.Laws.{run_lem}
use jumble.Admin.{Call, root, migrate_command, prints, refused, Cobra, execute, main}

-- No setting is empty.
abbrev pub IsFilled : Flags → Type 0
IsFilled f = (f.dbuser ≢ "") × (f.dbpass ≢ "") × (f.host ≢ "") × (f.name ≢ "")

not_empty : (s : String) → (s == "") ≡ false → s ≢ ""
not_empty s other same = absurd (cc (sym other ∙ (eq_iff s "").1 same))

pre_run_lem : (f : Flags) → ((pre_run f ≡ none) × IsFilled f) ⊎ ((e : Error) × (pre_run f ≡ some e))
unfolding pre_run
pre_run_lem f = elim (Bool-cases (f.dbuser == "")) [
  | inl user ↦ rw user (inr (_, refl))
  | inr user ↦ elim (Bool-cases (f.dbpass == "")) [
    | inl pass ↦ rw (user, pass) (inr (_, refl))
    | inr pass ↦ elim (Bool-cases (f.host == "")) [
      | inl host ↦ rw (user, pass, host) (inr (_, refl))
      | inr host ↦ elim (Bool-cases (f.name == "")) [
        | inl name ↦ rw (user, pass, host, name) (inr (_, refl))
        | inr name ↦
            let filled : IsFilled f = (
              not_empty f.dbuser user,
              not_empty f.dbpass pass,
              not_empty f.host host,
              not_empty f.name name,
            ) in
            rw (user, pass, host, name) (inl (refl, filled))
      ]
    ]
  ]
]

module _ {Conn : Type 0} (driver : Driver Conn) (migrator : Migrator Conn) (cobra : Cobra) where
  -- Only a text was shown: the help of the root command, or what cobra prints by itself.
  abbrev pub IsShown : List String → Type 0
  IsShown args =
      (s : String) × (((cobra.find args default_flags ≡ root) × (s ≡ cobra.help))
        ⊎ (cobra.find args default_flags ≡ prints s))
      × (main driver migrator cobra args ≡ (0, printed s ∷ []))

  -- The arguments ask to migrate with these settings.
  abbrev pub Asks : List String → Flags → Type 0
  Asks args f = (cobra.find args default_flags ≡ migrate_command f) × IsFilled f

  -- The migrations were applied, or there was nothing to change.
  abbrev pub IsApplied : List String → Type 0
  IsApplied args =
      (f : Flags) × (db : Conn) × (u : Up) × Asks args f
      × (Opening.open_db driver (config_of f) ≡ ok db)
      × ((u ≡ applied) ⊎ (u ≡ no_change))
      × (main driver migrator cobra args ≡ (
        0,
        printed "applying migrations..."
            ∷ opened db
            ∷ migrated db u
            ∷ printed "migration completed!"
            ∷ closed db
            ∷ [],
      ))

  -- How far the migrate command came.
  abbrev pub IsBroken : Flags → List (Event Conn) → Type 0
  IsBroken f before =
      (before ≡ printed "applying migrations..." ∷ [])
      ⊎ ((db : Conn) × (Opening.open_db driver (config_of f) ≡ ok db)
          × ((before ≡ printed "applying migrations..." ∷ opened db ∷ closed db ∷ [])
              ⊎ ((e : Error) × (before
                    ≡ printed "applying migrations..."
                      ∷ opened db
                      ∷ migrated db (stopped e)
                      ∷ closed db
                      ∷ []))))

  -- The arguments were refused, by cobra or because a setting is empty.
  abbrev pub IsRefused : List String → Error → Type 0
  IsRefused args e =
      (cobra.find args default_flags ≡ refused e)
      ⊎ ((f : Flags) × (cobra.find args default_flags ≡ migrate_command f) × (pre_run f ≡ some e))

  abbrev pub IsFailed : List String → Type 0
  IsFailed args =
      (e : Error) × (before : List (Event Conn)) × (main driver migrator cobra args
        ≡ (1, before ++ (printed (cobra.usage e) ∷ printed (text e) ∷ [])))
      × (((before ≡ []) × IsRefused args e) ⊎ ((f : Flags) × Asks args f × IsBroken f before))

  Call-cases :
      (c : Call)
      → (c ≡ root)
        ⊎ ((s : String) × (c ≡ prints s))
        ⊎ ((e : Error) × (c ≡ refused e))
        ⊎ ((f : Flags) × (c ≡ migrate_command f))
  Call-cases root = inl refl
  Call-cases (prints s) = inr (inl (s, refl))
  Call-cases (refused e) = inr (inr (inl (e, refl)))
  Call-cases (migrate_command f) = inr (inr (inr (f, refl)))

  migrate_lem :
      (args : List String) (f : Flags)
      → cobra.find args default_flags ≡ migrate_command f
      → pre_run f ≡ none
      → IsFilled f
      → IsApplied args ⊎ IsFailed args
  unfolding main execute
  migrate_lem args f asked checked filled = elim (run_lem driver migrator f) [
    | inl ((w, o), (e, ran)) ↦
        inr (e, _, rw (asked, checked, ran) refl, inr (f, (asked, filled), inl refl))
    | inr (db, o, inl (e, ran)) ↦
        inr (e, _, rw (asked, checked, ran) refl, inr (f, (asked, filled), inr (db, o, inl refl)))
    | inr (db, o, inr (u, inl (which, ran))) ↦
        inl (f, db, u, (asked, filled), o, which, rw (asked, checked, ran) refl)
    | inr (db, o, inr (u, inr (e, w, stops, ran))) ↦ inr (
      w,
      printed "applying migrations..." ∷ opened db ∷ migrated db u ∷ closed db ∷ [],
      rw (asked, checked, ran) refl,
      inr (f, (asked, filled), inr (db, o, inr (e, rw stops refl))),
    )
  ]

  -- cmd/admin exits with 0 when it only showed a text, or when the migrations were applied or there
  -- was nothing to change, over a connection that it opened with settings of which none is empty,
  -- and closed. Otherwise it exits with 1 after it has printed the error twice, and a database was
  -- opened only when no setting is empty, and is closed before that.
  pub main-IsApplied : (args : List String) → IsShown args ⊎ IsApplied args ⊎ IsFailed args
  unfolding main execute
  main-IsApplied args = elim (Call-cases (cobra.find args default_flags)) [
    | inl is ↦ inl (cobra.help, inl (is, refl), rw is refl)
    | inr (inl (s, is)) ↦ inl (s, inr is, rw is refl)
    | inr (inr (inl (e, is))) ↦ inr (inr (e, [], rw is refl, inl (refl, inl is)))
    | inr (inr (inr (f, is))) ↦ elim (pre_run_lem f) [
      | inr (e, empty) ↦ inr (inr (e, [], rw (is, empty) refl, inl (refl, inr (f, is, empty))))
      | inl (checked, filled) ↦ inr (migrate_lem args f is checked filled)
    ]
  ]
