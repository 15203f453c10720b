-- ===== src/Service/Run/Laws.antt =====
-- What cmd/services/main.go leaves behind, and when it ends well.
use jumble.Shared.{String, none, List, [], ◌∷◌, ◌≡◌, ◌⊎◌, inl, inr, refl, Option-cases}
use jumble.Go.Error.{Error, Result-cases}
use jumble.Sqldb.Opening.{open_db}
use jumble.Telemetry.{Cleanup, setup_otel_sdk}
use jumble.Keystore
use jumble.Keystore.{load_from_file_system, set_active_key}
use jumble.Service.Config.{Config, db_config, tracing_config}
use jumble.Service.Run.{
  Parsed, help, failed, parsed, Context, shuts_down, cancelled, Awaited, server_failed, signalled,
  World, Event, opens_db, closes_db, sets_up_tracing, cleans_up, run, main, exits, started,
  configured, traces, serves, waits, stopped, keys, no_globals,
}

-- The events that take a resource and that give it back.
abbrev pub resources : {Conn : Type 0} → List (Event Conn) → List (Event Conn)
resources [] = []
resources (opens_db c ∷ events) = opens_db c ∷ resources events
resources (closes_db c ∷ events) = closes_db c ∷ resources events
resources (sets_up_tracing k ∷ events) = sets_up_tracing k ∷ resources events
resources (cleans_up k ∷ events) = cleans_up k ∷ resources events
resources (e ∷ events) = resources events

-- What was taken is given back, once, in reverse order.
abbrev pub IsReleased : {Conn : Type 0} → List (Event Conn) → Type 0
IsReleased {Conn} l =
    (l ≡ [])
    ⊎ (((c : Conn) × (l ≡ opens_db c ∷ closes_db c ∷ []))
        ⊎ ((c : Conn) × (k : Cleanup) × (l
              ≡ opens_db c ∷ sets_up_tracing k ∷ cleans_up k ∷ closes_db c ∷ [])))

-- The contexts that Shutdown is called with.
abbrev pub asked : {Conn : Type 0} → List (Event Conn) → List Context
asked [] = []
asked (shuts_down ctx ∷ events) = ctx ∷ asked events
asked (e ∷ events) = asked events

Parsed-cases :
    (p : Parsed)
    → ((t : String) × (p ≡ help t))
      ⊎ (((e : Error) × (p ≡ failed e)) ⊎ ((cfg : Config) × (p ≡ parsed cfg)))
Parsed-cases (help t) = inl (t, refl)
Parsed-cases (failed e) = inr (inl (e, refl))
Parsed-cases (parsed cfg) = inr (inr (cfg, refl))

Awaited-cases : (a : Awaited) → (a ≡ signalled) ⊎ ((e : Error) × (a ≡ server_failed e))
Awaited-cases signalled = inl refl
Awaited-cases (server_failed e) = inr (e, refl)

module _ {Conn Private Public : Type 0} (w : World Conn Private Public) where
  -- The process asked only for help, or was stopped by a signal and shut its server down.
  abbrev pub EndsWell : Type 0
  EndsWell =
      ((t : String) × (w.parse "JUMBLE" ≡ help t))
      ⊎ ((w.awaited ≡ signalled) × (w.shutdown cancelled ≡ none))

  -- On every path of main, each database connection and trace provider that was taken is given
  -- back, once and in reverse order; Shutdown is called at most once, and only with a context that
  -- is cancelled already, whatever the configured timeout; and the exit code is 1, or it is 0 after
  -- the help text or after a signal and a shutdown without an error.
  pub main_lem :
      IsReleased (resources (main w).1)
      × ((asked (main w).1 ≡ []) ⊎ (asked (main w).1 ≡ cancelled ∷ []))
      × ((((main w).0 ≡ 0) × EndsWell) ⊎ ((main w).0 ≡ 1))
  unfolding main exits run started configured traces serves waits stopped keys
  main_lem = elim (Parsed-cases (w.parse "JUMBLE")) [
    | inl (t, p) ↦ rw p (inl refl, inl refl, inl (refl, inl (t, refl)))
    | inr (inl (e, p)) ↦ rw p (inl refl, inl refl, inr refl)
    | inr (inr (cfg, p)) ↦ elim (Result-cases (w.conf_string cfg)) [
      | inr (e, s) ↦ rw (p, s) (inl refl, inl refl, inr refl)
      | inl (out, s) ↦ elim (Result-cases (open_db w.driver (db_config cfg.db))) [
        | inr (e, o) ↦ rw (p, s, o) (inl refl, inl refl, inr refl)
        | inl (c, o) ↦
            elim (Result-cases
              (setup_otel_sdk w.exporters (tracing_config w.build cfg.tempo) no_globals).0) [
                | inr (e, t) ↦ rw (p, s, o, t) (inr (inl (c, refl)), inl refl, inr refl)
                | inl (k, t) ↦
                    let root = w.dir_fs cfg.auth.keys in
                    elim (Result-cases (load_from_file_system w.pem root Keystore.new).0) [
                      | inr (e, l) ↦ rw (p, s, o, t, l) (inr (inr (c, k, refl)), inl refl, inr refl)
                      | inl (n, l) ↦
                          elim (Option-cases
                            (set_active_key cfg.auth.active_key
                              (load_from_file_system w.pem root Keystore.new).1).0) [
                                | inr (e, a) ↦
                                    rw (p, s, o, t, l, a)
                                      (inr (inr (c, k, refl)), inl refl, inr refl)
                                | inl a ↦ elim (Awaited-cases w.awaited) [
                                  | inr (e, u) ↦
                                      rw (p, s, o, t, l, a, u)
                                        (inr (inr (c, k, refl)), inl refl, inr refl)
                                  | inl u ↦ elim (Option-cases (w.shutdown cancelled)) [
                                    | inr (e, d) ↦
                                        rw (p, s, o, t, l, a, u, d)
                                          (inr (inr (c, k, refl)), inr refl, inr refl)
                                    | inl d ↦
                                        rw (p, s, o, t, l, a, u, d)
                                          (
                                            inr (inr (c, k, refl)),
                                            inr refl,
                                            inl (refl, inr (refl, refl)),
                                          )
                                  ]
                                ]
                              ]
                    ]
              ]
      ]
    ]
  ]
