-- ===== src/Telemetry/Laws.antt =====
-- What SetupOTelSDK of pkg/telemetry/telemetry.go installs and gives back.
use jumble.Shared.{some, ◌≡◌, ◌⊎◌, inl, inr, refl, ◌==◌, Bool-cases}
use jumble.Go.Error.{Error, ok, err, Result-cases}
use jumble.Telemetry.{
  Config, Provider, noop, Cleanup, nothing, shuts, Globals, Exporters, setup_otel_sdk, choice,
  installed, made, new_http_exporter,
}

-- The provider is installed, and the cleanup shuts it down unless it is the one that does nothing.
abbrev pub IsInstalled : Cleanup → Globals → Type 0
IsInstalled cleanup g =
    (p : Provider) × (g.provider ≡ some p)
    × ((cleanup ≡ shuts p) ⊎ ((p ≡ noop) × (cleanup ≡ nothing)))

-- SetupOTelSDK fails and installs nothing, or installs a provider and gives back its cleanup.
pub setup_otel_sdk_lem :
    (exporters : Exporters) (cfg : Config) (g : Globals)
    → ((e : Error) × (setup_otel_sdk exporters cfg g ≡ (err e, g)))
      ⊎ ((cleanup : Cleanup) × ((setup_otel_sdk exporters cfg g).0 ≡ ok cleanup)
          × IsInstalled cleanup (setup_otel_sdk exporters cfg g).1)
unfolding setup_otel_sdk choice installed made new_http_exporter
setup_otel_sdk_lem exporters cfg g = elim (Bool-cases (cfg.host == "")) [
  | inl empty ↦ rw empty (inr (_, refl, (_, refl, inr (refl, refl))))
  | inr host ↦ elim (Bool-cases (cfg.host == "dev")) [
    | inl dev ↦ elim (Result-cases exporters.stdout_exporter) [
      | inl (done, o) ↦ rw (host, dev, o) (inr (_, refl, (_, refl, inl refl)))
      | inr (e, o) ↦ rw (host, dev, o) (inl (_, refl))
    ]
    | inr remote ↦ elim (Result-cases (exporters.http_exporter cfg.host)) [
      | inl (done, o) ↦ rw (host, remote, o) (inr (_, refl, (_, refl, inl refl)))
      | inr (e, o) ↦ rw (host, remote, o) (inl (_, refl))
    ]
  ]
]
