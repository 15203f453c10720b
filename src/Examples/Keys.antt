-- ===== src/Examples/Keys.antt =====
-- A directory of keys: a PEM file, a file that is none, and Kubernetes' hidden directory.
use jumble.Shared.{
  ℕ, String, ◌≡◌, ◌≢◌, ◌⊎◌, refl, inl, none, some, lookup, [], ◌∷◌, ◌==◌, if◌then◌else◌, true,
}
use jumble.Go.Error.{Error, ok, err, plain}
use jumble.Keystore.{
  KeyStore, Pem, bytes, Entry, file, dir, nil, cons, load_from_file_system, set_active_key,
  get_active_kid, add_key, is_known, activate,
}
use jumble.Keystore.Laws.{IsPaired, Serves, load_from_file_system-IsPaired, set_active_key_lem}
use jumble.Keystore.Locking.{
  State, checks, activates, adds, Steps, done, next, IsReady, steps-IsReady,
}

abbrev pub pem : Pem ℕ ℕ
pem = record {
  decode = λ s. if s == "" then none else some ("PRIVATE KEY", s);
  parse_pkcs1 = λ s. err (plain "x509: use ParsePKCS8PrivateKey instead");
  parse_pkcs8 = λ s. ok (some 7);
  public_of = λ k. k;
}

abbrev pub root : Entry
root = dir "." none (
    cons (dir "..data" none (cons (file "k.pem" (bytes "key")) nil))
      (cons (file "k.pem" (bytes "key")) (cons (file "README" (bytes "text")) nil)))

abbrev keys : KeyStore ℕ ℕ
keys = record { store = []; active_key = "" }

paired : IsPaired pem keys
unfolding lookup
paired kid k e = absurd (cc e)

load_from_file_system-IsPaired_example :
    IsPaired pem (load_from_file_system pem root keys).1
    × ((kid : String)
        → (lookup kid keys.store ≡ none)
          ⊎ (lookup kid (load_from_file_system pem root keys).1.store ≢ none))
    × ((load_from_file_system pem root keys).1.active_key ≡ "")
load_from_file_system-IsPaired_example = load_from_file_system-IsPaired pem root keys paired

abbrev loaded : KeyStore ℕ ℕ
loaded = record { store = ("k", record { private = 7; public = 7 }) ∷ []; active_key = "" }

set_active_key_lem_example :
    ((lookup "k" loaded.store ≡ none)
      × ((e : Error) × (set_active_key "k" loaded ≡ (some e, loaded))))
    ⊎ ((set_active_key "k" loaded ≡ (none, record loaded { active_key = "k" }))
        × Serves (set_active_key "k" loaded).1 (get_active_kid (set_active_key "k" loaded).1))
set_active_key_lem_example = set_active_key_lem "k" loaded

-- The test of SetActiveKey, a load of another key, and the write.
abbrev start : State pem
start = record { keys = loaded; pending = [] }

abbrev between : KeyStore ℕ ℕ
between = add_key pem "other.pem" 9 loaded

known : is_known loaded "k" ≡ true
unfolding is_known lookup
known = refl

run : Steps pem start (record { keys = activate "k" between; pending = [] })
run = next _ _ _ (checks loaded [] "k" known) (
    next _ _ _ (adds loaded ("k" ∷ []) "other.pem" 9)
      (next _ _ _ (activates between [] [] "k") (done _)))

start-IsReady : IsReady pem start
start-IsReady = (inl refl, tt)

steps-IsReady_example : IsReady pem (record { keys = activate "k" between; pending = [] })
steps-IsReady_example =
    steps-IsReady pem start (record { keys = activate "k" between; pending = [] }) run start-IsReady
