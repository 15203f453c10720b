-- ===== src/Keystore/Laws.antt =====
-- Loading and activating keys in pkg/keystore/keystore.go.
use jumble.Shared.{
  String, ◌≡◌, ◌≢◌, ◌⊎◌, inl, inr, refl, ap, sym, ◌∙◌, Option, none, some, Option-cases, Bool-cases,
  lookup, insert, lookup-insert, if◌then◌else◌, ◌==◌,
}
use mathlib.Core.Path.{subst}
use mathlib.Core.Option.{some-injective}
use jumble.Go.Error.{Error, ok, Result-cases}
use jumble.Go.Text.{has_prefix}
use jumble.Keystore.{
  Key, KeyStore, Pem, File, Entry, file, dir, Entries, nil, cons, add_key, walk_file, walk_entry,
  walk_entries, load_from_file_system, private_key, public_key, set_active_key, get_active_kid,
  key_id, then_walk, opened, join_path, name_of, read_key, ext, loaded, found, private_of,
  public_of_key, is_known, activate,
}

module _ {Private Public : Type 0} (pem : Pem Private Public) where
  -- Every stored public key is that of its private key.
  abbrev pub IsPaired : KeyStore Private Public → Type 0
  IsPaired ks =
      (kid : String) (k : Key Private Public)
      → lookup kid ks.store ≡ some k
      → k.public ≡ pem.public_of k.private

  -- What adding keys keeps: the pairs, the known ids and the active key.
  abbrev pub Extends : KeyStore Private Public → KeyStore Private Public → Type 0
  Extends ks t =
      (IsPaired ks → IsPaired t)
      × ((kid : String) → lookup kid ks.store ≢ none → lookup kid t.store ≢ none)
      × (t.active_key ≡ ks.active_key)

  Extends-refl : (ks : KeyStore Private Public) → Extends ks ks
  Extends-refl ks = (λ h. h, λ kid h. h, refl)

  Extends-trans : (ks t u : KeyStore Private Public) → Extends ks t → Extends t u → Extends ks u
  Extends-trans ks t u (p, k, a) (p', k', a') = (λ h. p' (p h), λ kid h. k' kid (k kid h), a' ∙ a)

  pub add_key-Extends :
      (name : String) (k : Private) (ks : KeyStore Private Public)
      → Extends ks (add_key pem name k ks)
  unfolding add_key
  add_key-Extends name k ks =
      let new : Key Private Public = record { private = k; public = pem.public_of k } in
      let here : (kid : String)
          → lookup kid (insert (key_id name) new ks.store)
            ≡ (if key_id name == kid then some new else lookup kid ks.store) =
        λ kid. lookup-insert (key_id name) kid new ks.store in
      (
        λ h kid key e. elim (Bool-cases (key_id name == kid)) [
          | inl same ↦
              let k_eq : new ≡ key = some-injective _ _ (sym (here kid ∙ rw same) ∙ e) in
              subst (λ x. x.public ≡ pem.public_of x.private) k_eq refl
          | inr other ↦ h kid key (sym (here kid ∙ rw other) ∙ e)
        ],
        λ kid h e. elim (Bool-cases (key_id name == kid)) [
          | inl same ↦
              let seen : lookup kid (insert (key_id name) new ks.store) ≡ some new =
                here kid ∙ rw same in
              absurd (cc (sym seen ∙ e))
          | inr other ↦ h (sym (here kid ∙ rw other) ∙ e)
        ],
        refl,
      )

  walk_file-Extends :
      (path name : String) (f : File) (ks : KeyStore Private Public)
      → Extends ks (walk_file pem path name f ks).1
  unfolding walk_file
  walk_file-Extends path name f ks = elim (Bool-cases (ext name == ".pem")) [
    | inr other ↦ rw other (Extends-refl ks)
    | inl is_pem ↦ elim (Result-cases (read_key pem path f)) [
      | inl (k, e) ↦ rw (is_pem, e) (add_key-Extends name k ks)
      | inr (w, e) ↦ rw (is_pem, e) (Extends-refl ks)
    ]
  ]

  then_walk-Extends :
      (ks : KeyStore Private Public) (r : Option Error × KeyStore Private Public)
      (next : KeyStore Private Public → Option Error × KeyStore Private Public)
      → Extends ks r.1
      → ((t : KeyStore Private Public) → Extends t (next t).1)
      → Extends ks (then_walk pem r next).1
  then_walk-Extends ks (none, t) next h k = Extends-trans ks t (next t).1 h (k t)
  then_walk-Extends ks (some e, t) next h k = h

  opened-Extends :
      (path : String) (problem : Option Error)
      (next : KeyStore Private Public → Option Error × KeyStore Private Public)
      → ((t : KeyStore Private Public) → Extends t (next t).1)
      → (ks : KeyStore Private Public) → Extends ks (opened pem path problem next ks).1
  unfolding opened
  opened-Extends path none next h ks = h ks
  opened-Extends path (some e) next h ks = Extends-refl ks

  mutual
    unfolding walk_entry

    walk_entry-Extends :
        (path : String) (e : Entry) (ks : KeyStore Private Public)
        → Extends ks (walk_entry pem path e ks).1
    walk_entry-Extends path (file name f) ks = walk_file-Extends path name f ks
    walk_entry-Extends path (dir name problem entries) ks =
        elim (Bool-cases (has_prefix name "..")) [
          | inl skipped ↦ rw skipped (Extends-refl ks)
          | inr entered ↦ rw entered (
              opened-Extends path problem (walk_entries pem path entries)
                (walk_entries-Extends path entries) ks)
        ]

    walk_entries-Extends :
        (path : String) (es : Entries) (ks : KeyStore Private Public)
        → Extends ks (walk_entries pem path es ks).1
    walk_entries-Extends path nil ks = Extends-refl ks
    walk_entries-Extends path (cons e es) ks =
        then_walk-Extends ks (walk_entry pem (join_path pem path (name_of e)) e ks)
          (walk_entries pem path es) (walk_entry-Extends (join_path pem path (name_of e)) e ks)
          (λ t. walk_entries-Extends path es t)

  load-Extends :
      (root : Entry) (ks : KeyStore Private Public)
      → Extends ks (load_from_file_system pem root ks).1
  unfolding load_from_file_system
  load-Extends root ks = ends (walk_entry pem "." root ks) (walk_entry-Extends "." root ks)
    where
      ends :
          (r : Option Error × KeyStore Private Public)
          → Extends ks r.1
          → Extends ks (loaded pem r).1
      ends (none, t) h = h
      ends (some e, t) h = h

  -- LoadFromFileSystem on any tree of files, also when it fails, from a store whose public keys are
  -- those of their private keys: they still are, known ids stay known, and the active key stays as
  -- it is.
  pub load_from_file_system-IsPaired :
      (root : Entry) (ks : KeyStore Private Public)
      → IsPaired ks
      → let t = (load_from_file_system pem root ks).1 in
        IsPaired t
        × ((kid : String) → (lookup kid ks.store ≡ none) ⊎ (lookup kid t.store ≢ none))
        × (t.active_key ≡ ks.active_key)
  load_from_file_system-IsPaired root ks h =
      let (paired, known, active) = load-Extends root ks in
      (
        paired h,
        λ kid. elim (Option-cases (lookup kid ks.store)) [
          | inl absent ↦ inl absent
          | inr (k, e) ↦ inr (known kid (λ none_left. cc (sym e, none_left)))
        ],
        active,
      )

module _ {Private Public : Type 0} where
  -- The answer to a request for either half of a key.
  abbrev pub Serves : KeyStore Private Public → String → Type 0
  Serves ks kid =
      (k : Key Private Public) × (private_key ks kid ≡ ok k.private)
      × (public_key ks kid ≡ ok k.public)

  -- SetActiveKey succeeds exactly for a known id; then that id is active, no key has changed and
  -- both halves of the active key are served. Otherwise nothing changes.
  pub set_active_key_lem :
      (key : String) (ks : KeyStore Private Public)
      → ((lookup key ks.store ≡ none) × ((e : Error) × (set_active_key key ks ≡ (some e, ks))))
        ⊎ ((set_active_key key ks ≡ (none, record ks { active_key = key }))
            × Serves (set_active_key key ks).1 (get_active_kid (set_active_key key ks).1))
  unfolding set_active_key is_known activate get_active_kid private_key public_key found private_of
      public_of_key
  set_active_key_lem key ks = elim (Option-cases (lookup key ks.store)) [
    | inl absent ↦ rw (set_active_key, is_known, absent) (inl (refl, (_, refl)))
    | inr (k, here) ↦
        rw (set_active_key, is_known, here)
          (inr (
            refl,
            (k, ap (λ o. private_of (found o)) here, ap (λ o. public_of_key (found o)) here),
          ))
  ]
