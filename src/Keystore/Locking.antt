-- ===== src/Keystore/Locking.antt =====
-- The concurrent use of pkg/keystore/keystore.go: each critical section is one step. SetActiveKey
-- has two, the test under the read lock and the write under the write lock, and any other call's
-- section may come between them.
use jumble.Shared.{
  String, true, ◌≡◌, ◌≢◌, ◌⊎◌, inl, inr, ap, sym, ◌∙◌, arith, none, List, [], ◌∷◌, ◌++◌, lookup,
  All,
}
use jumble.Keystore.{KeyStore, Pem, add_key, is_known, activate}
use jumble.Keystore.Laws.{add_key-Extends}

module _ {Private Public : Type 0} (pem : Pem Private Public) where
  -- The key store, and the calls of SetActiveKey that have passed their test.
  pub record State : Type 0 where
    pub keys : KeyStore Private Public
    pub pending : List String

  pub data Step : State → State → Type 0 where
    -- the test of SetActiveKey
    checks :
        (ks : KeyStore Private Public) (ps : List String) (key : String)
        → is_known ks key ≡ true
        → Step (record { keys = ks; pending = ps }) (record { keys = ks; pending = key ∷ ps })
    -- its write
    activates :
        (ks : KeyStore Private Public) (ps qs : List String) (key : String)
        → Step
            (record { keys = ks; pending = ps ++ (key ∷ qs) })
            (record { keys = activate key ks; pending = ps ++ qs })
    -- a key that LoadFromFileSystem adds
    adds :
        (ks : KeyStore Private Public) (ps : List String) (name : String) (k : Private)
        → Step
            (record { keys = ks; pending = ps })
            (record { keys = add_key pem name k ks; pending = ps })

  pub data Steps : State → State → Type 0 where
    done : (s : State) → Steps s s
    next : (s t u : State) → Step s t → Steps t u → Steps s u

  abbrev pub IsKnown : KeyStore Private Public → String → Type 0
  IsKnown ks key = lookup key ks.store ≢ none

  -- The active key is one of the keys, or none was set; so is what the pending calls will set.
  abbrev pub IsReady : State → Type 0
  IsReady s =
      ((s.keys.active_key ≡ "") ⊎ IsKnown s.keys s.keys.active_key) × All (IsKnown s.keys) s.pending

  All-mono :
      (ks t : KeyStore Private Public)
      → ((kid : String) → IsKnown ks kid → IsKnown t kid)
      → (ps : List String) → All (IsKnown ks) ps
      → All (IsKnown t) ps
  All-mono ks t f [] h = tt
  All-mono ks t f (p ∷ ps) (h, hs) = (f p h, All-mono ks t f ps hs)

  All-split :
      (P : String → Type 0) (ps qs : List String) (key : String)
      → All P (ps ++ (key ∷ qs))
      → P key × All P (ps ++ qs)
  All-split P [] qs key (h, hs) = (h, hs)
  All-split P (p ∷ ps) qs key (h, hs) = let (k, rest) = All-split P ps qs key hs in (k, (h, rest))

  is_known-IsKnown :
      (ks : KeyStore Private Public) (key : String) → is_known ks key ≡ true → IsKnown ks key
  unfolding is_known
  is_known-IsKnown ks key h e = ground arith

  step-IsReady : (s t : State) → Step s t → IsReady s → IsReady t
  unfolding activate
  step-IsReady _ _ (checks ks ps key known) (active, h) =
      (active, (is_known-IsKnown ks key known, h))
  step-IsReady _ _ (activates ks ps qs key) (active, h) =
      let (known, rest) = All-split (IsKnown ks) ps qs key h in (inr known, rest)
  step-IsReady _ _ (adds ks ps name k) (active, h) =
      let (_, keeps, same) = add_key-Extends pem name k ks in
      let t = add_key pem name k ks in
      (
        elim active [
          | inl unset ↦ inl (same ∙ unset)
          | inr known ↦
              inr (λ e. keeps ks.active_key known (ap (λ x. lookup x t.store) (sym same) ∙ e))
        ],
        All-mono ks t keeps ps h,
      )

  -- However the critical sections of loads and of calls of SetActiveKey interleave, the active key
  -- stays unset or one of the keys, as does every key that passed the test and is about to be set.
  pub steps-IsReady : (s t : State) → Steps s t → IsReady s → IsReady t
  steps-IsReady s _ (done _) h = h
  steps-IsReady s u (next _ t _ step steps) h = steps-IsReady t u steps (step-IsReady s t step h)
