-- ===== src/Go/Action.antt =====
-- Methods that read and write the state behind a pointer and may fail: the state comes back beside
-- the error too.
use jumble.Shared.{Option, none, some, String, ◌≡◌, refl, ◌⊎◌, inl, inr}
use jumble.Go.Error.{Error, Result, ok, err, wrap, context}

abbrev pub Action : Type 0 → Type 0 → Type 0
Action S A = S → Result A × S

module _ {S A : Type 0} where
  abbrev pub lift : Result A → Action S A
  lift r s = (r, s)

  abbrev pub reads : (S → Result A) → Action S A
  reads f s = (f s, s)

module _ {S A B : Type 0} where
  abbrev pub continue : Result A → (A → Action S B) → Action S B
  continue (ok a) f s = f a s
  continue (err e) f s = (err e, s)

  infixl 5 ◌>>=◌
  abbrev pub ◌>>=◌ : Action S A → (A → Action S B) → Action S B
  ◌>>=◌ m f s = continue (m s).0 f (m s).1

-- A call that returns only an error, with the text that wraps it.
abbrev pub outcome : String → Option Error → Result (Unit {0})
outcome prefix none = ok tt
outcome prefix (some e) = err (wrap prefix e)

abbrev pub run : {S : Type 0} → String → (S → Option Error × S) → Action S (Unit {0})
run prefix f s = (outcome prefix (f s).0, (f s).1)

-- `defer f()`, around the rest of the function
abbrev pub deferring : {S A : Type 0} → (S → S) → Action S A → Action S A
deferring f m s = ((m s).0, f (m s).1)

-- A call of another method, with the text that wraps its error.
abbrev pub within : {S A : Type 0} → String → Action S A → Action S A
within prefix m s = (context prefix (m s).0, (m s).1)

-- A call that returns a result, or panics.
pub data Call {ℓ} (A : Type ℓ) : Type ℓ where
  returns : Result A → Call A
  panics : String → Call A

pub Call-cases {ℓ} :
    {A : Type ℓ} (c : Call A)
    → ((m : String) × (c ≡ panics m))
      ⊎ ((e : Error) × (c ≡ returns (err e)))
      ⊎ ((a : A) × (c ≡ returns (ok a)))
Call-cases (panics m) = inl (m, refl)
Call-cases (returns (err e)) = inr (inl (e, refl))
Call-cases (returns (ok a)) = inr (inr (a, refl))
