-- ===== src/Shared/Lists.antt =====
-- Lists and association lists: predicates on every element, membership, and Go maps with string
-- keys.
use Prim.Native.Nat.{ℕ, suc}
use Prim.Native.String.{String}
use mathlib.Core.Path.{◌≡◌, refl, subst}
use mathlib.Core.Logic.{◌⊎◌, inl, inr}
use mathlib.Core.Bool.{Bool, false, ◌||◌}
use mathlib.Core.Option.{Option, none, some}
use mathlib.Core.List.{List, [], ◌∷◌, ◌++◌}
use native.Mathlib.Omega.{arith}
use text.Mathlib.Text.{◌==◌}
use text.Mathlib.TextEquality.{eq_iff}
use jumble.Shared.Tests.{if◌then◌else◌}

module _ {ℓ} {A : Type ℓ} where
  abbrev pub length : List A → ℕ
  length [] = 0
  length (x ∷ xs) = suc (length xs)

  abbrev pub Any {κ} : (A → Type κ) → List A → Type κ
  Any P [] = Unit → ⊥
  Any P (x ∷ xs) = P x ⊎ Any P xs

module _ {ℓ κ} {A : Type ℓ} (P : A → Type κ) where
  abbrev pub All : List A → Type κ
  All [] = Unit
  All (x ∷ xs) = P x × All xs

  pub All-append : (xs ys : List A) → All xs → All ys → All (xs ++ ys)
  All-append [] ys h k = k
  All-append (x ∷ xs) ys (p, h) k = (p, All-append xs ys h k)

  pub All-split : (xs ys : List A) → All (xs ++ ys) → All xs × All ys
  All-split [] ys h = (tt, h)
  All-split (x ∷ xs) ys (p, h) = let (first, rest) = All-split xs ys h in ((p, first), rest)

  -- A member has what all members have.
  pub All-Any : (xs : List A) (x : A) → All xs → Any (λ y. y ≡ x) xs → P x
  All-Any [] x all any = absurd (any tt)
  All-Any (y ∷ ys) x (p, all) (inl here) = subst P here p
  All-Any (y ∷ ys) x (p, all) (inr there) = All-Any ys x all there

-- `slices.Contains` on texts, and a test on the keys of a `map[string]struct{}`.
abbrev pub contains : List String → String → Bool
contains [] s = false
contains (x ∷ xs) s = (x == s) || contains xs s

-- A Go map with string keys, as an association list.
module _ {ℓ} {Val : Type ℓ} where
  -- m[key], with its ok
  unfoldable pub lookup : (key : String) (m : List (String × Val)) → Option Val
  lookup key [] = none
  lookup key ((name, val) ∷ rest) = if name == key then some val else lookup key rest

  -- m[key] = val
  unfoldable pub insert : (key : String) (val : Val) (m : List (String × Val)) → List (String × Val)
  insert key val [] = (key, val) ∷ []
  insert key val ((name, old) ∷ rest) =
      let below = insert key val rest in
      if name == key then (name, val) ∷ rest else (name, old) ∷ below

  pub lookup-insert :
      (key other : String) (val : Val) (m : List (String × Val))
      → lookup other (insert key val m) ≡ (if key == other then some val else lookup other m)
  unfolding insert lookup
  lookup-insert key other val [] = refl
  lookup-insert key other val ((name, old) ∷ rest) = ground (
    arith,
    lookup-insert key other val rest,
    eq_iff name other,
    eq_iff name key,
    eq_iff key other,
  )
