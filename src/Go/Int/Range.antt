-- ===== src/Go/Int/Range.antt =====
-- Lemmas on the range of Go's 64-bit int.
use Prim.Native.String.{[], ◌∷◌}
use jumble.Shared.{ℕ, ◌*◌, ◌<◌, ◌≡◌, String, code, arith, nat_eq, Bool-cases, inl, inr}
use jumble.Go.Error.{Result, ok, err, ◌>>=◌}
use jumble.Go.Int.{ℤ, pos, negsuc, two63, mul64, atoi, unsigned, non_negative, negated}

-- A value that an int64 can hold.
abbrev pub IsInt64 : ℤ → Type 0
IsInt64 (pos n) = n < two63
IsInt64 (negsuc n) = n < two63

non_negative-IsInt64 : (r : Result ℕ) (z : ℤ) → (r >>= non_negative) ≡ ok z → IsInt64 z
unfolding non_negative
non_negative-IsInt64 (ok n) (pos m) h = ground arith
non_negative-IsInt64 (ok n) (negsuc m) h = ground arith
non_negative-IsInt64 (err e) z h = cc

negated-IsInt64 : (r : Result ℕ) (z : ℤ) → (r >>= negated) ≡ ok z → IsInt64 z
unfolding negated
negated-IsInt64 (ok n) (pos m) h = ground arith
negated-IsInt64 (ok n) (negsuc m) h = ground arith
negated-IsInt64 (err e) z h = cc

pub atoi-IsInt64 : (s : String) (z : ℤ) → atoi s ≡ ok z → IsInt64 z
unfolding atoi
atoi-IsInt64 [] z h = cc
atoi-IsInt64 (c ∷ s) z h = elim (Bool-cases (nat_eq (code c) b'-')) [
  | inl minus ↦ negated-IsInt64 (unsigned s) z (rw minus at h)
  | inr other ↦ elim (Bool-cases (nat_eq (code c) b'+')) [
    | inl plus ↦ non_negative-IsInt64 (unsigned s) z (rw (other, plus) at h)
    | inr digit ↦ non_negative-IsInt64 (unsigned (c ∷ s)) z (rw (other, digit) at h)
  ]
]

pub mul64-pos : (a b : ℕ) → a * b < two63 → mul64 (pos a) (pos b) ≡ pos (a * b)
unfolding mul64
mul64-pos a b h = ground arith
