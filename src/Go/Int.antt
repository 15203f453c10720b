-- ===== src/Go/Int.antt =====
-- Go's 64-bit int: two's complement wrap-around, and strconv.Atoi.
pub mod Range
use Prim.Native.String.{[], ◌∷◌}
use jumble.Shared.{
  ℕ, zero, suc, ◌/◌, ◌+◌, ◌-◌, ◌*◌, ◌%◌, ◌^◌, code, String, Bool, ◌&&◌, ltb, leb, nat_eq,
  if◌then◌else◌,
}
use jumble.Go.Text.{◌^^◌}
use jumble.Go.Error.{Result, ok, err, plain, ◌>>=◌}

-- `negsuc n` is -(n + 1).
pub data ℤ : Type 0 where
  pos : ℕ → ℤ
  negsuc : ℕ → ℤ

abbrev pub two63 : ℕ
two63 = 2 ^ 63

-- The int64 with the bit pattern of n.
unfoldable pub wrap64 : ℕ → ℤ
wrap64 n = let m = n % 2 ^ 64 in if ltb m two63 then pos m else negsuc (2 ^ 64 - m - 1)

-- -n, for n > 0
abbrev pub minus : ℕ → ℤ
minus n = if nat_eq n 0 then pos 0 else negsuc (n - 1)

-- The product of two int64 values, which keeps the low 64 bits.
unfoldable pub mul64 : ℤ → ℤ → ℤ
unfolding wrap64
mul64 (pos a) (pos b) = wrap64 (a * b)
mul64 (pos a) (negsuc b) = wrap64 (2 ^ 64 - (a * suc b) % 2 ^ 64)
mul64 (negsuc a) (pos b) = wrap64 (2 ^ 64 - (suc a * b) % 2 ^ 64)
mul64 (negsuc a) (negsuc b) = wrap64 (suc a * suc b)

-- n - 1 on int64; the least value wraps to the greatest
unfoldable pub pred64 : ℤ → ℤ
unfolding wrap64
pred64 (pos n) = if nat_eq n 0 then negsuc 0 else pos (n - 1)
pred64 (negsuc n) = wrap64 (2 ^ 64 - suc (suc n))

digit : ℕ → String
digit n =
    if nat_eq n 0
    then "0"
    else if nat_eq n 1
    then "1"
    else if nat_eq n 2
    then "2"
    else if nat_eq n 3
    then "3"
    else if nat_eq n 4
    then "4"
    else if nat_eq n 5
    then "5"
    else if nat_eq n 6
    then "6"
    else if nat_eq n 7
    then "7"
    else if nat_eq n 8
    then "8"
    else "9"

-- The fuel counts the digits; a 64-bit number has at most 20.
decimal_digits : ℕ → ℕ → String
decimal_digits zero n = ""
decimal_digits (suc f) n =
    let rest = decimal_digits f (n / 10) in if ltb n 10 then digit n else rest ^^ digit (n % 10)

-- The verb %d of package fmt.
unfoldable pub decimal : ℤ → String
unfolding decimal_digits digit
decimal (pos n) = decimal_digits 20 n
decimal (negsuc n) = "-" ^^ decimal_digits 20 (suc n)

-- a <= 0
abbrev pub not_positive : ℤ → Bool
not_positive (pos n) = nat_eq n 0
not_positive (negsuc n) = leb 0 n

-- The digit loop of strconv.ParseUint: base 10, 64 bits.
digits : ℕ → String → Result ℕ
digits n [] = ok n
digits n (c ∷ s) =
    let d = code c in
    let n' = n * 10 + (d - 48) in
    let rest = digits n' s in
    if leb 48 d && leb d 57
    then (if leb (2 ^ 64) n' then err (plain "value out of range") else rest)
    else err (plain "invalid syntax")

-- An unsigned decimal number; the empty text is refused.
unsigned : String → Result ℕ
unfolding digits
unsigned [] = err (plain "invalid syntax")
unsigned (c ∷ s) = digits 0 (c ∷ s)

non_negative : ℕ → Result ℤ
non_negative n = if ltb n two63 then ok (pos n) else err (plain "value out of range")

negated : ℕ → Result ℤ
negated n = if leb n two63 then ok (minus n) else err (plain "value out of range")

-- strconv.Atoi
unfoldable pub atoi : String → Result ℤ
unfolding unsigned non_negative negated
atoi [] = err (plain "invalid syntax")
atoi (c ∷ s) =
    if nat_eq (code c) b'-'
    then (do n ← unsigned s; negated n)
    else if nat_eq (code c) b'+'
    then (do n ← unsigned s; non_negative n)
    else (do n ← unsigned (c ∷ s); non_negative n)
