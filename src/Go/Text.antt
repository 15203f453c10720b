-- ===== src/Go/Text.antt =====
-- The functions of package strings that the program calls, over code points.
pub mod Laws
use Prim.Native.String.{[], ◌∷◌}
use jumble.Shared.{
  ℕ, zero, suc, Char, code, String, Bool, true, false, ◌&&◌, ◌||◌, List, [], ◌∷◌, leb, nat_eq,
  if◌then◌else◌,
}

infixr 65 ◌^^◌
-- Concatenation of texts, by clauses, so that it computes at a variable tail.
abbrev pub ◌^^◌ : String → String → String
[] ^^ t = t
(c ∷ s) ^^ t = c ∷ (s ^^ t)

abbrev pub push_head : Char → List String → List String
push_head c [] = (c ∷ []) ∷ []
push_head c (s ∷ ss) = (c ∷ s) ∷ ss

-- strings.Split(s, sep) for a separator of one code point
unfoldable pub split : ℕ → String → List String
split sep [] = [] ∷ []
split sep (c ∷ s) =
    let rest = split sep s in if nat_eq (code c) sep then [] ∷ rest else push_head c rest

-- strings.Join(parts, sep)
unfoldable pub join : String → List String → String
join sep [] = []
join sep (p ∷ []) = p
join sep (p ∷ q ∷ ps) = p ^^ (sep ^^ join sep (q ∷ ps))

unfoldable pub trim_left : (ℕ → Bool) → String → String
trim_left cut [] = []
trim_left cut (c ∷ s) = let rest = trim_left cut s in if cut (code c) then rest else c ∷ s

abbrev pub is_empty : String → Bool
is_empty [] = true
is_empty (c ∷ s) = false

unfoldable pub trim_right : (ℕ → Bool) → String → String
trim_right cut [] = []
trim_right cut (c ∷ s) =
    let rest = trim_right cut s in if is_empty rest && cut (code c) then [] else c ∷ rest

-- strings.Trim, with the cutset as a test
unfoldable pub trim : (ℕ → Bool) → String → String
unfolding trim_left trim_right
trim cut s = trim_right cut (trim_left cut s)

-- unicode.IsSpace
unfoldable pub is_space : ℕ → Bool
is_space c =
    (leb 9 c && leb c 13)
    || nat_eq c 32
    || nat_eq c 0x85
    || nat_eq c 0xa0
    || nat_eq c 0x1680
    || (leb 0x2000 c && leb c 0x200a)
    || nat_eq c 0x2028
    || nat_eq c 0x2029
    || nat_eq c 0x202f
    || nat_eq c 0x205f
    || nat_eq c 0x3000

unfoldable pub trim_space : String → String
unfolding trim is_space
trim_space s = trim is_space s

-- strings.HasPrefix
abbrev pub has_prefix : String → String → Bool
has_prefix s [] = true
has_prefix [] (d ∷ p) = false
has_prefix (c ∷ s) (d ∷ p) = nat_eq (code c) (code d) && has_prefix s p

-- s[n:] where the first n code points are ASCII
abbrev pub drop : ℕ → String → String
drop zero s = s
drop (suc n) [] = []
drop (suc n) (c ∷ s) = drop n s
