-- ===== src/Bus/Roles/ArrayText.antt =====
-- Value and Scan of internal/domains/user/bus/roles.go on the PostgreSQL array text.
use Prim.Native.String.{[], ◌∷◌}
use jumble.Shared.{
  ℕ, String, ◌≡◌, ◌≢◌, refl, Bool, true, false, List, [], ◌∷◌, All, map, arith, inl, inr, ap,
  Bool-cases, ◌∙◌, if◌then◌else◌,
}
use mathlib.Core.Path.{subst}
use jumble.Go.Error.{ok, ok-injective, >>=-eq-ok, context-eq-ok}
use jumble.Go.Text.{◌^^◌, split, join, trim, is_empty}
use jumble.Go.Text.Laws.{Each, Each-join, split-join, trim-bracketed}
use jumble.Bus.Roles.{
  Role, Column, null, bytes, text, other, string, value, is_brace, is_quote, parse_elements,
  parse_postgres_array, scan,
}
use jumble.Bus.Roles.Laws.{IsRole, parse_role-value, parse_role_sound}

-- An element of the array text: a role, quoted or not.
abbrev pub Element : Type 0
Element = Bool × Role

abbrev pub element_text : Element → String
element_text (quoted, r) = if quoted then ("\"" ^^ (r.value ^^ "\"")) else r.value

abbrev pub array_text : List Element → String
array_text es = "{" ^^ (join "," (map element_text es) ^^ "}")

abbrev pub role_of : Element → Role
role_of e = e.1

-- A code point that ends neither an element nor the array.
abbrev IsInner : ℕ → Type 0
IsInner c = (c ≢ b',') × (c ≢ b'{') × (c ≢ b'}')

abbrev NotBrace : ℕ → Type 0
NotBrace c = is_brace c ≡ false

IsInner-NotBrace : (c : ℕ) → IsInner c → NotBrace c
IsInner-NotBrace c h = ground arith

element_text-IsInner : (e : Element) → IsRole e.1 → Each IsInner (element_text e)
element_text-IsInner (true, r) (inl e) = rw e (omega arith)
element_text-IsInner (true, r) (inr e) = rw e (omega arith)
element_text-IsInner (false, r) (inl e) = rw e (omega arith)
element_text-IsInner (false, r) (inr e) = rw e (omega arith)

trim-element_text : (e : Element) → IsRole e.1 → trim is_quote (element_text e) ≡ e.1.value
unfolding trim
trim-element_text (true, r) (inl e) = rw e
trim-element_text (true, r) (inr e) = rw e
trim-element_text (false, r) (inl e) = rw e
trim-element_text (false, r) (inr e) = rw e

parse_elements-element_text :
    (es : List Element)
    → All (λ e. IsRole e.1) es
    → parse_elements (map element_text es) ≡ ok (map role_of es)
unfolding parse_elements
parse_elements-element_text [] h = refl
parse_elements-element_text (e ∷ es) (p, h) =
    rw (trim-element_text e p, parse_role-value e.1 p) (rw (parse_elements-element_text es h))

map-IsInner :
    (es : List Element) → All (λ e. IsRole e.1) es → All (Each IsInner) (map element_text es)
map-IsInner [] h = tt
map-IsInner (e ∷ es) (p, h) = (element_text-IsInner e p, map-IsInner es h)

-- The text of a non-empty list of elements, without its braces.
abbrev inner : Element → List Element → String
inner e es = join "," (map element_text (e ∷ es))

Each-weaken : {P Q : ℕ → Type 0} (f : (c : ℕ) → P c → Q c) (s : String) → Each P s → Each Q s
Each-weaken f [] h = tt
Each-weaken f (c ∷ s) (p, h) = (f _ p, Each-weaken f s h)

All-weaken :
    {P Q : ℕ → Type 0} (f : (c : ℕ) → P c → Q c) (ss : List String)
    → All (Each P) ss
    → All (Each Q) ss
All-weaken f [] h = tt
All-weaken f (s ∷ ss) (p, h) = (Each-weaken f s p, All-weaken f ss h)

element_not_empty : (e : Element) → IsRole e.1 → is_empty (element_text e) ≡ false
element_not_empty (true, r) p = refl
element_not_empty (false, r) (inl e) = rw e
element_not_empty (false, r) (inr e) = rw e

append_not_empty : (s t : String) → is_empty s ≡ false → is_empty (s ^^ t) ≡ false
append_not_empty [] t h = cc
append_not_empty (c ∷ s) t h = refl

join_not_empty :
    (s : String) (ss : List String) → is_empty s ≡ false → is_empty (join "," (s ∷ ss)) ≡ false
unfolding join
join_not_empty s [] h = h
join_not_empty s (t ∷ ss) h = append_not_empty s _ h

parse_postgres_array_by :
    (arr s : String) (rs : List Role)
    → trim is_brace arr ≡ s
    → is_empty s ≡ false
    → parse_elements (split b',' s) ≡ ok rs
    → parse_postgres_array arr ≡ ok rs
unfolding parse_postgres_array
parse_postgres_array_by arr s rs e n h =
    let full : is_empty (trim is_brace arr) ≡ false = ap is_empty e ∙ n in
    rw (full, parse_postgres_array) (ap (λ t. parse_elements (split b',' t)) e ∙ h)

module _ (e : Element) (es : List Element) (h : All (λ e. IsRole e.1) (e ∷ es)) where
  split-inner : split b',' (inner e es) ≡ map element_text (e ∷ es)
  split-inner =
      split-join "," _ _
        (All-weaken {P = IsInner} (λ c p. p.0) (map element_text (e ∷ es)) (map-IsInner (e ∷ es) h))

  trim-array_text : trim is_brace (array_text (e ∷ es)) ≡ inner e es
  trim-array_text = trim-bracketed is_brace "{" "}" (inner e es) refl refl (
      Each-join NotBrace "," (map element_text (e ∷ es)) (refl, tt)
        (All-weaken IsInner-NotBrace (map element_text (e ∷ es)) (map-IsInner (e ∷ es) h)))

  inner_not_empty : is_empty (inner e es) ≡ false
  inner_not_empty = join_not_empty (element_text e) (map element_text es) (element_not_empty e h.0)

  parse_postgres_array-array_text :
      parse_postgres_array (array_text (e ∷ es)) ≡ ok (map role_of (e ∷ es))
  parse_postgres_array-array_text =
      parse_postgres_array_by (array_text (e ∷ es)) (inner e es) (map role_of (e ∷ es))
        trim-array_text inner_not_empty
        (ap parse_elements split-inner ∙ parse_elements-element_text (e ∷ es) h)

parse_empty_array : parse_postgres_array (array_text []) ≡ ok []
unfolding parse_postgres_array trim join
parse_empty_array = refl

-- Scan reads any array of valid roles, each quoted or not, given as bytes or as a text.
pub scan-array_text :
    (es : List Element)
    → All (λ e. IsRole e.1) es
    → (scan (bytes (array_text es)) ≡ ok (map role_of es))
      × (scan (text (array_text es)) ≡ ok (map role_of es))
unfolding scan
scan-array_text [] h = (parse_empty_array, parse_empty_array)
scan-array_text (e ∷ es) h =
    (parse_postgres_array-array_text e es h, parse_postgres_array-array_text e es h)

abbrev plain_element : Role → Element
plain_element r = (false, r)

map-string : (rs : List Role) → map string rs ≡ map element_text (map plain_element rs)
unfolding string
map-string [] = refl
map-string (r ∷ rs) = ap (λ l. r.value ∷ l) (map-string rs)

value-array_text : (rs : List Role) → value rs ≡ ok (array_text (map plain_element rs))
unfolding value
value-array_text [] = refl
value-array_text (r ∷ rs) = rw (← map-string rs)

map-role_of : (rs : List Role) → map role_of (map plain_element rs) ≡ rs
map-role_of [] = refl
map-role_of (r ∷ rs) = ap (λ l. r ∷ l) (map-role_of rs)

All-plain_element : (rs : List Role) → All IsRole rs → All (λ e. IsRole e.1) (map plain_element rs)
All-plain_element [] h = tt
All-plain_element (r ∷ rs) (p, h) = (p, All-plain_element rs h)

-- What Value writes for valid roles, Scan reads back as the same roles in the same order.
pub scan-value :
    (rs : List Role)
    → All IsRole rs
    → (v : String) × (value rs ≡ ok v) × (scan (bytes v) ≡ ok rs) × (scan (text v) ≡ ok rs)
scan-value rs h =
    let (b, t) = scan-array_text (map plain_element rs) (All-plain_element rs h) in
    (
      array_text (map plain_element rs),
      value-array_text rs,
      b ∙ ap ok (map-role_of rs),
      t ∙ ap ok (map-role_of rs),
    )

parse_elements_sound :
    (elements : List String) (rs : List Role) → parse_elements elements ≡ ok rs → All IsRole rs
unfolding parse_elements
parse_elements_sound [] rs h = subst (All IsRole) (ok-injective h) tt
parse_elements_sound (elem ∷ elements) rs h =
    let (r, hr, h') = >>=-eq-ok _ _ h in
    let (rest, hrest, e) = >>=-eq-ok _ _ h' in
    subst (All IsRole) {x = r ∷ rest} (ok-injective e)
      ((parse_role_sound _ r (context-eq-ok _ _ hr)).0, parse_elements_sound elements rest hrest)

parse_postgres_array_sound :
    (arr : String) (rs : List Role) → parse_postgres_array arr ≡ ok rs → All IsRole rs
unfolding parse_postgres_array
parse_postgres_array_sound arr rs h = elim (Bool-cases (is_empty (trim is_brace arr))) [
  | inl empty ↦
      subst (All IsRole) {x = []} (ok-injective (rw (empty, parse_postgres_array) at h)) tt
  | inr more ↦
      parse_elements_sound (split b',' (trim is_brace arr)) rs
        (rw (more, parse_postgres_array) at h)
]

-- Whatever the column holds, the roles that Scan accepts are valid roles.
pub scan_sound : (c : Column) (rs : List Role) → scan c ≡ ok rs → All IsRole rs
unfolding scan
scan_sound null rs h = subst (All IsRole) (ok-injective h) tt
scan_sound (bytes v) rs h = parse_postgres_array_sound v rs h
scan_sound (text v) rs h = parse_postgres_array_sound v rs h
scan_sound (other t) rs h = cc
