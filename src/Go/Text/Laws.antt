-- ===== src/Go/Text/Laws.antt =====
-- Lemmas on splitting, joining and trimming, which package strings provides.
use Prim.Native.String.{[], ◌∷◌}
use jumble.Shared.{
  ℕ, Char, code, String, ◌≡◌, ◌≢◌, refl, Bool, true, false, List, [], ◌∷◌, All, arith, ap, ◌∙◌,
  ◌&&◌, if◌then◌else◌,
}
use jumble.Go.Text.{◌^^◌, split, join, trim_right, trim, is_empty}

-- Every code point of the text passes the test.
abbrev pub Each : (ℕ → Type 0) → String → Type 0
Each P [] = Unit
Each P (c ∷ s) = P (code c) × Each P s

pub Each-append : (P : ℕ → Type 0) (s t : String) → Each P s → Each P t → Each P (s ^^ t)
Each-append P [] t h k = k
Each-append P (c ∷ s) t (p, h) k = (p, Each-append P s t h k)

-- A part without the separator is the first part of the split.
split-append :
    (sep : ℕ) (s : String) (c : Char) (rest : String)
    → Each (λ d. d ≢ sep) s
    → code c ≡ sep
    → split sep (s ^^ (c ∷ rest)) ≡ s ∷ split sep rest
unfolding split
split-append sep [] c rest h e = ground arith
split-append sep (d ∷ s) c rest (p, h) e = ground (arith, split-append sep s c rest h e)

split_of_Each : (sep : ℕ) (s : String) → Each (λ d. d ≢ sep) s → split sep s ≡ s ∷ []
unfolding split
split_of_Each sep [] h = refl
split_of_Each sep (d ∷ s) (p, h) = ground (arith, split_of_Each sep s h)

-- Splitting a join of parts that hold no separator gives the parts back.
pub split-join :
    (c : Char) (p : String) (ps : List String)
    → All (Each (λ d. d ≢ code c)) (p ∷ ps)
    → split (code c) (join (c ∷ []) (p ∷ ps)) ≡ p ∷ ps
unfolding join
split-join c p [] (h, _) = split_of_Each (code c) p h
split-join c p (q ∷ ps) (h, k) =
    split-append (code c) p c (join (c ∷ []) (q ∷ ps)) h refl
    ∙ ap (λ r. p ∷ r) (split-join c q ps k)

-- What is bracketed by cut code points, and holds none, is what the trimming leaves.
trim_right-snoc :
    (cut : ℕ → Bool) (c : Char) (s : String)
    → cut (code c) ≡ true
    → Each (λ d. cut d ≡ false) s
    → trim_right cut (s ^^ (c ∷ [])) ≡ s
unfolding trim_right
trim_right-snoc cut c [] e h = rw e
trim_right-snoc cut c (d ∷ s) e (p, h) = rw (trim_right-snoc cut c s e h) (keep s)
  where
    keep :
        (t : String) → ◌≡◌ {A = String} (if is_empty t && cut (code d) then [] else d ∷ t) (d ∷ t)
    keep [] = rw p
    keep (a ∷ t) = refl

pub trim-bracketed :
    (cut : ℕ → Bool) (b c : Char) (s : String)
    → cut (code b) ≡ true
    → cut (code c) ≡ true
    → Each (λ d. cut d ≡ false) s
    → trim cut (b ∷ (s ^^ (c ∷ []))) ≡ s
unfolding trim
trim-bracketed cut b c [] eb ec h = rw (eb, ec)
trim-bracketed cut b c (d ∷ s) eb ec (p, h) = rw (eb, p) (trim_right-snoc cut c (d ∷ s) ec (p, h))

-- Trimming leaves a text that holds no cut code point as it is.
trim_right_of_Each :
    (cut : ℕ → Bool) (s : String) → Each (λ d. cut d ≡ false) s → trim_right cut s ≡ s
unfolding trim_right
trim_right_of_Each cut [] h = refl
trim_right_of_Each cut (d ∷ s) (p, h) = rw (trim_right_of_Each cut s h, p) (ground arith)

pub trim_of_Each : (cut : ℕ → Bool) (s : String) → Each (λ d. cut d ≡ false) s → trim cut s ≡ s
unfolding trim
trim_of_Each cut [] h = refl
trim_of_Each cut (d ∷ s) (p, h) = rw p (trim_right_of_Each cut (d ∷ s) (p, h))

pub Each-join :
    (P : ℕ → Type 0) (sep : String) (ps : List String)
    → Each P sep
    → All (Each P) ps
    → Each P (join sep ps)
unfolding join
Each-join P sep [] h k = tt
Each-join P sep (p ∷ []) h (k, _) = k
Each-join P sep (p ∷ q ∷ ps) h (k, ks) =
    Each-append P p (sep ^^ join sep (q ∷ ps)) k
      (Each-append P sep (join sep (q ∷ ps)) h (Each-join P sep (q ∷ ps) h ks))
