-- ===== src/Page/Bounds.antt =====
-- The pages that internal/page/page.go accepts.
use jumble.Shared.{ℕ, ◌≤◌, ◌<◌, ◌≡◌, ◌≢◌, ◌⊎◌, String, arith, ◌↔◌, inl, inr, eq_iff}
use jumble.Go.Error.{ok, >>=-eq-ok}
use jumble.Go.Int.{ℤ, pos, negsuc, two63, atoi}
use jumble.Go.Int.Range.{IsInt64, atoi-IsInt64}
use jumble.Page.{Page, parse, number_or, check}

-- The number of a parameter with its default.
abbrev pub Reads : ℤ → String → ℤ → Type 0
Reads default text z = ((text ≡ "") × (z ≡ default)) ⊎ ((text ≢ "") × (atoi text ≡ ok z))

number_or-eq-ok_iff :
    (default z : ℤ) (label text : String)
    → (number_or default label text ≡ ok z) ↔ Reads default text z
unfolding number_or
number_or-eq-ok_iff default z label text =
    (λ h. ground (arith, eq_iff text ""), λ h. ground (arith, eq_iff text ""))

abbrev pub IsAccepted : Page → Type 0
IsAccepted p =
    (n m : ℕ) × (p.number ≡ pos n) × (p.rows ≡ pos m) × (1 ≤ n) × (n ≤ 100) × (1 ≤ m) × (m < two63)

check-IsAccepted : (n m : ℤ) (p : Page) → IsInt64 m → check n m ≡ ok p → IsAccepted p
unfolding check
check-IsAccepted (pos n) (pos m) p b h =
    (n, m, ground arith, ground arith, ground arith, ground arith, ground arith, ground arith)
check-IsAccepted (pos n) (negsuc m) p b h = absurd (ground arith)
check-IsAccepted (negsuc n) m p b h = absurd (ground arith)

check_fields : (n m : ℤ) (p : Page) → check n m ≡ ok p → (n ≡ p.number) × (m ≡ p.rows)
unfolding check
check_fields n m p h = ground arith

check_of_IsAccepted : (p : Page) → IsAccepted p → check p.number p.rows ≡ ok p
unfolding check
check_of_IsAccepted p (n, m, en, em, low, high, rows, _) = ground arith

Reads-IsInt64 :
    (default : ℕ) (text : String) (z : ℤ) → default < two63 → Reads (pos default) text z → IsInt64 z
Reads-IsInt64 default text z small (inl (_, e)) = rw e small
Reads-IsInt64 default text z small (inr (_, e)) = atoi-IsInt64 text z e

-- A page is accepted exactly when each parameter is empty or read by strconv.Atoi, the number is
-- from 1 to 100 and the rows are at least 1; the rows have no other bound than int64.
pub parse-eq-ok_iff :
    (page_number rows_per_page : String) (p : Page)
    → (parse page_number rows_per_page ≡ ok p)
      ↔ (Reads (pos 1) page_number p.number × Reads (pos 10) rows_per_page p.rows × IsAccepted p)
unfolding parse
parse-eq-ok_iff page_number rows_per_page p = (to, from)
  where
    to :
        parse page_number rows_per_page ≡ ok p
        → Reads (pos 1) page_number p.number × Reads (pos 10) rows_per_page p.rows × IsAccepted p
    to h =
        let (n, hn, h') = >>=-eq-ok _ _ h in
        let (m, hm, checked) = >>=-eq-ok _ _ h' in
        let (en, em) = check_fields n m p checked in
        let rn = (number_or-eq-ok_iff _ n _ page_number).0 hn in
        let rm = (number_or-eq-ok_iff _ m _ rows_per_page).0 hm in
        (
          rw (← en) rn,
          rw (← em) rm,
          check-IsAccepted n m p (Reads-IsInt64 10 rows_per_page m (omega arith) rm) checked,
        )

    from :
        Reads (pos 1) page_number p.number × Reads (pos 10) rows_per_page p.rows × IsAccepted p
        → parse page_number rows_per_page ≡ ok p
    from (rn, rm, accepted) = rw ((number_or-eq-ok_iff (pos 1) _ _ page_number).1 rn) (
        rw ((number_or-eq-ok_iff (pos 10) _ _ rows_per_page).1 rm) (check_of_IsAccepted p accepted))
