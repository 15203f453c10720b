-- ===== src/Userdb/Store/Paging.antt =====
-- The rows that Query of internal/domains/user/store/userdb/userdb.go skips for a page of
-- internal/page/page.go.
use jumble.Shared.{ℕ, ◌+◌, ◌-◌, ◌*◌, ◌≤◌, ◌<◌, ◌≡◌, ◌∙◌, ap, String, arith}
use mathlib.Core.Path.{subst}
use jumble.Go.Error.{ok}
use jumble.Go.Int.{pos, two63, mul64, pred64}
use jumble.Go.Int.Range.{mul64-pos}
use jumble.Bus.Models.{Uuid}
use jumble.Page.{Page, parse}
use jumble.Page.Bounds.{parse-eq-ok_iff}
use jumble.Userdb.Database.{Database}
use jumble.Userdb.Store.{offset}

times_mono : (k j m : ℕ) → k * m ≤ (k + j) * m
times_mono k j m = omega arith

within : (n m : ℕ) → n ≤ 100 → 99 * m < two63 → (n - 1) * m < two63
within n m h small =
    let more = times_mono (n - 1) (99 - (n - 1)) m in
    let whole : (n - 1) + (99 - (n - 1)) ≡ 99 = omega arith in
    let bound = subst (λ k. (n - 1) * m ≤ k * m) whole more in omega arith

offset_of :
    (n m : ℕ)
    → 1 ≤ n
    → n ≤ 100
    → 99 * m < two63
    → mul64 (pred64 (pos n)) (pos m) ≡ pos ((n - 1) * m)
unfolding pred64
offset_of n m low high small =
    let pred : pred64 (pos n) ≡ pos (n - 1) = ground arith in
    ap (λ z. mul64 z (pos m)) pred ∙ mul64-pos (n - 1) m (within n m high small)

-- For a page that the parameters give, of so few rows that 99 times them are below 2^63, the offset
-- is the number of rows on the pages before it, and does not wrap around.
pub parse-offset :
    {S : Type 0} (db : Database S) (uuid_string : Uuid → String)
    (page_number rows_per_page : String) (p : Page) (m : ℕ)
    → parse page_number rows_per_page ≡ ok p
    → p.rows ≡ pos m
    → 99 * m < two63
    → (n : ℕ) × (p.number ≡ pos n)
      × (1 ≤ n)
      × (n ≤ 100)
      × (offset db uuid_string p ≡ pos ((n - 1) * m))
parse-offset db uuid_string page_number rows_per_page p m h rows small =
    let (_, _, (n, _, en, _, low, high, _, _)) =
      (parse-eq-ok_iff page_number rows_per_page p).0 h in
    (
      n,
      en,
      low,
      high,
      ap (λ z. mul64 (pred64 z) p.rows) en
          ∙ ap (mul64 (pred64 (pos n))) rows
          ∙ offset_of n m low high small,
    )
