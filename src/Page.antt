-- ===== src/Page.antt =====
-- internal/page/page.go: pagination from the query parameters.
pub mod Bounds
use jumble.Shared.{◌==◌, String, if◌then◌else◌, Bool, ltb}
use jumble.Go.Error.{Error, Result, ok, err, plain, context, ◌>>=◌}
use jumble.Go.Int.{ℤ, pos, negsuc, not_positive, atoi, decimal}
use jumble.Go.Text.{◌^^◌}

pub record Page : Type 0 where
  pub number : ℤ
  pub rows : ℤ

-- number > 100
abbrev pub above_100 : ℤ → Bool
above_100 (pos n) = ltb 100 n
above_100 (negsuc n) = ltb 100 0

too_small : ℤ → Error
too_small n = plain (decimal n ^^ ", value too small, must be greater than 0")

too_big : ℤ → Error
too_big n = plain (decimal n ^^ ", value too big, must be less than 100")

-- An empty parameter keeps its default. `label` is the prefix of the error.
number_or : ℤ → String → String → Result ℤ
number_or default label text = if text == "" then ok default else context label (atoi text)

-- The tests on the two numbers.
check : ℤ → ℤ → Result Page
unfolding too_small too_big
check number rows =
    if not_positive number
    then err (too_small number)
    else if not_positive rows
    then err (too_small rows)
    else if above_100 number
    then err (too_big number)
    else ok (record { number = number; rows = rows })

unfoldable pub parse : String → String → Result Page
unfolding number_or check
parse page_number rows_per_page = do
  number ← number_or (pos 1) "converting page number" page_number
  rows ← number_or (pos 10) "converting rows per page" rows_per_page
  check number rows
