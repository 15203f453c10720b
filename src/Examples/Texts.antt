-- ===== src/Examples/Texts.antt =====
-- Pages, orderings, filters and roles, as texts.
use jumble.Shared.{
  ℕ, String, ◌≡◌, ◌↔◌, ◌-◌, ◌*◌, ◌≤◌, refl, arith, inl, inr, none, some, Any, All, lookup, map,
  List, [], ◌∷◌, true, false,
}
use jumble.Go.Error.{ok}
use jumble.Go.Int
use jumble.Go.Int.{ℤ, pos}
use jumble.Go.Text.{◌^^◌, split, trim_space}
use jumble.Page.{Page, parse}
use jumble.Page.Bounds.{Reads, IsAccepted, parse-eq-ok_iff}
use jumble.Bus.Roles.{Role, role_admin, role_user, value, scan, bytes, text}
use jumble.Bus.Roles.Laws.{IsRole}
use jumble.Bus.Roles.ArrayText.{Element, array_text, role_of, scan-array_text, scan-value}
use jumble.Bus.Order.{Field, parse_order_by}
use jumble.Bus.Models.{QueryFilter}
use jumble.Userdb.Order.{order_by_clause}
use jumble.Userdb.Order.Laws.{clauses, order_by_clause-parse_order_by}
use jumble.Userdb.Filter
use jumble.Userdb.Filter.{apply_filters, like}
use jumble.Userdb.Filter.Laws.{clause_of, where_clause, wanted, pick, apply_filters_lem}
use jumble.Userdb.Store.{offset}
use jumble.Userdb.Store.Paging.{parse-offset}
use jumble.Userdb.Memory.{memory, uuid_text}

abbrev page_2 : Page
page_2 = record { number = pos 2; rows = pos 10 }

parse-eq-ok_iff_example :
    (parse "2" "" ≡ ok page_2)
    ↔ (Reads (pos 1) "2" (pos 2) × Reads (pos 10) "" (pos 10) × IsAccepted page_2)
parse-eq-ok_iff_example = parse-eq-ok_iff "2" "" page_2

second : parse "2" "" ≡ ok page_2
unfolding parse Int.atoi
second = refl

parse-offset_example :
    (n : ℕ) × (pos 2 ≡ pos n)
    × (1 ≤ n)
    × (n ≤ 100)
    × (offset memory uuid_text page_2 ≡ pos ((n - 1) * 10))
parse-offset_example = parse-offset memory uuid_text "2" "" page_2 10 second refl (omega arith)

abbrev both : List Role
both = role_admin ∷ role_user ∷ []

both_valid : All IsRole both
both_valid = (inl refl, (inr refl, tt))

scan-value_example :
    (v : String) × (value both ≡ ok v) × (scan (bytes v) ≡ ok both) × (scan (text v) ≡ ok both)
scan-value_example = scan-value both both_valid

-- {"admin",user}
abbrev elements : List Element
elements = (true, role_admin) ∷ (false, role_user) ∷ []

scan-array_text_example :
    (scan (bytes (array_text elements)) ≡ ok (map role_of elements))
    × (scan (text (array_text elements)) ≡ ok (map role_of elements))
scan-array_text_example = scan-array_text elements both_valid

abbrev by_name : Field
by_name = record { name = "name"; dir = "desc" }

descending : parse_order_by " name,desc" ≡ ok by_name
unfolding parse_order_by split trim_space
descending = refl

order_by_clause-parse_order_by_example :
    (c : String) × (order_by_clause by_name ≡ ok c) × Any (λ d. c ≡ d) clauses
order_by_clause-parse_order_by_example =
    order_by_clause-parse_order_by " name,desc" by_name descending

abbrev filter : QueryFilter
filter = record {
  name = some "ann";
  department = none;
  roles = some (role_user ∷ []);
  start_created_at = none;
  end_created_at = none;
}

apply_filters_lem_example :
    ((apply_filters filter [] "SELECT * FROM users ").1
      ≡ "SELECT * FROM users " ^^ where_clause (map clause_of (wanted filter)))
    × (lookup "roles" (apply_filters filter [] "SELECT * FROM users ").0
        ≡ pick Filter.time "end_created_at" "roles" none (
            pick Filter.time "start_created_at" "roles" none (
              pick Filter.roles "roles" "roles" (some (role_user ∷ [])) (
                pick Filter.text "department" "roles" none
                  (pick like "name" "roles" (some "ann") (lookup "roles" []))))))
apply_filters_lem_example = apply_filters_lem filter [] "SELECT * FROM users " "roles"
