-- ===== src/Bus/Order.antt =====
-- internal/domains/user/bus/order.go: the ordering of a query.
pub mod Laws
use Prim.Native.String.{[], ◌∷◌}
use jumble.Shared.{String, Option, none, some, List, [], ◌∷◌, lookup, ◌==◌, if◌then◌else◌}
use jumble.Go.Error.{Result, ok, err, plain, ◌>>=◌}
use jumble.Go.Text.{◌^^◌, split, trim_space}

abbrev pub order_by_name : String
order_by_name = "name"

abbrev pub order_by_email : String
order_by_email = "email"

abbrev pub order_by_created_at : String
order_by_created_at = "createdAt"

abbrev pub order_by_updated_at : String
order_by_updated_at = "updatedAt"

abbrev pub order_by_asc : String
order_by_asc = "asc"

abbrev pub order_by_desc : String
order_by_desc = "desc"

abbrev pub order_by_set : List (String × String)
order_by_set =
    (order_by_name, "name")
    ∷ (order_by_email, "email")
    ∷ (order_by_created_at, "createdAt")
    ∷ (order_by_updated_at, "updatedAt")
    ∷ []

abbrev pub directions_set : List (String × String)
directions_set = (order_by_asc, "asc") ∷ (order_by_desc, "desc") ∷ []

pub record Field : Type 0 where
  pub name : String
  pub dir : String

-- `m[key]` with its ok, or the error
find : List (String × String) → String → String → Result String
unfolding lookup
find m problem key = elim (lookup key m) [ none ↦ err (plain (problem ^^ key)) | some v ↦ ok v ]

-- The part after the field's name.
order_of : String → String → List String → Result Field
unfolding find
order_of query valid_field [] = ok (record { name = valid_field; dir = order_by_asc })
order_of query valid_field (dir ∷ []) = do
  valid_dir ← find directions_set "unknown direction: " dir
  ok (record { name = valid_field; dir = valid_dir })
order_of query valid_field (_ ∷ _ ∷ _) = err (plain ("unknown order: " ^^ query))

-- The parts of the query; strings.Split gives at least one.
parse_parts : String → List String → Result Field
unfolding find order_of
parse_parts query [] = err (plain ("unknown order: " ^^ query))
parse_parts query (first ∷ more) = do
  valid_field ← find order_by_set "unknown field: " (trim_space first)
  order_of query valid_field more

unfoldable pub parse_order_by : String → Result Field
unfolding parse_parts
parse_order_by query =
    if query == ""
    then ok (record { name = order_by_created_at; dir = order_by_asc })
    else parse_parts query (split b',' query)
