-- ===== src/Userdb/Order.antt =====
-- internal/domains/user/store/userdb/order.go: the ORDER BY clause.
pub mod Laws
use Prim.Native.String
use jumble.Shared.{String, Option, none, some, List, [], ◌∷◌, lookup}
use jumble.Go.Error.{Result, ok, err, plain}
use jumble.Go.Text.{◌^^◌}
use jumble.Bus.Order.{
  Field, order_by_name, order_by_email, order_by_created_at, order_by_updated_at,
}

abbrev pub order_by_field_names : List (String × String)
order_by_field_names =
    (order_by_name, "name")
    ∷ (order_by_email, "email")
    ∷ (order_by_created_at, "created_at")
    ∷ (order_by_updated_at, "updated_at")
    ∷ []

-- The verb %q puts the name in quotes; escapes inside it are left out.
unfoldable pub order_by_clause : Field → Result String
unfolding lookup
order_by_clause field = elim (lookup field.name order_by_field_names) [
  | none ↦ err (plain ("\"" ^^ (field.name ^^ "\" is not a valid field to order by")))
  | some by ↦ ok (" ORDER BY " ^^ (by ^^ (" " ^^ field.dir)))
]
