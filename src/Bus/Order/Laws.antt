-- ===== src/Bus/Order/Laws.antt =====
-- The orderings that internal/domains/user/bus/order.go accepts.
use jumble.Shared.{String, ◌≡◌, ◌⊎◌, List, [], ◌∷◌, arith, eq_iff, Bool-cases, inl, inr, ◌==◌}
use jumble.Go.Error.{ok, >>=-eq-ok}
use jumble.Go.Text.{split, trim_space}
use jumble.Bus.Order.{
  Field, find, order_of, parse_parts, parse_order_by, order_by_set, directions_set, order_by_name,
  order_by_email, order_by_created_at, order_by_updated_at, order_by_asc, order_by_desc,
}

-- One of the four field names.
abbrev pub IsFieldName : String → Type 0
IsFieldName s =
    (s ≡ order_by_name)
    ⊎ (s ≡ order_by_email)
    ⊎ (s ≡ order_by_created_at)
    ⊎ (s ≡ order_by_updated_at)

abbrev pub IsDirection : String → Type 0
IsDirection s = (s ≡ order_by_asc) ⊎ (s ≡ order_by_desc)

abbrev pub IsOrdering : Field → Type 0
IsOrdering f = IsFieldName f.name × IsDirection f.dir

find-order_by_set :
    (problem key v : String) → find order_by_set problem key ≡ ok v → IsFieldName v × (v ≡ key)
unfolding find
find-order_by_set problem key v h =
    ground
      (arith, eq_iff "name" key, eq_iff "email" key, eq_iff "createdAt" key, eq_iff "updatedAt" key)

find-directions_set :
    (problem key v : String) → find directions_set problem key ≡ ok v → IsDirection v × (v ≡ key)
unfolding find
find-directions_set problem key v h = ground (arith, eq_iff "asc" key, eq_iff "desc" key)

order_of-IsOrdering :
    (query valid : String) (more : List String) (f : Field)
    → IsFieldName valid
    → order_of query valid more ≡ ok f
    → IsOrdering f
unfolding order_of
order_of-IsOrdering query valid [] f p h = ground arith
order_of-IsOrdering query valid (dir ∷ []) f p h =
    let (d, hd, e) = >>=-eq-ok (find directions_set "unknown direction: " dir) _ h in
    let (is_dir, _) = find-directions_set "unknown direction: " dir d hd in ground (arith, is_dir)
order_of-IsOrdering query valid (a ∷ b ∷ more) f p h = cc

parse_parts-IsOrdering :
    (query : String) (parts : List String) (f : Field)
    → parse_parts query parts ≡ ok f
    → IsOrdering f
unfolding parse_parts
parse_parts-IsOrdering query [] f h = cc
parse_parts-IsOrdering query (first ∷ more) f h =
    let (v, hv, e) =
      >>=-eq-ok (find order_by_set "unknown field: " (trim_space first))
        (λ v. order_of query v more) h in
    order_of-IsOrdering query v more f
      (find-order_by_set "unknown field: " (trim_space first) v hv).0 e

-- Whatever the client sends, an accepted ordering has one of the four names and one of the two
-- directions.
pub parse_order_by-IsOrdering :
    (query : String) (f : Field) → parse_order_by query ≡ ok f → IsOrdering f
unfolding parse_order_by
parse_order_by-IsOrdering query f h = elim (Bool-cases (query == "")) [
  | inl empty ↦ ground arith
  | inr more ↦ parse_parts-IsOrdering query (split b',' query) f (rw more at h)
]
