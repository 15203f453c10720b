-- ===== src/Userdb/Filter.antt =====
-- internal/domains/user/store/userdb/filter.go: the WHERE clause and its named arguments.
pub mod Laws
use Prim.Native.String
use jumble.Shared.{String, Option, none, some, List, [], ◌∷◌, ◌++◌, insert}
use jumble.Go.Text.{◌^^◌, join}
use jumble.Go.Int.{ℤ}
use jumble.Bus.Roles.{Role}
use jumble.Bus.Models.{Time, QueryFilter}

-- The values of the map that sqlx binds to the named parameters.
pub data Arg : Type 0 where
  text : String → Arg
  int : ℤ → Arg
  roles : List Role → Arg
  time : Time → Arg

abbrev pub Args : Type 0
Args = List (String × Arg)

-- The map and the clauses so far.
abbrev Partial : Type 0
Partial = Args × List String

-- `if x != nil { data[key] = arg(*x); whereClause = append(whereClause, clause) }`
condition : {A : Type 0} → (A → Arg) → String → String → Option A → Partial → Partial
condition arg key clause none p = p
condition arg key clause (some x) (args, clauses) =
    (insert key (arg x) args, clauses ++ clause ∷ [])

-- fmt.Sprintf("%%%s%%", name)
abbrev pub like : String → Arg
like s = text ("%" ^^ (s ^^ "%"))

conditions : QueryFilter → Args → Partial
unfolding condition
conditions filters args =
    let p : Partial = (args, []) in
    let p = condition like "name" "name LIKE :name" filters.name p in
    let p = condition text "department" "department = :department" filters.department p in
    let p = condition roles "roles" "roles && :roles" filters.roles p in
    let p =
      condition time "start_created_at" "created_at >= :start_created_at" filters.start_created_at
        p in
    condition time "end_created_at" "created_at <= :end_created_at" filters.end_created_at p

-- What is written to the buffer.
pub where_text : List String → String
where_text [] = ""
where_text (c ∷ cs) = " WHERE " ^^ join " AND " (c ∷ cs)

-- The map and the buffer after the call. UTC keeps the instant.
unfoldable pub apply_filters : QueryFilter → Args → String → Args × String
unfolding conditions where_text
apply_filters filters args buf =
    let (args', clauses) = conditions filters args in (args', buf ^^ where_text clauses)
