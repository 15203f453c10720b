-- ===== src/Userdb/Memory.antt =====
-- A database in memory for internal/domains/user/store/userdb, made after the contract of
-- Postgres.antt.
pub mod Laws
use Prim.Native.String.{[], ◌∷◌}
use jumble.Shared.{
  ℕ, zero, suc, String, Bool, true, false, not, map, ◌||◌, ◌&&◌, Option, none, some, List, [], ◌∷◌,
  length, lookup, nat_eq, ◌==◌, if◌then◌else◌,
}
use jumble.Go.Error.{Error, Result, ok, err, plain, pg_error}
use jumble.Go.Text.{◌^^◌}
use jumble.Go.Int.{ℤ, pos}
use jumble.Bus.Models.{Uuid}
use jumble.Userdb.Models.{User}
use jumble.Userdb.Filter.{Arg, text, Args}
use jumble.Userdb.Database.{Database, Row, Rows}
use jumble.Userdb.Postgres.{fits, inserted, updated, only}
use jumble.Userdb.Store.{
  create_query, update_query, delete_query, id_query, email_query, unique_violation,
}

abbrev pub Table : Type 0
Table = List Row

-- A text for each id, in unary.
abbrev pub uuid_text : Uuid → String
uuid_text zero = ""
uuid_text (suc n) = "1" ^^ uuid_text n

unfoldable pub by_id : Table → Uuid → Option Row
by_id [] i = none
by_id (r ∷ s) i = if nat_eq r.id i then some r else by_id s i

unfoldable pub by_text : Table → String → Option Row
by_text [] t = none
by_text (r ∷ s) t = if uuid_text r.id == t then some r else by_text s t

unfoldable pub by_email : Table → String → Option Row
by_email [] a = none
by_email (r ∷ s) a = if r.email == a then some r else by_email s a

unfoldable pub remove : Uuid → Table → Table
remove k [] = []
remove k (r ∷ s) = let rest = remove k s in if nat_eq k r.id then rest else r ∷ rest

unfoldable pub modify : User → Table → Table
modify u [] = []
modify u (r ∷ s) = (if nat_eq u.id r.id then updated u r else r) ∷ modify u s

abbrev pub is_some : Option Row → Bool
is_some none = false
is_some (some r) = true

abbrev pub held_by_other : Uuid → Option Row → Bool
held_by_other k none = false
held_by_other k (some r) = not (nat_eq r.id k)

unfoldable pub exec : String → User → Table → Option Error × Table
exec q u s =
    if (q == create_query || q == update_query) && not (fits u)
    then (some (pg_error "22001" "value too long for type character varying"), s)
    else if q == create_query
    then (if is_some (by_id s u.id) || is_some (by_email s u.email)
        then (some (pg_error unique_violation "duplicate key"), s)
        else (none, inserted u ∷ s))
    else if q == update_query
    then (if is_some (by_id s u.id) && held_by_other u.id (by_email s u.email)
        then (some (pg_error unique_violation "duplicate key"), s)
        else (none, modify u s))
    else if q == delete_query
    then (none, remove u.id s)
    else (some (plain "syntax error"), s)

abbrev pub text_arg : Option Arg → String
text_arg (some (text t)) = t
text_arg _ = ""

-- The statements that the store's lookups use; any other query gives the whole table.
unfoldable pub select : String → Args → Table → Result Rows
unfolding lookup
select q args s =
    if q == id_query
    then only (by_text s (text_arg (lookup "id" args)))
    else if q == email_query
    then only (by_email s (text_arg (lookup "email" args)))
    else ok (record { rows = map (λ r. ok r) s; problem = none })

unfoldable pub memory : Database Table
unfolding exec select
memory = record {
  named_exec = exec;
  named_query = select;
  named_count = λ q args s. ok (ok (pos (length s)) ∷ []);
}
