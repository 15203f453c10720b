-- ===== src/Userdb/Filter/Laws.antt =====
-- The WHERE clause and the arguments of internal/domains/user/store/userdb/filter.go.
use mathlib.Core.List.{map-append, append-nil}
use jumble.Shared.{
  String, ◌≡◌, refl, Option, none, some, List, [], ◌∷◌, ◌++◌, ◌∙◌, map, lookup, insert,
  lookup-insert, ◌==◌, if◌then◌else◌, ap,
}
use jumble.Go.Text.{◌^^◌, join}
use jumble.Bus.Models.{QueryFilter}
use jumble.Userdb.Filter.{
  Arg, text, roles, time, like, Args, Partial, condition, conditions, where_text, apply_filters,
}

-- A condition of the query: the named parameter, its value, and the clause.
pub record Condition : Type 0 where
  pub key : String
  pub arg : Arg
  pub clause : String

abbrev when_set : {A : Type 0} → (A → Arg) → String → String → Option A → List Condition
when_set arg key clause none = []
when_set arg key clause (some x) = record { key = key; arg = arg x; clause = clause } ∷ []

abbrev to_department : QueryFilter → List Condition
to_department f =
    when_set like "name" "name LIKE :name" f.name
    ++ when_set text "department" "department = :department" f.department

abbrev to_roles : QueryFilter → List Condition
to_roles f = to_department f ++ when_set roles "roles" "roles && :roles" f.roles

abbrev to_start : QueryFilter → List Condition
to_start f =
    to_roles f
    ++ when_set time "start_created_at" "created_at >= :start_created_at" f.start_created_at

-- The conditions that a filter asks for, in the order of its fields.
abbrev pub wanted : QueryFilter → List Condition
wanted f =
    to_start f ++ when_set time "end_created_at" "created_at <= :end_created_at" f.end_created_at

abbrev pub bind : List Condition → Args → Args
bind [] args = args
bind (c ∷ cs) args = bind cs (insert c.key c.arg args)

abbrev pub clause_of : Condition → String
clause_of c = c.clause

bind-append : (cs ds : List Condition) (args : Args) → bind (cs ++ ds) args ≡ bind ds (bind cs args)
bind-append [] ds args = refl
bind-append (c ∷ cs) ds args = bind-append cs ds (insert c.key c.arg args)

condition_lem :
    {A : Type 0} (arg : A → Arg) (key clause : String) (o : Option A) (cs : List Condition)
    (args : Args)
    → condition arg key clause o (bind cs args, map clause_of cs)
      ≡ (let ds = cs ++ when_set arg key clause o in (bind ds args, map clause_of ds))
unfolding condition
condition_lem arg key clause none cs args = rw append-nil
condition_lem arg key clause (some x) cs args = rw (bind-append, map-append)

conditions-wanted :
    (f : QueryFilter) (args : Args)
    → conditions f args ≡ (bind (wanted f) args, map clause_of (wanted f))
unfolding conditions
conditions-wanted f args =
    ap (λ p. ending (starting (of_roles (of_department p)))) (condition_lem like _ _ f.name [] args)
    ∙ ap (λ p. ending (starting (of_roles p)))
        (condition_lem text _ _ f.department (when_set like _ _ f.name) args)
    ∙ ap (λ p. ending (starting p)) (condition_lem roles _ _ f.roles (to_department f) args)
    ∙ ap ending (condition_lem time _ _ f.start_created_at (to_roles f) args)
    ∙ condition_lem time _ _ f.end_created_at (to_start f) args
  where
    of_department : Partial → Partial
    of_department = condition text "department" "department = :department" f.department

    of_roles : Partial → Partial
    of_roles = condition roles "roles" "roles && :roles" f.roles

    starting : Partial → Partial
    starting =
        condition time "start_created_at" "created_at >= :start_created_at" f.start_created_at

    ending : Partial → Partial
    ending = condition time "end_created_at" "created_at <= :end_created_at" f.end_created_at

abbrev pub pick : {A : Type 0} → (A → Arg) → String → String → Option A → Option Arg → Option Arg
pick arg key k none rest = rest
pick arg key k (some x) rest = if key == k then some (arg x) else rest

lookup-when_set :
    {A : Type 0} (arg : A → Arg) (key clause k : String) (o : Option A) (cs : List Condition)
    (args : Args)
    → lookup k (bind (cs ++ when_set arg key clause o) args)
      ≡ pick arg key k o (lookup k (bind cs args))
lookup-when_set arg key clause k none cs args = rw append-nil
lookup-when_set arg key clause k (some x) cs args = rw (bind-append, lookup-insert)

-- Clauses with the word AND between each two, and behind WHERE if there are any.
abbrev pub listed : String → List String → String
listed c [] = c
listed c (d ∷ ds) = c ^^ (" AND " ^^ listed d ds)

abbrev pub where_clause : List String → String
where_clause [] = ""
where_clause (c ∷ cs) = " WHERE " ^^ listed c cs

join-eq-listed : (c : String) (cs : List String) → join " AND " (c ∷ cs) ≡ listed c cs
unfolding join
join-eq-listed c [] = refl
join-eq-listed c (d ∷ ds) = ap (λ s. c ^^ (" AND " ^^ s)) (join-eq-listed d ds)

where_text-eq-where_clause : (cs : List String) → where_text cs ≡ where_clause cs
unfolding where_text
where_text-eq-where_clause [] = refl
where_text-eq-where_clause (c ∷ cs) = ap (λ s. " WHERE " ^^ s) (join-eq-listed c cs)

-- The clauses appended to the buffer are those of the fields that are set, in their order, joined
-- by AND behind WHERE, and nothing where no field is set. In the map each set field has its value
-- under its own named parameter, and every other key keeps what it had.
pub apply_filters_lem :
    (f : QueryFilter) (args : Args) (buf k : String)
    → ((apply_filters f args buf).1 ≡ buf ^^ where_clause (map clause_of (wanted f)))
      × (lookup k (apply_filters f args buf).0
          ≡ pick time "end_created_at" k f.end_created_at (
              pick time "start_created_at" k f.start_created_at (
                pick roles "roles" k f.roles (
                  pick text "department" k f.department
                    (pick like "name" k f.name (lookup k args))))))
unfolding apply_filters
apply_filters_lem f args buf k = (
  rw conditions-wanted (ap (λ s. buf ^^ s) (where_text-eq-where_clause (map clause_of (wanted f)))),
  rw conditions-wanted (
      rw lookup-when_set (
        rw lookup-when_set (
          rw lookup-when_set (
            rw lookup-when_set
              (rw (lookup-when_set like "name" "name LIKE :name" k f.name [] args)))))),
)
