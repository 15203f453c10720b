-- ===== src/Handler/Filters/Laws.antt =====
-- Which filter internal/domains/user/handler/filters.go makes of a client's filters, field by
-- field.
use mathlib.Core.Path.{subst}
use jumble.Shared.{String, Option, none, some, List, [], ◌∷◌, ◌≡◌, ◌∙◌, ◌↔◌, refl, ap, sym, All}
use jumble.Go.Error.{ok, >>=-eq-ok, ok-injective}
use jumble.Bus.Roles.{Role, parse_many_roles}
use jumble.Bus.Roles.Laws.{IsRole, names, roles_to_string-eq-names, parse_many_roles_iff}
use jumble.Bus.Models.{QueryFilter, Time}
use jumble.Bus.Services.{Services}
use jumble.Handler.Filters.{Filters, some_roles, some_time, to_bus_query_filter}

-- No roles are asked for, or valid ones with these names.
abbrev pub IsRoles : List String → Option (List Role) → Type 0
IsRoles [] o = o ≡ none
IsRoles (t ∷ ts) o =
    (roles : List Role) × (o ≡ some roles) × All IsRole roles × (names roles ≡ t ∷ ts)

-- No time is given, or one that is written as RFC 3339.
abbrev pub IsTime : Services → Option String → Option Time → Type 0
IsTime lib none o = o ≡ none
IsTime lib (some t) o = (time : Time) × (o ≡ some time) × (lib.parse_rfc3339 t ≡ ok time)

-- The filter has the client's name and department, and its roles and times read.
pub record IsFilter (lib : Services) (f : Filters) (filter : QueryFilter) : Type 0 where
  pub name : filter.name ≡ f.name
  pub department : filter.department ≡ f.department
  pub roles : IsRoles f.roles filter.roles
  pub start : IsTime lib f.start_created_at filter.start_created_at
  pub end : IsTime lib f.end_created_at filter.end_created_at

some_roles_iff : (ts : List String) (o : Option (List Role)) → (some_roles ts ≡ ok o) ↔ IsRoles ts o
unfolding some_roles
some_roles_iff [] o = (λ h. sym (ok-injective h), λ e. rw e refl)
some_roles_iff (t ∷ ts) o = (
  λ h.
      let (roles, parsed, is) = >>=-eq-ok (parse_many_roles (t ∷ ts)) _ h in
      let (valid, named) = (parse_many_roles_iff (t ∷ ts) roles).0 parsed in
      (roles, sym (ok-injective is), valid, sym (roles_to_string-eq-names roles) ∙ named),
  λ h.
      let (roles, is, valid, named) = h in
      rw
        (
          (parse_many_roles_iff (t ∷ ts) roles).1 (valid, roles_to_string-eq-names roles ∙ named),
          is,
        )
        refl,
)

some_time_iff :
    (lib : Services) (t : Option String) (o : Option Time)
    → (some_time lib t ≡ ok o) ↔ IsTime lib t o
unfolding some_time
some_time_iff lib none o = (λ h. sym (ok-injective h), λ e. rw e refl)
some_time_iff lib (some t) o = (
  λ h.
      let (time, parsed, is) = >>=-eq-ok (lib.parse_rfc3339 t) _ h in
      (time, sym (ok-injective is), parsed),
  λ h. let (time, is, parsed) = h in rw (parsed, is) refl,
)

pub to_bus_query_filter_iff :
    (lib : Services) (f : Filters) (filter : QueryFilter)
    → (to_bus_query_filter lib f ≡ ok filter) ↔ IsFilter lib f filter
unfolding to_bus_query_filter
to_bus_query_filter_iff lib f filter = (to, from)
  where
    to : to_bus_query_filter lib f ≡ ok filter → IsFilter lib f filter
    to h =
        let (roles, r, h1) = >>=-eq-ok (some_roles f.roles) _ h in
        let (start, s, h2) = >>=-eq-ok (some_time lib f.start_created_at) _ h1 in
        let (end, e, h3) = >>=-eq-ok (some_time lib f.end_created_at) _ h2 in
        let same = ok-injective h3 in
        record {
          name = ap (λ x. x.name) (sym same);
          department = ap (λ x. x.department) (sym same);
          roles =
              subst (IsRoles f.roles) (ap (λ x. x.roles) same) ((some_roles_iff f.roles roles).0 r);
          start =
              subst (IsTime lib f.start_created_at) (ap (λ x. x.start_created_at) same)
                ((some_time_iff lib f.start_created_at start).0 s);
          end =
              subst (IsTime lib f.end_created_at) (ap (λ x. x.end_created_at) same)
                ((some_time_iff lib f.end_created_at end).0 e);
        }

    from : IsFilter lib f filter → to_bus_query_filter lib f ≡ ok filter
    from is =
        rw
          (
            (some_roles_iff f.roles filter.roles).1 is.roles,
            (some_time_iff lib f.start_created_at filter.start_created_at).1 is.start,
            (some_time_iff lib f.end_created_at filter.end_created_at).1 is.end,
            ← is.name,
            ← is.department,
          )
          refl
