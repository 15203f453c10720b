-- ===== src/Handler/Endpoints/Listing.antt =====
-- The list of users that Query of internal/domains/user/handler/handler.go answers with.
use jumble.Shared.{List, [], ◌∷◌, map, ◌≡◌, ◌∙◌, ◌⊎◌, ◌↔◌, inl, inr, refl, sym, ap}
use jumble.Go.Error.{Error, ok, Result-cases}
use jumble.Page
use jumble.Page.{Page}
use jumble.Go.Int.{ℤ}
use jumble.Bus.Order.{Field, parse_order_by}
use jumble.Handler.Filters.{Filters, to_bus_query_filter}
use jumble.Handler.Filters.Laws.{IsFilter, to_bus_query_filter_iff}
use jumble.Bus.Models.{QueryFilter, User}
use jumble.Bus.Users
use jumble.Handler.Models.{QueryResult, new_query_result, to_app_user}
use jumble.Handler.Endpoints.Shown.{described, to_app_user-eq-described}
use jumble.Handler.Binding.{bind_filters}
use jumble.Handler.Reply.{query_result, Outcome, json, failed, Request}
use jumble.Handler.Endpoints.{query, App}

module _ {S Private Public : Type 0} (app : App S Private Public) where
  -- What Query makes of the parts of a request and the answers of the store.
  abbrev made : Page → List User → ℤ → Outcome
  made page users total = json 200 (
      query_result (new_query_result (map (to_app_user app.lib) users) total page.number page.rows))

  abbrev IsMade : Request → S → Outcome → Type 0
  IsMade r s o =
      (page : Page) × (f : Filters) × (filter : QueryFilter) × (order : Field) × (users : List User)
      × (total : ℤ) × (Page.parse r.page r.rows ≡ ok page)
      × (bind_filters app.wire app.lib r.query ≡ ok f)
      × (to_bus_query_filter app.lib f ≡ ok filter)
      × (parse_order_by r.order_by ≡ ok order)
      × (app.store.query filter order page s ≡ ok users)
      × (app.store.count filter s ≡ ok total)
      × (o ≡ made page users total)

  query-cases :
      (r : Request) (s : S)
      → ((query app r s).1 ≡ s)
        × (((e : Error) × ((query app r s).0 ≡ failed e)) ⊎ IsMade r s (query app r s).0)
  unfolding query Users.query Users.count
  query-cases r s = elim (Result-cases (Page.parse r.page r.rows)) [
    | inr (w, p) ↦ rw p (refl, inl (_, refl))
    | inl (page, p) ↦ elim (Result-cases (bind_filters app.wire app.lib r.query)) [
      | inr (w, b) ↦ rw (p, b) (refl, inl (_, refl))
      | inl (f, b) ↦ elim (Result-cases (to_bus_query_filter app.lib f)) [
        | inr (w, c) ↦ rw (p, b, c) (refl, inl (_, refl))
        | inl (filter, c) ↦ elim (Result-cases (parse_order_by r.order_by)) [
          | inr (w, o) ↦ rw (p, b, c, o) (refl, inl (_, refl))
          | inl (order, o) ↦ elim (Result-cases (app.store.query filter order page s)) [
            | inr (w, q) ↦ rw (p, b, c, o, q) (refl, inl (_, refl))
            | inl (users, q) ↦ elim (Result-cases (app.store.count filter s)) [
              | inr (w, n) ↦ rw (p, b, c, o, q, n) (refl, inl (_, refl))
              | inl (total, n) ↦
                  rw (p, b, c, o, q, n)
                    (
                      refl,
                      inr (page, f, filter, order, users, total, refl, refl, c, refl, q, n, refl),
                    )
            ]
          ]
        ]
      ]
    ]
  ]

  query-made : (r : Request) (s : S) (o : Outcome) → IsMade r s o → (query app r s).0 ≡ o
  unfolding query Users.query Users.count
  query-made r s o (page, f, filter, order, users, total, p, b, c, d, q, n, is) =
      rw (p, b, c, d, q, n) (sym is)

  -- The page of users that the answer shows, field by field.
  abbrev page_of : Page → List User → ℤ → QueryResult
  page_of page users total = record {
    users = map (described app.lib) users;
    total = total;
    page = page.number;
    rows_per_page = page.rows;
  }

  described_users :
      (users : List User) → map (to_app_user app.lib) users ≡ map (described app.lib) users
  described_users [] = refl
  described_users (usr ∷ users) =
      rw (to_app_user-eq-described app.lib usr, described_users users) refl

  made-eq-page_of :
      (page : Page) (users : List User) (total : ℤ)
      → made page users total ≡ json 200 (query_result (page_of page users total))
  unfolding new_query_result
  made-eq-page_of page users total = rw (described_users users) refl

  -- The page and the ordering parse and the filters bind, the store answers for the filter that has
  -- the client's fields, and this shows its users and its count for the same filter.
  abbrev pub IsListing : Request → S → QueryResult → Type 0
  IsListing r s result =
      (page : Page) × (f : Filters) × (filter : QueryFilter) × (order : Field) × (users : List User)
      × (total : ℤ) × (Page.parse r.page r.rows ≡ ok page)
      × (bind_filters app.wire app.lib r.query ≡ ok f)
      × IsFilter app.lib f filter
      × (parse_order_by r.order_by ≡ ok order)
      × (app.store.query filter order page s ≡ ok users)
      × (app.store.count filter s ≡ ok total)
      × (result ≡ page_of page users total)

  IsMade-IsListing :
      (r : Request) (s : S) (result : QueryResult)
      → IsMade r s (json 200 (query_result result)) ↔ IsListing r s result
  IsMade-IsListing r s result = (
    λ h.
        let (page, f, filter, order, users, total, p, b, c, d, q, n, is) = h in
        let same = is ∙ made-eq-page_of page users total in
        (
          page,
          f,
          filter,
          order,
          users,
          total,
          p,
          b,
          (to_bus_query_filter_iff app.lib f filter).0 c,
          d,
          q,
          n,
          cc same,
        ),
    λ h.
        let (page, f, filter, order, users, total, p, b, c, d, q, n, is) = h in
        (
          page,
          f,
          filter,
          order,
          users,
          total,
          p,
          b,
          (to_bus_query_filter_iff app.lib f filter).1 c,
          d,
          q,
          n,
          ap (λ x. json 200 (query_result x)) is ∙ sym (made-eq-page_of page users total),
        ),
  )

  -- Query leaves the store as it was. It answers with 200 and a page of users exactly when the page
  -- and the ordering of the request parse, its filters bind, their roles are valid and their times
  -- can be read, and the store answers for that page, that ordering and the filter that has the
  -- client's fields, both with users and with a count; the page shows these users field by field,
  -- that count, and the number and the rows of the page. Otherwise Query answers with an error.
  pub query_lem :
      (r : Request) (s : S)
      → ((query app r s).1 ≡ s)
        × (((e : Error) × ((query app r s).0 ≡ failed e))
            ⊎ ((x : QueryResult) × ((query app r s).0 ≡ json 200 (query_result x))))
        × ((x : QueryResult) → ((query app r s).0 ≡ json 200 (query_result x)) ↔ IsListing r s x)
  query_lem r s =
      let (kept, answered) = query-cases r s in
      (
        kept,
        elim answered [
          | inl failing ↦ inl failing
          | inr (page, f, filter, order, users, total, p, b, c, d, q, n, is) ↦
              inr (page_of page users total, is ∙ made-eq-page_of page users total)
        ],
        λ x. (
          λ h. elim answered [
            | inl (e, fails) ↦ absurd (cc (sym fails ∙ h))
            | inr (page, f, filter, order, users, total, p, b, c, d, q, n, is) ↦
                (IsMade-IsListing r s x).0
                  (page, f, filter, order, users, total, p, b, c, d, q, n, sym h ∙ is)
          ],
          λ h. query-made r s (json 200 (query_result x)) ((IsMade-IsListing r s x).1 h),
        ),
      )
