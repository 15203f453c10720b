-- ===== src/Userdb/Order/Laws.antt =====
-- The ORDER BY clause of internal/domains/user/store/userdb/order.go for the orderings of the
-- domain.
use jumble.Shared.{String, ◌≡◌, refl, List, [], ◌∷◌, Any, inl, inr}
use jumble.Go.Error.{ok}
use jumble.Bus.Order.{Field, parse_order_by}
use jumble.Bus.Order.Laws.{IsOrdering, parse_order_by-IsOrdering}
use jumble.Userdb.Order.{order_by_clause}

abbrev pub clauses : List String
clauses =
    " ORDER BY name asc" ∷ " ORDER BY name desc" ∷ " ORDER BY email asc" ∷ " ORDER BY email desc"
    ∷ " ORDER BY created_at asc" ∷ " ORDER BY created_at desc" ∷ " ORDER BY updated_at asc"
    ∷ " ORDER BY updated_at desc" ∷ []

order_by_clause_of_IsOrdering :
    (name dir : String)
    → IsOrdering (record { name = name; dir = dir })
    → (c : String) × (order_by_clause (record { name = name; dir = dir }) ≡ ok c)
      × Any (λ d. c ≡ d) clauses
unfolding order_by_clause
order_by_clause_of_IsOrdering name dir (inl n, inl d) = rw (n, d) (_, refl, inl refl)
order_by_clause_of_IsOrdering name dir (inl n, inr d) = rw (n, d) (_, refl, inr (inl refl))
order_by_clause_of_IsOrdering name dir (inr (inl n), inl d) =
    rw (n, d) (_, refl, inr (inr (inl refl)))
order_by_clause_of_IsOrdering name dir (inr (inl n), inr d) =
    rw (n, d) (_, refl, inr (inr (inr (inl refl))))
order_by_clause_of_IsOrdering name dir (inr (inr (inl n)), inl d) =
    rw (n, d) (_, refl, inr (inr (inr (inr (inl refl)))))
order_by_clause_of_IsOrdering name dir (inr (inr (inl n)), inr d) =
    rw (n, d) (_, refl, inr (inr (inr (inr (inr (inl refl))))))
order_by_clause_of_IsOrdering name dir (inr (inr (inr n)), inl d) =
    rw (n, d) (_, refl, inr (inr (inr (inr (inr (inr (inl refl)))))))
order_by_clause_of_IsOrdering name dir (inr (inr (inr n)), inr d) =
    rw (n, d) (_, refl, inr (inr (inr (inr (inr (inr (inr (inl refl))))))))

-- An ordering that the domain accepts is never refused by the store, and its clause is one of eight
-- fixed texts, whatever the client sent.
pub order_by_clause-parse_order_by :
    (query : String) (f : Field)
    → parse_order_by query ≡ ok f
    → (c : String) × (order_by_clause f ≡ ok c) × Any (λ d. c ≡ d) clauses
order_by_clause-parse_order_by query f h =
    order_by_clause_of_IsOrdering f.name f.dir (parse_order_by-IsOrdering query f h)
