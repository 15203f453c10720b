-- ===== src/Service/Stack/Registered.antt =====
-- Which chain the table of internal/domains/user/handler/routes.go has for a verb and a path.
use jumble.Shared.{
  String, List, [], ◌∷◌, ◌≡◌, refl, sym, ◌∙◌, ◌==◌, false, eq_iff, All, All-Any, Any,
}
use jumble.Handler.Routes
use jumble.Handler.Routes.{Stage, endpoint, authenticated, Route, register_routes}

-- The route is in the table, with this verb and this path.
abbrev pub IsRegistered : String → String → Route → Type 0
IsRegistered verb path route =
    Any (λ r. r ≡ route) register_routes × (route.verb ≡ verb) × (route.path ≡ path)

abbrev HasChain : String → String → List Stage → Route → Type 0
HasChain verb path chain r = r.verb ≡ verb → r.path ≡ path → r.chain ≡ chain

different : (a b : String) → (a == b) ≡ false → a ≡ b → ⊥
different a b h e = let same = (eq_iff a b).1 e in absurd (cc (sym h ∙ same))

every_create_chain :
    All (HasChain "POST" "/v1/users/" (endpoint Routes.create_user ∷ [])) register_routes
every_create_chain = (
  λ v p. refl,
  (
    λ v p. absurd (different _ _ refl v),
    (
      λ v p. absurd (different _ _ refl v),
      (
        λ v p. absurd (different _ _ refl v),
        (
          λ v p. absurd (different _ _ refl v),
          (
            λ v p. absurd (different _ _ refl v),
            (λ v p. absurd (different _ _ refl v), (λ v p. absurd (different _ _ refl p), tt)),
          ),
        ),
      ),
    ),
  ),
)

pub create_chain :
    (route : Route)
    → IsRegistered "POST" "/v1/users/" route
    → route.chain ≡ endpoint Routes.create_user ∷ []
create_chain route (member, verb, path) =
    All-Any (HasChain "POST" "/v1/users/" (endpoint Routes.create_user ∷ [])) register_routes route
      every_create_chain member verb path

every_by_id_chain :
    All
      (HasChain "GET" "/v1/users/:id" (endpoint Routes.query_user_by_id ∷ authenticated ∷ []))
      register_routes
every_by_id_chain = (
  λ v p. absurd (different _ _ refl v),
  (
    λ v p. refl,
    (
      λ v p. absurd (different _ _ refl v),
      (
        λ v p. absurd (different _ _ refl v),
        (
          λ v p. absurd (different _ _ refl v),
          (
            λ v p. absurd (different _ _ refl v),
            (λ v p. absurd (different _ _ refl p), (λ v p. absurd (different _ _ refl v), tt)),
          ),
        ),
      ),
    ),
  ),
)

pub by_id_chain :
    (route : Route)
    → IsRegistered "GET" "/v1/users/:id" route
    → route.chain ≡ endpoint Routes.query_user_by_id ∷ authenticated ∷ []
by_id_chain route (member, verb, path) =
    All-Any (HasChain "GET" "/v1/users/:id" (endpoint Routes.query_user_by_id ∷ authenticated ∷ []))
      register_routes route every_by_id_chain member verb path

every_login_chain :
    All (HasChain "POST" "/v1/users/login" (endpoint Routes.authenticate ∷ [])) register_routes
every_login_chain = (
  λ v p. absurd (different _ _ refl p),
  (
    λ v p. absurd (different _ _ refl v),
    (
      λ v p. absurd (different _ _ refl v),
      (
        λ v p. absurd (different _ _ refl v),
        (
          λ v p. absurd (different _ _ refl v),
          (
            λ v p. absurd (different _ _ refl v),
            (λ v p. absurd (different _ _ refl v), (λ v p. refl, tt)),
          ),
        ),
      ),
    ),
  ),
)

pub login_chain :
    (route : Route)
    → IsRegistered "POST" "/v1/users/login" route
    → route.chain ≡ endpoint Routes.authenticate ∷ []
login_chain route (member, verb, path) =
    All-Any (HasChain "POST" "/v1/users/login" (endpoint Routes.authenticate ∷ [])) register_routes
      route every_login_chain member verb path
