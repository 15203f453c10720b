-- ===== src/Service/Machine/Overlap.antt =====
-- What overlapping requests through the registered routes make of the stored users.
use jumble.Shared.{some, Option, String, List, ◌∷◌, ◌≡◌, inr, All, All-append, All-split, map}
use jumble.Bus.Models.{Uuid, User}
use jumble.Bus.Contract.{IsUserStore}
use jumble.Handler.Endpoints.{App}
use jumble.Handler.Routes.{Method, Stage, endpoint, Route}
use jumble.Service.Gin.{Ctx, Gin, IsGin}
use jumble.Service.Stack.{Env, handler_of}
use jumble.Service.Stack.Served.{IsFresh}
use jumble.Service.Stack.Guards.{IsGuard, registered-HasGuards}
use jumble.Service.Stack.Sessions.{Extends}
use jumble.Service.Machine.{Thread, step}
use jumble.Service.Machine.Calls.{
  installed-Ends, installed-IsSafe, stages-Ends, guards-Keeps, same, endpoint-Grows,
}
use jumble.Service.Machine.Growth.{IsCareful, next-IsCareful}
use jumble.Service.Machine.Server.{World, over, begun, Serves, idle, arrives, moves}

module _ {S P K : Type 0} (app : App S P K) {IsUp : S → Type 0} {find : S → Uuid → Option User}
    {holder : S → String → Option User} (keeps : IsUserStore app.store IsUp find holder)
    (gin : Gin S) (gin_laws : IsGin gin) where
  -- A request that arrives.
  begun-IsCareful :
      (env : Env) (c : Ctx S)
      → IsFresh c
      → (route : Route) (m : Method) (stages : List Stage) → route.chain ≡ endpoint m ∷ stages
      → All (IsGuard app gin gin_laws env) stages
      → IsCareful (Extends app keeps) IsUp (begun app gin env route c)
  begun-IsCareful env c fresh route m stages chain guards =
      let hs = map (handler_of app gin env) (endpoint m ∷ stages) in
      rw chain (
        installed-Ends gin env hs (stages-Ends app gin gin_laws env (endpoint m ∷ stages)),
        tt,
        inr (
          installed-IsSafe gin env (Extends app keeps) IsUp hs (
              inr (
                endpoint-Grows app keeps gin gin_laws env m,
                guards-Keeps app gin gin_laws env stages guards,
              )),
          fresh.0,
        ),
      )

  -- All that has been reached from a store that is up.
  Serves-IsCareful :
      (start w : World S) (ts : List (Thread S))
      → Serves app gin start w ts
      → IsUp start.store
      → Extends app keeps start.store w.store × All (IsCareful (Extends app keeps) IsUp) ts
  unfolding step
  Serves-IsCareful start w ts idle up = ((up, λ i usr h. h), tt)
  Serves-IsCareful start w ts (arrives w0 earlier env c route before member fresh) up =
      let (extends, careful) = Serves-IsCareful start w0 earlier before up in
      let (m, stages, chain, guards) = registered-HasGuards app gin gin_laws env route member in
      (extends, (begun-IsCareful env c fresh route m stages chain guards, careful))
  Serves-IsCareful start w ts (moves w0 later earlier t before) up =
      let Careful = IsCareful (Extends app keeps) IsUp in
      let ((up_w, kept), careful) = Serves-IsCareful start w0 _ before up in
      let (first, (mine, rest)) = All-split Careful later (t ∷ earlier) careful in
      let ((up_s, grown), mine_s) =
        next-IsCareful (Extends app keeps) IsUp (same app keeps gin gin_laws) t.todo t.inside
          (over w0 t).ctx up_w mine in
      (
        (up_s, λ i usr h. grown i usr (kept i usr h)),
        All-append Careful later _ first (mine_s, rest),
      )

  -- Over a store that keeps the contract, whatever requests arrive at the registered routes and in
  -- whatever order their handlers take turns, at every moment the store is up and every user who
  -- was stored before is stored as it was: users are only added.
  pub Serves-find :
      (start w : World S) (ts : List (Thread S))
      → Serves app gin start w ts
      → IsUp start.store
      → (i : Uuid) (usr : User) → find start.store i ≡ some usr
      → IsUp w.store × (find w.store i ≡ some usr)
  Serves-find start w ts serves up i usr stored =
      let ((up_w, kept), careful) = Serves-IsCareful start w ts serves up in
      (up_w, kept i usr stored)
