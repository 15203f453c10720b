-- ===== src/Service/Machine/Calls.antt =====
-- What the handlers of the registered routes make of the store, each call for itself.
use jumble.Shared.{
  some, none, Option, String, List, [], ◌∷◌, ◌≡◌, ◌∙◌, refl, ap, inl, inr, All, map, Bool-cases,
  leb,
}
use jumble.Logger.{Arg}
use jumble.Go.Error.{Error, Result-cases}
use jumble.Bus.Models.{Uuid, User}
use jumble.Bus.Users
use jumble.Bus.Contract.{IsUserStore}
use jumble.Handler.Endpoints.{App, query_user_by_id}
use jumble.Handler.Endpoints.Laws.{authenticate-LogsIn}
use jumble.Handler.Endpoints.Listing.{query_lem}
use jumble.Handler.Reply.{Outcome, json, status, failed, panicked, Request}
use jumble.Handler.Routes
use jumble.Handler.Routes.{
  Method, Stage, endpoint, authenticated, authorized, Route, register_routes,
}
use jumble.Mid.Access
use jumble.Mid.Access.{Verdict, aborts, proceeds}
use jumble.Service.Gin.{Ctx, Handler, Span, Gin, IsGin}
use jumble.Service.Stack.{
  Env, handler_of, telemetry, logger, metrics, panics, settled, noted, guarded, called, seen,
  end_span, rescue,
}
use jumble.Service.Stack.Guards.{
  IsGuard, delete_user-failed, update_user-failed, update_role-failed, disable_user-failed,
}
use jumble.Service.Stack.Sessions.{Extends, create_user-Extends}
use jumble.Service.Machine.Growth.{Keeps, Ends, Grows, IsSafe, leave-Ends}

module _ {S : Type 0} (gin : Gin S) (env : Env) where
  end_span-store : (c : Ctx S) (spans : List Span) → (end_span gin env c spans).store ≡ c.store
  end_span-store c [] = refl
  end_span-store c (span ∷ spans) = refl

  rescue-store : (o : Option Arg) (c : Ctx S) → (rescue gin env o c).store ≡ c.store
  rescue-store none c = refl
  rescue-store (some rec) c = refl

  counted-store : (c : Ctx S) → ((metrics gin env).after c).store ≡ c.store
  counted-store c = elim (Bool-cases (leb 400 c.response.status)) [
    | inl bad ↦ rw bad refl
    | inr good ↦ rw good refl
  ]

  pub settled-store : (o : Outcome) (c : Ctx S) → (settled gin env o c).store ≡ c.store
  settled-store (json code b) c = refl
  settled-store (status code) c = refl
  settled-store (failed e) c = refl
  settled-store (panicked m) c = refl

  noted-store : (o : Option Error) (c : Ctx S) → (noted gin env o c).store ≡ c.store
  noted-store none c = refl
  noted-store (some e) c = refl

  guarded-store : (v : Verdict) (c : Ctx S) → (guarded gin env v c).store ≡ c.store
  guarded-store (aborts code message) c = refl
  guarded-store (proceeds keys) c = refl

  pub installed-Ends :
      (hs : List (Handler S))
      → All Ends hs
      → All Ends (telemetry gin env ∷ logger gin env ∷ metrics gin env ∷ panics gin env ∷ hs)
  installed-Ends hs ends = (
    leave-Ends (telemetry gin env) (λ d. refl) (λ d. end_span-store d d.open_spans),
    (
      leave-Ends (logger gin env) (λ d. refl) (λ d. refl),
      (
        leave-Ends (metrics gin env) counted-store (λ d. refl),
        (leave-Ends (panics gin env) (λ d. refl) (λ d. rescue-store d.panic d), ends),
      ),
    ),
  )

  pub installed-IsSafe :
      (Grown : S → S → Type 0) (IsUp : S → Type 0) (hs : List (Handler S))
      → IsSafe Grown IsUp hs
      → IsSafe Grown IsUp
          (telemetry gin env ∷ logger gin env ∷ metrics gin env ∷ panics gin env ∷ hs)
  installed-IsSafe Grown IsUp hs safe =
      let passes : (d : Ctx S) → d.store ≡ d.store = λ d. refl in
      let named : (d : Ctx S) → d.keys.user ≡ d.keys.user = λ d. refl in
      inl
        ((passes, named), inl ((passes, named), inl ((passes, named), inl ((passes, named), safe))))

module _ {S P K : Type 0} (app : App S P K) (gin : Gin S) (gin_laws : IsGin gin) (env : Env) where
  pub stages-Ends : (stages : List Stage) → All Ends (map (handler_of app gin env) stages)
  stages-Ends [] = tt
  stages-Ends (stage ∷ stages) =
      (leave-Ends (handler_of app gin env stage) (λ d. refl) (λ d. refl), stages-Ends stages)

  pub guards-Keeps :
      (stages : List Stage)
      → All (IsGuard app gin gin_laws env) stages
      → All Keeps (map (handler_of app gin env) stages)
  guards-Keeps [] guards = tt
  guards-Keeps (endpoint m ∷ stages) (guard, guards) = absurd (guard tt)
  guards-Keeps (authenticated ∷ stages) (guard, guards) = (
    λ c.
        guarded-store gin env (Access.authenticate app c.http.authorization c.keys c.store) _
        ∙ noted-store gin env (Access.logged app c.http.authorization c.store) c,
    guards-Keeps stages guards,
  )
  guards-Keeps (authorized roles ∷ stages) (guard, guards) =
      (λ c. guarded-store gin env (Access.authorized roles c.keys) c, guards-Keeps stages guards)

module _ {S P K : Type 0} (app : App S P K) {IsUp : S → Type 0} {find : S → Uuid → Option User}
    {holder : S → String → Option User} (keeps : IsUserStore app.store IsUp find holder)
    (gin : Gin S) (gin_laws : IsGin gin) where
  query_user_by_id-store : (r : Request) (s : S) → (query_user_by_id app r s).1 ≡ s
  unfolding query_user_by_id Users.query_by_id
  query_user_by_id-store r s = elim (Result-cases (app.lib.parse_uuid r.id_param)) [
    | inr (w, e) ↦ rw e refl
    | inl (id, e) ↦ elim (Result-cases (app.store.query_by_id id s)) [
      | inl (usr, q) ↦ rw (e, q) refl
      | inr (w, q) ↦ rw (e, q) refl
    ]
  ]

  pub same : (s t : S) → t ≡ s → IsUp s → Extends app keeps s t
  same s t e up = rw e (up, λ i usr h. h)

  -- An endpoint that is called without a user in the context.
  called-Extends :
      (env : Env) (m : Method) (r : Request) (s : S)
      → r.user_key ≡ none
      → IsUp s
      → Extends app keeps s (called app gin env m r s).1
  called-Extends env Routes.create_user r s anonymous up =
      create_user-Extends app keeps env.moments r s up
  called-Extends env Routes.query_user_by_id r s anonymous up =
      same s _ (query_user_by_id-store r s) up
  called-Extends env Routes.delete_user r s anonymous up =
      same s _ (ap (λ x. x.1) (delete_user-failed app gin gin_laws env r s anonymous).1) up
  called-Extends env Routes.update_user r s anonymous up =
      same s _ (ap (λ x. x.1) (update_user-failed app gin gin_laws env r s anonymous).1) up
  called-Extends env Routes.update_role r s anonymous up =
      same s _ (ap (λ x. x.1) (update_role-failed app gin gin_laws env r s anonymous).1) up
  called-Extends env Routes.disable_user r s anonymous up =
      same s _ (ap (λ x. x.1) (disable_user-failed app gin gin_laws env r s anonymous).1) up
  called-Extends env Routes.query r s anonymous up = same s _ (query_lem app r s).0 up
  called-Extends env Routes.authenticate r s anonymous up =
      same s _ (authenticate-LogsIn app keeps env.moments r s up).0 up

  pub endpoint-Grows :
      (env : Env) (m : Method)
      → Grows (Extends app keeps) IsUp (handler_of app gin env (endpoint m))
  endpoint-Grows env m c anonymous up =
      let r = called app gin env m (seen app gin env c) c.store in
      rw (settled-store gin env r.0 (record c { store = r.1 }))
        (called-Extends env m (seen app gin env c) c.store anonymous up)
