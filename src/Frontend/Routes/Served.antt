-- ===== src/Frontend/Routes/Served.antt =====
-- What holds of a request that reaches a handler of pkg/frontend.
use mathlib.Core.Path.{subst}
use aro_rp.Base.{◌≡◌, refl, ◌⊎◌, inl, inr, true, false, some, List, [], ◌∷◌, All, Bool-cases}
use aro_rp.Base.Text.{to_lower}
use aro_rp.Api.Error.{Result, ok, err, bind, bind-ok, new_cloud_error, status_code}
use aro_rp.Frontend.Middleware.{Known, Method, get, validate, check_body, authenticate}
use aro_rp.Frontend.Routes.{
  Handler, get_ready, handler_of, same_method, Route, routes, segments, Incoming, Found, found,
  other_method, nothing, find, Call, takes_any_version, secured_by, serve,
}
use aro_rp.Frontend.Routes.Fits.{Fits, Member, head, tail, find→Fits}
use aro_rp.Frontend.Routes.Passed.{
  AreValid, validate-AreValid, HasBody, check_body-HasBody, secured-ok,
}

-- A route without authentication has no handler but the readiness probe's.
abbrev IsGuarded : Route → Type 0
IsGuarded t =
    t.authenticated ≡ false
    → (m : Method) (h : Handler) → handler_of m t.methods ≡ some h
    → h ≡ get_ready

of_member : (P : Route → Type 0) (rs : List Route) {t : Route} → All P rs → Member t rs → P t
of_member P [] h m = elim m [ ]
of_member P (r ∷ rs) (h, hs) head = h
of_member P (r ∷ rs) (h, hs) (tail m) = of_member P rs hs m

ready_only :
    (m : Method) (h : Handler) → handler_of m ((get, get_ready) ∷ []) ≡ some h → h ≡ get_ready
unfolding handler_of
ready_only m h e = elim (Bool-cases (same_method m get)) [
  | inl alike ↦ cc (rw alike at e)
  | inr other ↦ cc (rw other at e)
]

routes-AreGuarded : All IsGuarded routes
routes-AreGuarded = (
  λ _. ready_only,
  (
    by_guard,
    (by_guard, (by_guard, (by_guard, (by_guard, (by_guard, (by_guard, (by_guard, tt))))))),
  ),
)
  where
    by_guard : {A : Type 0} → true ≡ false → A
    by_guard e = cc e

-- What holds of a call that is made for a request
pub record IsServed (known : Known) (r : Incoming) (c : Call) : Type 0 where
  pub route : Route
  pub fits : Fits routes r.method (segments (to_lower r.path)) r.api_version route c.handler c.vars
  pub lower : c.path ≡ to_lower r.path
  pub valid : AreValid known c.vars (takes_any_version route.query)
  pub body : HasBody r.method r.body_size r.content_type
  pub authorized : (c.handler ≡ get_ready) ⊎ (r.is_authorized ≡ true)

module _ (known : Known) (r : Incoming) where
  found-IsServed :
      (f : Found) {c : Call}
      → find routes r.method (segments (to_lower r.path)) r.api_version ≡ f
      → elim f as (λ _. Result Call) [
        | nothing ↦
            bind (authenticate r.is_authorized) (λ _. err (new_cloud_error 404 "NotFound" ""))
        | other_method ↦ err (status_code 405)
        | found route handler vars ↦
            bind (validate known (to_lower r.path) vars (takes_any_version route.query)) (λ _.
              bind (check_body r.method r.body_size r.content_type) (λ _.
                bind
                  (secured_by route.authenticated r.is_authorized)
                  (λ _. ok (record { handler = handler; path = to_lower r.path; vars = vars }))))
      ]
        ≡ ok c
      → IsServed known r c
  found-IsServed nothing e h =
      let (u, allowed, missed) = bind-ok (authenticate r.is_authorized) _ h in cc
  found-IsServed other_method e h = cc
  found-IsServed (found route handler vars) {c} e h =
      let (u0, valid, h0) =
        bind-ok (validate known (to_lower r.path) vars (takes_any_version route.query)) _ h in
      let (u1, body, h1) = bind-ok (check_body r.method r.body_size r.content_type) _ h0 in
      let (u2, secured, h2) = bind-ok (secured_by route.authenticated r.is_authorized) _ h1 in
      let call : Call = record { handler = handler; path = to_lower r.path; vars = vars } in
      let fit = find→Fits routes r.method (segments (to_lower r.path)) r.api_version e in
      let it : call ≡ c = cc in
      subst (IsServed known r) it (record {
        route = route;
        fits = fit;
        lower = refl;
        valid =
            validate-AreValid known (to_lower r.path) vars (takes_any_version route.query) valid;
        body = check_body-HasBody r.method r.body_size r.content_type body;
        authorized = elim (secured-ok route.authenticated r.is_authorized secured) [
          | inl unguarded ↦ inl (
              of_member IsGuarded routes routes-AreGuarded fit.listed unguarded r.method handler
                fit.handles)
          | inr allowed ↦ inr allowed
        ];
      })

  -- A request that reaches a handler fits a route that has the handler for its method: the parts of its
  -- path in lower case are the route's template with the variables, none of them empty, filled in. It
  -- passed every check: each variable that the route has is valid, the body, where the method has one, is
  -- JSON of a megabyte at most or nothing at all, and the peer is authorized unless the
  -- handler is the readiness probe's.
  pub serve-IsServed : {c : Call} → serve known r ≡ ok c → IsServed known r c
  unfolding serve
  serve-IsServed h =
      found-IsServed (find routes r.method (segments (to_lower r.path)) r.api_version) refl h
