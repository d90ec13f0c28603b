-- ===== src/Http/Origin.antt =====
-- internal/middleware/cors.go in front of the routes.
use dst_go_backend.Base.{
  suc, ap, ◌≡◌, refl, false, not, String, List, keep, has_text, inl, inr, Bool-cases,
}
use dst_go_backend.Strings.{is_empty}
use dst_go_backend.Http.{Context, Handler, fail_with_msg, json_response}
use dst_go_backend.Http.Middleware.{cors, trace, rate_limit}
use dst_go_backend.Http.Users.{Config}
use dst_go_backend.Http.Router.{Route, respond_to, route_handler}
use dst_go_backend.Service.World.{Env, World}

module _ (e : Env) (origins : List String) (next : Handler e) (c : Context) (w : World e) where
  cors-untrusted :
      is_empty c.origin ≡ false
      → has_text c.origin (keep (λ origin. not (is_empty origin)) origins) ≡ false
      → ((cors e origins next c w).0.status ≡ 403) × ((cors e origins next c w).1 ≡ w)
  unfolding cors fail_with_msg json_response
  cors-untrusted given foreign = rw (given, foreign) (refl, refl)

-- A request from an origin that is not in the list is answered 403, on every route, and has read and
-- changed nothing of the stores: neither the limiter nor a handler has run.
pub respond_to-untrusted :
    (e : Env) (config : Config) (origins : List String) (route : Route) (c : Context) (w : World e)
    → is_empty c.origin ≡ false
    → has_text c.origin (keep (λ origin. not (is_empty origin)) origins) ≡ false
    → ((respond_to e config origins route c w).0.status ≡ 403)
      × ((respond_to e config origins route c w).1.store ≡ w.store)
      × ((respond_to e config origins route c w).1.db ≡ w.db)
      × ((respond_to e config origins route c w).1.hub ≡ w.hub)
unfolding respond_to trace
respond_to-untrusted e config origins route c w given foreign =
    let next = rate_limit e 100 1000 (route_handler e config route) in
    elim (Bool-cases (is_empty c.trace_header)) [
      | inl drawn ↦
          let v : World e = record w { drawn = suc w.drawn } in
          let r =
            cors-untrusted e origins next (record c { trace_id = e.uuid w.drawn }) v given
              foreign in
          rw drawn (r.0, ap (λ x. x.store) r.1, ap (λ x. x.db) r.1, ap (λ x. x.hub) r.1)
      | inr sent ↦
          let r =
            cors-untrusted e origins next (record c { trace_id = c.trace_header }) w given
              foreign in
          rw sent (r.0, ap (λ x. x.store) r.1, ap (λ x. x.db) r.1, ap (λ x. x.hub) r.1)
    ]
