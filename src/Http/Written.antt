-- ===== src/Http/Written.antt =====
-- What the handlers of the panel do with an answer of a service.
use dst_go_backend.Base.{ℕ, none, some}
use dst_go_backend.Http.{Context, Response, answered, Handler, success, answer}
use dst_go_backend.Service.World.{Env}
use dst_go_backend.Service.Panel.{Request, Answer, done, serve}

-- `result.Success(c, resp)`, or `result.Success(c, nil)` where the service returns an error only.
abbrev pub written : Context → Answer → Response
written c done = success c none
written c a = success c (some (answered a))

module _ (e : Env) where
  -- The call of the service, and the response.
  abbrev pub ask : ℕ → Request → Handler e
  ask user_id req = answer e written (serve e user_id req)
