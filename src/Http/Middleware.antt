-- ===== src/Http/Middleware.antt =====
-- internal/middleware: auth.go, cors.go, ratelimit.go and trace.go. Each is given the handlers behind
-- it. logger.go only writes the log, and recovery.go answers a panic, which no function here has.
use dst_go_backend.Base.{
  ℕ, suc, String, Bool, true, false, not, ◌&&◌, Option, none, some, List, [], ◌∷◌, ◌++◌, keep,
  has_text, str_eq, if◌then◌else◌,
}
use dst_go_backend.Apperr.{Result, ok, err}
use dst_go_backend.Act.{Act}
use dst_go_backend.Strings.{is_empty}
use dst_go_backend.Strings.Split.{split_once}
use dst_go_backend.Platform.Limiter.{allow}
use dst_go_backend.Http.{Context, Response, Handler, fail, fail_with_msg}
use dst_go_backend.Service.World.{Env, World, on_redis}
use dst_go_backend.Service.Auth.{Identity, authenticate}

abbrev pub with_headers : List (String × String) → Response → Response
with_headers hs r = record r { headers = hs ++ r.headers }

module _ (e : Env) where
  abbrev pub admit : Result Identity → Handler e → Handler e
  admit (err x) next c w = (fail c x, w)
  admit (ok identity) next c w = next (record c { identity = some identity }) w

  abbrev pub check_parts : Option (String × String) → Handler e → Handler e
  check_parts none next c w = (fail_with_msg c 401 "登录凭证格式错误", w)
  check_parts (some (scheme, token)) next c w =
      let r = authenticate e token w in
      if str_eq scheme "Bearer" then admit r.0 next c r.1 else (fail_with_msg c 401 "登录凭证格式错误", w)

  unfoldable pub auth : Handler e → Handler e
  auth next c w =
      if is_empty c.authorization
      then (fail_with_msg c 401 "登录凭证缺失", w)
      else check_parts (split_once c.authorization) next c w

  abbrev vary : List (String × String)
  vary = ("Vary", "Origin") ∷ []

  abbrev origin_headers : String → List (String × String)
  origin_headers origin =
      ("Access-Control-Allow-Origin", origin)
      ∷ ("Access-Control-Allow-Credentials", "true")
      ∷ ("Access-Control-Expose-Headers", "X-Trace-ID")
      ∷ []

  abbrev preflight_headers : List (String × String)
  preflight_headers =
      ("Access-Control-Allow-Methods", "GET, POST, PUT, PATCH, DELETE, OPTIONS")
      ∷ ("Access-Control-Allow-Headers", "Content-Type, Authorization, X-CSRF-Token, X-Trace-ID")
      ∷ ("Access-Control-Max-Age", "600")
      ∷ []

  abbrev no_content : Response
  no_content = record { status = 204; headers = []; cookies = []; body = none }

  abbrev is_preflight : Context → Bool
  is_preflight c = str_eq c.method "OPTIONS" && not (is_empty c.request_method)

  unfoldable pub cors : List String → Handler e → Handler e
  cors allowed_origins next c w =
      let allowed = keep (λ origin. not (is_empty origin)) allowed_origins in
      let rest = next c w in
      if is_empty c.origin
      then (with_headers vary rest.0, rest.1)
      else if not (has_text c.origin allowed)
      then (with_headers vary (fail_with_msg c 403 "请求来源不受信任"), w)
      else if is_preflight c
      then (with_headers (vary ++ origin_headers c.origin ++ preflight_headers) no_content, w)
      else (with_headers (vary ++ origin_headers c.origin) rest.0, rest.1)

  abbrev if_allowed : Result Bool → Handler e → Handler e
  if_allowed (ok true) next c w = next c w
  if_allowed (ok false) next c w = (fail_with_msg c 503 "服务器繁忙", w)
  if_allowed (err x) next c w = (fail_with_msg c 503 "服务器繁忙", w)

  -- The draw is the member that the limiter counts the request as.
  abbrev pub ask_limiter : ℕ → ℕ → Act (World e) Bool
  ask_limiter limit window w =
      on_redis e (λ now. allow e.redis now "ratelimit:global" limit window (e.uuid w.drawn))
        (record w { drawn = suc w.drawn })

  unfoldable pub rate_limit : ℕ → ℕ → Handler e → Handler e
  rate_limit limit window next c w = let r = ask_limiter limit window w in if_allowed r.0 next c r.1

  abbrev traced : String → Handler e → Handler e
  traced trace_id next c w =
      let r = next (record c { trace_id = trace_id }) w in
      (with_headers (("X-Trace-ID", trace_id) ∷ []) r.0, r.1)

  unfoldable pub trace : Handler e → Handler e
  trace next c w =
      if is_empty c.trace_header
      then traced (e.uuid w.drawn) next c (record w { drawn = suc w.drawn })
      else traced c.trace_header next c w
