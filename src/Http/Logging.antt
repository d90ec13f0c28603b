-- ===== src/Http/Logging.antt =====
-- internal/middleware/logger.go and recovery.go. `respond_to` of Http/Router leaves them out: neither
-- changes a response, but that a panic is answered, which no handler of the model has.
use dst_go_backend.Base.{ℕ, ◌≡◌, String, Option, none, some, leb, if◌then◌else◌, arith}
use dst_go_backend.Strings.{is_empty}
use dst_go_backend.Platform.Logger.{Level}
use dst_go_backend.Http.{Context, Response, fail_with_msg}

-- What the log shows of a request.
pub record Access : Type 0 where
  pub status : ℕ
  pub duration : ℕ
  pub client_ip : String
  pub method : String
  pub path : String
  pub query : String
  pub error : Option String

unfoldable pub level_of : ℕ → Level
level_of status =
    if leb 500 status then Level.error else if leb 400 status then Level.warn else Level.info

-- `Logger`, behind the handlers; `errors` is the text of `c.Errors`, empty where there is none.
unfoldable pub log_request :
    Context → (path query errors : String) → ℕ → Response → Level × String × Access
unfolding level_of
log_request c path query errors duration r = (
  level_of r.status,
  "http 请求",
  record {
    status = r.status;
    duration = duration;
    client_ip = c.client_ip;
    method = c.method;
    path = path;
    query = query;
    error = if is_empty errors then none else some errors;
  },
)

-- How a handler ends: with its response, or in a panic.
pub data Outcome : Type 0 where
  finished : Response → Outcome
  panicked : String → Outcome

-- `Recovery`: the response, and the text that is logged.
unfoldable pub recover : Context → Outcome → Response × Option String
recover c (finished r) = (r, none)
recover c (panicked text) = (fail_with_msg c 500 "服务器内部错误", some text)

-- A request whose handler panicked is logged as an error, and its caller sees what a failure of the
-- server shows, not the panic.
recover-level_of :
    (c : Context) (text path query : String) (duration : ℕ)
    → (log_request c path query "" duration (recover c (panicked text)).0).0 ≡ Level.error
unfolding recover log_request fail_with_msg
recover-level_of c text path query duration = ground arith
