-- ===== src/Http.antt =====
-- internal/result/result.go, and what the handlers use of gin: the request as they read it, and the
-- response as they write it. `Handler` runs behind the middleware, whose `c.Next()` it is.
pub mod Users
pub mod Written
pub mod Servers
pub mod Dsts
pub mod Tasks
pub mod Middleware
pub mod Router
pub mod Logging
pub mod Validation
pub mod Guard
pub mod Logout
pub mod Origin
pub mod Ownership
use dst_go_backend.Base.{ℕ, ℤ, String, Bool, Option, none, some, List, [], ◌==◌, if◌then◌else◌}
use dst_go_backend.Apperr.{Error, biz, Result, ok, err}
use dst_go_backend.Act.{Act}
use dst_go_backend.Strings.Split.{parse_uint}
use dst_go_backend.Service.World.{Env, World}
use dst_go_backend.Service.Captcha.{GetCaptchaResp}
use dst_go_backend.Service.Auth.{Identity, LoginResp, UserResp}
use dst_go_backend.Service.Panel.{Answer}

-- A header that is missing is the empty text, as `GetHeader` has it. `identity` is what `Auth` sets:
-- `userID`, `username` and `role`.
pub record Context : Type 0 where
  pub method : String
  pub authorization : String
  pub origin : String
  pub request_method : String
  pub trace_header : String
  pub client_ip : String
  pub refresh_cookie : Option String
  pub id_param : String
  pub trace_id : String
  pub identity : Option Identity

-- The data of a response. `answered` carries what a service returned.
pub data Body : Type 0 where
  answered : Answer → Body
  captcha : GetCaptchaResp → Body
  logged_in : LoginResp → Body
  profile : UserResp → Body
  access_token reset_token : String → Body

pub record Json : Type 0 where
  pub code : ℕ
  pub msg : String
  pub data_of : Option Body
  pub trace_id : String

-- The arguments of `c.SetCookie`.
pub record Cookie : Type 0 where
  pub name : String
  pub value : String
  pub max_age : ℤ
  pub path : String
  pub domain : String
  pub secure : Bool
  pub http_only : Bool

pub record Response : Type 0 where
  pub status : ℕ
  pub headers : List (String × String)
  pub cookies : List Cookie
  pub body : Option Json

unfoldable pub json_response : Context → ℕ → ℕ → String → Option Body → Response
json_response c http_status code msg body = record {
  status = http_status;
  headers = [];
  cookies = [];
  body = some (record { code = code; msg = msg; data_of = body; trace_id = c.trace_id });
}

unfoldable pub success : Context → Option Body → Response
unfolding json_response
success c body = json_response c 200 200 "成功" body

-- No handler calls this one.
unfoldable success_with_msg : Context → String → Option Body → Response
unfolding json_response
success_with_msg c msg body = json_response c 200 200 msg body

unfoldable pub fail_with_msg : Context → ℕ → String → Response
unfolding json_response
fail_with_msg c code msg = json_response c code code msg none

unfoldable pub fail : Context → Error → Response
unfolding fail_with_msg
fail c (biz code msg) = fail_with_msg c code msg
fail c _ = fail_with_msg c 500 "服务器内部错误"

module _ (e : Env) where
  abbrev pub Handler : Type 0
  Handler = Context → World e → Response × World e

module _ (e : Env) {A : Type 0} where
  -- The end of a handler: `result.Fail` for an error of the service, else what `good` writes.
  abbrev pub respond : (Context → A → Response) → Result A → Context → Response
  respond good (ok a) c = good c a
  respond good (err x) c = fail c x

  abbrev pub answer : (Context → A → Response) → Act (World e) A → Handler e
  answer good m c w = let r = m w in (respond good r.0 c, r.1)

  -- `ShouldBindJSON` and `ShouldBindQuery`: the request, or `none` where they return an error.
  abbrev pub bind : Option A → String → (A → Handler e) → Handler e
  bind none msg run c w = (fail_with_msg c 400 msg, w)
  bind (some req) msg run c w = run req c w

module _ (e : Env) where
  abbrev pub user_or : Option Identity → (ℕ → Handler e) → Handler e
  user_or none run c w = (fail_with_msg c 401 "未授权", w)
  user_or (some identity) run c w =
      if identity.user_id == 0 then (fail_with_msg c 401 "用户标识无效", w) else run identity.user_id c w

  -- `getUserID`.
  unfoldable pub with_user : (ℕ → Handler e) → Handler e
  with_user run c w = user_or c.identity run c w

  abbrev pub id_or : String → Option ℕ → (ℕ → Handler e) → Handler e
  id_or msg none run c w = (fail_with_msg c 400 msg, w)
  id_or msg (some id) run c w = if id == 0 then (fail_with_msg c 400 msg, w) else run id c w

  -- `getServerID` and `getDstID`.
  unfoldable pub with_id : String → (ℕ → Handler e) → Handler e
  with_id msg run c w = id_or msg (parse_uint c.id_param) run c w
