-- ===== src/Http/Users.antt =====
-- internal/handler/v1/auth/handler.go.
use dst_go_backend.Base.{
  ℕ, ◌/◌, ℤ, pos, negsuc, String, Bool, true, Option, none, some, List, [], ◌∷◌, if◌then◌else◌,
}
use dst_go_backend.Strings.{is_empty}
use dst_go_backend.Strings.Split.{fields, equal_fold}
use dst_go_backend.Http.{
  Context, Response, Cookie, Body, captcha, logged_in, access_token, reset_token, Handler, success,
  fail_with_msg, answer, bind,
}
use dst_go_backend.Service.World.{Env}
use dst_go_backend.Service.Sms.{SendSmsCodeReq}
use dst_go_backend.Service.Auth.{RegisterReq, LoginReq, LoginResp, ResetPasswordReq, Identity}
use dst_go_backend.Service.Auth

pub record LoginBySmsReq : Type 0 where
  pub phone : String
  pub sms_code : String

pub record VerifyResetCodeReq : Type 0 where
  pub phone : String
  pub sms_code : String

-- `refresh_expire` in milliseconds.
pub record Config : Type 0 where
  pub refresh_expire : ℕ
  pub cookie_secure : Bool

abbrev with_cookie : Cookie → Response → Response
with_cookie cookie r = record r { cookies = cookie ∷ [] }

-- The cookie, or the empty text where it is missing.
abbrev pub or_blank : Option String → String
or_blank none = ""
or_blank (some token) = token

module _ (config : Config) where
  abbrev refresh_cookie : String → ℤ → Cookie
  refresh_cookie value max_age = record {
    name = "refresh_token";
    value = value;
    max_age = max_age;
    path = "/api/v1/auth";
    domain = "";
    secure = config.cookie_secure;
    http_only = true;
  }

  unfoldable pub set_refresh_token_cookie : String → Response → Response
  set_refresh_token_cookie token =
      with_cookie (refresh_cookie token (pos (config.refresh_expire / 1000)))

  unfoldable pub clear_refresh_token_cookie : Response → Response
  clear_refresh_token_cookie = with_cookie (refresh_cookie "" (negsuc 0))

module _ (e : Env) (config : Config) where
  -- The end of every login: the refresh token goes into the cookie.
  abbrev logged : Context → LoginResp × String → Response
  logged c r = set_refresh_token_cookie config r.1 (success c (some (logged_in r.0)))

  unfoldable pub get_captcha : Handler e
  get_captcha = answer e (λ c resp. success c (some (captcha resp))) (Auth.generate_captcha e)

  unfoldable pub send_sms_code : Option SendSmsCodeReq → Handler e
  send_sms_code bound =
      bind e bound "请求参数无效"
        (λ req c w. answer e (λ c u. success c none) (Auth.send_sms_code e c.client_ip req) c w)

  unfoldable pub register : Option RegisterReq → Handler e
  unfolding set_refresh_token_cookie
  register bound = bind e bound "请求参数无效" (λ req. answer e logged (Auth.register e req))

  unfoldable pub login : Option LoginReq → Handler e
  unfolding set_refresh_token_cookie
  login bound = bind e bound "请求参数无效" (λ req. answer e logged (Auth.login e req))

  unfoldable pub login_by_sms : Option LoginBySmsReq → Handler e
  unfolding set_refresh_token_cookie
  login_by_sms bound =
      bind e bound "请求参数无效" (λ req. answer e logged (Auth.login_by_sms e req.phone req.sms_code))

  abbrev refresh_with : Option String → Handler e
  refresh_with none c w = (fail_with_msg c 401 "刷新凭证缺失", w)
  refresh_with (some token) c w =
      if is_empty token
      then (fail_with_msg c 401 "刷新凭证缺失", w)
      else answer e
          (λ c r. set_refresh_token_cookie config r.1 (success c (some (access_token r.0))))
          (Auth.refresh_token e token) c w

  unfoldable pub refresh_token : Handler e
  unfolding set_refresh_token_cookie
  refresh_token c w = refresh_with c.refresh_cookie c w

  abbrev pub logout_with : List String → Handler e
  logout_with (scheme ∷ token ∷ []) c w =
      if equal_fold scheme "bearer"
      then answer e (λ c u. clear_refresh_token_cookie config (success c none))
          (Auth.logout e token (or_blank c.refresh_cookie)) c w
      else (fail_with_msg c 400 "登录凭证缺失或格式错误", w)
  logout_with _ c w = (fail_with_msg c 400 "登录凭证缺失或格式错误", w)

  unfoldable pub logout : Handler e
  unfolding clear_refresh_token_cookie
  logout c w = logout_with (fields c.authorization) c w

  unfoldable pub verify_reset_code : Option VerifyResetCodeReq → Handler e
  verify_reset_code bound = bind e bound "请求参数无效" (λ req.
      answer e (λ c token. success c (some (reset_token token)))
        (Auth.verify_reset_code e req.phone req.sms_code))

  unfoldable pub reset_password : Option ResetPasswordReq → Handler e
  reset_password bound =
      bind e bound "请求参数无效" (λ req. answer e (λ c u. success c none) (Auth.reset_password e req))

  abbrev profile_of : Option Identity → Handler e
  profile_of none c w = (fail_with_msg c 401 "未授权", w)
  profile_of (some identity) c w =
      answer e (λ c user. success c (some (Body.profile user)))
        (Auth.get_profile e identity.user_id) c w

  unfoldable pub get_profile : Handler e
  get_profile c w = profile_of c.identity c w
