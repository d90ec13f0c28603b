-- ===== src/Service/Auth.antt =====
-- internal/service/auth/service.go. The `result.Success` bodies of internal/model/response/auth.go and
-- user.go are records.
pub mod Session
pub mod Revocation
pub mod Rotation
pub mod Reset
pub mod Forms
pub mod Tokens
pub use dst_go_backend.Service.Auth.Forms.*
unfoldable pub use dst_go_backend.Service.Auth.Tokens.*
use dst_go_backend.Base.{
  ℕ, suc, ◌+◌, ◌-◌, ◌*◌, String, Bool, true, false, not, ◌||◌, Option, none, some, leb, ◌==◌, ℤ,
  pos, is_int, if◌then◌else◌,
}
use dst_go_backend.Apperr.{
  Error, biz, duplicated_key, record_not_found, token_version_conflict, Result, ok, err,
}
use dst_go_backend.Act.{
  Act, pure, throw, ◌>>=◌, ◌>>◌, throw_if, recode, need, attempt, handle_result, continue,
}
use dst_go_backend.Strings.{is_empty}
use dst_go_backend.Platform.Jwt.{
  CustomClaims, generate_access_token, generate_refresh_token, parse_token,
}
use dst_go_backend.Repository.User
use dst_go_backend.Repository.User.{User}
use dst_go_backend.Repository.Cache.AuthCache.{
  ResetTokenData, add_token_to_blacklist, is_token_in_blacklist, consume_refresh_token,
  set_reset_token, get_reset_token, del_reset_token,
}
use dst_go_backend.Service.World.{Env, World, on_redis, on_db, drawing, at_now}
use dst_go_backend.Service.Captcha.{GetCaptchaResp}
use dst_go_backend.Service.Captcha
use dst_go_backend.Service.Sms.{SendSmsCodeReq, verify_code, send_code}

-- `time.Until(claims.ExpiresAt.Time)`; a time that has passed leaves 0.
abbrev pub remaining : ℕ → ℕ → ℕ
remaining expires now = expires - now

module _ (e : Env) where
  -- The last guard of `Authenticate`, on the user that was found.
  abbrev pub identify : CustomClaims → Option User → Act (World e) Identity
  identify claims none = throw (biz 401 "登录状态已失效")
  identify claims (some user) = do
    throw_if (not (is_int user.status 1) || not (user.token_version == claims.token_version))
        (biz 401 "登录状态已失效")
    pure (record { user_id = user.id; username = user.username; role = user.role })

  unfoldable pub authenticate : String → Act (World e) Identity
  authenticate access_token = do
    throw_if (is_empty access_token) (biz 401 "登录凭证缺失")
    claims ← recode (biz 401 "登录凭证无效或已过期") (parsed e access_token false)
    is_blacklisted ←
        recode (biz 500 "身份认证服务不可用")
          (on_redis e (λ now. is_token_in_blacklist e.redis now access_token))
    throw_if is_blacklisted (biz 401 "登录凭证已注销")
    user ← recode (biz 500 "身份认证服务不可用") (user_by_id e claims.user_id)
    identify claims user

  abbrev new_user : RegisterReq → String → User
  new_user req hashed = record {
    base = record { id = 0; created_at = 0; updated_at = 0 };
    username = req.username;
    password = hashed;
    phone = req.phone;
    email = none;
    role = "user";
    status = pos 1;
    token_version = 1;
  }

  abbrev create_failed : Error → Act (World e) User
  create_failed duplicated_key = throw (biz 409 "用户名或手机号已注册")
  create_failed x = throw (biz 500 "注册失败")

  unfoldable pub generate_captcha : Act (World e) GetCaptchaResp
  generate_captcha = Captcha.generate_captcha e

  unfoldable pub send_sms_code : String → SendSmsCodeReq → Act (World e) (Unit {0})
  send_sms_code client_ip req = send_code e client_ip req

  unfoldable pub register : RegisterReq → Act (World e) (LoginResp × String)
  register req = do
    named ← recode (biz 500 "注册失败") (on_db e (User.get_by_username e.users req.username))
    throw_if (is_present named) (biz 409 "用户名已注册")
    phoned ← recode (biz 500 "注册失败") (user_by_phone e req.phone)
    throw_if (is_present phoned) (biz 409 "手机号已注册")
    valid ← verify_code e req.phone req.sms_code
    throw_if (not valid) (biz 400 "短信验证码错误或已过期")
    hashed ← recode (biz 500 "密码哈希失败") (drawing e (λ n. e.hash_password n req.password))
    created ← attempt (on_db e (User.create e.users (new_user req hashed))) create_failed pure
    issue_tokens e created

  abbrev check_password : String → Option User → Act (World e) User
  check_password password none = throw (biz 401 "手机号或密码错误")
  check_password password (some user) = do
    throw_if (not (e.compare_password user.password password)) (biz 401 "手机号或密码错误")
    pure user

  unfoldable pub login : LoginReq → Act (World e) (LoginResp × String)
  login req = do
    valid ← recode (biz 503 "图形验证码服务不可用") (Captcha.verify e req.captcha_id req.captcha_code true)
    throw_if (not valid) (biz 400 "图形验证码错误或已过期")
    found ← recode (biz 500 "登录失败") (user_by_phone e req.phone)
    user ← check_password req.password found
    throw_if (not (is_int user.status 1)) (biz 403 "账号已禁用")
    issue_tokens e user

  unfoldable pub login_by_sms : String → String → Act (World e) (LoginResp × String)
  login_by_sms phone sms_code = do
    valid ← verify_code e phone sms_code
    throw_if (not valid) (biz 400 "短信验证码错误或已过期")
    found ← recode (biz 500 "登录失败") (user_by_phone e phone)
    user ← need found (biz 404 "手机号未注册")
    throw_if (not (is_int user.status 1)) (biz 403 "账号已禁用")
    issue_tokens e user

  -- The end of `RefreshToken`: the new tokens are signed before the old one is consumed.
  unfoldable pub exchange : String → User → ℕ → Act (World e) (String × String)
  exchange token user ttl = do
    new_access_token ← sign_access e user
    new_refresh_token ← sign_refresh e user
    consumed ←
        recode (biz 500 "身份认证服务不可用")
          (on_redis e (λ now. consume_refresh_token e.redis now token ttl))
    throw_if (not consumed) (biz 409 "刷新凭证已使用")
    pure (new_access_token, new_refresh_token)

  unfoldable pub refresh_token : String → Act (World e) (String × String)
  refresh_token token = do
    throw_if (is_empty token) (biz 401 "刷新凭证缺失")
    claims ← recode (biz 401 "刷新凭证无效或已过期") (parsed e token true)
    expires ← need claims.registered.expires_at (biz 401 "刷新凭证无效")
    found ← recode (biz 500 "身份认证服务不可用") (user_by_id e claims.user_id)
    user ← need found (biz 401 "用户不存在")
    throw_if (not (claims.token_version == user.token_version)) (biz 401 "登录状态已失效")
    throw_if (not (is_int user.status 1)) (biz 403 "账号已禁用")
    ttl ← at_now e (λ now. ok (remaining expires now))
    throw_if (leb ttl 0) (biz 401 "刷新凭证已过期")
    exchange token user ttl

  abbrev revoke_claims : String → CustomClaims → Act (World e) (Unit {0})
  revoke_claims token claims w = elim claims.registered.expires_at [
    | none ↦ (ok tt, w)
    | some expires ↦
        let ttl = remaining expires w.now in
        if leb ttl 0
        then (ok tt, w)
        else on_redis e (λ now. add_token_to_blacklist e.redis now token ttl) w
  ]

  unfoldable pub revoke_token : String → Bool → Act (World e) (Unit {0})
  revoke_token token is_refresh w =
      if is_empty token
      then (ok tt, w)
      else attempt (parsed e token is_refresh) (λ x. pure tt) (revoke_claims token) w

  unfoldable pub logout : String → String → Act (World e) (Unit {0})
  logout access_token refresh_token = do
    recode (biz 503 "退出登录失败") (revoke_token refresh_token true)
    recode (biz 503 "退出登录失败") (revoke_token access_token false)

  unfoldable pub verify_reset_code : String → String → Act (World e) String
  verify_reset_code phone sms_code = do
    valid ← verify_code e phone sms_code
    throw_if (not valid) (biz 400 "短信验证码错误或已过期")
    found ← recode (biz 500 "密码重置服务不可用") (user_by_phone e phone)
    user ← need found (biz 404 "手机号未注册")
    reset_token ← drawing e (λ n. ok (e.uuid n))
    recode (biz 500 "密码重置服务不可用") (
        on_redis e (λ now.
          set_reset_token e.redis now e.reset_codec reset_token user.id user.token_version
            (10 * 60 * 1000)))
    pure reset_token

  abbrev update_failed : Error → Act (World e) (Unit {0})
  update_failed token_version_conflict = throw (biz 400 "密码重置凭证已失效，请重新验证短信")
  update_failed record_not_found = throw (biz 404 "用户不存在")
  update_failed x = throw (biz 500 "密码重置失败")

  unfoldable pub reset_password : ResetPasswordReq → Act (World e) (Unit {0})
  reset_password req = do
    found ←
        recode (biz 500 "密码重置服务不可用")
          (on_redis e (λ now. get_reset_token e.redis now e.reset_codec req.reset_token))
    reset ← need found (biz 400 "密码重置凭证无效或已过期")
    user ← recode (biz 500 "密码重置服务不可用") (user_by_id e reset.user_id)
    throw_if (not (is_present user)) (biz 404 "用户不存在")
    hashed ← recode (biz 500 "密码重置失败") (drawing e (λ n. e.hash_password n req.new_password))
    attempt
        (λ w.
          on_db e (User.update_password e.users w.now reset.user_id hashed reset.token_version) w)
        update_failed (λ done. pure tt)
    attempt (on_redis e (λ now. del_reset_token e.redis now req.reset_token)) (λ x. pure tt)
        (λ done. pure tt)

  unfoldable pub get_profile : ℕ → Act (World e) UserResp
  get_profile user_id = do
    throw_if (user_id == 0) (biz 401 "用户标识无效")
    found ← recode (biz 500 "用户信息查询失败") (user_by_id e user_id)
    user ← need found (biz 404 "用户不存在")
    pure (to_user_resp user)
