-- ===== src/Service/Sms.antt =====
-- internal/service/sms/service.go.
use dst_go_backend.Base.{ℕ, ◌+◌, ◌*◌, String, Bool, true, not, Option, format_uint}
use dst_go_backend.Apperr.{Error, biz, sms_attempts_exceeded, Result, ok, err}
use dst_go_backend.Act.{Act, pure, throw, ◌>>=◌, ◌>>◌, throw_if, recode, attempt}
use dst_go_backend.Strings.{is_empty}
use dst_go_backend.Platform.Captcha
use dst_go_backend.Repository.Cache.SmsCache.{set_code, consume_code}
use dst_go_backend.Repository.Cache.SmsLimit.{
  SmsLimitReason, SmsLimitPolicy, SmsReservation, allowed, ip_minute, phone_minute, ip_day,
  phone_day, unknown, reserve, release,
}
use dst_go_backend.Service.World.{Env, World, on_redis, on_sms, drawing}

pub record SendSmsCodeReq : Type 0 where
  pub phone : String
  pub captcha_id : String
  pub captcha_code : String

abbrev pub policy : SmsLimitPolicy
policy = record { ip_minute = 10; phone_minute = 1; ip_day = 50; phone_day = 5 }

-- The switch on the reason of a refusal.
abbrev pub refusal : SmsLimitReason → Result (Unit {0})
refusal allowed = ok tt
refusal ip_minute = err (biz 429 "ip 短信发送过于频繁")
refusal phone_minute = err (biz 429 "手机号短信发送过于频繁")
refusal ip_day = err (biz 429 "ip 今日短信次数已用完")
refusal phone_day = err (biz 429 "手机号今日短信次数已用完")
refusal (unknown n) = err (biz 503 "短信服务不可用")

-- `fmt.Sprintf("%06d", number + 100000)`; the number has six digits as it is.
unfoldable pub code_text : ℕ → String
code_text number = format_uint (number + 100000)

module _ (e : Env) where
  abbrev lift : {A : Type 0} → Result A → Act (World e) A
  lift r w = (r, w)

  abbrev draw_code : ℕ → Result String
  draw_code n = elim (e.rand_below n 900000) [
    | ok number ↦ ok (code_text number)
    | err x ↦ err (biz 500 "短信服务不可用")
  ]

  -- The code could not be stored: the quotas are given back, whatever comes of that.
  abbrev give_back : Option SmsReservation → Act (World e) (Unit {0})
  give_back reservation = do
    let failed = biz 503 "短信服务不可用"
    attempt (on_redis e (λ now. release e.redis now reservation)) (λ x. throw failed)
        (λ done. throw failed)

  unfoldable pub send_code : String → SendSmsCodeReq → Act (World e) (Unit {0})
  send_code client_ip req = do
    throw_if (is_empty client_ip) (biz 400 "客户端 ip 缺失")
    valid ←
        recode (biz 503 "图形验证码服务不可用")
          (on_redis e (λ now. Captcha.verify e.redis now req.captcha_id req.captcha_code true))
    throw_if (not valid) (biz 400 "图形验证码错误或已过期")
    code ← drawing e draw_code
    id ← drawing e (λ n. ok (e.uuid n))
    reserved ←
        recode (biz 503 "短信服务不可用")
          (on_redis e (λ now. reserve e.redis now id client_ip req.phone policy))
    lift (refusal reserved.1)
    attempt (on_redis e (λ now. set_code e.redis now req.phone code (5 * 60 * 1000)))
        (λ x. give_back reserved.0) (λ done. pure tt)
    recode (biz 503 "短信发送结果未知") (on_sms e (e.send_sms req.phone code))

  abbrev verify_failed : Error → Act (World e) Bool
  verify_failed sms_attempts_exceeded = throw (biz 400 "短信验证码已连续输错 3 次")
  verify_failed x = throw (biz 503 "短信服务不可用")

  unfoldable pub verify_code : String → String → Act (World e) Bool
  verify_code phone code =
      attempt (on_redis e (λ now. consume_code e.redis now phone code)) verify_failed pure
