-- ===== src/Service/Captcha.antt =====
-- internal/service/captcha/service.go.
use dst_go_backend.Base.{suc, String, Bool}
use dst_go_backend.Apperr.{biz}
use dst_go_backend.Act.{Act, pure, ◌>>=◌, recode}
use dst_go_backend.Platform.Captcha
use dst_go_backend.Service.World.{Env, World, on_redis}

pub record GetCaptchaResp : Type 0 where
  pub captcha_id : String
  pub captcha_img : String

module _ (e : Env) where
  abbrev next_captcha : Act (World e) (String × String)
  next_captcha w =
      on_redis e (λ now. Captcha.generate e.redis now (e.draw_captcha w.drawn) e.captcha_config)
        (record w { drawn = suc w.drawn })

  unfoldable pub generate_captcha : Act (World e) GetCaptchaResp
  generate_captcha = do
    (id, b64s) ← recode (biz 500 "图形验证码生成失败") next_captcha
    pure (record { captcha_id = id; captcha_img = b64s })

  unfoldable pub verify : String → String → Bool → Act (World e) Bool
  verify id answer clear = on_redis e (λ now. Captcha.verify e.redis now id answer clear)
