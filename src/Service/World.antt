-- ===== src/Service/World.antt =====
-- What the services run on: the third-party parts that internal/bootstrap/app.go puts together, and
-- the state of the world that a request reads and changes, the hub of the process included. A
-- request runs at one instant, `now`, in milliseconds. `drawn` counts the random draws, so that each
-- is another one.
use dst_go_backend.Base.{ℕ, suc, String, Bool, Option, List, ◌++◌}
use dst_go_backend.Apperr.{Result, ok}
use dst_go_backend.Act.{Act}
use dst_go_backend.Platform.Redis.{Redis}
use dst_go_backend.Platform.Jwt.{JwtLib}
use dst_go_backend.Platform.Jwt
use dst_go_backend.Platform.Captcha
use dst_go_backend.Platform.Captcha.{Drawer}
use dst_go_backend.Repository.Database.{Database}
use dst_go_backend.AgentManager.Hub.{Hub, Event}
use dst_go_backend.Repository.Cache.AuthCache.{ResetCodec}

-- `uuid` is the text of a draw, `rand_below` a number below the bound or an error, `draw_captcha` the
-- picture package, `hash_password`
-- and `encrypt` (AES-GCM) use a draw, `parse_addr` is `netip.ParseAddr` with the text of the address,
-- unmapped; `compare_password` is given the hash first. `send_sms` is the interface of
-- internal/platform/sms.
pub record Env : Type 1 where
  pub redis : Redis
  pub database : Database
  pub open database use *
  pub jwt : JwtLib
  pub jwt_config : Jwt.Config
  pub reset_codec : ResetCodec
  pub hash_password : ℕ → String → Result String
  pub compare_password : String → String → Bool
  pub uuid : ℕ → String
  pub encrypt : ℕ → String → Result String
  pub parse_addr : String → Option String
  pub rand_below : ℕ → ℕ → Result ℕ
  pub draw_captcha : ℕ → Drawer redis
  pub captcha_config : Captcha.Config
  pub Sms : Type 0
  pub send_sms : String → String → Act Sms (Unit {0})

module _ (e : Env) where
  pub record World : Type 0 where
    pub store : e.redis.State
    pub db : e.Db
    pub sms : e.Sms
    pub hub : Hub
    pub told : List Event
    pub now : ℕ
    pub drawn : ℕ

module _ (e : Env) {A : Type 0} where
  abbrev pub on_redis : (ℕ → Act e.redis.State A) → Act (World e) A
  on_redis m w = let q = m w.now w.store in (q.0, record w { store = q.1 })

  abbrev pub on_db : Act e.Db A → Act (World e) A
  on_db m w = let q = m w.db in (q.0, record w { db = q.1 })

  abbrev pub on_sms : Act e.Sms A → Act (World e) A
  on_sms m w = let q = m w.sms in (q.0, record w { sms = q.1 })

  -- A step that uses the next draw.
  abbrev pub drawing : (ℕ → Result A) → Act (World e) A
  drawing f w = (f w.drawn, record w { drawn = suc w.drawn })

  -- A step that only reads the instant.
  abbrev pub at_now : (ℕ → Result A) → Act (World e) A
  at_now f w = (f w.now, w)

module _ (e : Env) where
  -- A call of the hub, and what it tells the callback.
  abbrev pub on_hub : (Hub → Hub × List Event) → Act (World e) (Unit {0})
  on_hub f w = let q = f w.hub in (ok tt, record w { hub = q.0; told = w.told ++ q.1 })
