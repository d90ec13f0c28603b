-- ===== src/Platform/Machine.antt =====
-- What the start of the process meets outside the repository, as an argument, and what it holds.
use dst_go_backend.Base.{ℕ, ℤ, String, Bool, Option, List, ◌∷◌, not, keep}
use dst_go_backend.Apperr.{Result, ok}
use dst_go_backend.Act.{Act}
use dst_go_backend.Platform.SmsClient.{Aliyun}
use dst_go_backend.Platform.Logger.{Logger, GormLogger, LogLevel}

-- What is opened and has to be closed: the database's connections, and those to Redis.
pub data Part : Type 0 where
  database redis : Part

-- The settings of a `*sql.DB`.
pub record Pool : Type 0 where
  pub max_open_conns : ℤ
  pub max_idle_conns : ℤ
  pub conn_max_lifetime : ℕ
  pub conn_max_idle_time : ℕ

-- gorm's own logger at a level, or the repository's.
pub data SqlLogger : Type 0 where
  default_logger : LogLevel → SqlLogger
  own_logger : GormLogger → SqlLogger

-- The arguments of `gorm.Open`.
pub record Opening : Type 0 where
  pub dsn : String
  pub logger : SqlLogger
  pub translate_error : Bool

-- `redis.Options`.
pub record Options : Type 0 where
  pub addr : String
  pub password : String
  pub db : ℤ
  pub pool_size : ℤ
  pub dial_timeout : ℕ
  pub read_timeout : ℕ
  pub write_timeout : ℕ

-- How `ListenAndServe` ends: by a shutdown, or by an error.
pub data Served : Type 0 where
  server_closed : Served
  failed : String → Served

-- `Shutdown` and `Close`, and how `ListenAndServe` ended behind them.
pub record Stop : Type 0 where
  pub shutdown_error : Option String
  pub close_error : Option String
  pub served : Served

-- What comes first of the listener's end and a signal.
pub data Listening : Type 0 where
  returned : Served → Listening
  signalled : Stop → Listening

-- The answers of the file system, the drivers and the network. `db_pool` is what `db.DB()` answers,
-- which depends on the driver alone.
pub record Machine : Type 0 where
  pub make_dirs : String → Result (Unit {0})
  pub dir : String → String
  pub join_path : String → String → String
  pub open_db : Opening → Result (Unit {0})
  pub db_pool : Result (Unit {0})
  pub ping_db : Result (Unit {0})
  pub migrate : Result (Unit {0})
  pub ping_redis : Options → Result (Unit {0})
  pub aliyun : Aliyun
  pub listen : String → Listening

-- The process: what is open, the last opened first, the settings of the database's pool, the default
-- logger, and for each time it listened the address and what was open.
pub record Process : Type 0 where
  pub open_parts : List Part
  pub pool : Option Pool
  pub logger : Option Logger
  pub listened : List (String × List Part)

abbrev is_part : Part → Part → Bool
is_part database database = Bool.true
is_part redis redis = Bool.true
is_part database redis = Bool.false
is_part redis database = Bool.false

abbrev pub opens : Part → Act Process (Unit {0})
opens part p = (ok tt, record p { open_parts = part ∷ p.open_parts })

abbrev pub close : Part → Process → Process
close part p = record p { open_parts = keep (λ q. not (is_part part q)) p.open_parts }

abbrev pub closes : Part → Act Process (Unit {0})
closes part p = (ok tt, close part p)

-- What a call outside answers.
module _ {A : Type 0} where
  abbrev pub answer : Result A → Act Process A
  answer r p = (r, p)

  -- `defer`: what is closed when the rest returns, with an error or without.
  abbrev pub defer : Part → Act Process A → Act Process A
  defer part rest p = let r = rest p in (r.0, close part r.1)
