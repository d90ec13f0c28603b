-- ===== src/Settings.antt =====
-- internal/config/config.go. viper, which reads the file and the environment, is an argument. A
-- duration is in milliseconds, and `max_skew`, a float64 that the code only hands on, in thousandths.
use dst_go_backend.Base.{ℕ, ℤ, String, Bool, true, List}
use dst_go_backend.Apperr.{other, Result, or_fail, ◌>>◌}

pub record AppConfig : Type 0 where
  pub env : String
  pub name : String
  pub version : String

pub record ServerConfig : Type 0 where
  pub host : String
  pub port : ℤ
  pub mode : String
  pub allowed_origins : List String
  pub cookie_secure : Bool

pub record LogConfig : Type 0 where
  pub level : String
  pub format : String
  pub to_console : Bool
  pub to_file : Bool
  pub dir : String
  pub filename : String
  pub max_size : ℤ
  pub max_backups : ℤ
  pub max_age : ℤ
  pub compress : Bool

pub record MySqlConfig : Type 0 where
  pub host : String
  pub port : ℤ
  pub user : String
  pub password : String
  pub database_name : String
  pub max_open_conns : ℤ
  pub max_idle_conns : ℤ
  pub conn_max_lifetime : ℕ
  pub conn_max_idle_time : ℕ
  pub log_level : String

pub record SqliteConfig : Type 0 where
  pub db_path : String
  pub max_open_conns : ℤ
  pub max_idle_conns : ℤ
  pub conn_max_lifetime : ℕ
  pub conn_max_idle_time : ℕ
  pub log_level : String

pub record RedisConfig : Type 0 where
  pub host : String
  pub port : ℤ
  pub password : String
  pub db : ℤ
  pub pool_size : ℤ
  pub dial_timeout : ℕ
  pub read_timeout : ℕ
  pub write_timeout : ℕ

pub record JwtConfig : Type 0 where
  pub access_secret : String
  pub access_expire : ℕ
  pub refresh_secret : String
  pub refresh_expire : ℕ
  pub agent_secret : String
  pub issuer : String

pub record CaptchaConfig : Type 0 where
  pub expire : ℕ
  pub img_width : ℤ
  pub img_height : ℤ
  pub length : ℤ
  pub max_skew : ℤ
  pub dot_count : ℤ

pub record AliyunSms : Type 0 where
  pub access_key_id : String
  pub access_key_secret : String
  pub sign_name : String
  pub template_code : String

pub record SmsConfig : Type 0 where
  pub provider : String
  pub aliyun : AliyunSms

pub record CryptoConfig : Type 0 where
  pub aes_key : String

pub record Config : Type 0 where
  pub app : AppConfig
  pub server : ServerConfig
  pub log : LogConfig
  pub sqlite : SqliteConfig
  pub redis : RedisConfig
  pub jwt : JwtConfig
  pub captcha : CaptchaConfig
  pub sms : SmsConfig
  pub crypto : CryptoConfig

-- What viper is told before it reads: a variable APP_SERVER_PORT goes before `server.port`.
pub record Source : Type 0 where
  pub config_file : String
  pub config_type : String
  pub env_prefix : String
  pub replaced : String
  pub replacement : String
  pub automatic_env : Bool

-- `ReadInConfig` and `Unmarshal`.
pub record Viper (A : Type 0) : Type 0 where
  pub read_in_config : Source → Result (Unit {0})
  pub unmarshal : Source → Result A

abbrev pub source : String → Source
source config_path = record {
  config_file = config_path;
  config_type = "yaml";
  env_prefix = "APP";
  replaced = ".";
  replacement = "_";
  automatic_env = true;
}

unfoldable pub load : Viper Config → String → Result Config
load v config_path = do
  or_fail (other "配置文件读取失败") (v.read_in_config (source config_path))
  or_fail (other "配置文件解析失败") (v.unmarshal (source config_path))
