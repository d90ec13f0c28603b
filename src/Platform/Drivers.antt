-- ===== src/Platform/Drivers.antt =====
-- internal/platform/database, and internal/platform/redis/redis.go. gorm, the drivers and the Redis
-- client are answers of the machine.
use Prim.Native.String.{◌++◌ as join}
use dst_go_backend.Base.{ℕ, ℤ, pos, String, true, int_leb, itoa, some, if◌then◌else◌}
use dst_go_backend.Apperr.{other, Result, ok}
use dst_go_backend.Act.{Act, pure, throw, ◌>>◌, recode, attempt}
use dst_go_backend.Strings.Bytes.{lower_is}
use dst_go_backend.Platform.Logger.{LogLevel, new_gorm_logger}
use dst_go_backend.Platform.Machine.{
  Machine, Process, Pool, Opening, Options, default_logger, own_logger, database, redis, opens,
  closes, answer,
}

-- Go's `database.MySQLConfig` and `database.SQLiteConfig`.
pub record MySqlConfig : Type 0 where
  pub host : String
  pub port : ℤ
  pub user : String
  pub password : String
  pub database_name : String
  pub max_open_conns : ℤ
  pub max_idle_conns : ℤ
  pub conn_max_lifetime : ℕ
  pub conn_max_idle_time : ℕ
  pub log_level : String

pub record SqliteConfig : Type 0 where
  pub db_path : String
  pub max_idle_conns : ℤ
  pub max_open_conns : ℤ
  pub conn_max_lifetime : ℕ
  pub conn_max_idle_time : ℕ
  pub log_level : String

-- Go's `redis.Config`.
pub record RedisConfig : Type 0 where
  pub host : String
  pub port : ℤ
  pub password : String
  pub db : ℤ
  pub pool_size : ℤ
  pub dial_timeout : ℕ
  pub read_timeout : ℕ
  pub write_timeout : ℕ

abbrev pub host_port : String → ℤ → String
host_port host port = join host (join ":" (itoa port))

abbrev pub sqlite_dsn : String → String
sqlite_dsn path =
    join path "?_pragma=journal_mode(WAL)&_pragma=busy_timeout(5000)&_pragma=synchronous(NORMAL)"

abbrev pub mysql_dsn : MySqlConfig → String
mysql_dsn cfg = join cfg.user (
    join ":" (
      join cfg.password (
        join "@tcp(" (
          join (host_port cfg.host cfg.port)
            (join ")/" (join cfg.database_name "?charset=utf8mb4&parseTime=True&loc=Local"))))))

abbrev pub set_pool : Pool → Act Process (Unit {0})
set_pool pool p = (ok tt, record p { pool = some pool })

-- A number that is not positive stands for the default.
abbrev pub or_default : ℤ → ℕ → ℤ
or_default n default = if int_leb n (pos 0) then pos default else n

unfoldable pub mysql_log_level : String → LogLevel
mysql_log_level level =
    if lower_is "silent" level
    then LogLevel.silent
    else if lower_is "error" level
    then LogLevel.error
    else if lower_is "warn" level
    then LogLevel.warn
    else LogLevel.info

module _ (m : Machine) where
  abbrev pub open_db : String → Opening → Act Process (Unit {0})
  open_db text opening = do
    recode (other text) (answer (m.open_db opening))
    opens database
    recode (other "数据库连接池获取失败") (answer m.db_pool)

  unfoldable pub new_sqlite : SqliteConfig → Act Process (Unit {0})
  new_sqlite cfg = do
    recode (other "数据库目录创建失败") (answer (m.make_dirs (m.dir cfg.db_path)))
    open_db "sqlite 数据库打开失败" (record {
      dsn = sqlite_dsn cfg.db_path;
      logger = own_logger (new_gorm_logger cfg.log_level 200 true);
      translate_error = true;
    })
    set_pool (record {
      max_open_conns = cfg.max_open_conns;
      max_idle_conns = cfg.max_idle_conns;
      conn_max_lifetime = cfg.conn_max_lifetime;
      conn_max_idle_time = cfg.conn_max_idle_time;
    })

  -- The call that has to succeed, or else what was opened before is closed.
  abbrev pub or_close : Result (Unit {0}) → Act Process (Unit {0}) → String → Act Process (Unit {0})
  or_close called cleanup text = attempt (answer called) (λ e. cleanup >> throw (other text)) pure

  unfoldable pub new_mysql : MySqlConfig → Act Process (Unit {0})
  unfolding mysql_log_level
  new_mysql cfg = do
    open_db "mysql 数据库打开失败" (record {
      dsn = mysql_dsn cfg;
      logger = default_logger (mysql_log_level cfg.log_level);
      translate_error = true;
    })
    set_pool (record {
      max_open_conns = or_default cfg.max_open_conns 100;
      max_idle_conns = or_default cfg.max_idle_conns 10;
      conn_max_lifetime = cfg.conn_max_lifetime;
      conn_max_idle_time = cfg.conn_max_idle_time;
    })
    or_close m.ping_db (closes database) (join "mysql 连接失败 addr=" (host_port cfg.host cfg.port))

  unfoldable pub new_redis_client : RedisConfig → Act Process (Unit {0})
  new_redis_client cfg = do
    opens redis
    let options : Options = record {
      addr = host_port cfg.host cfg.port;
      password = cfg.password;
      db = cfg.db;
      pool_size = cfg.pool_size;
      dial_timeout = cfg.dial_timeout;
      read_timeout = cfg.read_timeout;
      write_timeout = cfg.write_timeout;
    }
    or_close (m.ping_redis options) (closes redis)
        (join "redis 连接失败 addr=" (host_port cfg.host cfg.port))
