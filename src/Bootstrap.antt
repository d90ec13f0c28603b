-- ===== src/Bootstrap.antt =====
-- internal/bootstrap and cmd/server/main.go: the start of the panel's process, over the answers of
-- its machine. What `Run` builds between opening and listening keeps no error: the constructors of
-- the services and handlers, whose functions are modelled with their parameters.
pub mod Releases
pub mod Wiring
use Prim.Native.String.{◌++◌ as join}
use dst_go_backend.Base.{
  ℕ, String, Bool, true, false, not, Option, none, some, List, [], ◌∷◌, str_eq, if◌then◌else◌,
}
use dst_go_backend.Apperr.{Error, other, Result, ok, err, is_ok}
use dst_go_backend.Act.{Act, pure, throw, ◌>>=◌, ◌>>◌, recode, attempt}
use dst_go_backend.Strings.Bytes.{utf8}
use dst_go_backend.Settings.{
  LogConfig, ServerConfig, SqliteConfig, RedisConfig, SmsConfig, Config, Viper, load,
}
use dst_go_backend.Platform.Logger
use dst_go_backend.Platform.Logger.{Logger, new_logger}
use dst_go_backend.Platform.Crypto.{new_encryptor}
use dst_go_backend.Platform.SmsClient.{AliyunClient, new_aliyun_sms_client}
use dst_go_backend.Platform.Drivers
use dst_go_backend.Platform.Drivers.{new_sqlite, new_mysql, new_redis_client, host_port}
use dst_go_backend.Platform.Machine.{
  Machine, Process, Part, database, redis, Served, server_closed, failed, Stop, Listening, returned,
  signalled, answer, closes, defer,
}

-- `slog.SetDefault`.
abbrev set_default : Logger → Act Process (Unit {0})
set_default l p = (ok tt, record p { logger = some l })

-- What `RunHTTPServer` returns of the end of `ListenAndServe`.
abbrev pub listener_result : Served → Result (Unit {0})
listener_result server_closed = ok tt
listener_result (failed text) = err (other (join "http 监听失败: " text))

-- Behind a signal: a shutdown that failed is reported, also where the forced close did not fail.
abbrev pub stop_result : Stop → Result (Unit {0})
stop_result stop = elim stop.shutdown_error [
  | none ↦ listener_result stop.served
  | some text ↦ elim stop.close_error [
    | none ↦ err (other (join "http 优雅停机失败: " text))
    | some forced ↦ err (other (join "http 优雅停机失败: " (join text (join "\nhttp 强制关闭失败: " forced))))
  ]
]

abbrev pub serving_result : Listening → Result (Unit {0})
serving_result (returned served) = listener_result served
serving_result (signalled stop) = stop_result stop

-- `ConnMaxLifetime` and `ConnMaxIdleTime` of `InitMySQL`: thirty and ten minutes.
abbrev mysql_lifetime : ℕ
mysql_lifetime = 1_800_000

abbrev mysql_idle_time : ℕ
mysql_idle_time = 600_000

module _ (m : Machine) where
  unfoldable pub init_logger : LogConfig → String → Act Process (Unit {0})
  init_logger cfg env = do
    l ← recode (other "日志初始化失败") (
        answer (
          new_logger m.make_dirs m.join_path (record {
            level = cfg.level;
            format = cfg.format;
            to_console = cfg.to_console;
            to_file = cfg.to_file;
            dir = cfg.dir;
            filename = cfg.filename;
            max_size = cfg.max_size;
            max_backups = cfg.max_backups;
            max_age = cfg.max_age;
            compress = cfg.compress;
            add_source = not (str_eq env "prod");
          })))
    set_default l

  -- The connections are closed where the pool can be had.
  abbrev pub close_pool : Act Process (Unit {0})
  close_pool = attempt (answer m.db_pool) (λ e. pure tt) (λ pool. closes database)

  abbrev pub migrated : Act Process (Unit {0})
  migrated = attempt (answer m.migrate) (λ e. close_pool >> throw (other "数据库迁移失败")) pure

  unfoldable pub init_sqlite : SqliteConfig → Act Process (Unit {0})
  unfolding new_sqlite
  init_sqlite cfg = do
    recode (other "sqlite 初始化失败") (
        new_sqlite m (record {
          db_path = cfg.db_path;
          max_open_conns = cfg.max_open_conns;
          max_idle_conns = cfg.max_idle_conns;
          conn_max_lifetime = cfg.conn_max_lifetime;
          conn_max_idle_time = cfg.conn_max_idle_time;
          log_level = cfg.log_level;
        }))
    migrated

  -- Nothing calls this one.
  unfoldable pub init_mysql : Drivers.MySqlConfig → Act Process (Unit {0})
  unfolding new_mysql
  init_mysql cfg = do
    recode (other "mysql 初始化失败") (
        new_mysql m
          (record cfg { conn_max_lifetime = mysql_lifetime; conn_max_idle_time = mysql_idle_time }))
    migrated

  unfoldable pub init_redis : RedisConfig → Act Process (Unit {0})
  unfolding new_redis_client
  init_redis cfg = recode (other "redis 初始化失败") (
      new_redis_client m (record {
        host = cfg.host;
        port = cfg.port;
        password = cfg.password;
        db = cfg.db;
        pool_size = cfg.pool_size;
        dial_timeout = cfg.dial_timeout;
        read_timeout = cfg.read_timeout;
        write_timeout = cfg.write_timeout;
      }))

  -- The switch over the provider; what it makes is the client of the service.
  unfoldable pub init_sms : SmsConfig → Act Process (Option AliyunClient)
  init_sms cfg =
      if str_eq cfg.provider "aliyun"
      then (do
        client ← answer (
            new_aliyun_sms_client m.aliyun (record {
              access_key_id = cfg.aliyun.access_key_id;
              access_key_secret = cfg.aliyun.access_key_secret;
              sign_name = cfg.aliyun.sign_name;
              template_code = cfg.aliyun.template_code;
            }))
        pure (some client))
      else if str_eq cfg.provider "mock"
      then pure none
      else throw (other (join "不支持短信服务商 provider=" cfg.provider))

  unfoldable pub run_http_server : ServerConfig → Act Process (Unit {0})
  run_http_server cfg p =
      let addr = host_port cfg.host cfg.port in
      (serving_result (m.listen addr), record p { listened = (addr, p.open_parts) ∷ p.listened })

  -- What runs with the database open, and then with Redis open too.
  abbrev pub run_with_redis : Config → Act Process (Unit {0})
  run_with_redis cfg = do client ← init_sms cfg.sms; run_http_server cfg.server

  abbrev pub run_with_database : Config → Act Process (Unit {0})
  run_with_database cfg = do init_redis cfg.redis; defer redis (run_with_redis cfg)

  -- What runs with the settings.
  abbrev pub run_with_config : Config → Act Process (Unit {0})
  run_with_config cfg = do
    init_logger cfg.log cfg.app.env
    recode (other "AES 加密组件初始化失败") (answer (new_encryptor (utf8 cfg.crypto.aes_key)))
    init_sqlite cfg.sqlite
    recode (other "数据库连接池获取失败") (answer m.db_pool)
    defer database (run_with_database cfg)

  unfoldable pub run : Viper Config → String → Act Process (Unit {0})
  run v config_path = do
    cfg ← recode (other "配置加载失败") (answer (load v config_path))
    run_with_config cfg

  -- `main`: the status that the process exits with.
  abbrev pub main : Viper Config → String → Process → ℕ
  main v config_path p = if is_ok (run v config_path p).0 then 0 else 1
