-- ===== src/Tests/BootRuns.antt =====
-- Runs of internal/bootstrap.
use dst_go_backend.Base.{◌∷◌, ◌≡◌, refl, true, false, none, some, [], pos}
use dst_go_backend.Apperr.{other, ok, err}
use dst_go_backend.Settings.{Config, Viper, load}
use dst_go_backend.Strings.Bytes.{utf8}
use dst_go_backend.Platform.Crypto.{new_encryptor}
use dst_go_backend.Platform.Logger.{new_logger}
use dst_go_backend.Platform.Machine.{database, Machine, Listening, signalled, server_closed}
use dst_go_backend.Bootstrap.{run, init_sqlite, init_redis, init_sms, init_logger, run_http_server}
use dst_go_backend.Bootstrap.Releases.{fresh}

abbrev settings : Config
settings = record {
  app = record { env = "dev"; name = "panel"; version = "1" };
  server = record {
    host = "localhost";
    port = pos 8080;
    mode = "debug";
    allowed_origins = [];
    cookie_secure = false;
  };
  log = record {
    level = "WARN";
    format = "json";
    to_console = true;
    to_file = false;
    dir = "";
    filename = "";
    max_size = pos 1;
    max_backups = pos 1;
    max_age = pos 1;
    compress = false;
  };
  sqlite = record {
    db_path = "panel.db";
    max_open_conns = pos 1;
    max_idle_conns = pos 1;
    conn_max_lifetime = 0;
    conn_max_idle_time = 0;
    log_level = "error";
  };
  redis = record {
    host = "localhost";
    port = pos 6379;
    password = "";
    db = pos 0;
    pool_size = pos 10;
    dial_timeout = 5000;
    read_timeout = 3000;
    write_timeout = 3000;
  };
  jwt = record {
    access_secret = "a";
    access_expire = 900_000;
    refresh_secret = "r";
    refresh_expire = 604_800_000;
    agent_secret = "g";
    issuer = "panel";
  };
  captcha = record {
    expire = 300_000;
    img_width = pos 240;
    img_height = pos 80;
    length = pos 4;
    max_skew = pos 700;
    dot_count = pos 80;
  };
  sms = record {
    provider = "mock";
    aliyun = record {
      access_key_id = "";
      access_key_secret = "";
      sign_name = "";
      template_code = "";
    };
  };
  crypto = record { aes_key = "0123456789abcdef" };
}

abbrev viper : Viper Config
viper = record { read_in_config = λ source. ok tt; unmarshal = λ source. ok settings }

abbrev machine : Listening → Machine
machine listening = record {
  make_dirs = λ path. ok tt;
  dir = λ path. ".";
  join_path = λ dir name. name;
  open_db = λ opening. ok tt;
  db_pool = ok tt;
  ping_db = ok tt;
  migrate = ok tt;
  ping_redis = λ options. ok tt;
  aliyun = record { new_client = λ api. ok tt; send_sms_with_options = λ sent options. ok none };
  listen = λ addr. listening;
}

-- A shutdown that runs into its deadline, and a close that works.
abbrev stuck : Listening
stuck =
    signalled
      (record { shutdown_error = some "deadline"; close_error = none; served = server_closed })

-- The run of a machine without Redis closes the database.
abbrev no_redis : Machine
no_redis = record (machine stuck) { ping_redis = λ options. err (other "refused") }

closes_without_redis :
    let r = run no_redis viper "config.yaml" fresh in
    (r.0 ≡ err (other "redis 初始化失败")) × (r.1.open_parts ≡ [])
unfolding run load init_logger new_logger new_encryptor utf8 init_sqlite init_redis
closes_without_redis = (refl, refl)

-- A driver that opens the database and does not give its pool leaves it open.
abbrev no_pool : Machine
no_pool = record (machine stuck) { db_pool = err (other "no pool") }

leaves_without_pool : (run no_pool viper "config.yaml" fresh).1.open_parts ≡ database ∷ []
unfolding run load init_logger new_logger new_encryptor utf8 init_sqlite
leaves_without_pool = refl

reports_the_deadline :
    (run (machine stuck) viper "config.yaml" fresh).0 ≡ err (other "http 优雅停机失败: deadline")
unfolding run load init_logger new_logger new_encryptor utf8 init_sqlite init_redis init_sms
    run_http_server
reports_the_deadline = refl
