-- ===== src/Platform/Logger.antt =====
-- internal/platform/logger. `slog`, the files of lumberjack and the clock are not part of the
-- repository: what the code hands to them is a value here, and the logger built is its settings.
pub mod Levels
pub mod Wrapping
use dst_go_backend.Base.{
  ℕ, ℤ, ◌*◌, String, Bool, true, false, not, ◌&&◌, ◌||◌, Option, none, some, List, [], ◌∷◌, ◌++◌,
  ltb, leb, ◌==◌, if◌then◌else◌,
}
use dst_go_backend.Apperr.{Error, record_not_found, other, Result, ok, err, or_fail, ◌>>=◌, ◌>>◌}
use dst_go_backend.Strings.{is_empty}
use dst_go_backend.Strings.Bytes.{lower_is}

-- `slog.Level`.
pub data Level : Type 0 where
  debug info warn error : Level

pub record Config : Type 0 where
  pub level : String
  pub format : String
  pub to_console : Bool
  pub to_file : Bool
  pub dir : String
  pub filename : String
  pub max_size : ℤ
  pub max_backups : ℤ
  pub max_age : ℤ
  pub compress : Bool
  pub add_source : Bool

-- `os.Stdout`, or a `lumberjack.Logger`.
pub data Writer : Type 0 where
  stdout : Writer
  rotated : (path : String) (max_size max_backups max_age : ℤ) (compress : Bool) → Writer

-- The handler that `NewLogger` builds, inside the `TraceHandler`; no writer is `io.Discard`.
pub record Logger : Type 0 where
  pub writers : List Writer
  pub level : Level
  pub add_source : Bool
  pub json : Bool

unfoldable pub parse_level : String → Level
parse_level level =
    if lower_is "debug" level
    then Level.debug
    else if lower_is "info" level
    then Level.info
    else if lower_is "warn" level || lower_is "warning" level
    then Level.warn
    else if lower_is "error" level
    then Level.error
    else Level.info

-- `make_dirs` is `os.MkdirAll`, and `join_path` is `filepath.Join`.
module _ (make_dirs : String → Result (Unit {0})) (join_path : String → String → String) where
  abbrev file_writers : Config → Result (List Writer)
  file_writers cfg =
      if cfg.to_file && not (is_empty cfg.filename)
      then (do
        or_fail (other "日志目录创建失败") (make_dirs cfg.dir)
        ok (
            rotated (join_path cfg.dir cfg.filename) cfg.max_size cfg.max_backups cfg.max_age
              cfg.compress
            ∷ []))
      else ok []

  unfoldable pub new_logger : Config → Result Logger
  unfolding parse_level
  new_logger cfg = do
    files ← file_writers cfg
    ok (record {
      writers = (if cfg.to_console then stdout ∷ [] else []) ++ files;
      level = parse_level cfg.level;
      add_source = cfg.add_source;
      json = lower_is "json" cfg.format;
    })

-- `GetTraceID` in a context whose value for the key is a text or nothing.
abbrev pub get_trace_id : Option String → String
get_trace_id none = ""
get_trace_id (some id) = id

-- `TraceHandler.Handle`: the attributes that the record goes on with.
unfoldable pub handle : Option String → List (String × String) → List (String × String)
handle trace attrs =
    let id = get_trace_id trace in if is_empty id then attrs else attrs ++ ("traceID", id) ∷ []

-- gorm's `LogLevel`.
pub data LogLevel : Type 0 where
  silent error warn info : LogLevel

abbrev pub rank : LogLevel → ℕ
rank LogLevel.silent = 1
rank LogLevel.error = 2
rank LogLevel.warn = 3
rank LogLevel.info = 4

pub record GormLogger : Type 0 where
  pub log_level : LogLevel
  pub slow_threshold : ℕ
  pub ignore_record_not_found_error : Bool

unfoldable pub parse_gorm_log_level : String → LogLevel
parse_gorm_log_level level =
    if lower_is "silent" level
    then LogLevel.silent
    else if lower_is "error" level
    then LogLevel.error
    else if lower_is "warn" level || lower_is "warning" level
    then LogLevel.warn
    else LogLevel.info

abbrev pub new_gorm_logger : String → ℕ → Bool → GormLogger
new_gorm_logger log_level slow_threshold ignore_record_not_found = record {
  log_level = parse_gorm_log_level log_level;
  slow_threshold = slow_threshold;
  ignore_record_not_found_error = ignore_record_not_found;
}

abbrev pub log_mode : LogLevel → GormLogger → GormLogger
log_mode level l = record l { log_level = level }

-- `Info`, `Warn` and `Error`, which write the text at their level or nothing.
abbrev pub write_at : LogLevel → Level → GormLogger → String → Option (Level × String)
write_at needed level l text =
    if leb (rank needed) (rank l.log_level) then some (level, text) else none

abbrev pub log_info : GormLogger → String → Option (Level × String)
log_info = write_at LogLevel.info Level.info

abbrev pub log_warn : GormLogger → String → Option (Level × String)
log_warn = write_at LogLevel.warn Level.warn

abbrev pub log_error : GormLogger → String → Option (Level × String)
log_error = write_at LogLevel.error Level.error

-- A statement as `Trace` writes it.
pub record Line : Type 0 where
  pub level : Level
  pub message : String
  pub elapsed : ℕ
  pub rows : ℤ
  pub sql : String
  pub error : Option Error
  pub slow_threshold : Option ℕ

abbrev is_not_found : Error → Bool
is_not_found record_not_found = true
is_not_found _ = false

abbrev pub counts : GormLogger → Option Error → Bool
counts l none = false
counts l (some e) = not l.ignore_record_not_found_error || not (is_not_found e)

-- The level and the message, or nothing to write.
unfoldable pub verdict : GormLogger → ℕ → Option Error → Option (Level × String)
verdict l elapsed e =
    if counts l e && leb (rank LogLevel.error) (rank l.log_level)
    then some (Level.error, "sql 执行失败")
    else if ltb 0 l.slow_threshold
        && ltb l.slow_threshold elapsed
        && leb (rank LogLevel.warn) (rank l.log_level)
    then some (Level.warn, "sql 慢查询")
    else if leb (rank LogLevel.info) (rank l.log_level)
    then some (Level.info, "sql 执行")
    else none

abbrev line : GormLogger → ℕ → String × ℤ → Option Error → Level → String → Line
line l elapsed (sql, rows) e level message = record {
  level = level;
  message = message;
  elapsed = elapsed;
  rows = rows;
  sql = sql;
  error = elim level [ Level.error ↦ e | _ ↦ none ];
  slow_threshold = elim level [ Level.warn ↦ some l.slow_threshold | _ ↦ none ];
}

-- `Trace`; `enabled` is the default logger's, and the pair what `fc` answers.
unfoldable pub trace : (Level → Bool) → GormLogger → ℕ → String × ℤ → Option Error → Option Line
unfolding verdict
trace enabled l elapsed ran e =
    if leb (rank l.log_level) (rank LogLevel.silent) then none else elim (verdict l elapsed e) [
      | none ↦ none
      | some (level, message) ↦
          if enabled level then some (line l elapsed ran e level message) else none
    ]
