-- ===== src/Platform/Logger/Levels.antt =====
-- internal/platform/logger/gorm.go: a louder level loses no line.
use dst_go_backend.Base.{ℕ, ℤ, ◌≤◌, ◌≡◌, Bool, String, Option, some, arith}
use dst_go_backend.Apperr.{Error}
use dst_go_backend.Platform.Logger.{Level, LogLevel, GormLogger, Line, rank, log_mode, trace}

-- What a statement is written as at one level, it is written as at every louder one.
trace-log_mode :
    (enabled : Level → Bool) (l : GormLogger) (k : LogLevel) (elapsed : ℕ) (ran : String × ℤ)
    (e : Option Error) (line : Line)
    → rank l.log_level ≤ rank k
    → trace enabled l elapsed ran e ≡ some line
    → trace enabled (log_mode k l) elapsed ran e ≡ some line
unfolding trace
trace-log_mode enabled l k elapsed ran e line louder written = ground arith
