-- ===== src/AgentClient/Executor.antt =====
-- internal/agent_client/executor.go. The operating system's part of a run (the pipes, the start,
-- the lines, the exit) is a `Process`; `os/exec` and `bufio` are not part of the repository.
pub mod Outcome
use Prim.Native.String.{◌++◌ as join}
use dst_go_backend.Base.{
  ℤ, pos, negsuc, itoa, is_int, String, Bool, true, false, ◌||◌, ◌++◌, Option, none, some, List, [],
  ◌∷◌, ◌⊎◌, inl, inr, str_eq, if◌then◌else◌,
}
use dst_go_backend.Protocol.{CmdPayload}
use dst_go_backend.Protocol
use dst_go_backend.Protocol.Action

-- What `cmd.Wait` returned: nothing, an `exec.ExitError` with its code, or another error.
pub data Exit : Type 0 where
  clean : Exit
  exited : ℤ → Exit
  wait_failed : String → Exit

-- A pipe that was read to its end: its lines, and the scanner's error.
pub record Output : Type 0 where
  pub lines : List String
  pub failure : Option String

-- What the operating system does with one command. `from_stderr` says for each line in turn which
-- pipe it comes from, and `context_error` is the context's error after the wait.
pub record Process : Type 0 where
  pub stdout_error : Option String
  pub stderr_error : Option String
  pub start_error : Option String
  pub stdout : Output
  pub stderr : Output
  pub from_stderr : List Bool
  pub exit : Exit
  pub context_error : Option String

-- The arguments of the script, or the text of the error.
unfoldable pub build_args : CmdPayload → List String ⊎ String
build_args p =
    if str_eq p.action Action.deploy || str_eq p.action Action.update
    then inl (p.action ∷ [])
    else if str_eq p.action Action.init
    then inl (p.action ∷ itoa p.slot ∷ p.cluster_token ∷ [])
    else if str_eq p.action Action.start
        || str_eq p.action Action.stop
        || str_eq p.action Action.delete
        || str_eq p.action Action.status
    then inl (p.action ∷ itoa p.slot ∷ [])
    else inr (join "不支持操作 action=" p.action)

-- The lines that the reader of a pipe hands to the callback.
unfoldable pub read_output : Output → List String
read_output out = elim out.failure [
  | none ↦ out.lines
  | some text ↦ out.lines ++ (join "日志读取失败: " text ∷ [])
]

-- The two readers run side by side; what one of them has left at the end comes last.
unfoldable pub merge : List Bool → List String → List String → List String
merge [] xs ys = xs ++ ys
merge (side ∷ order) [] ys = ys
merge (side ∷ order) (x ∷ xs) [] = x ∷ xs
merge (false ∷ order) (x ∷ xs) (y ∷ ys) = x ∷ merge order xs (y ∷ ys)
merge (true ∷ order) (x ∷ xs) (y ∷ ys) = y ∷ merge order (x ∷ xs) ys

-- The result of a command that failed before the script's exit was known.
abbrev pub failed : CmdPayload → String → Protocol.Result
failed p text = record {
  action = p.action;
  slot = p.slot;
  success = false;
  exit_code = negsuc 0;
  error = text;
}

-- An exit code that counts as success: `status` also answers 2, for a stopped slot.
abbrev pub accepts : String → ℤ → Bool
accepts action code =
    if str_eq action Action.status then is_int code 0 || is_int code 2 else is_int code 0

abbrev exit_text : ℤ → Option String → String
exit_text code none = join "脚本异常退出 exitCode=" (itoa code)
exit_text code (some text) = join "脚本执行失败: " text

abbrev pub finished : CmdPayload → ℤ → Option String → Protocol.Result
finished p code context_error = record {
  action = p.action;
  slot = p.slot;
  success = accepts p.action code;
  exit_code = code;
  error = if accepts p.action code then "" else exit_text code context_error;
}

abbrev pub report_exit : CmdPayload → Exit → Option String → Protocol.Result
report_exit p clean context_error = finished p (pos 0) context_error
report_exit p (exited code) context_error = finished p code context_error
report_exit p (wait_failed text) context_error = failed p (join "脚本执行失败: " text)

-- The run of a script with its arguments: the result, and the lines in the callback's order.
abbrev pub run_script : CmdPayload → Process → Protocol.Result × List String
run_script p os = elim os.stdout_error [
  | some text ↦ (failed p (join "stdout 管道创建失败: " text), [])
  | none ↦ elim os.stderr_error [
    | some text ↦ (failed p (join "stderr 管道创建失败: " text), [])
    | none ↦ elim os.start_error [
      | some text ↦ (failed p (join "dst 脚本启动失败: " text), [])
      | none ↦ (
        report_exit p os.exit os.context_error,
        merge os.from_stderr (read_output os.stdout) (read_output os.stderr),
      )
    ]
  ]
]

abbrev pub run_args : CmdPayload → Process → List String ⊎ String → Protocol.Result × List String
run_args p os (inl args) = run_script p os
run_args p os (inr text) = (failed p text, [])

-- `Execute`; `busy` says that another command holds the lock. The lines are what `onLog` is called
-- with.
unfoldable pub execute : Bool → CmdPayload → Process → Protocol.Result × List String
execute busy p os = if busy then (failed p "已有任务执行中", []) else run_args p os (build_args p)
