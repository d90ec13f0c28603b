-- ===== src/AgentClient/Executor/Outcome.antt =====
-- What a result of `Execute` in internal/agent_client/executor.go says.
use Prim.Native.String.{◌++◌ as join, [], ◌∷◌}
use text.Mathlib.TextLemmas.{cons-append}
use dst_go_backend.Base.{
  ◌≡◌, refl, inl, inr, ℤ, pos, String, Bool, true, false, Option, none, some, arith, Bool-cases,
  Option-cases, List, ◌⊎◌, ◌||◌, ◌&&◌, not, str_eq, negsuc, is_int, if◌then◌else◌,
}
use dst_go_backend.Base
use dst_go_backend.Protocol.{CmdPayload}
use dst_go_backend.Protocol
use dst_go_backend.Protocol.Action
use dst_go_backend.Strings.{is_empty}
use dst_go_backend.AgentClient.Executor.{
  Exit, clean, exited, wait_failed, Process, execute, build_args, accepts, failed, finished,
  report_exit, run_script, run_args,
}

abbrev pub code_of : Exit → ℤ
code_of clean = pos 0
code_of (exited code) = code
code_of (wait_failed text) = negsuc 0

-- The exit of a script that did what it was asked: code 0, and for `status` also 2.
abbrev pub is_fine : String → Exit → Bool
is_fine action clean = true
is_fine action (exited code) = is_int code 0 || str_eq action "status" && is_int code 2
is_fine action (wait_failed text) = false

abbrev pub is_none : Option String → Bool
is_none none = true
is_none (some text) = false

-- One of the seven actions.
abbrev pub is_action : String → Bool
is_action action =
    str_eq action "deploy"
    || str_eq action "init"
    || str_eq action "start"
    || str_eq action "stop"
    || str_eq action "update"
    || str_eq action "delete"
    || str_eq action "status"

-- The script ran to its exit: nothing held the lock, the action is known, and it could be started.
abbrev pub has_run : Bool → CmdPayload → Process → Bool
has_run busy p os =
    not busy
    && is_action p.action
    && is_none os.stdout_error
    && is_none os.stderr_error
    && is_none os.start_error

-- A result names the command's action and slot, and its error text is empty exactly where it is a
-- success.
record Echoes (p : CmdPayload) (r : Protocol.Result) : Type 0 where
  pub action : r.action ≡ p.action
  pub slot : r.slot ≡ p.slot
  pub silent : is_empty r.error ≡ r.success

-- A result names the command's action and slot. It is a success where the script ran to a fine exit,
-- and only there; its exit code is the script's, or -1 where there is none; and its error text is
-- empty exactly where it is a success.
pub record IsResultOf (busy : Bool) (p : CmdPayload) (os : Process) (r : Protocol.Result)
    : Type 0 where
  pub action : r.action ≡ p.action
  pub slot : r.slot ≡ p.slot
  pub success : r.success ≡ (has_run busy p os && is_fine p.action os.exit)
  pub exit_code : r.exit_code ≡ (if has_run busy p os then code_of os.exit else negsuc 0)
  pub silent : is_empty r.error ≡ r.success

execute-success :
    (busy : Bool) (p : CmdPayload) (os : Process)
    → let r = (execute busy p os).0 in
      (r.success ≡ (has_run busy p os && is_fine p.action os.exit))
      × (r.exit_code ≡ (if has_run busy p os then code_of os.exit else negsuc 0))
unfolding execute build_args
execute-success busy p os = ground arith

is_empty-join : (s t : String) → is_empty s ≡ false → is_empty (join s t) ≡ false
is_empty-join [] t h = absurd (ground (arith, h))
is_empty-join (c ∷ s) t h = rw cons-append refl

failed-Echoes :
    (p : CmdPayload) (os : Process) (text : String)
    → is_empty text ≡ false
    → Echoes p (failed p text)
failed-Echoes p os text h = record { action = refl; slot = refl; silent = h }

finished-Echoes :
    (p : CmdPayload) (os : Process) (code : ℤ) → Echoes p (finished p code os.context_error)
finished-Echoes p os code = record {
  action = refl;
  slot = refl;
  silent = elim (Bool-cases (accepts p.action code)) [
    | inl fine ↦ rw fine refl
    | inr bad ↦ elim (Option-cases os.context_error) [
      | inl e ↦ rw (bad, e) (is_empty-join "脚本异常退出 exitCode=" (Base.itoa code) refl)
      | inr (text, e) ↦ rw (bad, e) (is_empty-join "脚本执行失败: " text refl)
    ]
  ];
}

report_exit-Echoes :
    (p : CmdPayload) (os : Process) (x : Exit) → Echoes p (report_exit p x os.context_error)
report_exit-Echoes p os clean = finished-Echoes p os (pos 0)
report_exit-Echoes p os (exited code) = finished-Echoes p os code
report_exit-Echoes p os (wait_failed text) =
    failed-Echoes p os _ (is_empty-join "脚本执行失败: " text refl)

same_result :
    (p : CmdPayload) (os : Process) (r q : Protocol.Result) → r ≡ q → Echoes p q → Echoes p r
same_result p os r q h k = rw h k

run_script-Echoes : (p : CmdPayload) (os : Process) → Echoes p (run_script p os).0
run_script-Echoes p os = elim (Option-cases os.stdout_error) [
  | inr (text, a) ↦
      same_result p os _ _ (rw a refl)
        (failed-Echoes p os _ (is_empty-join "stdout 管道创建失败: " text refl))
  | inl a ↦ elim (Option-cases os.stderr_error) [
    | inr (text, b) ↦
        same_result p os _ _ (rw (a, b) refl)
          (failed-Echoes p os _ (is_empty-join "stderr 管道创建失败: " text refl))
    | inl b ↦ elim (Option-cases os.start_error) [
      | inr (text, c) ↦
          same_result p os _ _ (rw (a, b, c) refl)
            (failed-Echoes p os _ (is_empty-join "dst 脚本启动失败: " text refl))
      | inl c ↦ same_result p os _ _ (rw (a, b, c) refl) (report_exit-Echoes p os os.exit)
    ]
  ]
]

abbrev Told : List String ⊎ String → Type 0
Told (inl args) = Unit
Told (inr text) = is_empty text ≡ false

build_args-Told : (p : CmdPayload) → Told (build_args p)
unfolding build_args
build_args-Told p =
    let no : is_empty (join "不支持操作 action=" p.action) ≡ false =
      is_empty-join "不支持操作 action=" p.action refl in
    elim (Bool-cases (str_eq p.action Action.deploy || str_eq p.action Action.update)) [
      | inl a ↦ rw a tt
      | inr a ↦ elim (Bool-cases (str_eq p.action Action.init)) [
        | inl b ↦ rw (a, b) tt
        | inr b ↦
            elim (Bool-cases (
              str_eq p.action Action.start
              || str_eq p.action Action.stop
              || str_eq p.action Action.delete
              || str_eq p.action Action.status)) [
                | inl c ↦ rw (a, b, c) tt
                | inr c ↦ rw (a, b, c) no
              ]
      ]
    ]

run_args-Echoes :
    (p : CmdPayload) (os : Process) (args : List String ⊎ String)
    → Told args
    → Echoes p (run_args p os args).0
run_args-Echoes p os (inl args) h = run_script-Echoes p os
run_args-Echoes p os (inr text) h = failed-Echoes p os text h

execute-Echoes : (busy : Bool) (p : CmdPayload) (os : Process) → Echoes p (execute busy p os).0
unfolding execute
execute-Echoes true p os = failed-Echoes p os "已有任务执行中" refl
execute-Echoes false p os = run_args-Echoes p os (build_args p) (build_args-Told p)

-- Whatever the operating system does, `Execute` reports a success exactly where the lock was free, the
-- action is one of the seven, the script was started, and it exited with 0, or with 2 for `status`;
-- the exit code is the script's, or -1 where it has none; the error text is empty exactly at a
-- success; and the action and the slot are the command's.
pub execute-IsResultOf :
    (busy : Bool) (p : CmdPayload) (os : Process) → IsResultOf busy p os (execute busy p os).0
execute-IsResultOf busy p os =
    let said = execute-Echoes busy p os in
    let (success, code) = execute-success busy p os in
    record {
      action = said.action;
      slot = said.slot;
      success = success;
      exit_code = code;
      silent = said.silent;
    }
