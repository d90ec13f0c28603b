-- ===== src/AgentManager/Auth.antt =====
-- internal/agent_manager/auth.go, and `parseBearerToken` of internal/agent_manager/handler.go. The
-- token parser and the server store are the interfaces of the source, as functions.
use dst_go_backend.Base.{ℕ, String, Bool, not, Option, none, some}
use dst_go_backend.Apperr.{biz, other, Result, ok, err, ◌>>=◌, ◌>>◌, fail_if, or_fail}
use dst_go_backend.Strings.{is_empty, trim_space, cut_prefix}

module _ (exists_by_id : ℕ → Result Bool) where
  unfoldable pub check_server : ℕ → Result (Unit {0})
  check_server server = do
    exists ← or_fail (biz 500 "agent 认证服务不可用") (exists_by_id server)
    fail_if (not exists) (biz 401 "agent 对应的服务器不存在")

unfoldable pub authenticate : (String → Result ℕ) → (ℕ → Result Bool) → String → Result ℕ
unfolding check_server
authenticate parse_agent_token exists_by_id token = do
  fail_if (is_empty token) (biz 401 "agent token 为空")
  server ← or_fail (biz 401 "agent token 无效") (parse_agent_token token)
  check_server exists_by_id server
  ok server

abbrev bearer_rest : Option String → Result String
bearer_rest none = err (other "authorization 格式错误")
bearer_rest (some rest) = do
  let token = trim_space rest
  fail_if (is_empty token) (other "agent token 为空")
  ok token

unfoldable pub parse_bearer_token : String → Result String
parse_bearer_token header = do
  let authorization = trim_space header
  fail_if (is_empty authorization) (other "authorization 为空")
  bearer_rest (cut_prefix "Bearer " authorization)
