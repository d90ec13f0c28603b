-- ===== src/AgentClient/Identity.antt =====
-- internal/agent_client/identity.go. The file system is not part of the repository: what the code
-- relies on is that a file that was written is read back.

use dst_go_backend.Base.{◌≡◌, String, inl, inr, arith, ap}
use dst_go_backend.Apperr.{ok, other}
use dst_go_backend.Act.{Act, pure, ◌>>=◌, ◌>>◌, throw_if, recode, Result-cases}
use dst_go_backend.Strings.{is_empty, trim_space}
use dst_go_backend.Strings.Trim.{trim_space_idem}

-- `dir` is `filepath.Dir`.
pub record Files : Type 1 where
  pub State : Type 0
  pub dir : String → String
  pub read_file : String → Act State String
  pub mkdir_all : String → Act State (Unit {0})
  pub write_file : String → String → Act State (Unit {0})

pub record FileLaws (files : Files) : Type 0 where
  pub written :
      (path text : String) (s s' : files.State)
      → files.write_file path text s ≡ (ok tt, s')
      → (files.read_file path s').0 ≡ ok text

module _ (files : Files) where
  unfoldable pub load_token : String → Act files.State String
  load_token path = do
    data_read ← recode (other "agent 身份文件读取失败") (files.read_file path)
    throw_if (is_empty (trim_space data_read)) (other "agent token 为空")
    pure (trim_space data_read)

  unfoldable pub save_token : String → String → Act files.State (Unit {0})
  save_token path token = do
    throw_if (is_empty (trim_space token)) (other "agent token 为空")
    recode (other "agent 身份目录创建失败") (files.mkdir_all (files.dir path))
    recode (other "agent 身份文件保存失败") (files.write_file path (trim_space token))

  -- Over files with the law of `FileLaws`, a token that was saved is loaded back, trimmed.
  pub save_token-load_token :
      FileLaws files
      → (path token : String) (s s' : files.State) → save_token path token s ≡ (ok tt, s')
      → (load_token path s').0 ≡ ok (trim_space token)
  unfolding save_token load_token
  save_token-load_token laws path token s s' h =
      let t = (files.mkdir_all (files.dir path) s).1 in
      elim (Result-cases (files.mkdir_all (files.dir path) s).0) [
        | inl (x, f) ↦ absurd (ground (arith, h, f))
        | inr (done, f) ↦ elim (Result-cases (files.write_file path (trim_space token) t).0) [
          | inl (x, g) ↦ absurd (ground (arith, h, f, g))
          | inr (y, g) ↦
              let back =
                laws.written path (trim_space token) t
                  (files.write_file path (trim_space token) t).1
                  (ap (λ q. (q, (files.write_file path (trim_space token) t).1)) g) in
              ground (arith, h, f, g, back, trim_space_idem token)
        ]
      ]
