-- ===== src/Repository/Task.antt =====
-- internal/repository/task/repository.go.
use dst_go_backend.Base.{ℕ, ◌-◌, ◌*◌, String, Bool, ◌&&◌, ◌||◌, Option, List, leb, ◌==◌, str_eq}
use dst_go_backend.Act.{Act, pure, ◌>>=◌}
use dst_go_backend.Strings.{is_empty}
use dst_go_backend.Repository.Rows.{find_row}
use dst_go_backend.Repository.Database.{Database, Task}

pub record ListQuery : Type 0 where
  pub page : ℕ
  pub page_size : ℕ
  pub kind : String
  pub status : String
  pub resource_type : String
  pub resource_id : ℕ

abbrev pub is_task_of : ℕ → ℕ → Task → Bool
is_task_of user_id task_id t = t.id == task_id && t.user_id == user_id

-- The conditions that the query adds: none for a field that is empty.
abbrev pub is_asked : ℕ → ListQuery → Task → Bool
is_asked user_id q t =
    t.user_id == user_id
    && (is_empty q.kind || str_eq t.kind q.kind)
    && (is_empty q.status || str_eq t.status q.status)
    && (is_empty q.resource_type || str_eq t.resource_type q.resource_type)
    && (q.resource_id == 0 || t.resource_id == q.resource_id)

-- `id DESC`.
abbrev pub newest_task : Task → Task → Bool
newest_task a b = leb b.id a.id

module _ (d : Database) where
  unfoldable pub create : Task → Act d.Db Task
  create task = d.tasks.create task

  unfoldable pub get_by_id : ℕ → ℕ → Act d.Db (Option Task)
  get_by_id user_id task_id = find_row d.tasks (is_task_of user_id task_id)

  -- Pages count from 1: the service asks for no other.
  unfoldable pub list : ℕ → ListQuery → Act d.Db (List Task × ℕ)
  list user_id q = do
    total ← d.tasks.count (is_asked user_id q)
    tasks ← d.tasks.page (is_asked user_id q) newest_task ((q.page - 1) * q.page_size) q.page_size
    pure (tasks, total)
