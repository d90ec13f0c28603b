-- ===== src/Repository/Server.antt =====
-- internal/repository/server/repository.go.
use dst_go_backend.Base.{
  ℕ, ◌-◌, ◌*◌, String, Bool, ◌&&◌, Option, none, some, List, ltb, leb, ◌==◌, ℤ,
}
use dst_go_backend.Apperr.{record_not_found, server_has_dst}
use dst_go_backend.Act.{Act, pure, throw, ◌>>=◌}
use dst_go_backend.Repository.Rows.{find_row, touched_or}
use dst_go_backend.Repository.User.{stamp}
use dst_go_backend.Repository.Database.{Database, Server, Dst}

-- The columns that the service's map of updates sets.
pub record ServerUpdates : Type 0 where
  pub name : String
  pub ip : String
  pub port : ℤ
  pub username : String
  pub password : Option String

abbrev pub or_keep : Option String → String → String
or_keep none old = old
or_keep (some new) old = new

abbrev pub apply_updates : ℕ → ServerUpdates → Server → Server
apply_updates now u s = record s {
  name = u.name;
  ip = u.ip;
  port = u.port;
  username = u.username;
  password = or_keep u.password s.password;
  base = stamp now s.base;
}

abbrev pub is_server_of : ℕ → ℕ → Server → Bool
is_server_of user_id server_id s = s.id == server_id && s.user_id == user_id

abbrev pub is_user_server : ℕ → Server → Bool
is_user_server user_id s = s.user_id == user_id

-- `id DESC`.
abbrev pub newest_server : Server → Server → Bool
newest_server a b = leb b.id a.id

abbrev pub is_dst_on : ℕ → Dst → Bool
is_dst_on server_id d = d.server_id == server_id

module _ (d : Database) where
  unfoldable pub exists_by_id : ℕ → Act d.Db Bool
  exists_by_id server_id = do count ← d.servers.count (λ s. s.id == server_id); pure (ltb 0 count)

  unfoldable pub create : Server → Act d.Db Server
  create server = d.servers.create server

  unfoldable pub get_by_id : ℕ → ℕ → Act d.Db (Option Server)
  get_by_id user_id server_id = find_row d.servers (is_server_of user_id server_id)

  -- Pages count from 1: the service asks for no other.
  unfoldable pub list : ℕ → ℕ → ℕ → Act d.Db (List Server × ℕ)
  list user_id page page_size = do
    total ← d.servers.count (is_user_server user_id)
    servers ←
        d.servers.page (is_user_server user_id) newest_server ((page - 1) * page_size) page_size
    pure (servers, total)

  unfoldable pub update : ℕ → ℕ → ℕ → ServerUpdates → Act d.Db (Unit {0})
  unfolding get_by_id
  update now user_id server_id updates =
      touched_or (d.servers.update (is_server_of user_id server_id) (apply_updates now updates))
        (get_by_id user_id server_id) record_not_found (pure tt)

  unfoldable pub delete : ℕ → ℕ → Act d.Db (Unit {0})
  unfolding get_by_id
  delete user_id server_id =
      touched_or (d.delete_unless (is_server_of user_id server_id) (is_dst_on server_id))
        (get_by_id user_id server_id) record_not_found (throw server_has_dst)
