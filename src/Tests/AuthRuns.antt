-- ===== src/Tests/AuthRuns.antt =====
-- Runs of internal/service/auth/service.go and internal/repository/user/repository.go.
use dst_go_backend.Base.{◌≡◌, refl, false, [], ◌∷◌, arith}
use dst_go_backend.Apperr.{is_ok}
use dst_go_backend.Platform.Jwt.{parse_token, generate_access_token, generate_refresh_token}
use dst_go_backend.Repository.User.{User, update_password, with_password, get_by_id}
use dst_go_backend.Repository.User.Passwords.{update_password_lem, Renews}
use dst_go_backend.Repository.Cache.AuthCache.{
  ResetTokenData, add_token_to_blacklist, is_token_in_blacklist, consume_refresh_token,
  get_reset_token, del_reset_token,
}
use dst_go_backend.Service.World.{World}
use dst_go_backend.Service.Auth.{
  Identity, ResetPasswordReq, authenticate, logout, refresh_token, reset_password, revoke_token,
  exchange, sign_access, sign_refresh,
}
use dst_go_backend.Service.Auth.Session.{authenticate_sound, Admitted}
use dst_go_backend.Service.Auth.Revocation.{logout-authenticate}
use dst_go_backend.Service.Auth.Rotation.{refresh_token-once}
use dst_go_backend.Service.Auth.Reset.{reset_password-authenticate, reset_password-once}
use dst_go_backend.AgentManager.Hub.{new_hub}
use dst_go_backend.Tests.DemoDb.{demo_users-TableLaws}
use dst_go_backend.Tests.Demo.{
  demo_env, demo_redis-TextLaws, demo_jwt-JwtLaws, demo_claims, wilson, world_at,
}

abbrev early : World demo_env
early = world_at 10 []

abbrev who : Identity
who = record { user_id = 7; username = "wilson"; role = "user" }

authenticate_sound_example : Admitted demo_env demo_users-TableLaws who "access" early
unfolding authenticate parse_token is_token_in_blacklist get_by_id
authenticate_sound_example =
    authenticate_sound demo_env demo_users-TableLaws "access" early early who refl

abbrev logged_out : World demo_env
logged_out = record early {
  store = ("token_blacklist:access", "1", 1000) ∷ ("token_blacklist:refresh", "1", 1000) ∷ [];
}

logout-authenticate_example :
    is_ok (authenticate demo_env "access" (record logged_out { now = 20 })).0 ≡ false
unfolding logout revoke_token parse_token add_token_to_blacklist
logout-authenticate_example =
    logout-authenticate demo_env demo_redis-TextLaws demo_jwt-JwtLaws "access" "refresh" early
      logged_out (record logged_out { now = 20 }) demo_claims refl refl (omega arith) refl

abbrev rotated : World demo_env
rotated = record early { store = ("token_blacklist:refresh", "1", 1000) ∷ []; drawn = 2 }

refresh_token-once_example :
    is_ok (refresh_token demo_env "refresh" (record rotated { now = 20 })).0 ≡ false
unfolding refresh_token parse_token get_by_id exchange sign_access generate_access_token
    sign_refresh generate_refresh_token consume_refresh_token
refresh_token-once_example =
    refresh_token-once demo_env demo_redis-TextLaws demo_jwt-JwtLaws "refresh" early rotated
      (record rotated { now = 20 }) ("access", "refresh") refl (omega arith) refl

abbrev request : ResetPasswordReq
request = record { reset_token = "t"; new_password = "y" }

abbrev asked : World demo_env
asked = world_at 10 (("reset_token:t", "data", 1000) ∷ [])

abbrev data_read : ResetTokenData
data_read = record { user_id = 7; token_version = 1 }

abbrev wilson_again : User
wilson_again = with_password 10 "hash:y" wilson

abbrev reset : World demo_env
reset = record {
  store = ("reset_token:t", "", 0) ∷ ("reset_token:t", "data", 1000) ∷ [];
  db = record { users = wilson_again ∷ []; servers = []; dsts = []; tasks = [] };
  sms = tt;
  hub = new_hub;
  told = [];
  now = 10;
  drawn = 1;
}

reset_password-authenticate_example : is_ok (authenticate demo_env "access" reset).0 ≡ false
unfolding reset_password get_reset_token get_by_id update_password del_reset_token parse_token
reset_password-authenticate_example =
    reset_password-authenticate demo_env demo_users-TableLaws request asked reset reset data_read
      "access" demo_claims refl refl refl refl refl refl

abbrev asked_twice : World demo_env
asked_twice = record reset { store = ("reset_token:u", "data", 1000) ∷ [] }

reset_password-once_example :
    is_ok (reset_password demo_env (record request { reset_token = "u" }) asked_twice).0 ≡ false
unfolding reset_password get_reset_token get_by_id update_password del_reset_token
reset_password-once_example =
    reset_password-once demo_env demo_users-TableLaws request (record request { reset_token = "u" })
      asked reset asked_twice data_read refl refl refl refl

-- The rows of `wilson` before and after an update.
abbrev before_update : demo_env.Db
before_update = record { users = wilson ∷ []; servers = []; dsts = []; tasks = [] }

update_password_lem_example :
    let r = update_password demo_env.users 10 7 "hash:y" 1 before_update in
    Renews 10 7 1 "hash:y" (wilson ∷ []) r.1.users r.0
update_password_lem_example =
    update_password_lem demo_env.users demo_users-TableLaws 10 7 1 "hash:y" before_update
