-- ===== src/Tests/Demo.antt =====
-- Concrete third-party parts, with the laws that the theorems ask of them: a Redis of plain values,
-- a table of users, a JWT package that accepts two tokens until instant 1000.
use Prim.Native.String.{◌++◌ as join}
use dst_go_backend.Base.{
  ℕ, ◌+◌, ◌<◌, ◌≡◌, refl, String, Bool, true, false, ◌&&◌, ◌||◌, Option, none, some, List, [], ◌∷◌,
  arith, if◌then◌else◌, ltb, str_eq, pos, format_uint, Bool-cases, inl, inr,
}
use dst_go_backend.Apperr.{other, ok, err}
use dst_go_backend.Act.{pure, ◌>>◌}
use dst_go_backend.Platform.Redis.{Redis, fine, TextLaws, is_some}
use dst_go_backend.Platform.Jwt.{JwtLib, JwtLaws, CustomClaims, Config}
use dst_go_backend.Repository.User.{User}
use dst_go_backend.Repository.Cache.AuthCache.{ResetCodec}
use dst_go_backend.AgentManager.Hub.{new_hub}
use dst_go_backend.Tests.DemoDb.{demo_db}
use dst_go_backend.Service.World.{Env, World}

-- The entries of a store, the latest first: key, value, end of life.
abbrev pub Store : Type 0
Store = List (String × String × ℕ)

abbrev pub text_at : ℕ → String → Store → Option String
text_at u j [] = none
text_at u j ((k, v, end) ∷ s) =
    let rest = text_at u j s in if str_eq k j then (if ltb u end then some v else none) else rest

abbrev put : ℕ → String → String → ℕ → Store → Store
put t k v ttl s = (k, v, t + ttl) ∷ s

abbrev drop_key : ℕ → String → Store → Store
drop_key t k s = (k, "", 0) ∷ s

abbrev put_new : ℕ → String → String → ℕ → Store → Bool × Store
put_new t k v ttl s = if is_some (text_at t k s) then (false, s) else (true, put t k v ttl s)

abbrev pub demo_redis : Redis
demo_redis = record {
  State = Store;
  link = λ s. (fine, s);
  text_at = text_at;
  hash_at = λ t k s. [];
  zset_at = λ t k s. [];
  get = text_at;
  exists = λ t k s. if is_some (text_at t k s) then 1 else 0;
  set = put;
  setnx = put_new;
  del = drop_key;
  getdel = λ t k s. (text_at t k s, drop_key t k s);
  hset = λ t k fs s. s;
  hget = λ t k f s. none;
  hincrby = λ t k f by s. (by, s);
  pexpire = λ t k ms s. s;
  pexpireat = λ t k at s. s;
  zremrangebyscore = λ t k old s. s;
  zcard = λ t k s. 0;
  zadd = λ t k score m s. s;
  zrem = λ t k m s. s;
}

pub demo_redis-TextLaws : TextLaws demo_redis
demo_redis-TextLaws = record {
  link_text = λ s t j. refl;
  get_lem = λ t k s. refl;
  exists_lem = λ t k s. refl;
  set_lem = λ t u ttl k j v s h. refl;
  setnx_reply = λ t ttl k v s. ground arith;
  setnx_lem = λ t u ttl k j v s h. ground arith;
  del_lem = λ t u k j s h. ground arith;
  getdel_reply = λ t k s. refl;
  getdel_lem = λ t u k j s h. ground arith;
}

abbrev pub demo_claims : CustomClaims
demo_claims = record {
  user_id = 7;
  username = "wilson";
  role = "user";
  token_version = 1;
  registered = record {
    jti = "j";
    subject = "";
    issuer = "panel";
    issued_at = some 0;
    not_before = some 0;
    expires_at = some 1000;
  };
}

abbrev accepted : ℕ → String → String → Bool
accepted t secret token =
    ltb t 1000
    && ((str_eq token "access" && str_eq secret "a")
        || (str_eq token "refresh" && str_eq secret "r"))

abbrev pub demo_jwt : JwtLib
demo_jwt = record {
  sign_custom = λ secret c. ok (if str_eq secret "r" then "refresh" else "access");
  sign_registered = λ secret c. ok "agent";
  parse_custom = λ t secret issuer token.
      if accepted t secret token then ok (demo_claims, true) else err (other "token");
  parse_registered = λ t secret issuer token. ok (demo_claims.registered, false);
}

accepted-parse :
    (t : ℕ) (secret issuer token : String) (c : CustomClaims)
    → demo_jwt.parse_custom t secret issuer token ≡ ok (c, true)
    → (demo_claims ≡ c) × (t < 1000)
accepted-parse t secret issuer token c h = elim (Bool-cases (accepted t secret token)) [
  | inl yes_it ↦ ground (arith, h)
  | inr no_it ↦ absurd (ground (arith, h))
]

pub demo_jwt-JwtLaws : JwtLaws demo_jwt
demo_jwt-JwtLaws = record {
  expires = λ t secret issuer token c h. (
    1000,
    ground (arith, accepted-parse t secret issuer token c h),
    ground (arith, accepted-parse t secret issuer token c h),
  );
  one_claims = λ t u secret secret' issuer token c d h k.
      ground (
        arith,
        accepted-parse t secret issuer token c h,
        accepted-parse u secret' issuer token d k,
      );
}

abbrev pub demo_config : Config
demo_config = record {
  access_secret = "a";
  access_expire = 900;
  refresh_secret = "r";
  refresh_expire = 990;
  agent_secret = "g";
  issuer = "panel";
}

abbrev pub demo_codec : ResetCodec
demo_codec = record {
  marshal = λ d. some "data";
  unmarshal = λ text. some (record { user_id = 7; token_version = 1 });
}

abbrev pub demo_env : Env
demo_env = record {
  redis = demo_redis;
  database = demo_db;
  jwt = demo_jwt;
  jwt_config = demo_config;
  reset_codec = demo_codec;
  hash_password = λ n p. ok (join "hash:" p);
  compare_password = λ hash p. str_eq hash (join "hash:" p);
  uuid = format_uint;
  encrypt = λ n p. ok (join "aes:" p);
  parse_addr = λ ip. some ip;
  rand_below = λ n bound. ok n;
  draw_captcha = λ n driver set. do
    set (format_uint n) "1234"
    pure (format_uint n, "img", "1234");
  captcha_config = record {
    expire = 300_000;
    img_width = pos 240;
    img_height = pos 80;
    length = pos 4;
    max_skew = pos 700;
    dot_count = pos 80;
  };
  Sms = Unit;
  send_sms = λ phone code s. (ok tt, s);
}

abbrev pub wilson : User
wilson = record {
  base = record { id = 7; created_at = 0; updated_at = 0 };
  username = "wilson";
  password = "hash:x";
  phone = "1";
  email = none;
  role = "user";
  status = pos 1;
  token_version = 1;
}

abbrev pub world_at : ℕ → Store → World demo_env
world_at now store = record {
  store = store;
  db = record { users = wilson ∷ []; servers = []; dsts = []; tasks = [] };
  sms = tt;
  hub = new_hub;
  told = [];
  now = now;
  drawn = 0;
}
