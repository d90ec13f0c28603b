-- ===== src/Tests/SmsRuns.antt =====
-- Runs of internal/repository/cache/sms_cache.go on a Redis of hashes.
use dst_go_backend.Base.{
  ℕ, ◌+◌, ◌≢◌, refl, true, false, String, none, List, [], ◌∷◌, arith, if◌then◌else◌, ltb, str_eq,
  eq_refl,
}
use dst_go_backend.Apperr.{ok}
use dst_go_backend.Platform.Redis.{Redis, fine, HashLaws, field, put_fields}
use dst_go_backend.Repository.Cache.SmsCache.{consume_code}
use dst_go_backend.Repository.Cache.SmsCache.Attempts.{consume_code-once}

-- What each key holds at each instant, if nothing is done to it until then.
abbrev Hashes : Type 0
Hashes = ℕ → String → List (String × String)

abbrev hold : String → (ℕ → List (String × String)) → Hashes → Hashes
hold k held s u j = if str_eq k j then held u else s u j

abbrev pub hash_redis : Redis
hash_redis = record {
  State = Hashes;
  link = λ s. (fine, s);
  text_at = λ t k s. none;
  hash_at = λ t k s. s t k;
  zset_at = λ t k s. [];
  get = λ t k s. none;
  exists = λ t k s. 0;
  set = λ t k v ttl s. s;
  setnx = λ t k v ttl s. (false, s);
  del = λ t k s. hold k (λ u. []) s;
  getdel = λ t k s. (none, s);
  hset = λ t k fs s. hold k (λ u. put_fields fs (s t k)) s;
  hget = λ t k f s. field f (s t k);
  hincrby = λ t k f by s. (by, s);
  pexpire = λ t k ms s. hold k (λ u. if ltb u (t + ms) then s t k else []) s;
  pexpireat = λ t k at s. s;
  zremrangebyscore = λ t k old s. s;
  zcard = λ t k s. 0;
  zadd = λ t k score m s. s;
  zrem = λ t k m s. s;
}

hash_redis-HashLaws : HashLaws hash_redis
hash_redis-HashLaws = record {
  link_hash = λ s t j. refl;
  hget_lem = λ t k f s. refl;
  hset_lem = λ t k fs s. ground (arith, eq_refl k);
  pexpire_hash = λ t u ms k j s h. refl;
  hset_frame = λ t u k j fs s h. ground arith;
  del_hash = λ t u k j s h. refl;
}

-- The code of one phone number, which lives until 300000.
abbrev code_sent : Hashes
code_sent u k =
    if str_eq k "sms_code:1"
    then (if ltb u 300000 then ("code", "123456") ∷ ("attempts", "0") ∷ [] else [])
    else []

abbrev code_used : Hashes
code_used = hold "sms_code:1" (λ u. []) code_sent

consume_code-once_example : (consume_code hash_redis 20 "1" "123456" code_used).0 ≢ ok true
unfolding consume_code
consume_code-once_example =
    consume_code-once hash_redis hash_redis-HashLaws 10 20 "1" "123456" "123456" code_sent code_used
      code_used refl (omega arith) refl
