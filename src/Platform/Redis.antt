-- ===== src/Platform/Redis.antt =====
-- The Redis server and the client package, which are not part of the repository: a record of the
-- commands that the program uses, and their documented behaviour as laws. Instants and lifetimes
-- are in milliseconds, the unit in which Redis keeps them. Each command that reads or changes a key
-- is given the instant at which the server runs it.
use dst_go_backend.Base.{
  ℕ, ◌+◌, ◌≤◌, ◌≡◌, String, Bool, true, false, not, ◌&&◌, Option, none, some, List, [], ◌∷◌, str_eq,
  ltb, if◌then◌else◌, keep, length, arith,
}
use dst_go_backend.Apperr.{other, Result, ok, err}
use dst_go_backend.Act.{Act}

-- What the network makes of a call: it is answered, it does not arrive, or its answer is lost.
pub data Fault : Type 0 where
  fine lost_request lost_reply : Fault

pub record Redis : Type 1 where
  pub State : Type 0
  pub link : State → Fault × State
  -- Views: what a key holds at an instant, if nothing is done to it until then.
  pub text_at : ℕ → String → State → Option String
  pub hash_at : ℕ → String → State → List (String × String)
  pub zset_at : ℕ → String → State → List (ℕ × String)
  pub get : ℕ → String → State → Option String
  pub exists : ℕ → String → State → ℕ
  pub set : ℕ → String → String → ℕ → State → State
  pub setnx : ℕ → String → String → ℕ → State → Bool × State
  pub del : ℕ → String → State → State
  pub getdel : ℕ → String → State → Option String × State
  pub hset : ℕ → String → List (String × String) → State → State
  pub hget : ℕ → String → String → State → Option String
  pub hincrby : ℕ → String → String → ℕ → State → ℕ × State
  pub pexpire : ℕ → String → ℕ → State → State
  pub pexpireat : ℕ → String → ℕ → State → State
  pub zremrangebyscore : ℕ → String → (ℕ → Bool) → State → State
  pub zcard : ℕ → String → State → ℕ
  pub zadd : ℕ → String → ℕ → String → State → State
  pub zrem : ℕ → String → String → State → State

-- A call through the client: the answer, or an error, and what the server did.
module _ (r : Redis) {A : Type 0} where
  abbrev linked : Fault × r.State → (r.State → A × r.State) → Result A × r.State
  linked (fine, s) command = let q = command s in (ok q.0, q.1)
  linked (lost_request, s) command = (err (other "redis"), s)
  linked (lost_reply, s) command = (err (other "redis"), (command s).1)

  abbrev pub call : (r.State → A × r.State) → Act r.State A
  call command s = linked (r.link s) command

-- A call that is answered ran on the server, behind the state of the link.
module _ (r : Redis) {A : Type 0} where
  pub call-eq-ok :
      (command : r.State → A × r.State) (s s' : r.State) (a : A)
      → call r command s ≡ (ok a, s')
      → command (r.link s).1 ≡ (a, s')
  call-eq-ok command s s' a h = answered (r.link s) h
    where
      answered : (l : Fault × r.State) → linked r l command ≡ (ok a, s') → command l.1 ≡ (a, s')
      answered (fine, t) q = ground (arith, q)
      answered (lost_request, t) q = ground (arith, q)
      answered (lost_reply, t) q = ground (arith, q)

abbrev pub is_some {ℓ} : {A : Type ℓ} → Option A → Bool
is_some none = false
is_some (some a) = true

-- The commands on plain values, SET and SETNX with a lifetime.
pub record TextLaws (r : Redis) : Type 0 where
  pub link_text : (s : r.State) (t : ℕ) (j : String) → r.text_at t j (r.link s).1 ≡ r.text_at t j s
  pub get_lem : (t : ℕ) (k : String) (s : r.State) → r.get t k s ≡ r.text_at t k s
  pub exists_lem :
      (t : ℕ) (k : String) (s : r.State)
      → r.exists t k s ≡ (if is_some (r.text_at t k s) then 1 else 0)
  pub set_lem :
      (t u ttl : ℕ) (k j v : String) (s : r.State)
      → t ≤ u
      → r.text_at u j (r.set t k v ttl s)
        ≡ (if str_eq k j then (if ltb u (t + ttl) then some v else none) else r.text_at u j s)
  pub setnx_reply :
      (t ttl : ℕ) (k v : String) (s : r.State)
      → (r.setnx t k v ttl s).0 ≡ not (is_some (r.text_at t k s))
  pub setnx_lem :
      (t u ttl : ℕ) (k j v : String) (s : r.State)
      → t ≤ u
      → r.text_at u j (r.setnx t k v ttl s).1 ≡ (
          if str_eq k j && not (is_some (r.text_at t k s))
          then (if ltb u (t + ttl) then some v else none)
          else r.text_at u j s)
  pub del_lem :
      (t u : ℕ) (k j : String) (s : r.State)
      → t ≤ u
      → r.text_at u j (r.del t k s) ≡ (if str_eq k j then none else r.text_at u j s)
  pub getdel_reply : (t : ℕ) (k : String) (s : r.State) → (r.getdel t k s).0 ≡ r.text_at t k s
  pub getdel_lem :
      (t u : ℕ) (k j : String) (s : r.State)
      → t ≤ u
      → r.text_at u j (r.getdel t k s).1 ≡ (if str_eq k j then none else r.text_at u j s)

-- HGET of a field in the fields of a hash, and HSET of one field.
abbrev pub field : String → List (String × String) → Option String
field f [] = none
field f ((g, v) ∷ fs) = if str_eq g f then some v else field f fs

abbrev pub put_field : String → String → List (String × String) → List (String × String)
put_field f v [] = (f, v) ∷ []
put_field f v ((g, w) ∷ fs) = if str_eq g f then (f, v) ∷ fs else (g, w) ∷ put_field f v fs

abbrev pub put_fields : List (String × String) → List (String × String) → List (String × String)
put_fields [] fs = fs
put_fields ((f, v) ∷ more) fs = put_fields more (put_field f v fs)

-- The commands on hashes. A key with no field does not exist.
pub record HashLaws (r : Redis) : Type 0 where
  pub link_hash : (s : r.State) (t : ℕ) (j : String) → r.hash_at t j (r.link s).1 ≡ r.hash_at t j s
  pub hget_lem : (t : ℕ) (k f : String) (s : r.State) → r.hget t k f s ≡ field f (r.hash_at t k s)
  pub hset_lem :
      (t : ℕ) (k : String) (fs : List (String × String)) (s : r.State)
      → r.hash_at t k (r.hset t k fs s) ≡ put_fields fs (r.hash_at t k s)
  pub pexpire_hash :
      (t u ms : ℕ) (k j : String) (s : r.State)
      → t ≤ u
      → r.hash_at u j (r.pexpire t k ms s)
        ≡ (if str_eq k j then (if ltb u (t + ms) then r.hash_at t k s else []) else r.hash_at u j s)
  pub hset_frame :
      (t u : ℕ) (k j : String) (fs : List (String × String)) (s : r.State)
      → str_eq k j ≡ false
      → r.hash_at u j (r.hset t k fs s) ≡ r.hash_at u j s
  pub del_hash :
      (t u : ℕ) (k j : String) (s : r.State)
      → t ≤ u
      → r.hash_at u j (r.del t k s) ≡ (if str_eq k j then [] else r.hash_at u j s)

-- ZADD of a member that the sorted set may hold already, and ZREM.
abbrev pub drop_member : String → List (ℕ × String) → List (ℕ × String)
drop_member m = keep (λ e. not (str_eq e.1 m))

-- The commands on sorted sets, whose order the program does not use. ZREMRANGEBYSCORE is given the
-- test for the scores to remove.
pub record WindowLaws (r : Redis) : Type 0 where
  pub link_zset : (s : r.State) (t : ℕ) (j : String) → r.zset_at t j (r.link s).1 ≡ r.zset_at t j s
  pub zcard_lem : (t : ℕ) (k : String) (s : r.State) → r.zcard t k s ≡ length (r.zset_at t k s)
  pub zremrangebyscore_lem :
      (t u : ℕ) (k j : String) (old : ℕ → Bool) (s : r.State)
      → t ≤ u
      → r.zset_at u j (r.zremrangebyscore t k old s)
        ≡ (if str_eq k j then keep (λ e. not (old e.0)) (r.zset_at u k s) else r.zset_at u j s)
  pub zadd_lem :
      (t score : ℕ) (k j m : String) (s : r.State)
      → r.zset_at t j (r.zadd t k score m s)
        ≡ (if str_eq k j then (score, m) ∷ drop_member m (r.zset_at t k s) else r.zset_at t j s)
  pub pexpire_zset :
      (t u ms : ℕ) (k j : String) (s : r.State)
      → t ≤ u
      → r.zset_at u j (r.pexpire t k ms s)
        ≡ (if str_eq k j then (if ltb u (t + ms) then r.zset_at t k s else []) else r.zset_at u j s)
  pub pexpireat_zset :
      (t u at : ℕ) (k j : String) (s : r.State)
      → t ≤ u
      → r.zset_at u j (r.pexpireat t k at s)
        ≡ (if str_eq k j then (if ltb u at then r.zset_at t k s else []) else r.zset_at u j s)
  pub zrem_lem :
      (t u : ℕ) (k j m : String) (s : r.State)
      → t ≤ u
      → r.zset_at u j (r.zrem t k m s)
        ≡ (if str_eq k j then drop_member m (r.zset_at u k s) else r.zset_at u j s)
