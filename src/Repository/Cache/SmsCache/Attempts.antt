-- ===== src/Repository/Cache/SmsCache/Attempts.antt =====
-- `ConsumeCode` of internal/repository/cache/sms_cache.go: a code is good once, and for three wrong
-- attempts at most.
use dst_go_backend.Base.{
  ℕ, zero, suc, ◌≤◌, ◌≡◌, ◌≢◌, ◌∙◌, ap, Bool, true, String, [], arith, inl, inr, Bool-cases,
  Option-cases, str_eq, eq_refl, ℤ, pos, negsuc,
}
use dst_go_backend.Apperr.{Result, ok}
use dst_go_backend.Act.{Result-cases}
use dst_go_backend.Platform.Redis.{Redis, HashLaws, call, call-eq-ok}
use dst_go_backend.Repository.Cache.SmsCache.{consume_code, consume_code_lua, code_key, read_result}

module _ (r : Redis) (laws : HashLaws r) where
  -- A script that answers 1 has removed the code.
  consumed-gone :
      (t u : ℕ) (key given : String) (s s' : r.State)
      → consume_code_lua r t key given s ≡ (pos 1, s')
      → t ≤ u
      → r.hash_at u key s' ≡ []
  unfolding consume_code_lua
  consumed-gone t u key given s s' h later = elim (Option-cases (r.hget t key "code" s)) [
    | inl e ↦ absurd (ground (arith, h, e))
    | inr (cached, e) ↦ elim (Bool-cases (str_eq cached given)) [
      | inl same ↦ ground (arith, h, e, laws.del_hash t u key key s later, eq_refl key)
      | inr wrong ↦ absurd (ground (arith, h, e, wrong))
    ]
  ]

  gone-refused :
      (t : ℕ) (key given : String) (s : r.State)
      → r.hash_at t key s ≡ []
      → consume_code_lua r t key given s ≡ (pos 0, s)
  unfolding consume_code_lua
  gone-refused t key given s h = ground (arith, h, laws.hget_lem t key "code" s)

  read_result-true :
      (t : ℕ) (z : ℤ) (s s' : r.State)
      → read_result r t z s ≡ (ok true, s')
      → (z ≡ pos 1) × (s ≡ s')
  read_result-true t (pos n) s s' h = ground (arith, h)
  read_result-true t (negsuc zero) s s' h = absurd (ground (arith, h))
  read_result-true t (negsuc (suc n)) s s' h = absurd (ground (arith, h))

  -- An accepted code came from the script's answer 1.
  accepted-script :
      (t : ℕ) (phone code : String) (s s' : r.State)
      → consume_code r t phone code s ≡ (ok true, s')
      → consume_code_lua r t (code_key phone) code (r.link s).1 ≡ (pos 1, s')
  unfolding consume_code
  accepted-script t phone code s s' h =
      let c = call r (consume_code_lua r t (code_key phone) code) s in
      elim (Result-cases c.0) [
        | inl (x, e) ↦ absurd (ground (arith, h, e))
        | inr (z, e) ↦
            let (one, same) = read_result-true t z c.1 s' (ground (arith, h, e)) in
            call-eq-ok r (consume_code_lua r t (code_key phone) code) s s' (pos 1)
              (ground (arith, e, one, same))
      ]

  -- With the laws of `HashLaws`: after a code was accepted for a phone number, no code is accepted
  -- for it at any later time, unless something else has touched its key in between.
  pub consume_code-once :
      (t u : ℕ) (phone code again : String) (s s' v : r.State)
      → consume_code r t phone code s ≡ (ok true, s')
      → t ≤ u
      → r.hash_at u (code_key phone) v ≡ r.hash_at u (code_key phone) s'
      → (consume_code r u phone again v).0 ≢ ok true
  consume_code-once t u phone code again s s' v h later kept accepted =
      let key = code_key phone in
      let w = (consume_code r u phone again v).1 in
      let gone : r.hash_at u key (r.link v).1 ≡ [] =
        laws.link_hash v u key
        ∙ kept
        ∙ consumed-gone t u key code (r.link s).1 s' (accepted-script t phone code s s' h) later in
      let ran = accepted-script u phone again v w (ap (λ (q : Result Bool). (q, w)) accepted) in
      ground (arith, ran, gone-refused u key again (r.link v).1 gone)
