-- ===== src/Repository/Cache/AuthCache/Effects.antt =====
-- What the answered calls of internal/repository/cache/auth_cache.go do to the keys.
use dst_go_backend.Base.{ℕ, ◌+◌, ◌≤◌, ◌<◌, ◌≡◌, ◌≢◌, String, true, false, some, arith, eq_refl}
use dst_go_backend.Apperr.{ok}
use dst_go_backend.Platform.Redis.{Redis, TextLaws, call-eq-ok}
use dst_go_backend.Repository.Cache.AuthCache.{
  add_token_to_blacklist, is_token_in_blacklist, consume_refresh_token, blacklist_key,
}

module _ (r : Redis) (laws : TextLaws r) where
  -- A token that was put on the list is there until its lifetime ends.
  pub add_token_to_blacklist_lem :
      (now u ttl : ℕ) (token : String) (s s' : r.State)
      → add_token_to_blacklist r now token ttl s ≡ (ok tt, s')
      → now ≤ u
      → u < now + ttl
      → r.text_at u (blacklist_key token) s' ≡ some "1"
  unfolding add_token_to_blacklist
  add_token_to_blacklist_lem now u ttl token s s' h later soon =
      let ran = call-eq-ok r _ s s' tt h in
      ground (
        arith,
        ran,
        laws.set_lem now u ttl (blacklist_key token) (blacklist_key token) "1" (r.link s).1,
        eq_refl (blacklist_key token),
      )

  -- The answer for a token whose key is set is true, or an error.
  pub is_token_in_blacklist_lem :
      (now : ℕ) (token v : String) (s : r.State)
      → r.text_at now (blacklist_key token) s ≡ some v
      → (is_token_in_blacklist r now token s).0 ≢ ok false
  unfolding is_token_in_blacklist
  is_token_in_blacklist_lem now token v s held = λ h. ground (
    arith,
    h,
    laws.exists_lem now (blacklist_key token) (r.link s).1,
    laws.link_text s now (blacklist_key token),
  )

  -- A token that was consumed has its key until the lifetime ends.
  pub consume_refresh_token_lem :
      (now u ttl : ℕ) (token : String) (s s' : r.State)
      → consume_refresh_token r now token ttl s ≡ (ok true, s')
      → now ≤ u
      → u < now + ttl
      → r.text_at u (blacklist_key token) s' ≡ some "1"
  unfolding consume_refresh_token
  consume_refresh_token_lem now u ttl token s s' h later soon =
      let key = blacklist_key token in
      let ran = call-eq-ok r (r.setnx now key "1" ttl) s s' true (ground (arith, h)) in
      ground (
        arith,
        ran,
        laws.setnx_lem now u ttl key key "1" (r.link s).1,
        laws.setnx_reply now ttl key "1" (r.link s).1,
        eq_refl key,
      )

  -- It cannot be consumed where its key is set.
  pub consume_refresh_token_used :
      (now ttl : ℕ) (token v : String) (s : r.State)
      → r.text_at now (blacklist_key token) s ≡ some v
      → (consume_refresh_token r now token ttl s).0 ≢ ok true
  unfolding consume_refresh_token
  consume_refresh_token_used now ttl token v s held = λ h.
      let key = blacklist_key token in
      ground (arith, h, laws.setnx_reply now ttl key "1" (r.link s).1, laws.link_text s now key)
