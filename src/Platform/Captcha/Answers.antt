-- ===== src/Platform/Captcha/Answers.antt =====
-- internal/platform/captcha: what a picture's answer is good for, over a Redis with its laws.
use dst_go_backend.Base.{
  ℕ, ◌+◌, ◌≤◌, ◌<◌, ◌≡◌, sym, ◌∙◌, String, Bool, true, false, not, ◌&&◌, none, some, str_eq,
  eq_refl, arith,
}
use dst_go_backend.Apperr.{ok}
use dst_go_backend.Act.{Act, pure, ◌>>=◌, continue-eq-ok}
use dst_go_backend.Strings.{is_empty}
use dst_go_backend.Platform.Redis.{Redis, TextLaws, call, call-eq-ok}
use dst_go_backend.Platform.Captcha.{
  Config, DriverDigit, Drawer, driver_of, captcha_key, or_blank, store_set, generate,
  get_with_context, verify,
}

-- The picture package: an id, a picture and an answer, which it stores before it returns.
pub record DrawerLaws (r : Redis) (drawer : Drawer r) : Type 0 where
  pub id : DriverDigit → String
  pub b64s : DriverDigit → String
  pub answer : DriverDigit → String
  pub drawn :
      (d : DriverDigit) (set : String → String → Act r.State (Unit {0})) (s : r.State)
      → drawer d set s ≡ (set (id d) (answer d) >>= λ stored. pure (id d, b64s d, answer d)) s

module _ (r : Redis) (laws : TextLaws r) where
  -- What a read that was answered found, and left.
  get_with_context_lem :
      (t : ℕ) (id : String) (s s' : r.State) (v : String)
      → get_with_context r t id true s ≡ (ok v, s')
      → (v ≡ or_blank (r.text_at t (captcha_key id) s))
        × ((u : ℕ) → t ≤ u → r.text_at u (captcha_key id) s' ≡ none)
  unfolding get_with_context
  get_with_context_lem t id s s' v h =
      let key = captcha_key id in
      let (val, x, called, ended) = continue-eq-ok (call r (r.getdel t key) s) _ h in
      let done = call-eq-ok r (r.getdel t key) s x val called in
      let l = (r.link s).1 in
      (
        ground (arith, ended, done, laws.getdel_reply t key l, laws.link_text s t key),
        λ u late. ground (arith, ended, done, laws.getdel_lem t u key key l late, eq_refl key),
      )

  abbrev held : ℕ → String → r.State → String
  held t id s = or_blank (r.text_at t (captcha_key id) s)

  verify-eq-ok :
      (t : ℕ) (id given : String) (s s' : r.State) (b : Bool)
      → verify r t id given true s ≡ (ok b, s')
      → (b ≡ (not (is_empty (held t id s)) && str_eq (held t id s) given))
        × ((u : ℕ) → t ≤ u → r.text_at u (captcha_key id) s' ≡ none)
  unfolding verify
  verify-eq-ok t id given s s' b h =
      let (v, x, asked, ended) = continue-eq-ok (get_with_context r t id true s) _ h in
      let (found, taken) = get_with_context_lem t id s x v asked in
      (ground (arith, ended, found), λ u late. ground (arith, ended, taken u late))

  -- Of two answers to one picture the second one is never right, not even the right one: the first
  -- one took it away.
  verify-once :
      (t u : ℕ) (id first second : String) (b c : Bool) (s s' s'' : r.State)
      → t ≤ u
      → verify r t id first true s ≡ (ok b, s')
      → verify r u id second true s' ≡ (ok c, s'')
      → c ≡ false
  verify-once t u id first second b c s s' s'' late h k =
      let gone = (verify-eq-ok t id first s s' b h).1 u late in
      let right = (verify-eq-ok u id second s' s'' c k).0 in rw gone at right

  module _ (drawer : Drawer r) (picture : DrawerLaws r drawer) (cfg : Config) where
    -- The answer to a picture that was generated is right until the picture's time is over, and it
    -- alone is.
    generate-verify :
        (t u : ℕ) (given b64s id : String) (b : Bool) (s s' s'' : r.State)
        → t ≤ u
        → u < t + cfg.expire
        → is_empty (picture.answer (driver_of cfg)) ≡ false
        → generate r t drawer cfg s ≡ (ok (id, b64s), s')
        → verify r u id given true s' ≡ (ok b, s'')
        → b ≡ str_eq (picture.answer (driver_of cfg)) given
    unfolding generate
    generate-verify t u given b64s id b s s' s'' late alive full h k =
        let d = driver_of cfg in
        let set = store_set r t cfg.expire in
        let key = captcha_key (picture.id d) in
        let store : r.State → Unit {0} × r.State =
          λ x. (tt, r.set t key (picture.answer d) cfg.expire x) in
        let (drew, x, made, ended) = continue-eq-ok (drawer d set s) _ h in
        let (done, y, stored, kept) =
          continue-eq-ok (set (picture.id d) (picture.answer d) s) _
            (sym (picture.drawn d set s) ∙ made) in
        let ran = call-eq-ok r store s y done stored in
        let right = (verify-eq-ok u id given s' s'' b k).0 in
        let named : id ≡ picture.id d = ground (arith, ended, kept) in
        let kept_text = laws.set_lem t u cfg.expire key key (picture.answer d) (r.link s).1 late in
        let found : r.text_at u (captcha_key id) s' ≡ some (picture.answer d) =
          ground (arith, named, ended, kept, ran, kept_text, alive, eq_refl key) in
        ground (arith, rw found at right, full)
