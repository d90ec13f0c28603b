-- ===== src/Platform/Captcha.antt =====
-- internal/platform/captcha: the answers of the picture captchas, kept in Redis. The picture
-- package, which draws an id, a picture and an answer and stores the answer with the function that
-- it is given, is an argument. `max_skew` is a float64, in thousandths.
pub mod Answers
use Prim.Native.String.{◌++◌}
use dst_go_backend.Base.{ℕ, ℤ, String, Bool, not, ◌&&◌, Option, none, some, str_eq, if◌then◌else◌}
use dst_go_backend.Apperr.{Result, ok, err}
use dst_go_backend.Act.{Act, pure, ◌>>=◌}
use dst_go_backend.Strings.{is_empty}
use dst_go_backend.Platform.Redis.{Redis, call}

pub record Config : Type 0 where
  pub expire : ℕ
  pub img_width : ℤ
  pub img_height : ℤ
  pub length : ℤ
  pub max_skew : ℤ
  pub dot_count : ℤ

-- The arguments of `NewDriverDigit`.
pub record DriverDigit : Type 0 where
  pub height : ℤ
  pub width : ℤ
  pub length : ℤ
  pub max_skew : ℤ
  pub dot_count : ℤ

-- `NewCaptcha` keeps the driver and the store's lifetime.
abbrev pub driver_of : Config → DriverDigit
driver_of cfg = record {
  height = cfg.img_height;
  width = cfg.img_width;
  length = cfg.length;
  max_skew = cfg.max_skew;
  dot_count = cfg.dot_count;
}

abbrev pub captcha_key : String → String
captcha_key id = "captcha:" ++ id

abbrev or_blank : Option String → String
or_blank none = ""
or_blank (some v) = v

abbrev blank_on_error : Result String → String
blank_on_error (ok v) = v
blank_on_error (err e) = ""

-- `Generate` of the package, with the driver and the store's `Set`.
abbrev pub Drawer : Redis → Type 0
Drawer r =
    DriverDigit
    → (String → String → Act r.State (Unit {0}))
    → Act r.State (String × String × String)

module _ (r : Redis) (now : ℕ) where
  unfoldable pub store_set : ℕ → String → String → Act r.State (Unit {0})
  store_set expire id value = call r (λ s. (tt, r.set now (captcha_key id) value expire s))

  -- `Generate`; the package answers the id, the picture and the answer.
  unfoldable pub generate : Drawer r → Config → Act r.State (String × String)
  unfolding store_set
  generate drawer cfg = do
    (id, b64s, answer) ← drawer (driver_of cfg) (store_set cfg.expire)
    pure (id, b64s)

  unfoldable pub get_with_context : String → Bool → Act r.State String
  get_with_context id clear = do
    val ←
        (if clear
          then call r (r.getdel now (captcha_key id))
          else call r (λ s. (r.get now (captcha_key id) s, s)))
    pure (or_blank val)

  unfoldable pub store_get : String → Bool → r.State → String × r.State
  unfolding get_with_context
  store_get id clear s = let q = get_with_context id clear s in (blank_on_error q.0, q.1)

  unfoldable pub store_verify : String → String → Bool → r.State → Bool × r.State
  unfolding store_get
  store_verify id answer clear s =
      let q = store_get id clear s in (not (is_empty q.0) && str_eq q.0 answer, q.1)

  unfoldable pub verify : String → String → Bool → Act r.State Bool
  unfolding get_with_context
  verify id answer clear = do
    value ← get_with_context id clear
    pure (not (is_empty value) && str_eq value answer)
