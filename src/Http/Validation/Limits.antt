-- ===== src/Http/Validation/Limits.antt =====
-- What the services can rely on behind the `binding` tags of internal/model/request.

use dst_go_backend.Base.{ℕ, ◌≤◌, ◌≡◌, refl, String, true, false, leb, arith, ◌&&◌}
use dst_go_backend.Strings.{byte_length}
use dst_go_backend.Apperr.{ok}
use dst_go_backend.Platform.Password.{
  Bcrypt, BcryptLaws, new_password_hasher, hash_password, compare_password,
  hash_password-compare_password,
}
use dst_go_backend.Service.Auth.{RegisterReq, ResetPasswordReq}
use dst_go_backend.Service.Server.{is_bad_page}
use dst_go_backend.Http.Servers.{ListServerReq}
use dst_go_backend.Http.Validation.{
  Rules, runes, every, is_password, register_req, reset_password_req, list_server_req,
}

-- In a text of printing ASCII a code point is a byte.
byte_length-ascii :
    (s : String) → every (λ c. leb 0x20 c && leb c 0x7e) s ≡ true → byte_length s ≡ runes s
unfolding byte_length
byte_length-ascii String.[] h = refl
byte_length-ascii (String.◌∷◌ c s) h = ground (arith, h, byte_length-ascii s)

is_password-fits : (p : String) → is_password p ≡ true → byte_length p ≤ 72
unfolding is_password
is_password-fits p h = ground (arith, h, byte_length-ascii p)

-- The password of a registration that was bound is hashed, and logs in with that hash.
register_req-hash_password :
    (b : Bcrypt)
    → BcryptLaws b
    → (rules : Rules) (r : RegisterReq) (draw : ℕ) → register_req rules r ≡ true
    → (hash : String) × (hash_password b (new_password_hasher b) draw r.password ≡ ok hash)
      × (compare_password b (new_password_hasher b) hash r.password ≡ true)
unfolding register_req
register_req-hash_password b laws rules r draw h =
    hash_password-compare_password b (new_password_hasher b) laws draw r.password
      (is_password-fits r.password (ground (arith, h)))

-- A new password is within the 72 bytes that bcrypt takes.
reset_password_req-fits :
    (rules : Rules) (r : ResetPasswordReq)
    → reset_password_req rules r ≡ true
    → byte_length r.new_password ≤ 72
unfolding reset_password_req
reset_password_req-fits rules r h = ground (arith, h, is_password-fits r.new_password)

-- The services refuse no page that was bound.
list_server_req-is_bad_page :
    (r : ListServerReq) → list_server_req r ≡ true → is_bad_page r.page r.page_size ≡ false
unfolding list_server_req
list_server_req-is_bad_page r h = ground (arith, h)
