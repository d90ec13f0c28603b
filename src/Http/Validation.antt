-- ===== src/Http/Validation.antt =====
-- The `binding` tags of internal/model/request as gin's validator reads them, and the rule `cnphone`
-- of internal/router/router.go. The handlers of Http are given what is left of a request then. A
-- length of a text counts its code points.
pub mod Limits
use Prim.Native.Char.{code}
use dst_go_backend.Base.{
  ℕ, suc, String, Bool, true, false, not, ◌&&◌, ◌||◌, leb, ◌==◌, ℤ, pos, int_lt, int_gt, List, [],
  ◌∷◌, all, length, is_int, has_text, Option, none, some, if◌then◌else◌,
}
use dst_go_backend.Strings.{is_empty}
use dst_go_backend.Repository.Database.{Slice}
use dst_go_backend.Service.Sms.{SendSmsCodeReq}
use dst_go_backend.Service.Auth.{RegisterReq, LoginReq, ResetPasswordReq}
use dst_go_backend.Http.Users.{LoginBySmsReq, VerifyResetCodeReq}
use dst_go_backend.Service.Server.{CreateServerReq, UpdateServerReq}
use dst_go_backend.Service.Dst.{CreateDstReq, UpdateDstReq}
use dst_go_backend.Service.Task.{ListTaskReq}
use dst_go_backend.Http.Servers.{ListServerReq}
use dst_go_backend.Http.Dsts.{ListDstReq}

-- The validator's rules `ip` and `uuid4`, and the class of `alphanumunicode`.
pub record Rules : Type 0 where
  pub is_ip : String → Bool
  pub is_uuid4 : String → Bool
  pub is_letter_or_digit : ℕ → Bool

-- `utf8.RuneCountInString`.
abbrev pub runes : String → ℕ
runes String.[] = 0
runes (String.◌∷◌ c s) = suc (runes s)

abbrev pub every : (ℕ → Bool) → String → Bool
every p String.[] = true
every p (String.◌∷◌ c s) = p (code c) && every p s

abbrev is_digit : ℕ → Bool
is_digit c = leb b'0' c && leb c b'9'

-- `^1[3-9][0-9]{9}$`.
unfoldable pub is_cnphone : String → Bool
is_cnphone String.[] = false
is_cnphone (String.◌∷◌ c String.[]) = false
is_cnphone (String.◌∷◌ c (String.◌∷◌ d s)) =
    code c == b'1' && (leb b'3' (code d) && leb (code d) b'9') && every is_digit s && runes s == 9

-- `max=n`, and with it `required`.
abbrev at_most : ℕ → String → Bool
at_most n s = leb (runes s) n

abbrev named : ℕ → String → Bool
named n s = not (is_empty s) && at_most n s

-- `required,len=6,number`.
unfoldable pub is_sms_code : String → Bool
is_sms_code s = runes s == 6 && every is_digit s

-- `required,min=8,max=72,printascii`.
unfoldable pub is_password : String → Bool
is_password s = leb 8 (runes s) && at_most 72 s && every (λ c. leb 0x20 c && leb c 0x7e) s

-- `min` and `max` of a number.
abbrev in_range : ℕ → ℕ → ℤ → Bool
in_range low high n = not (int_lt n low) && not (int_gt n high)

abbrev is_page : ℤ → ℤ → Bool
is_page page page_size = in_range 1 1000000 page && in_range 1 100 page_size

-- `max=200,dive,required,number,max=32`.
abbrev is_mod : String → Bool
is_mod s = named 32 s && every is_digit s

unfoldable pub are_mods : Slice → Bool
are_mods none = true
are_mods (some mods) = leb (length mods) 200 && all is_mod mods

-- `omitempty,max=64` behind a pointer.
abbrev opt_at_most : ℕ → Option String → Bool
opt_at_most n none = true
opt_at_most n (some s) = at_most n s

unfoldable pub send_sms_code_req : SendSmsCodeReq → Bool
unfolding is_cnphone
send_sms_code_req r =
    is_cnphone r.phone && not (is_empty r.captcha_id) && not (is_empty r.captcha_code)

unfoldable pub login_req : LoginReq → Bool
unfolding is_cnphone is_password
login_req r =
    is_cnphone r.phone
    && is_password r.password
    && not (is_empty r.captcha_id)
    && not (is_empty r.captcha_code)

unfoldable pub login_by_sms_req : LoginBySmsReq → Bool
unfolding is_cnphone is_sms_code
login_by_sms_req r = is_cnphone r.phone && is_sms_code r.sms_code

unfoldable pub verify_reset_code_req : VerifyResetCodeReq → Bool
unfolding is_cnphone is_sms_code
verify_reset_code_req r = is_cnphone r.phone && is_sms_code r.sms_code

-- `required,min=1` of the numbers, where `required` excludes 0 only.
unfoldable pub create_dst_req : CreateDstReq → Bool
unfolding are_mods
create_dst_req r =
    not (r.server_id == 0)
    && in_range 1 5 r.slot
    && named 64 r.name
    && at_most 255 r.description
    && at_most 64 r.password
    && not (int_lt r.max_players 1)
    && at_most 255 r.cluster_token
    && are_mods r.mods

unfoldable pub update_dst_req : UpdateDstReq → Bool
unfolding are_mods
update_dst_req r =
    named 64 r.name
    && at_most 255 r.description
    && opt_at_most 64 r.password
    && not (int_lt r.max_players 1)
    && at_most 255 r.cluster_token
    && are_mods r.mods

unfoldable pub list_dst_req : ListDstReq → Bool
list_dst_req r = not (r.server_id == 0) && is_page r.page r.page_size

unfoldable pub list_server_req : ListServerReq → Bool
list_server_req r = is_page r.page r.page_size

abbrev statuses : List String
statuses = "pending" ∷ "running" ∷ "succeeded" ∷ "failed" ∷ []

unfoldable pub list_task_req : ListTaskReq → Bool
list_task_req r =
    is_page r.page r.page_size
    && at_most 64 r.kind
    && (is_empty r.status || has_text r.status statuses)
    && at_most 64 r.resource_type

module _ (rules : Rules) where
  -- `required,min=2,max=64,alphanumunicode` of the name.
  unfoldable pub register_req : RegisterReq → Bool
  unfolding is_cnphone is_password is_sms_code
  register_req r =
      leb 2 (runes r.username)
      && at_most 64 r.username
      && every rules.is_letter_or_digit r.username
      && is_password r.password
      && is_cnphone r.phone
      && is_sms_code r.sms_code

  unfoldable pub reset_password_req : ResetPasswordReq → Bool
  unfolding is_password
  reset_password_req r = rules.is_uuid4 r.reset_token && is_password r.new_password

  unfoldable pub create_server_req : CreateServerReq → Bool
  create_server_req r =
      named 64 r.name
      && rules.is_ip r.ip
      && in_range 1 65535 r.port
      && named 64 r.username
      && named 256 r.password

  unfoldable pub update_server_req : UpdateServerReq → Bool
  update_server_req r =
      named 64 r.name
      && rules.is_ip r.ip
      && in_range 1 65535 r.port
      && named 64 r.username
      && at_most 256 r.password

-- What `ShouldBindJSON` and `ShouldBindQuery` leave of a request that was decoded.
abbrev pub bound : {A : Type 0} → (A → Bool) → Option A → Option A
bound valid none = none
bound valid (some req) = if valid req then some req else none
