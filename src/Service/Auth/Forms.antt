-- ===== src/Service/Auth/Forms.antt =====
-- The requests and responses of internal/service/auth/service.go: internal/model/request/auth.go,
-- internal/model/response/auth.go and user.go.
use dst_go_backend.Base.{ℕ, String, Bool, true, false, Option, none, some, ℤ}
use dst_go_backend.Repository.User.{User}

pub record Identity : Type 0 where
  pub user_id : ℕ
  pub username : String
  pub role : String

pub record LoginResp : Type 0 where
  pub access_token : String
  pub user_id : ℕ
  pub username : String
  pub role : String

pub record UserResp : Type 0 where
  pub id : ℕ
  pub username : String
  pub phone : String
  pub email : Option String
  pub role : String
  pub status : ℤ

pub record RegisterReq : Type 0 where
  pub username : String
  pub password : String
  pub phone : String
  pub sms_code : String

pub record LoginReq : Type 0 where
  pub phone : String
  pub password : String
  pub captcha_id : String
  pub captcha_code : String

pub record ResetPasswordReq : Type 0 where
  pub reset_token : String
  pub new_password : String

abbrev pub to_user_resp : User → UserResp
to_user_resp u = record {
  id = u.id;
  username = u.username;
  phone = u.phone;
  email = u.email;
  role = u.role;
  status = u.status;
}

abbrev pub is_present : Option User → Bool
is_present none = false
is_present (some u) = true
