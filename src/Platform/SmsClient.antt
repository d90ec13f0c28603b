-- ===== src/Platform/SmsClient.antt =====
-- internal/platform/sms: the client of Aliyun's text messages, and the mock. Aliyun's package and the
-- JSON encoder are arguments; `Client`, the interface, is the `Sms` of Service/World.
use dst_go_backend.Base.{
  ℕ, String, Bool, false, not, Option, none, some, str_eq, ◌≡◌, true, arith, inl, inr, Option-cases,
}
use dst_go_backend.Act.{Result-cases}
use dst_go_backend.Apperr.{other, Result, ok, err, or_fail, fail_if, ◌>>=◌, ◌>>◌}

pub record Config : Type 0 where
  pub access_key_id : String
  pub access_key_secret : String
  pub sign_name : String
  pub template_code : String

-- What `NewClient` of Aliyun's package is given.
pub record ApiConfig : Type 0 where
  pub access_key_id : String
  pub access_key_secret : String
  pub endpoint : String
  pub region_id : String

pub record AliyunClient : Type 0 where
  pub sign_name : String
  pub template_code : String

pub record SendSmsRequest : Type 0 where
  pub phone_numbers : String
  pub sign_name : String
  pub template_code : String
  pub template_param : String

pub record RuntimeOptions : Type 0 where
  pub connect_timeout : ℕ
  pub read_timeout : ℕ
  pub autoretry : Bool

-- The body of a response; its fields are pointers.
pub record SendSmsBody : Type 0 where
  pub code : Option String
  pub message : Option String
  pub request_id : Option String
  pub biz_id : Option String

-- `new_client`, and `SendSmsWithOptions`, whose response or whose body may be nil.
pub record Aliyun : Type 0 where
  pub new_client : ApiConfig → Result (Unit {0})
  pub send_sms_with_options : SendSmsRequest → RuntimeOptions → Result (Option SendSmsBody)

abbrev pub string_value : Option String → String
string_value none = ""
string_value (some s) = s

abbrev need_body : Option SendSmsBody → Result SendSmsBody
need_body none = err (other "阿里云短信响应为空")
need_body (some body) = ok body

abbrev request : AliyunClient → String → String → SendSmsRequest
request c phone template_param = record {
  phone_numbers = phone;
  sign_name = c.sign_name;
  template_code = c.template_code;
  template_param = template_param;
}

-- No retry: a message must not be sent twice.
abbrev runtime : RuntimeOptions
runtime = record { connect_timeout = 3000; read_timeout = 5000; autoretry = false }

module _ (api : Aliyun) where
  unfoldable pub new_aliyun_sms_client : Config → Result AliyunClient
  new_aliyun_sms_client cfg = do
    or_fail (other "阿里云短信客户端创建失败") (
        api.new_client (record {
          access_key_id = cfg.access_key_id;
          access_key_secret = cfg.access_key_secret;
          endpoint = "dysmsapi.aliyuncs.com";
          region_id = "cn-hangzhou";
        }))
    ok (record { sign_name = cfg.sign_name; template_code = cfg.template_code })

  -- `marshal` encodes the map from "code" to the code, and `context` is the context's state.
  unfoldable pub send_sms :
      (String → Result String)
      → AliyunClient
      → Result (Unit {0})
      → String
      → String
      → Result (Unit {0})
  send_sms marshal c context phone code = do
    context
    template_param ← or_fail (other "短信模板参数序列化失败") (marshal code)
    response ←
        or_fail (other "阿里云短信接口调用失败")
          (api.send_sms_with_options (request c phone template_param) runtime)
    body ← need_body response
    fail_if (not (str_eq (string_value body.code) "OK")) (other "阿里云短信提交失败")

  -- A message counts as sent only if the call was answered by a body with the code OK.
  send_sms-Accepted :
      (marshal : String → Result String) (c : AliyunClient) (context : Result (Unit {0}))
      (phone code : String)
      → send_sms marshal c context phone code ≡ ok tt
      → (param : String) × (body : SendSmsBody) × (api.send_sms_with_options
            (request c phone param)
            runtime
          ≡ ok (some body))
        × (str_eq (string_value body.code) "OK" ≡ true)
  unfolding send_sms
  send_sms-Accepted marshal c context phone code h = elim (Result-cases (marshal code)) [
    | inl (e, f) ↦ absurd (ground (arith, h, f))
    | inr (param, f) ↦
        elim (Result-cases (api.send_sms_with_options (request c phone param) runtime)) [
          | inl (e, g) ↦ absurd (ground (arith, h, f, g))
          | inr (response, g) ↦ elim (Option-cases response) [
            | inl empty ↦ absurd (ground (arith, h, f, g, empty))
            | inr (body, full) ↦
                (param, body, ground (arith, g, full), ground (arith, h, f, g, full))
          ]
        ]
  ]

-- The mock only writes the log.
abbrev pub send_mock : String → String → Result (Unit {0})
send_mock phone code = ok tt
