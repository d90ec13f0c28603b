-- ===== src/Http/Router.antt =====
-- internal/router/router.go and v1.go: which middleware each route runs behind. The websocket of
-- the agents, which is behind no rate limit, is AgentManager/Handler.
use dst_go_backend.Base.{String, Option, List}
use dst_go_backend.Http.{Handler}
use dst_go_backend.Http.Users
use dst_go_backend.Http.Users.{LoginBySmsReq, VerifyResetCodeReq, Config}
use dst_go_backend.Http.Servers
use dst_go_backend.Http.Servers.{ListServerReq}
use dst_go_backend.Http.Dsts
use dst_go_backend.Http.Dsts.{ListDstReq}
use dst_go_backend.Http.Tasks
use dst_go_backend.Service.Server.{CreateServerReq, UpdateServerReq}
use dst_go_backend.Service.Dst.{CreateDstReq, UpdateDstReq}
use dst_go_backend.Service.Task.{ListTaskReq}
use dst_go_backend.Http.Middleware.{auth, cors, rate_limit, trace}
use dst_go_backend.Service.World.{Env}
use dst_go_backend.Service.Sms.{SendSmsCodeReq}
use dst_go_backend.Service.Auth.{RegisterReq, LoginReq, ResetPasswordReq}

pub data Public : Type 0 where
  captcha : Public
  sms_code : Option SendSmsCodeReq → Public
  register : Option RegisterReq → Public
  login : Option LoginReq → Public
  login_by_sms : Option LoginBySmsReq → Public
  refresh logout : Public
  verify_reset_code : Option VerifyResetCodeReq → Public
  reset_password : Option ResetPasswordReq → Public

-- The routes behind `Auth`, each with what binding makes of the body or the query.
pub data Protected : Type 0 where
  profile : Protected
  create_server : Option CreateServerReq → Protected
  list_servers : Option ListServerReq → Protected
  get_server : Protected
  update_server : Option UpdateServerReq → Protected
  delete_server : Protected
  create_dst : Option CreateDstReq → Protected
  list_dsts : Option ListDstReq → Protected
  get_dst : Protected
  update_dst : Option UpdateDstReq → Protected
  delete_dst : Protected
  list_tasks : Option ListTaskReq → Protected
  get_task : Protected

pub data Route : Type 0 where
  public : Public → Route
  protected : Protected → Route

module _ (e : Env) (config : Config) where
  unfoldable pub public_handler : Public → Handler e
  public_handler captcha = Users.get_captcha e config
  public_handler (sms_code bound) = Users.send_sms_code e config bound
  public_handler (register bound) = Users.register e config bound
  public_handler (login bound) = Users.login e config bound
  public_handler (login_by_sms bound) = Users.login_by_sms e config bound
  public_handler refresh = Users.refresh_token e config
  public_handler logout = Users.logout e config
  public_handler (verify_reset_code bound) = Users.verify_reset_code e config bound
  public_handler (reset_password bound) = Users.reset_password e config bound

  unfoldable pub protected_handler : Protected → Handler e
  protected_handler profile = Users.get_profile e config
  protected_handler (create_server bound) = Servers.create e bound
  protected_handler (list_servers bound) = Servers.list e bound
  protected_handler get_server = Servers.get_by_id e
  protected_handler (update_server bound) = Servers.update e bound
  protected_handler delete_server = Servers.delete e
  protected_handler (create_dst bound) = Dsts.create e bound
  protected_handler (list_dsts bound) = Dsts.list e bound
  protected_handler get_dst = Dsts.get_by_id e
  protected_handler (update_dst bound) = Dsts.update e bound
  protected_handler delete_dst = Dsts.delete e
  protected_handler (list_tasks bound) = Tasks.list e bound
  protected_handler get_task = Tasks.get_by_id e

  unfoldable pub route_handler : Route → Handler e
  unfolding public_handler protected_handler auth
  route_handler (public p) = public_handler p
  route_handler (protected p) = auth e (protected_handler p)

  -- `InitRouter`: a hundred requests a second.
  unfoldable pub respond_to : List String → Route → Handler e
  unfolding route_handler trace cors rate_limit
  respond_to origins route = trace e (cors e origins (rate_limit e 100 1000 (route_handler route)))
