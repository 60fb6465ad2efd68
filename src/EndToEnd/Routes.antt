-- ===== src/EndToEnd/Routes.antt =====
-- The way of a request: which function of the CGI makes it, and which handler gets it.
use Prim.Native.String.{String}
use cfg_mgr.Base.{ℕ, ◌≡◌, ◌≢◌, refl, Option, some, ◌>>=◌, [], ◌∷◌}
use cfg_mgr.Base.Text.{Text, codes}
use cfg_mgr.Message.{
  Msg, login_request, normalusermgr_request, superusermgr_request, adminpasswdcomfirm_request,
  netconfigsave, netcapture_request, netfilter_request, loglookup_request,
}
use cfg_mgr.Env.{Env}
use cfg_mgr.Trace.{Daemon}
use cfg_mgr.Web.Confirm.{Reply}
use cfg_mgr.Web.Login.{do_login, do_admin_passwd_confirm}
use cfg_mgr.Web.Users.{do_normal_user_mgr, do_super_user_mgr}
use cfg_mgr.Web.Net.{do_net_config_save, do_net_capture, do_net_filter}
use cfg_mgr.Web.Dispatch.{dispatch, handle, arrived}
use cfg_mgr.Cgi.{Form, required}
use cfg_mgr.Cgi.Users.{login, normal_user_mgr, super_user_mgr, admin_passwd_confirm}
use cfg_mgr.Cgi.Net.{net_config_save, net_capture, net_filter}
use cfg_mgr.Cgi.Logs.{log_look_up}
use cfg_mgr.Web.Logs.{do_log_look_up}
use cfg_mgr.Cgi.Table.{FormMethod, form_method_table, form_method_look_up, request_of}
use cfg_mgr.Cgi.Table.Laws.{form_method_look_up_own}

-- One request from the form to the answer: cgiMain up to msgSend, and the round of the daemon that
-- receives the message. `m` and `prev` are what the two message variables hold at first.
abbrev pub submit : {env : Env} → ℕ → ℕ → Form → Msg → Msg → Daemon env → Option (Reply env)
submit temp polls form m prev d = do r ← request_of temp form m; dispatch polls r prev (arrived r d)

-- The form asks for a function by its name.
abbrev pub Asks : String → Form → Type 0
Asks name form = form.form_string "FunctionName" ≡ codes name

required-given : (s : Text) → s ≢ [] → required s ≡ some s
required-given [] h = absurd (h refl)
required-given (c ∷ s) h = refl

request_of-func :
    (temp : ℕ) (form : Form) (m : Msg) (name : String) (e : FormMethod)
    → Asks name form
    → codes name ≢ []
    → form_method_look_up temp (codes name) ≡ some e
    → request_of temp form m ≡ e.func form m
unfolding request_of
request_of-func temp form m name e asks given found =
    rw (asks, required-given (codes name) given, found) refl

module _ (temp : ℕ) (form : Form) (m : Msg) where
  pub request_of-login : Asks "Function_Login" form → request_of temp form m ≡ login form m
  unfolding form_method_table
  request_of-login asks =
      request_of-func temp form m "Function_Login" _ asks (λ h. cc) (form_method_look_up_own temp).0

  pub request_of-net_config_save :
      Asks "Function_NetConfigSave" form → request_of temp form m ≡ net_config_save temp form m
  unfolding form_method_table
  request_of-net_config_save asks =
      request_of-func temp form m "Function_NetConfigSave" _ asks (λ h. cc)
        (form_method_look_up_own temp).1.1.1.0

  pub request_of-net_capture :
      Asks "Function_NetCapture" form → request_of temp form m ≡ net_capture form m
  unfolding form_method_table
  request_of-net_capture asks =
      request_of-func temp form m "Function_NetCapture" _ asks (λ h. cc)
        (form_method_look_up_own temp).1.1.1.1.0

  pub request_of-net_filter :
      Asks "Function_NetFilter" form → request_of temp form m ≡ net_filter form m
  unfolding form_method_table
  request_of-net_filter asks =
      request_of-func temp form m "Function_NetFilter" _ asks (λ h. cc)
        (form_method_look_up_own temp).1.1.1.1.1.0

  pub request_of-normal_user_mgr :
      Asks "Function_NormalUserMgr" form → request_of temp form m ≡ normal_user_mgr form m
  unfolding form_method_table
  request_of-normal_user_mgr asks =
      request_of-func temp form m "Function_NormalUserMgr" _ asks (λ h. cc)
        (form_method_look_up_own temp).1.1.1.1.1.1.1.1.1.0

  pub request_of-super_user_mgr :
      Asks "Function_SuperUserMgr" form → request_of temp form m ≡ super_user_mgr form m
  unfolding form_method_table
  request_of-super_user_mgr asks =
      request_of-func temp form m "Function_SuperUserMgr" _ asks (λ h. cc)
        (form_method_look_up_own temp).1.1.1.1.1.1.1.1.1.1.0

  pub request_of-admin_passwd_confirm :
      Asks "Function_AdminPasswdConfirm" form → request_of temp form m ≡ admin_passwd_confirm form m
  unfolding form_method_table
  request_of-admin_passwd_confirm asks =
      request_of-func temp form m "Function_AdminPasswdConfirm" _ asks (λ h. cc)
        (form_method_look_up_own temp).1.1.1.1.1.1.1.1.1.1.1.1.1.1.1.1.0

  pub request_of-log_look_up :
      Asks "Function_LogLookUp" form → request_of temp form m ≡ log_look_up form m
  unfolding form_method_table
  request_of-log_look_up asks =
      request_of-func temp form m "Function_LogLookUp" _ asks (λ h. cc)
        (form_method_look_up_own temp).1.1.1.1.1.1.1.1.1.1.1.1.1.1.1.1.1.1.1.1.1.1.1.0

module _ {env : Env} (polls : ℕ) (r prev : Msg) (d : Daemon env) where
  pub dispatch-do_login : r.type ≡ login_request → dispatch polls r prev d ≡ some (do_login r d)
  unfolding handle
  dispatch-do_login kind = rw kind refl

  pub dispatch-do_normal_user_mgr :
      r.type ≡ normalusermgr_request → dispatch polls r prev d ≡ some (do_normal_user_mgr r d)
  unfolding handle
  dispatch-do_normal_user_mgr kind = rw kind refl

  pub dispatch-do_super_user_mgr :
      r.type ≡ superusermgr_request → dispatch polls r prev d ≡ some (do_super_user_mgr r d)
  unfolding handle
  dispatch-do_super_user_mgr kind = rw kind refl

  pub dispatch-do_admin_passwd_confirm :
      r.type ≡ adminpasswdcomfirm_request
      → dispatch polls r prev d ≡ some (do_admin_passwd_confirm r d)
  unfolding handle
  dispatch-do_admin_passwd_confirm kind = rw kind refl

  pub dispatch-do_net_config_save :
      r.type ≡ netconfigsave → dispatch polls r prev d ≡ do_net_config_save polls r d
  unfolding handle
  dispatch-do_net_config_save kind = rw kind refl

  pub dispatch-do_log_look_up :
      r.type ≡ loglookup_request → dispatch polls r prev d ≡ do_log_look_up r d
  unfolding handle
  dispatch-do_log_look_up kind = rw kind refl

  pub dispatch-do_net_capture :
      r.type ≡ netcapture_request → dispatch polls r prev d ≡ some (do_net_capture r d)
  unfolding handle
  dispatch-do_net_capture kind = rw kind refl

  pub dispatch-do_net_filter :
      r.type ≡ netfilter_request → dispatch polls r prev d ≡ some (do_net_filter r d)
  unfolding handle
  dispatch-do_net_filter kind = rw kind refl
