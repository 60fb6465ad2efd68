-- ===== src/Cgi/Table/Kinds.antt =====
-- The kinds of the messages that the CGI sends, one for each request function.
use cfg_mgr.Base.{ℕ, ◌≡◌, Option, none, some, arith}
use cfg_mgr.Message.{
  Msg, MsgType, login_request, lan1test, lan2test, netconfigsave, netcapture_request,
  netfilter_request, filelookup_request, fileupload_request, normalusermgr_request,
  superusermgr_request, systimeset_request, adminpasswdcomfirm_request, loglookup_request,
  logexport_request,
}
use cfg_mgr.Cgi.{Form}
use cfg_mgr.Cgi.Net.{lan1_test, lan2_test, net_config_save, net_capture, net_filter}
use cfg_mgr.Cgi.Users.{login, normal_user_mgr, super_user_mgr, admin_passwd_confirm}
use cfg_mgr.Cgi.Logs.{log_look_up, log_export, system_time_set}
use cfg_mgr.Cgi.Files.{file_look_up, file_up_load, update_request}

-- The kind of a request that is made.
abbrev pub Makes : MsgType → Option Msg → Type 0
Makes kind none = Unit
Makes kind (some r) = r.type ≡ kind

module _ (form : Form) (m : Msg) where
  pub login-Makes : Makes login_request (login form m)
  unfolding login
  login-Makes = ground arith

  pub lan1_test-Makes : (temp : ℕ) → Makes lan1test (lan1_test temp form m)
  unfolding lan1_test
  lan1_test-Makes temp = ground arith

  pub lan2_test-Makes : (temp : ℕ) → Makes lan2test (lan2_test temp form m)
  unfolding lan2_test
  lan2_test-Makes temp = ground arith

  pub net_config_save-Makes : (temp : ℕ) → Makes netconfigsave (net_config_save temp form m)
  unfolding net_config_save
  net_config_save-Makes temp = ground arith

  pub net_capture-Makes : Makes netcapture_request (net_capture form m)
  unfolding net_capture
  net_capture-Makes = ground arith

  pub net_filter-Makes : Makes netfilter_request (net_filter form m)
  unfolding net_filter
  net_filter-Makes = ground arith

  pub file_look_up-Makes : Makes filelookup_request (file_look_up form m)
  unfolding file_look_up
  file_look_up-Makes = ground arith

  pub file_up_load-Makes : Makes fileupload_request (file_up_load form m)
  unfolding file_up_load
  file_up_load-Makes = ground arith

  pub normal_user_mgr-Makes : Makes normalusermgr_request (normal_user_mgr form m)
  unfolding normal_user_mgr
  normal_user_mgr-Makes = ground arith

  pub super_user_mgr-Makes : Makes superusermgr_request (super_user_mgr form m)
  unfolding super_user_mgr
  super_user_mgr-Makes = ground arith

  pub system_time_set-Makes : Makes systimeset_request (system_time_set form m)
  unfolding system_time_set
  system_time_set-Makes = ground arith

  pub admin_passwd_confirm-Makes : Makes adminpasswdcomfirm_request (admin_passwd_confirm form m)
  unfolding admin_passwd_confirm
  admin_passwd_confirm-Makes = ground arith

  pub log_look_up-Makes : Makes loglookup_request (log_look_up form m)
  unfolding log_look_up
  log_look_up-Makes = ground arith

  pub log_export-Makes : Makes logexport_request (log_export form m)
  unfolding log_export
  log_export-Makes = ground arith

  pub update_request-Makes : (kind : MsgType) → Makes kind (update_request kind form m)
  unfolding update_request
  update_request-Makes kind = ground arith
