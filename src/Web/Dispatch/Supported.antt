-- ===== src/Web/Dispatch/Supported.antt =====
-- Which requests the daemon does something for.
use cfg_mgr.Base.{Bool, true, false, ℕ, ◌≡◌, ◌≢◌, arith, if◌then◌else◌, ◌==◌}
use cfg_mgr.Base.Text.{Text, codes}
use cfg_mgr.Message.{
  not_support, cfgmgr_err, net_number_invalid, ip_invalid, systimeset_request,
  updatelogicfile_request, updatecfgmgrfile_request, updateweb_request, logclearall_request, Msg,
  MsgType, login_request, lan1test, lan2test, netconfigsave, netcapture_request, netfilter_request,
  filelookup_request, fileupload_request, diskinfo_request, normalusermgr_request,
  superusermgr_request, systeminfo_request, systimeget_request, adminpasswdcomfirm_request,
  getversion_request, loglookup_request, logexport_request, CfgMgrStatus, cfgmgr_ok,
  sizeof_net_param,
}
use cfg_mgr.Env.{Env}
use cfg_mgr.Trace.{Daemon, trace, user, debug_info}
use cfg_mgr.Params.{net_param_at}
use cfg_mgr.Memory.{load}
use cfg_mgr.Net.{set_net_parameters}
use cfg_mgr.Config.{param_save}
use cfg_mgr.Web.Confirm.{Reply, confirm, gen_confirm_msg}
use cfg_mgr.Web.Login.{do_login, do_admin_passwd_confirm}
use cfg_mgr.Web.Net.{
  do_lan_test, do_net_config_save, do_net_capture, do_net_filter, lan_message, lan_ping, with_net1,
  with_net2, save_or_confirm,
}
use cfg_mgr.Web.Net.Laws.{Replies, or_confirm-Replies}
use cfg_mgr.Web.Users.{save_and_confirm, do_normal_user_mgr, do_super_user_mgr}
use cfg_mgr.Web.Info.{
  do_file_look_up, do_sys_time_get, do_sys_time_set, do_file_up_load, do_version_get,
  do_log_clear_all, do_disk_info, do_update_logic_file, do_update_cfg_mgr_file, do_update_web,
}
use cfg_mgr.Web.SystemInfo.{do_system_info}
use cfg_mgr.Web.Logs.{do_log_look_up}
use cfg_mgr.Web.Logs.Export.{do_log_export}
use cfg_mgr.Web.Dispatch.{handle}
use cfg_mgr.Net.Laws.{IsNetStatus, set_net_parameters-Ends}

-- The kinds that the switch of webProcess has a handler for that does what is asked for.
abbrev pub is_supported : MsgType → Bool
is_supported login_request = true
is_supported lan1test = true
is_supported lan2test = true
is_supported netconfigsave = true
is_supported netcapture_request = true
is_supported netfilter_request = true
is_supported filelookup_request = true
is_supported fileupload_request = true
is_supported diskinfo_request = true
is_supported normalusermgr_request = true
is_supported superusermgr_request = true
is_supported systeminfo_request = true
is_supported systimeset_request = true
is_supported systimeget_request = true
is_supported adminpasswdcomfirm_request = true
is_supported getversion_request = true
is_supported updatelogicfile_request = true
is_supported updatecfgmgrfile_request = true
is_supported updateweb_request = true
is_supported loglookup_request = true
is_supported logexport_request = true
is_supported logclearall_request = true
is_supported _ = false

net_status_supported : (status : CfgMgrStatus) → IsNetStatus status → status ≢ not_support
net_status_supported cfgmgr_ok h e = cc
net_status_supported cfgmgr_err h e = cc
net_status_supported net_number_invalid h e = cc
net_status_supported ip_invalid h e = cc
net_status_supported status h e = elim h [ ]

module _ {env : Env} where
  abbrev Supported : Reply env → Type 0
  Supported r = r.status ≢ not_support

  save_or_confirm-Supported : (done : Text) (d : Daemon env) → Supported (save_or_confirm done d)
  unfolding param_save confirm
  save_or_confirm-Supported done d = ground arith

  module _ (m : Msg) (d : Daemon env) where
    lan_test-Supported : (polls n : ℕ) → Replies Supported (do_lan_test polls m n d)
    unfolding do_lan_test confirm
    lan_test-Supported polls n =
        let started = trace debug_info user (lan_message n (codes " start")) d in
        or_confirm-Replies Supported started
          (set_net_parameters polls (net_param_at 0 m.payload) n started) _ _
          (set_net_parameters-Ends polls _ n started)
          (λ status e ns _ same. net_status_supported status ns)
          λ set same.
            let pinged = (lan_ping n (load 4 sizeof_net_param m.payload) set).1 in
            let origin = if n == 1 then pinged.pa.lan1.net else pinged.pa.lan2.net in
            or_confirm-Replies Supported pinged (set_net_parameters polls origin n pinged) _ _
              (set_net_parameters-Ends polls origin n pinged)
              (λ status e ns _ same'. net_status_supported status ns) λ back same' e. cc

    net_config-Supported : (polls : ℕ) → Replies Supported (do_net_config_save polls m d)
    unfolding do_net_config_save confirm
    net_config-Supported polls =
        let net1 = net_param_at 0 m.payload in
        let net2 = net_param_at sizeof_net_param m.payload in
        let started = trace debug_info user (codes "Net config start") d in
        or_confirm-Replies Supported started (set_net_parameters polls net1 1 started) _ _
          (set_net_parameters-Ends polls net1 1 started)
          (λ status e ns _ same. net_status_supported status ns)
          λ d₁ same.
            let set = with_net1 net1 d₁ in
            or_confirm-Replies Supported set (set_net_parameters polls net2 2 set) _ _
              (set_net_parameters-Ends polls net2 2 set)
              (λ status e ns _ same'. net_status_supported status ns)
              λ d₂ same'. save_or_confirm-Supported (codes "Net config succ") (with_net2 net2 d₂)

    log_look_up-Supported : Replies Supported (do_log_look_up m d)
    unfolding do_log_look_up
    log_look_up-Supported = ground arith

    file_look_up-Supported : Supported (do_file_look_up m d)
    unfolding do_file_look_up
    file_look_up-Supported = ground arith

    login-Supported : Supported (do_login m d)
    unfolding do_login confirm
    login-Supported = ground arith

    admin_passwd-Supported : Supported (do_admin_passwd_confirm m d)
    unfolding do_admin_passwd_confirm confirm
    admin_passwd-Supported = ground arith

    net_capture-Supported : Supported (do_net_capture m d)
    unfolding do_net_capture param_save confirm
    net_capture-Supported = ground arith

    net_filter-Supported : Supported (do_net_filter m d)
    unfolding do_net_filter param_save confirm
    net_filter-Supported = ground arith

    normal_user-Supported : Supported (do_normal_user_mgr m d)
    unfolding do_normal_user_mgr save_and_confirm param_save confirm
    normal_user-Supported = ground arith

    super_user-Supported : Supported (do_super_user_mgr m d)
    unfolding do_super_user_mgr save_and_confirm param_save confirm
    super_user-Supported = ground arith

  pub handle-Supported :
      (polls : ℕ) (kind : MsgType) (m prev : Msg) (d : Daemon env)
      → is_supported kind ≡ true
      → Replies Supported (handle polls kind m prev d)
  unfolding handle confirm gen_confirm_msg do_sys_time_get do_sys_time_set do_file_up_load
      do_version_get do_log_clear_all do_disk_info do_update_logic_file do_update_cfg_mgr_file
      do_update_web do_system_info do_log_export
  handle-Supported polls login_request m prev d h = login-Supported m d
  handle-Supported polls lan1test m prev d h = lan_test-Supported m d polls 1
  handle-Supported polls lan2test m prev d h = lan_test-Supported m d polls 2
  handle-Supported polls netconfigsave m prev d h = net_config-Supported m d polls
  handle-Supported polls netcapture_request m prev d h = net_capture-Supported m d
  handle-Supported polls netfilter_request m prev d h = net_filter-Supported m d
  handle-Supported polls filelookup_request m prev d h = file_look_up-Supported m d
  handle-Supported polls fileupload_request m prev d h = λ e. cc
  handle-Supported polls diskinfo_request m prev d h = λ e. cc
  handle-Supported polls normalusermgr_request m prev d h = normal_user-Supported m d
  handle-Supported polls superusermgr_request m prev d h = super_user-Supported m d
  handle-Supported polls systeminfo_request m prev d h = λ e. cc
  handle-Supported polls systimeset_request m prev d h = λ e. cc
  handle-Supported polls systimeget_request m prev d h = λ e. cc
  handle-Supported polls adminpasswdcomfirm_request m prev d h = admin_passwd-Supported m d
  handle-Supported polls getversion_request m prev d h = λ e. cc
  handle-Supported polls updatelogicfile_request m prev d h = λ e. cc
  handle-Supported polls updatecfgmgrfile_request m prev d h = λ e. cc
  handle-Supported polls updateweb_request m prev d h = λ e. cc
  handle-Supported polls loglookup_request m prev d h = log_look_up-Supported m d
  handle-Supported polls logexport_request m prev d h = λ e. cc
  handle-Supported polls logclearall_request m prev d h = λ e. cc
  handle-Supported polls kind m prev d h = cc
