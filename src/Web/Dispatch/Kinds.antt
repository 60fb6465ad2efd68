-- ===== src/Web/Dispatch/Kinds.antt =====
-- The kind of the message that answers a request.
use cfg_mgr.Base.{ℕ, ◌≡◌, ◌≢◌, refl, Option, none, some, arith, if◌then◌else◌, ◌==◌}
use cfg_mgr.Base.Text.{Text, codes}
use cfg_mgr.Message.{
  Msg, MsgType, comfirm, login_request, lan1test, lan2test, netconfigsave, netcapture_request,
  netfilter_request, filelookup_request, fileupload_request, diskinfo_request,
  normalusermgr_request, superusermgr_request, systeminfo_request, systimeget_request,
  adminpasswdcomfirm_request, getversion_request, loglookup_request, logexport_request,
  fileupload_response, diskinfo_response, systeminfo_response, systimeget_response,
  getversion_response, loglookup_response, logexport_response, CfgMgrStatus, cfgmgr_ok,
  sizeof_net_param,
}
use cfg_mgr.Env.{Env}
use cfg_mgr.Trace.{Daemon, trace, user, debug_info}
use cfg_mgr.Params.{net_param_at}
use cfg_mgr.Memory.{load}
use cfg_mgr.Net.{set_net_parameters}
use cfg_mgr.Config.{param_save}
use cfg_mgr.Web.Confirm.{Reply, confirm, gen_confirm_msg}
use cfg_mgr.Web.Login.{do_login, do_admin_passwd_confirm}
use cfg_mgr.Web.Net.{
  do_lan_test, do_net_config_save, do_net_capture, do_net_filter, or_confirm, lan_message, lan_ping,
  with_net1, with_net2, save_or_confirm,
}
use cfg_mgr.Web.Net.Laws.{Replies, Replies-some}
use cfg_mgr.Web.Users.{save_and_confirm, do_normal_user_mgr, do_super_user_mgr}
use cfg_mgr.Web.Info.{
  do_sys_time_get, do_sys_time_set, do_file_up_load, do_version_get, do_factory_reset, do_reboot,
  do_log_clear_all, do_disk_info, do_lan_statistics_clear, do_update_logic_file,
  do_update_cfg_mgr_file, do_update_web,
}
use cfg_mgr.Web.SystemInfo.{do_system_info}
use cfg_mgr.Web.Logs.{do_log_look_up}
use cfg_mgr.Web.Logs.Export.{do_log_export}
use cfg_mgr.Web.Dispatch.{handle, dispatch, do_unsupported}

-- The kind that inc/message.h has for the answer to each request: a confirmation, unless there is a
-- response of its own.
abbrev pub response_kind : MsgType → MsgType
response_kind fileupload_request = fileupload_response
response_kind diskinfo_request = diskinfo_response
response_kind systeminfo_request = systeminfo_response
response_kind systimeget_request = systimeget_response
response_kind getversion_request = getversion_response
response_kind loglookup_request = loglookup_response
response_kind logexport_request = logexport_response
response_kind kind = comfirm

module _ {env : Env} where
  abbrev Answers : MsgType → Reply env → Type 0
  Answers kind r = r.out.type ≡ kind

  or_confirm-comfirm :
      (o : Option (CfgMgrStatus × Daemon env)) (message : Text)
      (rest : Daemon env → Option (Reply env))
      → ((d : Daemon env) → Replies (Answers comfirm) (rest d))
      → Replies (Answers comfirm) (or_confirm o message rest)
  unfolding confirm gen_confirm_msg
  or_confirm-comfirm none message rest h = tt
  or_confirm-comfirm (some (cfgmgr_ok, d)) message rest h = h d
  or_confirm-comfirm (some (_, d)) message rest h = refl

  save_or_confirm-comfirm :
      (done : Text) (d : Daemon env) → Answers comfirm (save_or_confirm done d)
  unfolding param_save confirm gen_confirm_msg
  save_or_confirm-comfirm done d = ground arith

  module _ (m : Msg) (d : Daemon env) where
    lan_test-comfirm : (polls n : ℕ) → Replies (Answers comfirm) (do_lan_test polls m n d)
    unfolding do_lan_test confirm gen_confirm_msg
    lan_test-comfirm polls n =
        let started = trace debug_info user (lan_message n (codes " start")) d in
        let failed = lan_message n (codes " : setNetParameters failed !!!") in
        or_confirm-comfirm (set_net_parameters polls (net_param_at 0 m.payload) n started) failed _
          λ set.
            let (status, pinged) = lan_ping n (load 4 sizeof_net_param m.payload) set in
            let origin = if n == 1 then pinged.pa.lan1.net else pinged.pa.lan2.net in
            or_confirm-comfirm (set_net_parameters polls origin n pinged) failed
              (λ back.
                some (confirm cfgmgr_ok (trace debug_info user (lan_message n (codes " OK")) back)))
              λ back. refl

    net_config-comfirm : (polls : ℕ) → Replies (Answers comfirm) (do_net_config_save polls m d)
    unfolding do_net_config_save param_save confirm gen_confirm_msg
    net_config-comfirm polls =
        let net1 = net_param_at 0 m.payload in
        let net2 = net_param_at sizeof_net_param m.payload in
        let started = trace debug_info user (codes "Net config start") d in
        or_confirm-comfirm (set_net_parameters polls net1 1 started)
          (codes "net 1 setNetParameters failed.") _
          λ d₁.
            or_confirm-comfirm (set_net_parameters polls net2 2 (with_net1 net1 d₁))
              (codes "net 2 setNetParameters failed.")
              (λ d₂. some (save_or_confirm (codes "Net config succ") (with_net2 net2 d₂)))
              λ d₂. save_or_confirm-comfirm (codes "Net config succ") (with_net2 net2 d₂)

    log_look_up-kind : Replies (Answers loglookup_response) (do_log_look_up m d)
    unfolding do_log_look_up
    log_look_up-kind = ground arith

    login-comfirm : Answers comfirm (do_login m d)
    unfolding do_login confirm gen_confirm_msg
    login-comfirm = ground arith

    admin_passwd-comfirm : Answers comfirm (do_admin_passwd_confirm m d)
    unfolding do_admin_passwd_confirm confirm gen_confirm_msg
    admin_passwd-comfirm = ground arith

    net_capture-comfirm : Answers comfirm (do_net_capture m d)
    unfolding do_net_capture param_save confirm gen_confirm_msg
    net_capture-comfirm = ground arith

    net_filter-comfirm : Answers comfirm (do_net_filter m d)
    unfolding do_net_filter param_save confirm gen_confirm_msg
    net_filter-comfirm = ground arith

    normal_user-comfirm : Answers comfirm (do_normal_user_mgr m d)
    unfolding do_normal_user_mgr save_and_confirm param_save confirm gen_confirm_msg
    normal_user-comfirm = ground arith

    super_user-comfirm : Answers comfirm (do_super_user_mgr m d)
    unfolding do_super_user_mgr save_and_confirm param_save confirm gen_confirm_msg
    super_user-comfirm = ground arith

  handle-response_kind :
      (polls : ℕ) (kind : MsgType) (m prev : Msg) (d : Daemon env)
      → kind ≢ filelookup_request
      → Replies (Answers (response_kind kind)) (handle polls kind m prev d)
  unfolding handle do_unsupported confirm gen_confirm_msg do_sys_time_get do_sys_time_set
      do_file_up_load do_version_get do_factory_reset do_reboot do_log_clear_all do_disk_info
      do_lan_statistics_clear do_update_logic_file do_update_cfg_mgr_file do_update_web
      do_system_info do_log_export
  handle-response_kind polls login_request m prev d h = login-comfirm m d
  handle-response_kind polls lan1test m prev d h = lan_test-comfirm m d polls 1
  handle-response_kind polls lan2test m prev d h = lan_test-comfirm m d polls 2
  handle-response_kind polls netconfigsave m prev d h = net_config-comfirm m d polls
  handle-response_kind polls netcapture_request m prev d h = net_capture-comfirm m d
  handle-response_kind polls netfilter_request m prev d h = net_filter-comfirm m d
  handle-response_kind polls filelookup_request m prev d h = absurd (h refl)
  handle-response_kind polls adminpasswdcomfirm_request m prev d h = admin_passwd-comfirm m d
  handle-response_kind polls normalusermgr_request m prev d h = normal_user-comfirm m d
  handle-response_kind polls superusermgr_request m prev d h = super_user-comfirm m d
  handle-response_kind polls loglookup_request m prev d h = log_look_up-kind m d
  handle-response_kind polls kind m prev d h = refl

  -- Every answer of the daemon is of the kind that belongs to its request, the file look-up apart,
  -- whose answer comes from a capture process.
  pub dispatch-response_kind :
      (polls : ℕ) (m prev : Msg) (d : Daemon env) (r : Reply env)
      → m.type ≢ filelookup_request
      → dispatch polls m prev d ≡ some r
      → r.out.type ≡ response_kind m.type
  dispatch-response_kind polls m prev d r other e =
      Replies-some (Answers (response_kind m.type)) _ r
        (handle-response_kind polls m.type m prev d other) e
