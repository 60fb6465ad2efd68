-- ===== src/Web/Dispatch.antt =====
-- webProcess of web.c: one request is received, given to its handler, and answered.
pub mod Laws
pub mod Run
pub mod Kinds
pub mod Start
pub mod Passwords
pub mod Supported
use cfg_mgr.Base.{
  ℕ, [], ◌∷◌, ◌%◌, Bool, true, false, Option, none, some, ◌++◌, ◌==◌, if◌then◌else◌, ◌>>=◌,
}
use cfg_mgr.Base.Text.{Text, codes, fmt_d}
use cfg_mgr.Message.{
  Msg, MsgType, comfirm, login_request, lan1test, lan2test, netconfigsave, netcapture_request,
  netfilter_request, filelookup_request, fileupload_request, diskinfo_request,
  normalusermgr_request, superusermgr_request, systeminfo_request, lan1statisticsclear_request,
  lan2statisticsclear_request, systimeset_request, systimeget_request, adminpasswdcomfirm_request,
  getversion_request, updatelogicfile_request, updatecfgmgrfile_request, updateweb_request,
  factoryreset_request, reboot_request, loglookup_request, logexport_request, logclearall_request,
  filelookup_response, fileupload_response, diskinfo_response, systeminfo_response,
  systimeget_response, getversion_response, loglookup_response, logexport_response, unlisted,
  CfgMgrStatus, cfgmgr_ok, cfgmgr_err, not_support, zero_msg, type_code,
}
use cfg_mgr.Params.{Param, LanParam, UserParam, NetParam}
use cfg_mgr.Env.{Env, Queue, cgi_cfgmgr, cfgmgr_dumpcap0, cfgmgr_dumpcap1}
use cfg_mgr.Trace.{Daemon, user, system, debug_info, debug_err, trace}
use cfg_mgr.Net.{set_net_parameters}
use cfg_mgr.Config.Load.{param_load}
use cfg_mgr.Config.Load.Traces.{load_traces, trace_all}
use cfg_mgr.Web.Confirm.{Reply, confirm}
use cfg_mgr.Web.Login.{do_login, do_admin_passwd_confirm}
use cfg_mgr.Web.Net.{do_lan_test, do_net_config_save, do_net_capture, do_net_filter}
use cfg_mgr.Web.Users.{do_normal_user_mgr, do_super_user_mgr}
use cfg_mgr.Web.Info.{
  do_sys_time_get, do_sys_time_set, do_file_up_load, do_version_get, do_factory_reset, do_reboot,
  do_log_clear_all, do_disk_info, do_lan_statistics_clear, do_update_logic_file,
  do_update_cfg_mgr_file, do_update_web, do_file_look_up,
}
use cfg_mgr.Web.SystemInfo.{do_system_info}
use cfg_mgr.Web.Logs.{do_log_look_up}
use cfg_mgr.Web.Logs.Export.{do_log_export}

-- The default branch of the switch.
unfoldable pub do_unsupported : {env : Env} → Msg → Daemon env → Reply env
do_unsupported m d = confirm not_support (
    trace debug_err user
      (codes "Operation not support!!!, msgtype[" ++ (fmt_d (type_code m.type) ++ codes "]")) d)

-- How one round of the loop ends: the queue has failed and the thread stops, or the answer has been
-- sent and stays in sendMsg.
pub data Turn (env : Env) : Type 0 where
  stopped : Daemon env → Turn env
  answered : Msg → Daemon env → Turn env

-- `memset (p, 0, sizeof (param))`
abbrev zero_param : Param
zero_param =
    let lan : LanParam = record {
      net = record { is_dhcp = 0; ip = 0; mask = 0; gateway = 0; mac = 0 ∷ 0 ∷ 0 ∷ 0 ∷ 0 ∷ 0 ∷ [] };
      capture = record { is_capture = 0; is_auto_up_load = 0; auto_up_load_path = [] };
      filter = record { is_filter = 0 };
    } in
    let nobody : UserParam = record { user_name = []; passwd = [] } in
    record { lan1 = lan; lan2 = lan; admin = nobody; normal = nobody }

module _ {env : Env} where
  -- The switch on the kind of the message. `prev` is what sendMsg holds before it; `polls` bounds
  -- the rounds of each wait for a link, and `none` is a handler that has not ended.
  unfoldable pub handle : ℕ → MsgType → Msg → Msg → Daemon env → Option (Reply env)
  handle polls login_request m prev d = some (do_login m d)
  handle polls lan1test m prev d = do_lan_test polls m 1 d
  handle polls lan2test m prev d = do_lan_test polls m 2 d
  handle polls netconfigsave m prev d = do_net_config_save polls m d
  handle polls netcapture_request m prev d = some (do_net_capture m d)
  handle polls netfilter_request m prev d = some (do_net_filter m d)
  handle polls filelookup_request m prev d = some (do_file_look_up m d)
  handle polls fileupload_request m prev d = some (do_file_up_load m prev d)
  handle polls normalusermgr_request m prev d = some (do_normal_user_mgr m d)
  handle polls superusermgr_request m prev d = some (do_super_user_mgr m d)
  handle polls systimeget_request m prev d = some (do_sys_time_get prev d)
  handle polls systimeset_request m prev d = some (do_sys_time_set m d)
  handle polls adminpasswdcomfirm_request m prev d = some (do_admin_passwd_confirm m d)
  handle polls getversion_request m prev d = some (do_version_get d)
  handle polls factoryreset_request m prev d = some (do_factory_reset d)
  handle polls reboot_request m prev d = some (do_reboot d)
  handle polls loglookup_request m prev d = do_log_look_up m d
  handle polls logexport_request m prev d = some (do_log_export m d)
  handle polls logclearall_request m prev d = some (do_log_clear_all d)
  handle polls diskinfo_request m prev d = some (do_disk_info d)
  handle polls systeminfo_request m prev d = some (do_system_info d)
  handle polls lan1statisticsclear_request m prev d = some (do_lan_statistics_clear 1 d)
  handle polls lan2statisticsclear_request m prev d = some (do_lan_statistics_clear 2 d)
  handle polls updatelogicfile_request m prev d = some (do_update_logic_file d)
  handle polls updatecfgmgrfile_request m prev d = some (do_update_cfg_mgr_file d)
  handle polls updateweb_request m prev d = some (do_update_web d)
  handle polls kind m prev d = some (do_unsupported m d)

  -- The trace of a message that has been received.
  abbrev pub received : MsgType → Daemon env → Daemon env
  received kind d =
      trace debug_info system
        (codes "msgRecv a message, type " ++ (fmt_d (type_code kind) ++ codes ".")) d

  abbrev pub arrived : Msg → Daemon env → Daemon env
  arrived m d = received m.type d

  abbrev pub dispatch : ℕ → Msg → Msg → Daemon env → Option (Reply env)
  dispatch polls m prev d = handle polls m.type m prev d

  unfoldable pub answer : Reply env → Turn env
  answer r =
      let (sent, sys') = Env.mq_send env cgi_cfgmgr r.out r.daemon.sys in
      let after = record r.daemon { sys = sys' } in
      if sent
      then answered r.out after
      else stopped (trace debug_err system (codes "msgSend failed !!!") after)

  -- The round of a message that has been received: its trace, the switch, and msgSend.
  unfoldable pub serve : ℕ → Msg → Msg → Daemon env → Option (Turn env)
  serve polls m prev d = do r ← dispatch polls m prev (arrived m d); some (answer r)

  unfoldable pub turn : ℕ → Msg → Daemon env → Option (Turn env)
  turn polls prev d =
      let (received, sys') = Env.mq_receive env cgi_cfgmgr d.sys in
      let after = record d { sys = sys' } in
      elim received [
        | none ↦
            some
              (stopped (trace debug_err system (codes "msgRecv /cgiCfgMgrMessage error !!!") after))
        | some m ↦ serve polls m prev after
      ]

  -- One setNetParameters before the loop: where it fails the thread stops.
  abbrev pub or_stop :
      CfgMgrStatus × Daemon env
      → Text
      → (Daemon env → Option (Bool × Daemon env))
      → Option (Bool × Daemon env)
  or_stop (cfgmgr_ok, d) message rest = rest d
  or_stop (failed, d) message rest = some (false, trace debug_err system message d)

  -- setNetParameters of both interfaces before the loop: whether they succeed, and the daemon.
  unfoldable pub set_both : ℕ → Daemon env → Option (Bool × Daemon env)
  set_both polls d = do
    first ← set_net_parameters polls d.pa.lan1.net 1 d
    or_stop first (codes "webProcess setNetParameters net1 failed!!!") λ d₁. do
      second ← set_net_parameters polls d₁.pa.lan2.net 2 d₁
      or_stop second (codes "webProcess setNetParameters net2 failed!!!") λ d₂. some (true, d₂)

  -- paramLoad and the interfaces, up to the loop; the queue is open. `none` is a failed assertion
  -- or a wait that has not ended.
  unfoldable pub start : ℕ → ℕ → Daemon env → Option (Bool × Daemon env)
  start polls temp d =
      let (file, sys') = Env.load_file env d.sys in
      let opened = record d { sys = sys' } in
      elim file [
        | none ↦ some (
          false,
          trace debug_err system (codes "paramLoad failed(1)") (
              trace debug_err system (codes "fopen ../cfg/config.xml failed")
                (record opened { pa = zero_param })),
        )
        | some doc ↦ do
          p ← param_load temp doc
          set_both polls (trace_all (load_traces doc p) (record opened { pa = p }))
      ]

  -- webProcess up to the loop: the queue is opened, and kept with what an earlier run of the daemon
  -- has left in it, since its mq_unlink is commented out.
  unfoldable pub begin : ℕ → ℕ → Daemon env → Option (Bool × Daemon env)
  begin polls temp d =
      let (ok, sys') = Env.mq_open env cgi_cfgmgr d.sys in
      let opened = record d { sys = sys' } in
      if ok
      then start polls temp opened
      else some (false, trace debug_err system (codes "msgOpen /cgiCfgMgrMessage error !!!") opened)

  -- A queue to a capture process is created anew; whether msgOpen succeeds.
  unfoldable pub open_dumpcap : Queue → Text → Daemon env → Bool × Daemon env
  open_dumpcap q name d =
      let (ok, sys') = Env.mq_open env q (Env.mq_unlink env q d.sys) in
      let opened = record d { sys = sys' } in
      if ok
      then (true, opened)
      else (false, trace debug_err system (codes "msgOpen " ++ (name ++ codes " error !!!")) opened)

  -- webInit up to the creation of the thread: whether it gets there.
  unfoldable pub web_init : Daemon env → Bool × Daemon env
  web_init d =
      let (first, d₁) = open_dumpcap cfgmgr_dumpcap0 (codes "/cfgmgrDumpcapMessage0") d in
      let (second, d₂) = open_dumpcap cfgmgr_dumpcap1 (codes "/cfgmgrDumpcapMessage1") d₁ in
      if first then (second, d₂) else (false, d₁)
