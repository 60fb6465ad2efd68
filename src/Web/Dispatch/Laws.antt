-- ===== src/Web/Dispatch/Laws.antt =====
-- What a request may change of the users of the configuration, and what no run of the loop changes.
use cfg_mgr.Base.{ℕ, ◌≡◌, refl, ap, Bool, true, false, Option, none, some, inl, inr, arith}
use cfg_mgr.Message.{
  Msg, MsgType, login_request, lan1test, lan2test, netconfigsave, netcapture_request,
  netfilter_request, filelookup_request, normalusermgr_request, superusermgr_request,
  systeminfo_request, adminpasswdcomfirm_request, loglookup_request, logexport_request,
}
use cfg_mgr.Params.{Param, UserParam, IsValid}
use cfg_mgr.Env.{Env}
use cfg_mgr.Trace.{Daemon, trace}
use cfg_mgr.Config.{param_save}
use cfg_mgr.Web.Confirm.{Reply, confirm}
use cfg_mgr.Web.Login.{do_login, do_admin_passwd_confirm}
use cfg_mgr.Web.Net.{do_lan_test, do_net_config_save, do_net_capture, do_net_filter}
use cfg_mgr.Web.Net.Laws.{
  Replies, Replies-some, do_lan_test_never_unreachable, do_net_config_save_pa,
}
use cfg_mgr.Web.Users.{save_and_confirm, do_normal_user_mgr, do_super_user_mgr}
use cfg_mgr.Web.Users.Laws.{do_normal_user_mgr-IsValid, do_super_user_mgr-IsValid}
use cfg_mgr.Web.Info.{
  do_sys_time_get, do_sys_time_set, do_file_up_load, do_version_get, do_factory_reset, do_reboot,
  do_log_clear_all, do_disk_info, do_lan_statistics_clear, lan_statistics_clear,
  do_update_logic_file, do_update_cfg_mgr_file, do_update_web, do_file_look_up,
}
use cfg_mgr.Web.SystemInfo.{do_system_info}
use cfg_mgr.Web.Logs.{do_log_look_up}
use cfg_mgr.Web.Logs.Export.{do_log_export}
use cfg_mgr.Web.Dispatch.{handle, dispatch, do_unsupported}

-- The requests that change a password.
abbrev pub is_user_request : MsgType → Bool
is_user_request normalusermgr_request = true
is_user_request superusermgr_request = true
is_user_request _ = false

abbrev pub SameUsers : Param → Param → Type 0
SameUsers p q = (q.admin ≡ p.admin) × (q.normal ≡ p.normal)

-- What every message keeps: the users' names, and that the configuration is well formed.
abbrev pub Preserved : Param → Param → Type 0
Preserved p q =
    (q.admin.user_name ≡ p.admin.user_name) × (q.normal.user_name ≡ p.normal.user_name) × IsValid q

SameUsers-Preserved : (p q : Param) → SameUsers p q → IsValid p → Preserved p q
SameUsers-Preserved p q same v = (
  ap (λ (u : UserParam). u.user_name) same.0,
  ap (λ (u : UserParam). u.user_name) same.1,
  record { admin_valid = rw same.0 v.admin_valid; normal_valid = rw same.1 v.normal_valid },
)

module _ {env : Env} where
  Replies-intro :
      (P : Reply env → Type 0) (o : Option (Reply env))
      → ((r : Reply env) → o ≡ some r → P r)
      → Replies P o
  Replies-intro P none h = tt
  Replies-intro P (some r) h = h r refl

  abbrev Untouched : Daemon env → Reply env → Type 0
  Untouched d r = SameUsers d.pa r.daemon.pa

  module _ (m prev : Msg) (d : Daemon env) where
    do_login-Untouched : Untouched d (do_login m d)
    unfolding do_login trace confirm
    do_login-Untouched = ground arith

    do_admin_passwd_confirm-Untouched : Untouched d (do_admin_passwd_confirm m d)
    unfolding do_admin_passwd_confirm trace confirm
    do_admin_passwd_confirm-Untouched = ground arith

    do_net_capture-Untouched : Untouched d (do_net_capture m d)
    unfolding do_net_capture param_save trace confirm
    do_net_capture-Untouched = ground arith

    do_net_filter-Untouched : Untouched d (do_net_filter m d)
    unfolding do_net_filter param_save trace confirm
    do_net_filter-Untouched = ground arith

    do_file_look_up-Untouched : Untouched d (do_file_look_up m d)
    unfolding do_file_look_up trace
    do_file_look_up-Untouched = ground arith

    do_log_export-Untouched : Untouched d (do_log_export m d)
    unfolding do_log_export trace
    do_log_export-Untouched = (refl, refl)

    do_system_info-Untouched : Untouched d (do_system_info d)
    unfolding do_system_info trace
    do_system_info-Untouched = (refl, refl)

    do_log_look_up-Untouched : Replies (Untouched d) (do_log_look_up m d)
    unfolding do_log_look_up
    do_log_look_up-Untouched = ground arith

  lan_test-Untouched :
      (polls : ℕ) (m : Msg) (n : ℕ) (d : Daemon env)
      → Replies (Untouched d) (do_lan_test polls m n d)
  lan_test-Untouched polls m n d = Replies-intro (Untouched d) (do_lan_test polls m n d) λ r e.
      let same = (do_lan_test_never_unreachable polls m n d r e).1 in
      (ap (λ (p : Param). p.admin) same, ap (λ (p : Param). p.normal) same)

  net_config-Untouched :
      (polls : ℕ) (m : Msg) (d : Daemon env) → Replies (Untouched d) (do_net_config_save polls m d)
  net_config-Untouched polls m d = Replies-intro (Untouched d) (do_net_config_save polls m d) λ r e.
      elim (do_net_config_save_pa polls m d r e) [
        | inl same ↦ (ap (λ (p : Param). p.admin) same, ap (λ (p : Param). p.normal) same)
        | inr (inl same) ↦ (ap (λ (p : Param). p.admin) same, ap (λ (p : Param). p.normal) same)
        | inr (inr same) ↦ (ap (λ (p : Param). p.admin) same, ap (λ (p : Param). p.normal) same)
      ]

  handle-Untouched :
      (polls : ℕ) (kind : MsgType) (m prev : Msg) (d : Daemon env)
      → is_user_request kind ≡ false
      → Replies (Untouched d) (handle polls kind m prev d)
  unfolding handle do_unsupported trace confirm do_sys_time_get do_sys_time_set do_file_up_load
      do_version_get do_factory_reset do_reboot do_log_clear_all do_disk_info
      do_lan_statistics_clear lan_statistics_clear do_update_logic_file do_update_cfg_mgr_file
      do_update_web
  handle-Untouched polls login_request m prev d h = do_login-Untouched m prev d
  handle-Untouched polls lan1test m prev d h = lan_test-Untouched polls m 1 d
  handle-Untouched polls lan2test m prev d h = lan_test-Untouched polls m 2 d
  handle-Untouched polls netconfigsave m prev d h = net_config-Untouched polls m d
  handle-Untouched polls netcapture_request m prev d h = do_net_capture-Untouched m prev d
  handle-Untouched polls netfilter_request m prev d h = do_net_filter-Untouched m prev d
  handle-Untouched polls filelookup_request m prev d h = do_file_look_up-Untouched m prev d
  handle-Untouched polls adminpasswdcomfirm_request m prev d h =
      do_admin_passwd_confirm-Untouched m prev d
  handle-Untouched polls loglookup_request m prev d h = do_log_look_up-Untouched m prev d
  handle-Untouched polls logexport_request m prev d h = do_log_export-Untouched m prev d
  handle-Untouched polls systeminfo_request m prev d h = do_system_info-Untouched m prev d
  handle-Untouched polls normalusermgr_request m prev d h = cc
  handle-Untouched polls superusermgr_request m prev d h = cc
  handle-Untouched polls kind m prev d h = (refl, refl)

  -- Only the two requests that change a password may change a user: after any other message,
  -- whatever its bytes, both users are as they were.
  pub dispatch-SameUsers :
      (polls : ℕ) (m prev : Msg) (d : Daemon env) (r : Reply env)
      → is_user_request m.type ≡ false
      → dispatch polls m prev d ≡ some r
      → SameUsers d.pa r.daemon.pa
  dispatch-SameUsers polls m prev d r other e =
      Replies-some (Untouched d) _ r (handle-Untouched polls m.type m prev d other) e

  user_names :
      (m : Msg) (d : Daemon env)
      → ((do_normal_user_mgr m d).daemon.pa.admin.user_name ≡ d.pa.admin.user_name)
        × ((do_normal_user_mgr m d).daemon.pa.normal.user_name ≡ d.pa.normal.user_name)
        × ((do_super_user_mgr m d).daemon.pa.admin.user_name ≡ d.pa.admin.user_name)
        × ((do_super_user_mgr m d).daemon.pa.normal.user_name ≡ d.pa.normal.user_name)
  unfolding do_normal_user_mgr do_super_user_mgr save_and_confirm param_save trace confirm
  user_names m d = ground arith

  handle-Preserved :
      (polls : ℕ) (kind : MsgType) (m prev : Msg) (d : Daemon env)
      → IsValid d.pa
      → Replies (λ r. Preserved d.pa r.daemon.pa) (handle polls kind m prev d)
  unfolding handle
  handle-Preserved polls normalusermgr_request m prev d v =
      let names = user_names m d in (names.0, names.1, do_normal_user_mgr-IsValid m d v)
  handle-Preserved polls superusermgr_request m prev d v =
      let names = user_names m d in (names.2, names.3, do_super_user_mgr-IsValid m d v)
  handle-Preserved polls kind m prev d v = Replies-intro _ (handle polls kind m prev d) λ r e.
      SameUsers-Preserved d.pa r.daemon.pa
        (Replies-some (Untouched d) _ r (handle-Untouched polls kind m prev d refl) e) v

  -- Every message, whatever its bytes, keeps the names of the users, and the configuration well
  -- formed.
  pub dispatch-Preserved :
      (polls : ℕ) (m prev : Msg) (d : Daemon env) (r : Reply env)
      → IsValid d.pa
      → dispatch polls m prev d ≡ some r
      → Preserved d.pa r.daemon.pa
  dispatch-Preserved polls m prev d r v e =
      Replies-some (λ r'. Preserved d.pa r'.daemon.pa) _ r
        (handle-Preserved polls m.type m prev d v) e
