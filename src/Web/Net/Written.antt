-- ===== src/Web/Net/Written.antt =====
-- What the network requests write to the configuration file.
use mathlib.Core.Path.{subst}
use cfg_mgr.Base.{ℕ, ◌≡◌, refl, ◌∙◌, some, arith}
use cfg_mgr.Base.Text.{Text, codes}
use cfg_mgr.Message.{Msg, cfgmgr_ok}
use cfg_mgr.Params.{net_param_at}
use cfg_mgr.Env.{Env}
use cfg_mgr.Trace.{Daemon, user, debug_info, trace}
use cfg_mgr.Config.{param_save, param_doc}
use cfg_mgr.Config.Words.{Worded}
use cfg_mgr.Net.{set_net_parameters}
use cfg_mgr.Web.Confirm.{Reply, confirm}
use cfg_mgr.Web.Net.{
  save_or_confirm, with_net1, with_net2, do_net_config_save, do_net_capture, do_net_filter,
}
use cfg_mgr.Web.Net.Interfaces.{or_confirm_ok}
use cfg_mgr.Web.Users.Written.{Persists, file, file-trace}

-- The file has the configuration.
abbrev pub Filed : {env : Env} → Daemon env → Type 0
Filed d = file d ≡ some (param_doc d.pa)

-- It has been saved, and the answer says so; the file has it if there is no blank in it.
abbrev pub Saved : {env : Env} → Reply env → Type 0
Saved r = (r.status ≡ cfgmgr_ok) × (Worded (param_doc r.daemon.pa) → Filed r.daemon)

module _ {env : Env} (holds : Persists env) where
  save_or_confirm-opened :
      (done : Text) (e : Daemon env)
      → save_or_confirm done e
        ≡ confirm cfgmgr_ok (
            trace debug_info user done (record e {
              sys = Env.save_file env (param_doc e.pa) (Env.fopen_config env e.sys).1;
            }))
  unfolding param_save
  save_or_confirm-opened done e = ground (arith, holds.opens e.sys)

  confirm-Saved :
      (done : Text) (e : Daemon env)
      → (Worded (param_doc e.pa) → Filed e)
      → Saved (confirm cfgmgr_ok (trace debug_info user done e))
  unfolding confirm trace
  confirm-Saved done e saved = (refl, λ w. file-trace holds debug_info user done e ∙ saved w)

  save_or_confirm-Saved : (done : Text) (e : Daemon env) → Saved (save_or_confirm done e)
  save_or_confirm-Saved done e =
      rw (save_or_confirm-opened done e)
        (confirm-Saved done _ (holds.loads (param_doc e.pa) (Env.fopen_config env e.sys).1))

  pub do_net_capture-Saved : (m : Msg) (d : Daemon env) → Saved (do_net_capture m d)
  unfolding do_net_capture
  do_net_capture-Saved m d = save_or_confirm-Saved (codes "Net Capture succ") _

  pub do_net_filter-Saved : (m : Msg) (d : Daemon env) → Saved (do_net_filter m d)
  unfolding do_net_filter
  do_net_filter-Saved m d = save_or_confirm-Saved (codes "Net Filter succ") _

  pub do_net_config_save-Saved :
      (polls : ℕ) (m : Msg) (d : Daemon env) (r : Reply env)
      → do_net_config_save polls m d ≡ some r
      → r.status ≡ cfgmgr_ok
      → Saved r
  unfolding do_net_config_save
  do_net_config_save-Saved polls m d r h ok =
      let net1 = net_param_at 0 m.payload in
      let net2 = net_param_at 24 m.payload in
      let started = trace debug_info user (codes "Net config start") d in
      let (d₁, _, h₁) = or_confirm_ok (set_net_parameters polls net1 1 started) _ _ r h ok in
      let (d₂, _, h₂) =
        or_confirm_ok (set_net_parameters polls net2 2 (with_net1 net1 d₁)) _ _ r h₁ ok in
      let end : save_or_confirm (codes "Net config succ") (with_net2 net2 d₂) ≡ r = cc in
      subst Saved end (save_or_confirm-Saved (codes "Net config succ") (with_net2 net2 d₂))
