-- ===== src/Web/Net/Interfaces.antt =====
-- What the interfaces show behind doNetConfigSave and doLanTest.
use cfg_mgr.Base.{
  ◌⊎◌, ℕ, ◌≡◌, ◌≢◌, refl, sym, ap, ◌∙◌, Option, none, some, inl, inr, arith, Bool-cases, ◌==◌,
  if◌then◌else◌, get_or,
}
use cfg_mgr.Base.Text.{Text, codes}
use cfg_mgr.Memory.{load}
use cfg_mgr.Message.{Msg, CfgMgrStatus, cfgmgr_ok, cfgmgr_err}
use cfg_mgr.Params.{Param, net_param_at}
use cfg_mgr.Env.{Env}
use cfg_mgr.Trace.{Daemon, user, debug_info, debug_err, trace}
use cfg_mgr.Config.{param_save, param_doc}
use cfg_mgr.Net.{set_net_parameters, net_name, net1_name, net2_name}
use cfg_mgr.Net.Device.{Device, SameShown, trace-SameShown, shown_of, set_net_parameters-Shown}
use cfg_mgr.Web.Confirm.{Reply, confirm}
use cfg_mgr.Web.Net.{
  lan_message, or_confirm, lan_ping, do_lan_test, with_net1, with_net2, save_or_confirm,
  do_net_config_save,
}
use cfg_mgr.Net.Laws.{set_net_parameters_pa}
use cfg_mgr.Web.Net.Laws.{lan_ping_pa}

-- A handler that answers CFGMGR_OK has got past each of its steps.
-- An answer CFGMGR_OK comes from behind the check.
pub or_confirm_ok :
    {env : Env} (o : Option (CfgMgrStatus × Daemon env)) (message : Text)
    (rest : Daemon env → Option (Reply env)) (r : Reply env)
    → or_confirm o message rest ≡ some r
    → r.status ≡ cfgmgr_ok
    → (d : Daemon env) × (o ≡ some (cfgmgr_ok, d)) × (rest d ≡ some r)
unfolding confirm
or_confirm_ok none message rest r h ok = cc
or_confirm_ok (some (cfgmgr_ok, d)) message rest r h ok = (d, refl, h)
or_confirm_ok (some (cfgmgr_err, d)) message rest r h ok = ground arith
or_confirm_ok (some (s, d)) message rest r h ok = ground arith

pub net_names_differ : net1_name ≢ net2_name
net_names_differ h = omega (arith, ap (λ (t : Text). get_or t 3 0) h)

module _ {env : Env} (device : Device env) where
  param_save-SameShown :
      (d : Daemon env)
      → (s : Env.Sys env) × ((j : Text) → device.shows j s ≡ device.shows j d.sys)
        × ((param_save d ≡ (cfgmgr_ok, record d { sys = s }))
            ⊎ (param_save d ≡ (cfgmgr_err, record d { sys = s })))
  unfolding param_save
  param_save-SameShown d =
      let (opens, sys') = Env.fopen_config env d.sys in
      elim (Bool-cases (Env.fopen_config env d.sys).0) [
        | inl opened ↦ (
          Env.save_file env (param_doc d.pa) sys',
          (λ j. device.save_file_keeps j _ _ ∙ device.fopen_config_keeps j d.sys),
          inl (rw opened refl),
        )
        | inr failed ↦ (sys', (λ j. device.fopen_config_keeps j d.sys), inr (rw failed refl))
      ]

  save_or_confirm-SameShown :
      (done : Text) (d : Daemon env) → SameShown device d (save_or_confirm done d).daemon
  unfolding confirm
  save_or_confirm-SameShown done d j =
      let (s, same, outcome) = param_save-SameShown d in
      elim outcome [
        | inl saved ↦
            rw (save_or_confirm, saved, ap (λ (p : CfgMgrStatus × Daemon env). p.1) saved)
              (trace-SameShown device debug_info user done (record d { sys = s }) j ∙ same j)
        | inr failed ↦
            rw (save_or_confirm, failed, ap (λ (p : CfgMgrStatus × Daemon env). p.1) failed)
              (trace-SameShown device debug_err user (codes "paramSave failed.")
                  (record d { sys = s }) j
                ∙ same j)
      ]

  -- When doNetConfigSave answers CFGMGR_OK, both interfaces show the parameters of the request.
  pub do_net_config_save-Shown :
      (polls : ℕ) (m : Msg) (d : Daemon env) (r : Reply env)
      → do_net_config_save polls m d ≡ some r
      → r.status ≡ cfgmgr_ok
      → (device.shows net1_name r.daemon.sys ≡ shown_of (net_param_at 0 m.payload))
        × (device.shows net2_name r.daemon.sys ≡ shown_of (net_param_at 24 m.payload))
  unfolding do_net_config_save
  do_net_config_save-Shown polls m d r h ok =
      let net1 = net_param_at 0 m.payload in
      let net2 = net_param_at 24 m.payload in
      let started = trace debug_info user (codes "Net config start") d in
      let (d₁, set₁, h₁) = or_confirm_ok (set_net_parameters polls net1 1 started) _ _ r h ok in
      let (_, shown₁, _) = set_net_parameters-Shown device polls net1 1 started d₁ set₁ in
      let between = with_net1 net1 d₁ in
      let (d₂, set₂, h₂) = or_confirm_ok (set_net_parameters polls net2 2 between) _ _ r h₁ ok in
      let (_, shown₂, others) = set_net_parameters-Shown device polls net2 2 between d₂ set₂ in
      let end : save_or_confirm (codes "Net config succ") (with_net2 net2 d₂) ≡ r = cc in
      let behind = λ (j : Text).
        ap (λ (x : Reply env). device.shows j x.daemon.sys) (sym end)
        ∙ save_or_confirm-SameShown (codes "Net config succ") (with_net2 net2 d₂) j in
      (
        behind net1_name ∙ others net1_name (λ e. net_names_differ (sym e)) ∙ shown₁,
        behind net2_name ∙ shown₂,
      )

  -- When doLanTest answers CFGMGR_OK, the interface shows the parameters of the configuration again.
  pub do_lan_test-Shown :
      (polls : ℕ) (m : Msg) (n : ℕ) (d : Daemon env) (r : Reply env)
      → do_lan_test polls m n d ≡ some r
      → r.status ≡ cfgmgr_ok
      → device.shows (net_name n) r.daemon.sys
        ≡ shown_of (if n == 1 then d.pa.lan1.net else d.pa.lan2.net)
  unfolding do_lan_test confirm trace
  do_lan_test-Shown polls m n d r h ok =
      let started = trace debug_info user (lan_message n (codes " start")) d in
      let (set, set₁, h₁) =
        or_confirm_ok (set_net_parameters polls (net_param_at 0 m.payload) n started) _ _ r h ok in
      let pinged = (lan_ping n (load 4 24 m.payload) set).1 in
      let origin = if n == 1 then pinged.pa.lan1.net else pinged.pa.lan2.net in
      let (back, set₂, h₂) = or_confirm_ok (set_net_parameters polls origin n pinged) _ _ r h₁ ok in
      let (_, shown, _) = set_net_parameters-Shown device polls origin n pinged back set₂ in
      let same : pinged.pa ≡ d.pa =
        lan_ping_pa n (load 4 24 m.payload) set
        ∙ set_net_parameters_pa polls _ n started set cfgmgr_ok set₁ in
      let end : confirm cfgmgr_ok (trace debug_info user (lan_message n (codes " OK")) back) ≡ r =
        cc in
      ap (λ (x : Reply env). device.shows (net_name n) x.daemon.sys) (sym end)
      ∙ trace-SameShown device debug_info user (lan_message n (codes " OK")) back (net_name n)
      ∙ shown
      ∙ ap (λ (p : Param). shown_of (if n == 1 then p.lan1.net else p.lan2.net)) same
