-- ===== src/EndToEnd/Interfaces.antt =====
-- What the interfaces show once webProcess has started, and behind the network form.
use cfg_mgr.Base.{
  ℕ, ◌≡◌, refl, sym, ap, ◌∙◌, Bool, true, Option, some, inl, inr, Option-cases, bind-some,
}
use cfg_mgr.Base.Text.{Text}
use cfg_mgr.Message.{Msg, CfgMgrStatus, cfgmgr_ok, cfgmgr_err}
use cfg_mgr.Params.{Param, NetParam}
use cfg_mgr.Env.{Env}
use cfg_mgr.Trace.{Daemon}
use cfg_mgr.Config.Load.{param_load}
use cfg_mgr.Net.{set_net_parameters, net1_name, net2_name}
use cfg_mgr.Net.Device.{Device, shown_of, set_net_parameters-Shown}
use cfg_mgr.Net.Laws.{set_net_parameters_pa}
use cfg_mgr.Web.Confirm.{Reply}
use cfg_mgr.Web.Net.Interfaces.{do_net_config_save-Shown, net_names_differ}
use cfg_mgr.Web.Dispatch.{start, set_both, or_stop, arrived}
use cfg_mgr.Cgi.{Form}
use cfg_mgr.Cgi.Net.{net_param_get}
use cfg_mgr.EndToEnd.{handled-net_config_save, submit-net_config_save}
use cfg_mgr.EndToEnd.Routes.{submit, Asks}

or_stop_ready :
    {env : Env} (r : CfgMgrStatus × Daemon env) (message : Text)
    (rest : Daemon env → Option (Bool × Daemon env)) (f : Daemon env)
    → or_stop r message rest ≡ some (true, f)
    → (d : Daemon env) × (r ≡ (cfgmgr_ok, d)) × (rest d ≡ some (true, f))
or_stop_ready (cfgmgr_ok, d) message rest f h = (d, refl, h)
or_stop_ready (cfgmgr_err, d) message rest f h = cc
or_stop_ready (s, d) message rest f h = cc

module _ {env : Env} (device : Device env) where
  -- The interfaces show the addresses of the configuration.
  pub record InStep (d : Daemon env) : Type 0 where
    pub first : device.shows net1_name d.sys ≡ shown_of d.pa.lan1.net
    pub second : device.shows net2_name d.sys ≡ shown_of d.pa.lan2.net

  set_both-InStep : (polls : ℕ) (d f : Daemon env) → set_both polls d ≡ some (true, f) → InStep f
  unfolding set_both
  set_both-InStep polls d f h =
      let (r₁, ended₁, h₁) = bind-some (set_net_parameters polls d.pa.lan1.net 1 d) _ _ h in
      let (d₁, ok₁, h₂) = or_stop_ready r₁ _ _ f h₁ in
      let done₁ = ended₁ ∙ ap some ok₁ in
      let (r₂, ended₂, h₃) = bind-some (set_net_parameters polls d₁.pa.lan2.net 2 d₁) _ _ h₂ in
      let (d₂, ok₂, h₄) = or_stop_ready r₂ _ _ f h₃ in
      let done₂ = ended₂ ∙ ap some ok₂ in
      let (_, shown₁, _) = set_net_parameters-Shown device polls d.pa.lan1.net 1 d d₁ done₁ in
      let (_, shown₂, others) =
        set_net_parameters-Shown device polls d₁.pa.lan2.net 2 d₁ d₂ done₂ in
      let same₁ = set_net_parameters_pa polls _ 1 d d₁ cfgmgr_ok done₁ in
      let same₂ = set_net_parameters_pa polls _ 2 d₁ d₂ cfgmgr_ok done₂ in
      let last : d₂ ≡ f = cc in
      let moved = λ (j : Text). ap (λ (x : Daemon env). device.shows j x.sys) (sym last) in
      let kept : d₁.pa ≡ f.pa = sym same₂ ∙ ap (λ (x : Daemon env). x.pa) last in
      record {
        first =
            moved net1_name
            ∙ others net1_name (λ e. net_names_differ (sym e))
            ∙ shown₁
            ∙ ap (λ (p : Param). shown_of p.lan1.net) (sym same₁ ∙ kept);
        second = moved net2_name ∙ shown₂ ∙ ap (λ (p : Param). shown_of p.lan2.net) kept;
      }

  -- When webProcess gets to its loop, the interfaces show what the configuration has for them.
  pub start-InStep :
      (polls temp : ℕ) (boot f : Daemon env) → start polls temp boot ≡ some (true, f) → InStep f
  unfolding start
  start-InStep polls temp boot f h = elim (Option-cases (Env.load_file env boot.sys).0) [
    | inl missing ↦ cc
    | inr (doc, found) ↦
        let (p, loaded, set) = bind-some (param_load temp doc) _ _ (rw (start, found) at h) in
        set_both-InStep polls _ f set
  ]

  -- The form has parameters for both interfaces. If it
  -- is answered, and with CFGMGR_OK, both interfaces show exactly these parameters; the configuration
  -- has them for its two interfaces, and is otherwise unchanged.
  pub submit-net_config_save-Shown :
      (temp polls : ℕ) (form : Form) (m prev : Msg) (d : Daemon env) (net1 net2 : NetParam)
      (r : Reply env)
      → Asks "Function_NetConfigSave" form
      → net_param_get temp form 1 ≡ some net1
      → net_param_get temp form 2 ≡ some net2
      → submit temp polls form m prev d ≡ some r
      → r.status ≡ cfgmgr_ok
      → (device.shows net1_name r.daemon.sys ≡ shown_of net1)
        × (device.shows net2_name r.daemon.sys ≡ shown_of net2)
        × (r.daemon.pa ≡ record d.pa {
          lan1 = record d.pa.lan1 { net = net1 };
          lan2 = record d.pa.lan2 { net = net2 };
        })
  submit-net_config_save-Shown temp polls form m prev d net1 net2 r asks e1 e2 answered ok =
      let (q, handled, at1, at2) =
        handled-net_config_save temp polls form m prev d net1 net2 r asks e1 e2 answered in
      let (shown₁, shown₂) = do_net_config_save-Shown device polls q (arrived q d) r handled ok in
      (
        shown₁ ∙ ap shown_of at1,
        shown₂ ∙ ap shown_of at2,
        submit-net_config_save temp polls form m prev d net1 net2 r asks e1 e2 answered ok,
      )
