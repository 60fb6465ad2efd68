-- ===== src/Web/Dispatch/Start.antt =====
-- The start of webProcess up to its loop: what it makes of the configuration file.
use cfg_mgr.Base.{ℕ, ◌≡◌, refl, ◌∙◌, ap, sym, Bool, Option, none, some, arith, ◌>>=◌}
use cfg_mgr.Base.Text.{Text}
use cfg_mgr.Message.{CfgMgrStatus, cfgmgr_ok}
use cfg_mgr.Params.{Param}
use cfg_mgr.Env.{Env, Doc}
use cfg_mgr.Trace.{Daemon, trace}
use cfg_mgr.Net.{set_net_parameters}
use cfg_mgr.Net.Laws.{set_net_parameters_pa}
use cfg_mgr.Config.Load.{param_load}
use cfg_mgr.Config.Load.Traces.{load_traces, trace_all}
use cfg_mgr.Web.Dispatch.{start, set_both, or_stop}

module _ {env : Env} (polls : ℕ) where
  or_stop_pa :
      (p : Param) (o : Option (CfgMgrStatus × Daemon env)) (message : Text)
      (rest : Daemon env → Option (Bool × Daemon env)) (f : Daemon env) (ready : Bool)
      → ((s : CfgMgrStatus) (e : Daemon env) → o ≡ some (s, e) → e.pa ≡ p)
      → ((e : Daemon env) → e.pa ≡ p → rest e ≡ some (ready, f) → f.pa ≡ p)
      → (o >>= λ x. or_stop x message rest) ≡ some (ready, f)
      → f.pa ≡ p
  unfolding trace
  or_stop_pa p none message rest f ready kept next h = cc
  or_stop_pa p (some (cfgmgr_ok, e)) message rest f ready kept next h =
      next e (kept cfgmgr_ok e refl) h
  or_stop_pa p (some (s, e)) message rest f ready kept next h =
      let same = kept s e refl in ground (arith, same)

  pub set_both_pa :
      (d f : Daemon env) (ready : Bool) → set_both polls d ≡ some (ready, f) → f.pa ≡ d.pa
  unfolding set_both
  set_both_pa d f ready h =
      or_stop_pa d.pa (set_net_parameters polls d.pa.lan1.net 1 d) _ _ f ready
        (λ s e h₁. set_net_parameters_pa polls d.pa.lan1.net 1 d e s h₁)
        (λ d₁ same₁ h₁.
          or_stop_pa d.pa (set_net_parameters polls d₁.pa.lan2.net 2 d₁) _ _ f ready
            (λ s e h₂. set_net_parameters_pa polls d₁.pa.lan2.net 2 d₁ e s h₂ ∙ same₁)
            (λ d₂ same₂ h₂.
              let same : d₂ ≡ f = cc in ap (λ (x : Daemon env). x.pa) (sym same) ∙ same₂)
            h₁)
        h

  pub start-loaded :
      (temp : ℕ) (boot : Daemon env) (doc : Doc) (p : Param)
      → (Env.load_file env boot.sys).0 ≡ some doc
      → param_load temp doc ≡ some p
      → start polls temp boot
        ≡ set_both polls (
            trace_all
              (load_traces doc p)
              (record boot { sys = (Env.load_file env boot.sys).1; pa = p }))
  unfolding start
  start-loaded temp boot doc p found loaded = ground (arith, found, loaded)
