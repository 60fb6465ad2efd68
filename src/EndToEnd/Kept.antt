-- ===== src/EndToEnd/Kept.antt =====
-- What a restart of the daemon keeps of the settings that a form has saved.
use mathlib.Core.Path.{subst}
use mathlib.Core.Option.{some-injective}
use cfg_mgr.Base.{ℕ, ◌≡◌, refl, ◌∙◌, ap, sym, true, some, arith}
use cfg_mgr.Base.Text.{IsCstr}
use cfg_mgr.Message.{Msg, cfgmgr_ok}
use cfg_mgr.Params.{NetParam, CaptureParam, FilterParam, Param}
use cfg_mgr.Env.{Env, Doc}
use cfg_mgr.Trace.{Daemon}
use cfg_mgr.Config.{param_doc, param_save}
use cfg_mgr.Config.Load.{param_load}
use cfg_mgr.Config.Words.{IsWord, Worded}
use cfg_mgr.Config.Load.Traces.{load_traces, trace_all, trace_all-pa}
use cfg_mgr.Config.RoundTrip.{reloaded, as_flag-bit, param_load-param_doc}
use cfg_mgr.Net.{net1_name, net2_name}
use cfg_mgr.Net.Device.{Device, shown_of}
use cfg_mgr.Web.Confirm.{Reply}
use cfg_mgr.Web.Net.{do_net_capture, do_net_filter}
use cfg_mgr.Web.Net.Written.{
  Filed, Saved, do_net_capture-Saved, do_net_filter-Saved, do_net_config_save-Saved,
}
use cfg_mgr.Web.Users.Written.{Persists, file}
use cfg_mgr.Web.Dispatch.{start, set_both, arrived}
use cfg_mgr.Web.Dispatch.Start.{set_both_pa, start-loaded}
use cfg_mgr.Cgi.{Form}
use cfg_mgr.Cgi.Net.{net_param_get, capture_param_get, filter_param_get}
use cfg_mgr.Cgi.Net.Fields.{net_param_get-IsNet, capture_param_get-fits, filter_param_get-fits}
use cfg_mgr.EndToEnd.{handled-net_config_save, submit-net_config_save}
use cfg_mgr.EndToEnd.Interfaces.{start-InStep}
use cfg_mgr.EndToEnd.Routes.{submit, Asks}
use cfg_mgr.EndToEnd.Settings.{handled-net_capture, handled-net_filter}
use cfg_mgr.EndToEnd.Storable.{Storable, Storable-Worded, lans-Storable}

-- The configuration that a daemon has after a restart on what it has saved.
abbrev pub reloaded_param : Param → Param
reloaded_param p = record p { lan1 = reloaded p.lan1; lan2 = reloaded p.lan2 }

module _ {env : Env} (holds : Persists env) where
  param_save_opens :
      (d : Daemon env)
      → param_save d ≡ (
        cfgmgr_ok,
        record d { sys = Env.save_file env (param_doc d.pa) (Env.fopen_config env d.sys).1 },
      )
  unfolding param_save
  param_save_opens d = ground (arith, holds.opens d.sys)

  -- paramSave succeeds and leaves a file from which paramLoad reads the configuration as it was, but
  -- for its flags: isCapture is in both interfaces the saved isAutoUpLoad, isAutoUpLoad is 0, and
  -- every other flag 0 or 1. The configuration can be stored: names and passwords of 1 to 20
  -- characters, 32-bit addresses, six bytes of MAC, paths of at most 255 characters, and no blank in
  -- a text; the file can be opened, and a document without blanks is loaded as it was saved.
  pub param_save-param_load :
      (temp : ℕ) (d : Daemon env)
      → Storable d.pa
      → (e : Daemon env) × (doc : Doc) × (param_save d ≡ (cfgmgr_ok, e))
        × (file e ≡ some doc)
        × (param_load temp doc ≡ some (reloaded_param d.pa))
  param_save-param_load temp d v = (
    _,
    param_doc d.pa,
    param_save_opens d,
    holds.loads (param_doc d.pa) _ (Storable-Worded d.pa v),
    param_load-param_doc temp d.pa v.valid v.admin_texts v.normal_texts v.net1 v.net2 v.path1
        v.path2,
  )

module _ {env : Env} (holds : Persists env) (temp polls : ℕ) where
  start_reloaded :
      (e boot : Daemon env)
      → Storable e.pa
      → (Worded (param_doc e.pa) → Filed e)
      → boot.sys ≡ e.sys
      → (up : Daemon env) × (start polls temp boot ≡ set_both polls up)
        × (up.pa ≡ reloaded_param e.pa)
  start_reloaded e boot v filed sys =
      let loaded =
        param_load-param_doc temp e.pa v.valid v.admin_texts v.normal_texts v.net1 v.net2 v.path1
          v.path2 in
      let found = ap (λ s. (Env.load_file env s).0) sys ∙ filed (Storable-Worded e.pa v) in
      let doc = param_doc e.pa in
      let p = reloaded_param e.pa in
      let read : Daemon env = record boot { sys = (Env.load_file env boot.sys).1; pa = p } in
      (
        trace_all (load_traces doc p) read,
        start-loaded polls temp boot doc p found loaded,
        trace_all-pa (load_traces doc p) read,
      )

  module _ (form : Form) (m prev : Msg) (d : Daemon env) (temp' : ℕ) (v : Storable d.pa) where
    -- The form has capture settings for both interfaces, with paths of at most 254 printable
    -- characters without blanks. It is answered CFGMGR_OK. When the daemon is started anew with what
    -- this has left on the device, paramLoad succeeds, but each interface captures exactly if the
    -- form asked it to upload, and no interface uploads; the paths are the form's. The configuration
    -- can be stored, with names, passwords and paths without blanks, and the file can be opened and
    -- is kept.
    pub submit-net_capture-lost :
        (c1 c2 : CaptureParam) (r : Reply env) (boot : Daemon env)
        → Asks "Function_NetCapture" form
        → capture_param_get form 1 ≡ some c1
        → capture_param_get form 2 ≡ some c2
        → IsCstr 254 c1.auto_up_load_path
        → IsCstr 254 c2.auto_up_load_path
        → IsWord c1.auto_up_load_path
        → IsWord c2.auto_up_load_path
        → submit temp' polls form m prev d ≡ some r
        → boot.sys ≡ r.daemon.sys
        → (r.status ≡ cfgmgr_ok)
          × (up : Daemon env) × (start polls temp boot ≡ set_both polls up)
          × (up.pa.lan1.capture
              ≡ record c1 { is_capture = c1.is_auto_up_load; is_auto_up_load = 0 })
          × (up.pa.lan2.capture
              ≡ record c2 { is_capture = c2.is_auto_up_load; is_auto_up_load = 0 })
    submit-net_capture-lost c1 c2 r boot asks e1 e2 p1 p2 w1 w2 answered sys =
        let (q, served, kind, pa) =
          handled-net_capture temp' polls form m prev d c1 c2 asks e1 e2 p1 p2 in
        let s = do_net_capture q (arrived q d) in
        let end : s ≡ r = some-injective _ _ (sym served ∙ answered) in
        let saved = subst Saved end (do_net_capture-Saved holds q (arrived q d)) in
        let pa' = ap (λ (x : Reply env). x.daemon.pa) (sym end) ∙ pa in
        let fits1 = p1.fits in
        let fits2 = p2.fits in
        let stored : Storable r.daemon.pa = subst Storable (sym pa') (
          lans-Storable d.pa _ _ v v.net1 v.net2 (omega (arith, fits1)) (omega (arith, fits2)) w1
            w2) in
        let (up, begun, same) = start_reloaded r.daemon boot stored saved.1 sys in
        let found = same ∙ ap reloaded_param pa' in
        let (_, upload1) = capture_param_get-fits form 1 c1 e1 in
        let (_, upload2) = capture_param_get-fits form 2 c2 e2 in
        (
          saved.0,
          up,
          begun,
          ap (λ (p : Param). p.lan1.capture) found
              ∙ rw (as_flag-bit c1.is_auto_up_load upload1) refl,
          ap (λ (p : Param). p.lan2.capture) found
              ∙ rw (as_flag-bit c2.is_auto_up_load upload2) refl,
        )

    -- The form has filter settings for both interfaces. It is answered CFGMGR_OK, and when the daemon
    -- is started anew with what this has left on the device, paramLoad succeeds and finds the form's
    -- settings. The configuration can be stored, with names, passwords and paths without blanks, and
    -- the file can be opened and is kept.
    pub submit-net_filter-kept :
        (f1 f2 : FilterParam) (r : Reply env) (boot : Daemon env)
        → Asks "Function_NetFilter" form
        → filter_param_get form 1 ≡ some f1
        → filter_param_get form 2 ≡ some f2
        → submit temp' polls form m prev d ≡ some r
        → boot.sys ≡ r.daemon.sys
        → (r.status ≡ cfgmgr_ok)
          × (up : Daemon env) × (start polls temp boot ≡ set_both polls up)
          × (up.pa.lan1.filter ≡ f1)
          × (up.pa.lan2.filter ≡ f2)
    submit-net_filter-kept f1 f2 r boot asks e1 e2 answered sys =
        let (q, served, kind, pa) = handled-net_filter temp' polls form m prev d f1 f2 asks e1 e2 in
        let s = do_net_filter q (arrived q d) in
        let end : s ≡ r = some-injective _ _ (sym served ∙ answered) in
        let saved = subst Saved end (do_net_filter-Saved holds q (arrived q d)) in
        let pa' = ap (λ (x : Reply env). x.daemon.pa) (sym end) ∙ pa in
        let same_nets =
          lans-Storable d.pa _ _ v v.net1 v.net2 v.path1 v.path2 v.path1_word v.path2_word in
        let stored : Storable r.daemon.pa = subst Storable (sym pa') same_nets in
        let (up, begun, same) = start_reloaded r.daemon boot stored saved.1 sys in
        let found = same ∙ ap reloaded_param pa' in
        let flag1 = filter_param_get-fits form 1 f1 e1 in
        let flag2 = filter_param_get-fits form 2 f2 e2 in
        (
          saved.0,
          up,
          begun,
          ap (λ (p : Param). p.lan1.filter) found ∙ rw (as_flag-bit f1.is_filter flag1) refl,
          ap (λ (p : Param). p.lan2.filter) found ∙ rw (as_flag-bit f2.is_filter flag2) refl,
        )

    -- The form has parameters for both interfaces, and is answered CFGMGR_OK. When the daemon is
    -- then started anew with what this has left on the device, and gets to its loop, both interfaces
    -- show the form's parameters, and the configuration has them. The configuration can be stored,
    -- with names, passwords and paths without blanks, the file can be opened and is kept, and the
    -- ioctls do what they are documented to do.
    pub submit-net_config_save-kept :
        (device : Device env) (net1 net2 : NetParam) (r : Reply env) (boot f : Daemon env)
        → Asks "Function_NetConfigSave" form
        → net_param_get temp' form 1 ≡ some net1
        → net_param_get temp' form 2 ≡ some net2
        → submit temp' polls form m prev d ≡ some r
        → r.status ≡ cfgmgr_ok
        → boot.sys ≡ r.daemon.sys
        → start polls temp boot ≡ some (true, f)
        → (f.pa.lan1.net ≡ net1)
          × (f.pa.lan2.net ≡ net2)
          × (device.shows net1_name f.sys ≡ shown_of net1)
          × (device.shows net2_name f.sys ≡ shown_of net2)
    submit-net_config_save-kept device net1 net2 r boot f asks e1 e2 answered ok sys started =
        let (v1, dhcp1) = net_param_get-IsNet temp' form 1 net1 e1 in
        let (v2, dhcp2) = net_param_get-IsNet temp' form 2 net2 e2 in
        let (q, handled, _, _) =
          handled-net_config_save temp' polls form m prev d net1 net2 r asks e1 e2 answered in
        let pa =
          submit-net_config_save temp' polls form m prev d net1 net2 r asks e1 e2 answered ok in
        let filed = (do_net_config_save-Saved holds polls q (arrived q d) r handled ok).1 in
        let stored : Storable r.daemon.pa =
          subst Storable (sym pa)
            (lans-Storable d.pa _ _ v v1 v2 v.path1 v.path2 v.path1_word v.path2_word) in
        let (up, begun, same) = start_reloaded r.daemon boot stored filed sys in
        let end = set_both_pa polls up f true (sym begun ∙ started) ∙ same ∙ ap reloaded_param pa in
        let shown = start-InStep device polls temp boot f started in
        let at1 : f.pa.lan1.net ≡ net1 =
          ap (λ (p : Param). p.lan1.net) end ∙ rw (as_flag-bit net1.is_dhcp dhcp1) refl in
        let at2 : f.pa.lan2.net ≡ net2 =
          ap (λ (p : Param). p.lan2.net) end ∙ rw (as_flag-bit net2.is_dhcp dhcp2) refl in
        (at1, at2, shown.first ∙ ap shown_of at1, shown.second ∙ ap shown_of at2)
