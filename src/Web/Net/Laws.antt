-- ===== src/Web/Net/Laws.antt =====
-- The outcome of a LAN test and of saving the network configuration.
use cfg_mgr.Base.{
  ℕ, ◌≡◌, ◌≢◌, refl, sym, ◌∙◌, ap, Option, none, some, ◌⊎◌, inl, inr, arith, if◌then◌else◌, ◌==◌,
}
use mathlib.Core.Path.{subst}
use mathlib.Core.Option.{some-injective}
use cfg_mgr.Trace.Laws.{pa-trace}
use cfg_mgr.Base.Text.{Text, codes}
use cfg_mgr.Memory.{load}
use cfg_mgr.Message.{
  Msg, CfgMgrStatus, cfgmgr_ok, cfgmgr_err, net_number_invalid, ip_invalid, network_unreachable,
}
use cfg_mgr.Params.{Param, net_param_at}
use cfg_mgr.Env.{Env}
use cfg_mgr.Trace.{Daemon, user, debug_info, trace}
use cfg_mgr.Net.{set_net_parameters}
use cfg_mgr.Net.Laws.{IsNetStatus, Ends, set_net_parameters-Ends, set_net_parameters_pa}
use cfg_mgr.Config.{param_save}
use cfg_mgr.Web.Confirm.{Reply, confirm}
use cfg_mgr.Web.Net.{
  lan_message, or_confirm, lan_ping, do_lan_test, with_net1, with_net2, save_or_confirm,
  do_net_config_save,
}

net_status_reachable : (status : CfgMgrStatus) → IsNetStatus status → status ≢ network_unreachable
net_status_reachable cfgmgr_ok h e = cc
net_status_reachable cfgmgr_err h e = cc
net_status_reachable net_number_invalid h e = cc
net_status_reachable ip_invalid h e = cc
net_status_reachable network_unreachable h e = elim h [ ]
net_status_reachable status h e = elim h [ ]

module _ {env : Env} where
  -- A property of the reply, where the handler ends.
  abbrev pub Replies : (Reply env → Type 0) → Option (Reply env) → Type 0
  Replies P none = Unit
  Replies P (some r) = P r

  pub or_confirm-Replies :
      (P : Reply env → Type 0) (d : Daemon env) (o : Option (CfgMgrStatus × Daemon env))
      (message : Text) (rest : Daemon env → Option (Reply env))
      → Ends d o
      → ((status : CfgMgrStatus) (e : Daemon env)
          → IsNetStatus status
          → status ≢ cfgmgr_ok
          → e.pa ≡ d.pa
          → P (confirm status e))
      → ((e : Daemon env) → e.pa ≡ d.pa → Replies P (rest e))
      → Replies P (or_confirm o message rest)
  unfolding trace
  or_confirm-Replies P d none message rest h failed next = tt
  or_confirm-Replies P d (some (cfgmgr_ok, e)) message rest h failed next = next e h.1.same_pa
  or_confirm-Replies P d (some (cfgmgr_err, e)) message rest h failed next =
      failed cfgmgr_err _ h.0 (λ x. cc) h.1.same_pa
  or_confirm-Replies P d (some (status, e)) message rest h failed next =
      failed _ _ h.0 (λ x. cc) h.1.same_pa

  pub Replies-some :
      (P : Reply env → Type 0) (o : Option (Reply env)) (r : Reply env)
      → Replies P o
      → o ≡ some r
      → P r
  Replies-some P none r h e = cc
  Replies-some P (some r') r h e = let same : r' ≡ r = cc in subst P same h

  pub lan_ping_pa : (n dest : ℕ) (d : Daemon env) → (lan_ping n dest d).1.pa ≡ d.pa
  unfolding lan_ping trace
  lan_ping_pa n dest d = ground arith

  abbrev LanTested : Daemon env → Reply env → Type 0
  LanTested d r = (r.status ≢ network_unreachable) × (r.daemon.pa ≡ d.pa)

  lan_test-Replies :
      (polls : ℕ) (m : Msg) (n : ℕ) (d : Daemon env)
      → Replies (LanTested d) (do_lan_test polls m n d)
  unfolding do_lan_test confirm trace
  lan_test-Replies polls m n d =
      let started = trace debug_info user (lan_message n (codes " start")) d in
      or_confirm-Replies (LanTested d) started
        (set_net_parameters polls (net_param_at 0 m.payload) n started) _ _
        (set_net_parameters-Ends polls _ n started)
        (λ status e ns _ same. (net_status_reachable status ns, same))
        λ set same.
          let pinged = (lan_ping n (load 4 24 m.payload) set).1 in
          let kept = lan_ping_pa n (load 4 24 m.payload) set ∙ same in
          let origin = if n == 1 then pinged.pa.lan1.net else pinged.pa.lan2.net in
          or_confirm-Replies (LanTested d) pinged (set_net_parameters polls origin n pinged) _ _
            (set_net_parameters-Ends polls origin n pinged)
            (λ status e ns _ same'. (net_status_reachable status ns, same' ∙ kept))
            λ back same'. ((λ e. cc), same' ∙ kept)

  -- A LAN test never answers CFGMGR_NETWORK_UNREACHABLE, whether or not the ping was answered, and
  -- leaves the configuration as it was.
  pub do_lan_test_never_unreachable :
      (polls : ℕ) (m : Msg) (n : ℕ) (d : Daemon env) (r : Reply env)
      → do_lan_test polls m n d ≡ some r
      → (r.status ≢ network_unreachable) × (r.daemon.pa ≡ d.pa)
  do_lan_test_never_unreachable polls m n d r e =
      Replies-some (LanTested d) _ r (lan_test-Replies polls m n d) e

  -- What saving a configuration leaves: `new` if the status is CFGMGR_OK; and in any case the old
  -- configuration, the one with the first interface's parameters only, or `new`.
  abbrev ConfigSaved : Param → Param → Param → Reply env → Type 0
  ConfigSaved old half new r =
      ((r.daemon.pa ≡ new) × (r.status ≡ cfgmgr_ok))
      ⊎ ((r.status ≢ cfgmgr_ok)
          × ((r.daemon.pa ≡ old) ⊎ (r.daemon.pa ≡ half) ⊎ (r.daemon.pa ≡ new)))

  save_or_confirm-ConfigSaved :
      (old half : Param) (done : Text) (d : Daemon env)
      → ConfigSaved old half d.pa (save_or_confirm done d)
  unfolding param_save trace confirm
  save_or_confirm-ConfigSaved old half done d = ground arith

  ConfigSaved-new :
      (old half new : Param) (r : Reply env)
      → ConfigSaved old half new r
      → r.status ≡ cfgmgr_ok
      → r.daemon.pa ≡ new
  ConfigSaved-new old half new r (inl h) ok = h.0
  ConfigSaved-new old half new r (inr h) ok = absurd (h.0 ok)

  ConfigSaved-one_of :
      (old half new : Param) (r : Reply env)
      → ConfigSaved old half new r
      → (r.daemon.pa ≡ old) ⊎ (r.daemon.pa ≡ half) ⊎ (r.daemon.pa ≡ new)
  ConfigSaved-one_of old half new r (inl h) = inr (inr h.0)
  ConfigSaved-one_of old half new r (inr h) = h.1

  net_config_save-Replies :
      (polls : ℕ) (m : Msg) (d : Daemon env)
      → let net1 = net_param_at 0 m.payload in
        let net2 = net_param_at 24 m.payload in
        let half = (with_net1 net1 d).pa in
        Replies
          (ConfigSaved d.pa half (with_net2 net2 (with_net1 net1 d)).pa)
          (do_net_config_save polls m d)
  unfolding do_net_config_save trace confirm
  net_config_save-Replies polls m d =
      let net1 = net_param_at 0 m.payload in
      let net2 = net_param_at 24 m.payload in
      let started = trace debug_info user (codes "Net config start") d in
      let half = (with_net1 net1 d).pa in
      let new = (with_net2 net2 (with_net1 net1 d)).pa in
      or_confirm-Replies (ConfigSaved d.pa half new) started
        (set_net_parameters polls net1 1 started) _ _ (set_net_parameters-Ends polls net1 1 started)
        (λ status e _ failed same. inr (failed, inl same))
        λ d₁ same₁.
          let d₁' = with_net1 net1 d₁ in
          let kept : d₁'.pa ≡ half =
            ap (λ (p : Param). record p { lan1 = record p.lan1 { net = net1 } }) same₁ in
          or_confirm-Replies (ConfigSaved d.pa half new) d₁' (set_net_parameters polls net2 2 d₁') _
            _ (set_net_parameters-Ends polls net2 2 d₁')
            (λ status e _ failed same. inr (failed, inr (inl (same ∙ kept))))
            λ d₂ same₂.
              let all : (with_net2 net2 d₂).pa ≡ new =
                ap (λ (p : Param). record p { lan2 = record p.lan2 { net = net2 } })
                  (same₂ ∙ kept) in
              let done = codes "Net config succ" in
              subst (λ p. ConfigSaved d.pa half p (save_or_confirm done (with_net2 net2 d₂))) all
                (save_or_confirm-ConfigSaved d.pa half done (with_net2 net2 d₂))

  -- When saving the network configuration answers CFGMGR_OK, the configuration has the two sets of
  -- parameters of the request for its interfaces and is otherwise unchanged.
  pub do_net_config_save_done :
      (polls : ℕ) (m : Msg) (d : Daemon env) (r : Reply env)
      → do_net_config_save polls m d ≡ some r
      → r.status ≡ cfgmgr_ok
      → r.daemon.pa ≡ record d.pa {
        lan1 = record d.pa.lan1 { net = net_param_at 0 m.payload };
        lan2 = record d.pa.lan2 { net = net_param_at 24 m.payload };
      }
  do_net_config_save_done polls m d r e ok =
      ConfigSaved-new d.pa _ _ r
        (Replies-some _ (do_net_config_save polls m d) r (net_config_save-Replies polls m d) e) ok

  -- Whatever the answer, the configuration afterwards is the old one, the new one, or the old one
  -- with the first interface's parameters of the request; the users are never touched.
  pub do_net_config_save_pa :
      (polls : ℕ) (m : Msg) (d : Daemon env) (r : Reply env)
      → do_net_config_save polls m d ≡ some r
      → let half = record d.pa { lan1 = record d.pa.lan1 { net = net_param_at 0 m.payload } } in
        (r.daemon.pa ≡ d.pa)
        ⊎ (r.daemon.pa ≡ half)
        ⊎ (r.daemon.pa
            ≡ record half { lan2 = record d.pa.lan2 { net = net_param_at 24 m.payload } })
  do_net_config_save_pa polls m d r e =
      ConfigSaved-one_of d.pa _ _ r
        (Replies-some _ (do_net_config_save polls m d) r (net_config_save-Replies polls m d) e)

  or_confirm-cases :
      (o : Option (CfgMgrStatus × Daemon env)) (message : Text)
      (rest : Daemon env → Option (Reply env)) (r : Reply env)
      → or_confirm o message rest ≡ some r
      → ((s : CfgMgrStatus) × (e : Daemon env) × (o ≡ some (s, e))
          × (s ≢ cfgmgr_ok)
          × (r.status ≡ s)
          × (r.daemon.pa ≡ e.pa))
        ⊎ ((e : Daemon env) × (o ≡ some (cfgmgr_ok, e)) × (rest e ≡ some r))
  unfolding confirm trace
  or_confirm-cases none message rest r h = cc
  or_confirm-cases (some (cfgmgr_ok, e)) message rest r h = inr (e, refl, h)
  or_confirm-cases (some (s, e)) message rest r h = inl (
    s,
    e,
    refl,
    (λ x. cc),
    ap (λ (x : Reply env). x.status) (sym (some-injective _ _ h)),
    ap (λ (x : Reply env). x.daemon.pa) (sym (some-injective _ _ h)),
  )

  save_or_confirm_lem :
      (done : Text) (d : Daemon env)
      → ((save_or_confirm done d).status
          ≡ (if (Env.fopen_config env d.sys).0 then cfgmgr_ok else cfgmgr_err))
        × ((save_or_confirm done d).daemon.pa ≡ d.pa)
  unfolding param_save trace confirm
  save_or_confirm_lem done d = ground arith

  -- What the request of netConfigSave may leave.
  abbrev pub ConfigOutcome : ℕ → Msg → Daemon env → Reply env → Type 0
  ConfigOutcome polls m d r =
      let net1 = net_param_at 0 m.payload in
      let net2 = net_param_at 24 m.payload in
      let half = record d.pa { lan1 = record d.pa.lan1 { net = net1 } } in
      let started = trace debug_info user (codes "Net config start") d in
      ((s : CfgMgrStatus) × (e : Daemon env) × (set_net_parameters polls net1 1 started
          ≡ some (s, e))
        × (s ≢ cfgmgr_ok)
        × (r.status ≡ s)
        × (r.daemon.pa ≡ d.pa))
      ⊎ ((e₁ : Daemon env) × (set_net_parameters polls net1 1 started ≡ some (cfgmgr_ok, e₁))
          × (s : CfgMgrStatus) × (e : Daemon env) × (set_net_parameters polls net2 2
                (with_net1 net1 e₁)
              ≡ some (s, e))
          × (s ≢ cfgmgr_ok)
          × (r.status ≡ s)
          × (r.daemon.pa ≡ half))
      ⊎ ((e₁ : Daemon env) × (e₂ : Daemon env) × (set_net_parameters polls net1 1 started
            ≡ some (cfgmgr_ok, e₁))
          × (set_net_parameters polls net2 2 (with_net1 net1 e₁) ≡ some (cfgmgr_ok, e₂))
          × (r.status ≡ (if (Env.fopen_config env e₂.sys).0 then cfgmgr_ok else cfgmgr_err))
          × (r.daemon.pa ≡ record half { lan2 = record d.pa.lan2 { net = net2 } }))

  -- Where saving the network configuration ends, one of three things has happened: the first
  -- interface could not be set, and the answer has the status of that and the configuration is the
  -- old one; or the first one was set but the second one was not, and the answer has the status of
  -- that, and the configuration the first interface's parameters of the request; or both were set,
  -- and the answer has the status of saving, and the configuration both sets of parameters, also
  -- when saving fails.
  pub do_net_config_save_outcomes :
      (polls : ℕ) (m : Msg) (d : Daemon env) (r : Reply env)
      → do_net_config_save polls m d ≡ some r
      → ConfigOutcome polls m d r
  unfolding do_net_config_save
  do_net_config_save_outcomes polls m d r h =
      let net1 = net_param_at 0 m.payload in
      let net2 = net_param_at 24 m.payload in
      let started = trace debug_info user (codes "Net config start") d in
      elim (or_confirm-cases (set_net_parameters polls net1 1 started) _ _ r h) [
        | inl (s, e, set, failed, status, pa) ↦ inl (
          s,
          e,
          set,
          failed,
          status,
          pa ∙ set_net_parameters_pa polls net1 1 started e s set ∙ pa-trace debug_info user _ d,
        )
        | inr (e₁, set₁, h₁) ↦
            let half : (with_net1 net1 e₁).pa ≡ (with_net1 net1 d).pa =
              ap (λ (p : Param). record p { lan1 = record p.lan1 { net = net1 } })
                (set_net_parameters_pa polls net1 1 started e₁ cfgmgr_ok set₁
                  ∙ pa-trace debug_info user _ d) in
            elim (or_confirm-cases (set_net_parameters polls net2 2 (with_net1 net1 e₁)) _ _ r h₁) [
              | inl (s, e, set, failed, status, pa) ↦ inr (
                  inl (
                    e₁,
                    set₁,
                    s,
                    e,
                    set,
                    failed,
                    status,
                    pa ∙ set_net_parameters_pa polls net2 2 (with_net1 net1 e₁) e s set ∙ half,
                  ))
              | inr (e₂, set₂, h₂) ↦
                  let done = codes "Net config succ" in
                  let end = some-injective (save_or_confirm done (with_net2 net2 e₂)) r h₂ in
                  let (status, pa) = save_or_confirm_lem done (with_net2 net2 e₂) in
                  inr (
                    inr (
                      e₁,
                      e₂,
                      set₁,
                      set₂,
                      ap (λ (x : Reply env). x.status) (sym end) ∙ status,
                      ap (λ (x : Reply env). x.daemon.pa) (sym end)
                          ∙ pa
                          ∙ ap (λ (p : Param). record p { lan2 = record p.lan2 { net = net2 } })
                              (set_net_parameters_pa polls net2 2 (with_net1 net1 e₁) e₂ cfgmgr_ok
                                  set₂
                                ∙ half),
                    ))
            ]
      ]
