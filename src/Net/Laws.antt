-- ===== src/Net/Laws.antt =====
-- What setNetParameters leaves alone, which statuses it returns, and when it ends.
use cfg_mgr.Base.{
  ℕ, zero, suc, ◌<◌, ◌≡◌, ◌≢◌, refl, Bool, true, false, List, Option, none, some, inl, inr, arith,
  Bool-cases, Option-cases, ltb, ◌++◌, ◌>>=◌, if◌then◌else◌,
}
use mathlib.Core.Path.{subst}
use cfg_mgr.Base.Text.{Text, codes, text_eq, inet_ntoa}
use cfg_mgr.Message.{CfgMgrStatus, cfgmgr_ok, cfgmgr_err, net_number_invalid, ip_invalid}
use cfg_mgr.Params.{NetParam}
use cfg_mgr.Env.{Env, AddrFlag, siocsifaddr, siocsifnetmask}
use cfg_mgr.Trace.{Daemon, trace, user, debug_err}
use cfg_mgr.Net.{
  set_addr, set_gateway, get_mac_addr, wait_link, if_updown, set_mac_address, check, set_net_mac,
  set_net_parameters, is_netipvalid, net_message, net_name, fail,
}

-- The statuses with which a network call may end.
abbrev pub IsNetStatus : CfgMgrStatus → Type 0
IsNetStatus cfgmgr_ok = Unit
IsNetStatus cfgmgr_err = Unit
IsNetStatus net_number_invalid = Unit
IsNetStatus ip_invalid = Unit
IsNetStatus _ = ⊥

module _ {env : Env} where
  -- Only the world and the last error have changed.
  pub record Keeps (d e : Daemon env) : Type 0 where
    pub same_pa : e.pa ≡ d.pa
    pub same_ping : e.ping ≡ d.ping

  abbrev pub NetResult : Daemon env → CfgMgrStatus × Daemon env → Type 0
  NetResult d (status, e) = IsNetStatus status × Keeps d e

  set_addr-NetResult :
      (addr : ℕ) (flag : AddrFlag) (n : ℕ) (d : Daemon env) → NetResult d (set_addr addr flag n d)
  unfolding set_addr trace
  set_addr-NetResult addr flag n d = ground arith

  set_gateway-NetResult : (addr n : ℕ) (d : Daemon env) → NetResult d (set_gateway addr n d)
  unfolding set_gateway
  set_gateway-NetResult addr n d = ground arith

  set_mac_address-NetResult :
      (n : ℕ) (mac : List ℕ) (d : Daemon env) → NetResult d (set_mac_address n mac d)
  unfolding set_mac_address trace
  set_mac_address-NetResult n mac d = ground arith

  get_mac_addr-Keeps : (ifname : Text) (d : Daemon env) → Keeps d (get_mac_addr ifname d).1
  unfolding get_mac_addr
  get_mac_addr-Keeps ifname d = ground arith

  if_updown-Keeps :
      (polls : ℕ) (ifname : Text) (up : Bool) (d e : Daemon env)
      → if_updown polls ifname up d ≡ some e
      → Keeps d e
  unfolding if_updown
  if_updown-Keeps polls ifname up d e h = ground arith

  -- What an ended call of the network code leaves.
  abbrev pub Ends : Daemon env → Option (CfgMgrStatus × Daemon env) → Type 0
  Ends d none = Unit
  Ends d (some r) = NetResult d r

  check-Ends :
      (d : Daemon env) (r : CfgMgrStatus × Daemon env) (message : Text)
      (rest : Daemon env → Option (CfgMgrStatus × Daemon env))
      → NetResult d r
      → ((e : Daemon env) → Keeps d e → Ends d (rest e))
      → Ends d (check r message rest)
  unfolding trace
  check-Ends d (cfgmgr_ok, e) message rest h k = k e h.1
  check-Ends d (cfgmgr_err, e) message rest h k = ground arith
  check-Ends d (status, e) message rest h k = ground arith

  Keeps-trans : {d e f : Daemon env} → Keeps d e → Keeps e f → Keeps d f
  Keeps-trans h k = ground arith

  NetResult-trans :
      (d e : Daemon env) (r : CfgMgrStatus × Daemon env) → Keeps d e → NetResult e r → NetResult d r
  NetResult-trans d e (status, f) h k = (k.0, Keeps-trans h k.1)

  if-Ends :
      (d : Daemon env) (b : Bool) (x y : Option (CfgMgrStatus × Daemon env))
      → Ends d x
      → Ends d y
      → Ends d (if b then x else y)
  if-Ends d true x y hx hy = hx
  if-Ends d false x y hx hy = hy

  bind-Ends :
      (d : Daemon env) (o : Option (Daemon env))
      (rest : Daemon env → Option (CfgMgrStatus × Daemon env))
      → ((e : Daemon env) → o ≡ some e → Ends d (rest e))
      → Ends d (o >>= rest)
  bind-Ends d none rest h = tt
  bind-Ends d (some e) rest h = h e refl

  Ends-trans :
      (d e : Daemon env) (o : Option (CfgMgrStatus × Daemon env)) → Keeps d e → Ends e o → Ends d o
  Ends-trans d e none h k = tt
  Ends-trans d e (some r) h k = NetResult-trans d e r h k

  set_net_mac-Ends :
      (polls : ℕ) (net : NetParam) (n : ℕ) (d : Daemon env) → Ends d (set_net_mac polls net n d)
  unfolding set_net_mac
  set_net_mac-Ends polls net n d =
      let read = get_mac_addr (net_name n) d in
      let k = get_mac_addr-Keeps (net_name n) d in
      if-Ends d (text_eq read.0 net.mac) _ _ (tt, k)
        (bind-Ends d _ _ λ down e.
          let k₁ = Keeps-trans k (if_updown-Keeps polls (net_name n) false read.1 down e) in
          check-Ends d _ _ _
            (NetResult-trans d down _ k₁ (set_mac_address-NetResult n net.mac down))
            λ set k₂.
              bind-Ends d (if_updown polls (net_name n) true set) (λ up. some (cfgmgr_ok, up))
                λ up e'. (tt, Keeps-trans k₂ (if_updown-Keeps polls (net_name n) true set up e')))

  -- The configuration and ping's table stay as they are, and the status is one of four.
  pub set_net_parameters-Ends :
      (polls : ℕ) (net : NetParam) (n : ℕ) (d : Daemon env)
      → Ends d (set_net_parameters polls net n d)
  unfolding set_net_parameters
  set_net_parameters-Ends polls net n d =
      check-Ends d _ _ _ (set_addr-NetResult net.ip siocsifaddr n d) λ d₁ k₁.
        check-Ends d _ _ _
          (NetResult-trans d d₁ _ k₁ (set_addr-NetResult net.mask siocsifnetmask n d₁))
          λ d₂ k₂.
            check-Ends d _ _ _ (NetResult-trans d d₂ _ k₂ (set_gateway-NetResult net.gateway n d₂))
              λ d₃ k₃. Ends-trans d d₃ _ k₃ (set_net_mac-Ends polls net n d₃)

  pub set_net_parameters_pa :
      (polls : ℕ) (net : NetParam) (n : ℕ) (d e : Daemon env) (s : CfgMgrStatus)
      → set_net_parameters polls net n d ≡ some (s, e)
      → e.pa ≡ d.pa
  set_net_parameters_pa polls net n d e s h =
      let ended : Ends d (some (s, e)) = subst (Ends d) h (set_net_parameters-Ends polls net n d) in
      ended.1.same_pa

  set_addr_invalid :
      (addr : ℕ) (flag : AddrFlag) (n : ℕ) (d : Daemon env)
      → is_netipvalid addr ≡ false
      → set_addr addr flag n d
        ≡ fail ip_invalid (codes "invalid IP[" ++ (inet_ntoa addr ++ codes "]!!!")) d
  unfolding set_addr
  set_addr_invalid addr flag n d h = rw h

  -- An address of all zeros or all ones is refused with CFGMGR_IP_INVALID, and nothing is done but
  -- to trace two errors.
  pub set_net_parameters_invalid_ip :
      (polls : ℕ) (net : NetParam) (n : ℕ) (d : Daemon env)
      → is_netipvalid net.ip ≡ false
      → set_net_parameters polls net n d
        ≡ some (
          ip_invalid,
          trace debug_err user
              (net_message n (codes "ip"))
              (trace debug_err user (codes "invalid IP[" ++ (inet_ntoa net.ip ++ codes "]!!!")) d),
        )
  unfolding set_net_parameters
  set_net_parameters_invalid_ip polls net n d h =
      rw (set_addr_invalid net.ip siocsifaddr n d h) refl

-- How many polls the link needs: after `k` of them that see no link the next one ends the wait.
module _ (env : Env) (ifname : Text) where
  -- The world after `k` polls of the link.
  abbrev pub polled : ℕ → Env.Sys env → Env.Sys env
  polled zero sys = sys
  polled (suc k) sys = polled k (Env.get_link env ifname sys).1

  -- The wait for the link ends with the first poll that fails or sees a link: if the `k` polls in
  -- front of it see none, and it does, every bound of more than `k` polls gives the state behind
  -- exactly these `k + 1` polls, and a bound of `k` polls is not enough.
  pub wait_link_ends :
      (k polls : ℕ) (sys : Env.Sys env)
      → ((i : ℕ) → i < k → (Env.get_link env ifname (polled i sys)).0 ≡ some 0)
      → (Env.get_link env ifname (polled k sys)).0 ≢ some 0
      → k < polls
      → (wait_link env polls ifname sys ≡ some (polled (suc k) sys))
        × (wait_link env k ifname sys ≡ none)
  unfolding wait_link
  wait_link_ends k zero sys down up l = absurd (omega (arith, l))
  wait_link_ends zero (suc polls) sys down up l = (
    elim (Option-cases (Env.get_link env ifname sys).0) [
      | inl failed ↦ ground arith
      | inr (state, seen) ↦ elim (Bool-cases (ltb 0 state)) [
        | inl linked ↦ ground arith
        | inr none_seen ↦ ground arith
      ]
    ],
    refl,
  )
  wait_link_ends (suc k) (suc polls) sys down up l =
      let sys' = (Env.get_link env ifname sys).1 in
      let first = down 0 (omega arith) in
      let (enough, short) =
        wait_link_ends k polls sys' (λ i h. down (suc i) (omega arith)) up (omega arith) in
      (ground (arith, first, enough), ground (arith, first, short))
