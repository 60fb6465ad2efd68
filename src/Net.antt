-- ===== src/Net.antt =====
-- web.c, is_netipvalid to setNetParameters: setting an interface's addresses, gateway and MAC.
pub mod Device
pub mod Laws
use cfg_mgr.Base.{
  ℕ, zero, suc, ◌+◌, ◌-◌, ◌/◌, ◌%◌, Bool, true, false, not, ◌||◌, List, [], ◌∷◌, ◌++◌, Option, none,
  some, ltb, ◌==◌, ◌>>=◌, if◌then◌else◌, get_or,
}
use cfg_mgr.Base.Text.{Text, codes, fmt_d, fmt_02x, inet_ntoa, text_eq}
use cfg_mgr.Message.{CfgMgrStatus, cfgmgr_ok, cfgmgr_err, net_number_invalid, ip_invalid}
use cfg_mgr.Params.{NetParam}
use cfg_mgr.Env.{Env, AddrFlag, siocsifaddr, siocsifnetmask}
use cfg_mgr.Trace.{Daemon, user, system, debug_err, trace}

abbrev pub net1_name : Text
net1_name = codes "eth0"

abbrev pub net2_name : Text
net2_name = codes "eth1"

-- `netNumber == 1 ? NET1_NAME : NET2_NAME`
abbrev pub net_name : ℕ → Text
net_name n = if n == 1 then net1_name else net2_name

-- inet_addr undoes inet_ntoa, so the tests are on the address itself.
unfoldable pub is_netipvalid : ℕ → Bool
is_netipvalid ip = not (ip == 0 || ip == 4294967295)

-- The six bytes as setMacAddress prints them.
unfoldable pub mac_text : List ℕ → Text
mac_text [] = []
mac_text (b ∷ []) = fmt_02x b ++ codes "."
mac_text (b ∷ bs) = fmt_02x b ++ (codes " " ++ mac_text bs)

-- The message of setNetParameters for a step that failed.
unfoldable pub net_message : ℕ → Text → Text
net_message n what =
    codes "net" ++ (fmt_d n ++ (codes " setNetParameters : set " ++ (what ++ codes " failed !!!")))

module _ (env : Env) where
  open env use {Sys, get_flags, set_flags, get_link, stack_bytes}

  -- The loop that waits for the link: it ends when the call fails or reports a link. `none` means
  -- that it still waits after so many polls.
  unfoldable pub wait_link : ℕ → Text → Sys → Option Sys
  wait_link zero ifname sys = none
  wait_link (suc polls) ifname sys =
      let (link, sys') = get_link ifname sys in
      let again = wait_link polls ifname sys' in
      elim link [ none ↦ some sys' | some state ↦ if ltb 0 state then some sys' else again ]

  -- IFF_UP, the lowest flag, is set or cleared. Where the flags cannot be read, what the structure
  -- happened to hold is written back.
  unfoldable pub change_flags : Text → Bool → Sys → Sys
  change_flags ifname up sys =
      let (flags, sys') = get_flags ifname sys in
      elim flags [
        | none ↦ (set_flags ifname (get_or (stack_bytes sys) 0 0) sys').1
        | some f ↦ (set_flags ifname (if up then f - f % 2 + 1 else f - f % 2) sys').1
      ]

module _ {env : Env} where
  open env use {
    Sys, socket, get_flags, set_if_addr, get_hwaddr, set_hwaddr, stack_bytes, system as shell,
  }

  -- A traced error, and the status that is returned with it.
  abbrev pub fail : CfgMgrStatus → Text → Daemon env → CfgMgrStatus × Daemon env
  fail status message d = (status, trace debug_err user message d)

  abbrev pub fail_system : CfgMgrStatus → Text → Daemon env → CfgMgrStatus × Daemon env
  fail_system status message d = (status, trace debug_err system message d)

  -- The ioctls of set_addr on a named interface: one that only reads, and the one that sets.
  unfoldable pub set_named_addr : ℕ → AddrFlag → Text → Daemon env → CfgMgrStatus × Daemon env
  set_named_addr addr flag ifname d =
      let (flags, sys') = get_flags ifname d.sys in
      let read = record d { sys = sys' } in
      let warned : Daemon env = elim flags [
        | none ↦ trace debug_err system (codes "ifdown: shutdown ") read
        | some _ ↦ read
      ] in
      let (done, sys'') = set_if_addr flag ifname addr warned.sys in
      let set = record warned { sys = sys'' } in
      if done
      then (cfgmgr_ok, set)
      else fail_system cfgmgr_err (codes "fail to set address [" ++ (inet_ntoa addr ++ codes "]. "))
          set

  unfoldable pub set_addr : ℕ → AddrFlag → ℕ → Daemon env → CfgMgrStatus × Daemon env
  unfolding is_netipvalid set_named_addr
  set_addr addr flag ethn d =
      let (opened, sys') = socket d.sys in
      let open_d = record d { sys = sys' } in
      if not (is_netipvalid addr)
      then fail ip_invalid (codes "invalid IP[" ++ (inet_ntoa addr ++ codes "]!!!")) d
      else if not opened
      then fail_system cfgmgr_err (codes "socket fail!!!") open_d
      else if ethn == 1
      then set_named_addr addr flag net1_name open_d
      else if ethn == 2
      then set_named_addr addr flag net2_name open_d
      else fail net_number_invalid (codes "netNumber [" ++ (fmt_d ethn ++ codes "] is invalid!!!"))
          open_d

  -- The command's result is not looked at. `cmd` has room for any address.
  unfoldable pub set_gateway : ℕ → ℕ → Daemon env → CfgMgrStatus × Daemon env
  set_gateway addr ethn d =
      (cfgmgr_ok, record d { sys = shell (codes "route add default gw " ++ inet_ntoa addr) d.sys })

  -- What stands in the caller's buffer afterwards: its old bytes, if a call fails.
  unfoldable pub get_mac_addr : Text → Daemon env → List ℕ × Daemon env
  get_mac_addr ifname d =
      let old = stack_bytes d.sys in
      let (opened, sys') = socket d.sys in
      let (mac, sys'') = get_hwaddr ifname sys' in
      if opened
      then (elim mac [ none ↦ old | some m ↦ m ], record d { sys = sys'' })
      else (old, record d { sys = sys' })

  -- `if_updown (ifname, UP)` if `up`, else with DOWN: going up, it waits for the link.
  unfoldable pub if_updown : ℕ → Text → Bool → Daemon env → Option (Daemon env)
  unfolding change_flags
  if_updown polls ifname up d =
      let (opened, sys') = socket d.sys in
      let changed = change_flags env ifname up sys' in
      let waited = wait_link env polls ifname changed in
      if not opened
      then some (record d { sys = sys' })
      else if up
      then (elim waited [ none ↦ none | some sys'' ↦ some (record d { sys = sys'' }) ])
      else some (record d { sys = changed })

  unfoldable pub set_mac_address : ℕ → List ℕ → Daemon env → CfgMgrStatus × Daemon env
  set_mac_address n mac d =
      let (opened, sys') = socket d.sys in
      let open_d = record d { sys = sys' } in
      let (done, sys'') = set_hwaddr (net_name n) mac sys' in
      let set = record d { sys = sys'' } in
      if not (n == 1 || n == 2)
      then fail cfgmgr_err (codes "setMacAddress : netNumber " ++ (fmt_d n ++ codes " invalid !!!"))
          d
      else if not opened
      then fail_system cfgmgr_err (codes "setMacAddress : Socket create error.") open_d
      else if not done
      then fail_system cfgmgr_err (codes "setMacAddress : Mac " ++ mac_text mac) (
          trace debug_err system (codes "setMacAddress : Set Mac Address(SIOCSIFHWADDR) error(-1).")
            set)
      else (cfgmgr_ok, set)

  -- One step of setNetParameters: on success the rest runs, and otherwise its status is returned.
  abbrev pub check :
      CfgMgrStatus × Daemon env
      → Text
      → (Daemon env → Option (CfgMgrStatus × Daemon env))
      → Option (CfgMgrStatus × Daemon env)
  check (cfgmgr_ok, d) message rest = rest d
  check (status, d) message rest = some (status, trace debug_err user message d)

  -- Where the interface has another MAC address it is taken down, changed, and brought up again.
  unfoldable pub set_net_mac : ℕ → NetParam → ℕ → Daemon env → Option (CfgMgrStatus × Daemon env)
  set_net_mac polls net n d =
      let (now, read) = get_mac_addr (net_name n) d in
      let changed : Option (CfgMgrStatus × Daemon env) = do
        down ← if_updown polls (net_name n) false read
        check (set_mac_address n net.mac down) (net_message n (codes "mac address"))
            λ set. do up ← if_updown polls (net_name n) true set; some (cfgmgr_ok, up)
      in if text_eq now net.mac then some (cfgmgr_ok, read) else changed

  -- `none`: the wait for the link after a change of the MAC address has not ended.
  unfoldable pub set_net_parameters :
      ℕ → NetParam → ℕ → Daemon env → Option (CfgMgrStatus × Daemon env)
  set_net_parameters polls net n d =
      check (set_addr net.ip siocsifaddr n d) (net_message n (codes "ip")) λ d₁.
        check (set_addr net.mask siocsifnetmask n d₁) (net_message n (codes "net mask")) λ d₂.
          check (set_gateway net.gateway n d₂) (net_message n (codes "gateway"))
            λ d₃. set_net_mac polls net n d₃
