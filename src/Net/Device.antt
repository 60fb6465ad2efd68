-- ===== src/Net/Device.antt =====
-- What the interfaces of the device show after setNetParameters, on a kernel that does what its
-- ioctls are documented to do.
use cfg_mgr.Base.{
  ◌++◌, zero, suc, ℕ, ◌≡◌, ◌≢◌, refl, sym, ap, ◌∙◌, Bool, true, false, List, Option, some, inl, inr,
  arith, Bool-cases, Option-cases, bind-some, if◌then◌else◌, ◌==◌, ◌⊎◌,
}
use cfg_mgr.Base.Text.{Text, codes, text_eq, text_eq_iff, inet_ntoa}
use cfg_mgr.Message.{CfgMgrStatus, cfgmgr_ok, cfgmgr_err}
use cfg_mgr.Params.{NetParam}
use cfg_mgr.Env.{Env, AddrFlag, siocsifaddr, siocsifnetmask, Doc}
use cfg_mgr.Trace.{Daemon, LogLevel, LogType, trace, system, debug_err, log_write, log_open}
use cfg_mgr.Net.{
  set_named_addr, set_addr, set_gateway, get_mac_addr, wait_link, change_flags, if_updown,
  set_mac_address, check, set_net_mac, set_net_parameters, net_name,
}

-- The addresses of an interface.
pub record Shown : Type 0 where
  pub ip : ℕ
  pub mask : ℕ
  pub mac : List ℕ

abbrev pub shown_of : NetParam → Shown
shown_of net = record { ip = net.ip; mask = net.mask; mac = net.mac }

-- The kernel shows the addresses of its interfaces. SIOCSIFADDR sets the address, and may set
-- another mask with it; SIOCSIFNETMASK and SIOCSIFHWADDR set what they name and nothing else; no
-- call changes the addresses of another interface, and those that are not about addresses change
-- none. There is a descriptor for every socket, and the MAC address can be read.
pub record Device (env : Env) : Type 0 where
  pub shows : Text → Env.Sys env → Shown
  pub ip_set :
      (i : Text) (a : ℕ) (s : Env.Sys env)
      → (Env.set_if_addr env siocsifaddr i a s).0 ≡ true
      → ((shows i (Env.set_if_addr env siocsifaddr i a s).1).ip ≡ a)
        × ((shows i (Env.set_if_addr env siocsifaddr i a s).1).mac ≡ (shows i s).mac)
  pub mask_set :
      (i : Text) (a : ℕ) (s : Env.Sys env)
      → (Env.set_if_addr env siocsifnetmask i a s).0 ≡ true
      → shows i (Env.set_if_addr env siocsifnetmask i a s).1 ≡ record (shows i s) { mask = a }
  pub mac_set :
      (i : Text) (mac : List ℕ) (s : Env.Sys env)
      → (Env.set_hwaddr env i mac s).0 ≡ true
      → shows i (Env.set_hwaddr env i mac s).1 ≡ record (shows i s) { mac = mac }
  pub addr_other :
      (f : AddrFlag) (i j : Text) (a : ℕ) (s : Env.Sys env)
      → i ≢ j
      → shows j (Env.set_if_addr env f i a s).1 ≡ shows j s
  pub mac_other :
      (i j : Text) (mac : List ℕ) (s : Env.Sys env)
      → i ≢ j
      → shows j (Env.set_hwaddr env i mac s).1 ≡ shows j s
  pub socket_opens : (s : Env.Sys env) → (Env.socket env s).0 ≡ true
  pub mac_read : (i : Text) (s : Env.Sys env) → (Env.get_hwaddr env i s).0 ≡ some (shows i s).mac
  pub socket_keeps : (j : Text) (s : Env.Sys env) → shows j (Env.socket env s).1 ≡ shows j s
  pub get_hwaddr_keeps :
      (i j : Text) (s : Env.Sys env) → shows j (Env.get_hwaddr env i s).1 ≡ shows j s
  pub get_flags_keeps :
      (i j : Text) (s : Env.Sys env) → shows j (Env.get_flags env i s).1 ≡ shows j s
  pub set_flags_keeps :
      (i j : Text) (f : ℕ) (s : Env.Sys env) → shows j (Env.set_flags env i f s).1 ≡ shows j s
  pub get_link_keeps : (i j : Text) (s : Env.Sys env) → shows j (Env.get_link env i s).1 ≡ shows j s
  -- The only command that the network code runs.
  pub route_keeps :
      (j addr : Text) (s : Env.Sys env)
      → shows j (Env.system env (codes "route add default gw " ++ addr) s) ≡ shows j s
  pub fopen_config_keeps :
      (j : Text) (s : Env.Sys env) → shows j (Env.fopen_config env s).1 ≡ shows j s
  pub save_file_keeps :
      (j : Text) (doc : Doc) (s : Env.Sys env) → shows j (Env.save_file env doc s) ≡ shows j s
  pub time_keeps : (j : Text) (s : Env.Sys env) → shows j (Env.time env s).1 ≡ shows j s
  pub sqlite_keeps : (j q : Text) (s : Env.Sys env) → shows j (Env.sqlite_exec env q s) ≡ shows j s

module _ {env : Env} (device : Device env) where
  -- The daemon sees the same addresses on every interface.
  abbrev pub SameShown : Daemon env → Daemon env → Type 0
  SameShown d e = (j : Text) → device.shows j e.sys ≡ device.shows j d.sys

  pub trace-SameShown :
      (level : LogLevel) (typ : LogType) (t : Text) (d : Daemon env)
      → SameShown d (trace level typ t d)
  unfolding trace log_write log_open
  trace-SameShown level typ t d j =
      device.sqlite_keeps j _ _ ∙ device.sqlite_keeps j _ _ ∙ device.time_keeps j d.sys

  set_ioctl_ok :
      (addr : ℕ) (flag : AddrFlag) (i : Text) (failed w e : Daemon env)
      → let (done, s) = Env.set_if_addr env flag i addr w.sys in
        let r : CfgMgrStatus × Daemon env =
          if done then (cfgmgr_ok, record w { sys = s }) else (cfgmgr_err, failed) in
        r ≡ (cfgmgr_ok, e) → Env.set_if_addr env flag i addr w.sys ≡ (true, e.sys)
  set_ioctl_ok addr flag i failed w e h = ground arith

  -- An address that set_named_addr has set was set by one ioctl, and nothing else has changed one.
  set_named_addr_ok :
      (addr : ℕ) (flag : AddrFlag) (i : Text) (d e : Daemon env)
      → set_named_addr addr flag i d ≡ (cfgmgr_ok, e)
      → (s : Env.Sys env) × ((j : Text) → device.shows j s ≡ device.shows j d.sys)
        × (Env.set_if_addr env flag i addr s ≡ (true, e.sys))
  unfolding set_named_addr
  set_named_addr_ok addr flag i d e h =
      let sys' = (Env.get_flags env i d.sys).1 in
      let read : Daemon env = record d { sys = sys' } in
      let warned = trace debug_err system (codes "ifdown: shutdown ") read in
      elim (Option-cases (Env.get_flags env i d.sys).0) [
        | inl unread ↦ (
          warned.sys,
          (λ j.
              trace-SameShown debug_err system (codes "ifdown: shutdown ") read j
              ∙ device.get_flags_keeps i j d.sys),
          set_ioctl_ok addr flag i _ warned e (rw unread at h),
        )
        | inr (f, found) ↦ (
          sys',
          (λ j. device.get_flags_keeps i j d.sys),
          set_ioctl_ok addr flag i _ read e (rw found at h),
        )
      ]

  check_ok :
      (r : CfgMgrStatus × Daemon env) (message : Text)
      (rest : Daemon env → Option (CfgMgrStatus × Daemon env)) (e : Daemon env)
      → check r message rest ≡ some (cfgmgr_ok, e)
      → (d : Daemon env) × (r ≡ (cfgmgr_ok, d)) × (rest d ≡ some (cfgmgr_ok, e))
  check_ok (cfgmgr_ok, d) message rest e h = (d, refl, h)
  check_ok (cfgmgr_err, d) message rest e h = cc
  check_ok (s, d) message rest e h = cc

  named_of :
      (addr : ℕ) (flag : AddrFlag) (n : ℕ) (d e : Daemon env)
      → set_addr addr flag n d ≡ (cfgmgr_ok, e)
      → ((n ≡ 1) ⊎ (n ≡ 2))
        × (set_named_addr addr flag (net_name n) (record d { sys = (Env.socket env d.sys).1 })
            ≡ (cfgmgr_ok, e))
  unfolding set_addr
  named_of addr flag n d e h =
      let opens = device.socket_opens d.sys in
      elim (Bool-cases (n == 1)) [
        | inl one ↦ ground (arith, opens)
        | inr not_one ↦ ground (arith, opens)
      ]

  -- What set_addr has set was set by one ioctl on the interface of that number.
  set_addr_ok :
      (addr : ℕ) (flag : AddrFlag) (n : ℕ) (d e : Daemon env)
      → set_addr addr flag n d ≡ (cfgmgr_ok, e)
      → ((n ≡ 1) ⊎ (n ≡ 2))
        × ((s : Env.Sys env) × ((j : Text) → device.shows j s ≡ device.shows j d.sys)
            × (Env.set_if_addr env flag (net_name n) addr s ≡ (true, e.sys)))
  set_addr_ok addr flag n d e h =
      let (known, named) = named_of addr flag n d e h in
      let (s, same, done) = set_named_addr_ok addr flag (net_name n) _ e named in
      (known, (s, (λ j. same j ∙ device.socket_keeps j d.sys), done))

  wait_link-keeps :
      (polls : ℕ) (i j : Text) (s s' : Env.Sys env)
      → wait_link env polls i s ≡ some s'
      → device.shows j s' ≡ device.shows j s
  unfolding wait_link
  wait_link-keeps zero i j s s' h = cc
  wait_link-keeps (suc polls) i j s s' h =
      let polled = device.get_link_keeps i j s in
      let more = wait_link-keeps polls i j (Env.get_link env i s).1 s' in
      ground (arith, polled, more)

  change_flags-keeps :
      (i j : Text) (up : Bool) (s : Env.Sys env)
      → device.shows j (change_flags env i up s) ≡ device.shows j s
  unfolding change_flags
  change_flags-keeps i j up s = elim (Option-cases (Env.get_flags env i s).0) [
    | inl unread ↦
        rw (change_flags, unread) (device.set_flags_keeps i j _ _ ∙ device.get_flags_keeps i j s)
    | inr (f, found) ↦
        rw (change_flags, found) (device.set_flags_keeps i j _ _ ∙ device.get_flags_keeps i j s)
  ]

  if_updown-SameShown :
      (polls : ℕ) (i : Text) (up : Bool) (d e : Daemon env)
      → if_updown polls i up d ≡ some e
      → SameShown d e
  unfolding if_updown
  if_updown-SameShown polls i up d e h j =
      let opened = (Env.socket env d.sys).1 in
      let socket = device.socket_keeps j d.sys in
      let changed = change_flags-keeps i j up opened in
      let waited = wait_link-keeps polls i j (change_flags env i up opened) e.sys in
      ground (arith, socket, changed, waited)

  get_mac_addr_lem :
      (i : Text) (d : Daemon env)
      → ((get_mac_addr i d).0 ≡ (device.shows i d.sys).mac) × SameShown d (get_mac_addr i d).1
  unfolding get_mac_addr
  get_mac_addr_lem i d =
      let opens = device.socket_opens d.sys in
      let s = (Env.socket env d.sys).1 in
      rw (opens, device.mac_read i s)
        (
          ap (λ (x : Shown). x.mac) (device.socket_keeps i d.sys),
          (λ j. device.get_hwaddr_keeps i j s ∙ device.socket_keeps j d.sys),
        )

  set_mac_address_ok :
      (n : ℕ) (mac : List ℕ) (d e : Daemon env)
      → set_mac_address n mac d ≡ (cfgmgr_ok, e)
      → let opened = (Env.socket env d.sys).1 in
        Env.set_hwaddr env (net_name n) mac opened ≡ (true, e.sys)
  unfolding set_mac_address
  set_mac_address_ok n mac d e h = let opens = device.socket_opens d.sys in ground (arith, opens)

  -- The addresses of every other interface are as before.
  abbrev pub OthersShown : Text → Daemon env → Daemon env → Type 0
  OthersShown i d e = (j : Text) → i ≢ j → device.shows j e.sys ≡ device.shows j d.sys

  set_net_mac_ok :
      (polls : ℕ) (net : NetParam) (n : ℕ) (d e : Daemon env)
      → set_net_mac polls net n d ≡ some (cfgmgr_ok, e)
      → (device.shows (net_name n) e.sys
          ≡ record (device.shows (net_name n) d.sys) { mac = net.mac })
        × OthersShown (net_name n) d e
  unfolding set_net_mac
  set_net_mac_ok polls net n d e h =
      let i = net_name n in
      let (now, same₀) = get_mac_addr_lem i d in
      let read = (get_mac_addr i d).1 in
      elim (Bool-cases (text_eq (get_mac_addr i d).0 net.mac)) [
        | inl equal ↦
            let ended : ◌≡◌ {A = Option (CfgMgrStatus × Daemon env)} (some (cfgmgr_ok, read))
                (some (cfgmgr_ok, e)) =
              rw equal at h in
            let last : read ≡ e = cc in
            let same =
              λ (j : Text). ap (λ (x : Daemon env). device.shows j x.sys) (sym last) ∙ same₀ j in
            let mac : (device.shows i d.sys).mac ≡ net.mac =
              sym now ∙ (text_eq_iff _ net.mac).0 equal in
            (same i ∙ ap (λ m. record (device.shows i d.sys) { mac = m }) mac, (λ j _. same j))
        | inr differ ↦
            let (down, taken_down, h₁) =
              bind-some (if_updown polls i false read) _ _ (rw differ at h) in
            let (set, done, h₂) = check_ok (set_mac_address n net.mac down) _ _ e h₁ in
            let (up, brought_up, h₃) = bind-some (if_updown polls i true set) _ _ h₂ in
            let last : up ≡ e = cc in
            let opened = (Env.socket env down.sys).1 in
            let ioctl = set_mac_address_ok n net.mac down set done in
            let before = λ (j : Text).
              device.socket_keeps j down.sys
              ∙ if_updown-SameShown polls i false read down taken_down j
              ∙ same₀ j in
            let behind = λ (j : Text).
              ap (λ (x : Daemon env). device.shows j x.sys) (sym last)
              ∙ if_updown-SameShown polls i true set up brought_up j
              ∙ ap (λ (x : Bool × Env.Sys env). device.shows j x.1) (sym ioctl) in
            (
              behind i
                  ∙ device.mac_set i net.mac opened (ap (λ (x : Bool × Env.Sys env). x.0) ioctl)
                  ∙ ap (λ (x : Shown). record x { mac = net.mac }) (before i),
              (λ j other. behind j ∙ device.mac_other i j net.mac opened other ∙ before j),
            )
      ]

  -- What two ioctls and the command of set_gateway leave, when set_net_mac takes over.
  addresses_ok :
      (i : Text) (ip mask : ℕ) (s₁ s₂ : Env.Sys env) (d d₁ d₂ : Daemon env)
      → ((j : Text) → device.shows j s₁ ≡ device.shows j d.sys)
      → Env.set_if_addr env siocsifaddr i ip s₁ ≡ (true, d₁.sys)
      → ((j : Text) → device.shows j s₂ ≡ device.shows j d₁.sys)
      → Env.set_if_addr env siocsifnetmask i mask s₂ ≡ (true, d₂.sys)
      → (device.shows i d₂.sys ≡ record { ip = ip; mask = mask; mac = (device.shows i d.sys).mac })
        × OthersShown i d d₂
  addresses_ok i ip mask s₁ s₂ d d₁ d₂ same₁ done₁ same₂ done₂ =
      let first = λ (x : Bool × Env.Sys env). x.0 in
      let at = λ (j : Text) (x : Bool × Env.Sys env). device.shows j x.1 in
      let ip_law = device.ip_set i ip s₁ (ap first done₁) in
      let mask_law = device.mask_set i mask s₂ (ap first done₂) in
      let shown₁ = ap (at i) done₁ in
      let shown₂ = ap (at i) done₂ in
      let kept₁ = same₁ i in
      let kept₂ = same₂ i in
      (
        cc,
        (λ j other.
            ap (at j) (sym done₂)
            ∙ device.addr_other siocsifnetmask i j mask s₂ other
            ∙ same₂ j
            ∙ ap (at j) (sym done₁)
            ∙ device.addr_other siocsifaddr i j ip s₁ other
            ∙ same₁ j),
      )

  set_gateway-SameShown :
      (addr n : ℕ) (d e : Daemon env) → set_gateway addr n d ≡ (cfgmgr_ok, e) → SameShown d e
  unfolding set_gateway
  set_gateway-SameShown addr n d e h j =
      ap (λ (x : CfgMgrStatus × Daemon env). device.shows j x.1.sys) (sym h)
      ∙ device.route_keeps j (inet_ntoa addr) d.sys

  -- When setNetParameters ends with CFGMGR_OK, the number is that of an interface, which shows
  -- exactly the address, the mask and the MAC address that are asked for, while every other
  -- interface shows what it did.
  pub set_net_parameters-Shown :
      (polls : ℕ) (net : NetParam) (n : ℕ) (d e : Daemon env)
      → set_net_parameters polls net n d ≡ some (cfgmgr_ok, e)
      → ((n ≡ 1) ⊎ (n ≡ 2))
        × (device.shows (net_name n) e.sys ≡ shown_of net)
        × OthersShown (net_name n) d e
  unfolding set_net_parameters
  set_net_parameters-Shown polls net n d e h =
      let i = net_name n in
      let (d₁, ip_done, h₁) = check_ok (set_addr net.ip siocsifaddr n d) _ _ e h in
      let (known, (s₁, same₁, done₁)) = set_addr_ok net.ip siocsifaddr n d d₁ ip_done in
      let (d₂, mask_done, h₂) = check_ok (set_addr net.mask siocsifnetmask n d₁) _ _ e h₁ in
      let (_, (s₂, same₂, done₂)) = set_addr_ok net.mask siocsifnetmask n d₁ d₂ mask_done in
      let (d₃, gateway_done, h₃) = check_ok (set_gateway net.gateway n d₂) _ _ e h₂ in
      let (there, others) = addresses_ok i net.ip net.mask s₁ s₂ d d₁ d₂ same₁ done₁ same₂ done₂ in
      let route = set_gateway-SameShown net.gateway n d₂ d₃ gateway_done in
      let (last, others') = set_net_mac_ok polls net n d₃ e h₃ in
      (
        known,
        last ∙ ap (λ (x : Shown). record x { mac = net.mac }) (route i ∙ there),
        (λ j other. others' j other ∙ route j ∙ others j other),
      )
