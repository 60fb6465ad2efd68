-- ===== src/Cgi/Net/Laws.antt =====
-- What the daemon reads from the payload of a network request is what the CGI has put there.
use cfg_mgr.Base.{ℕ, ◌+◌, ◌≤◌, ◌<◌, ◌≡◌, refl, ◌∙◌, ◌⊎◌, inl, inr, [], some, arith, length}
use mathlib.Core.Path.{subst}
use cfg_mgr.Memory.{Bytes, store, load, read, write, strncpy, le_bytes}
use cfg_mgr.Memory.Words.{
  load-frame, load-store32, load-store_apart, load-write_apart, read-write, read-frame,
}
use cfg_mgr.Message.{Msg, lan1test, lan2test, netconfigsave}
use cfg_mgr.Params.{NetParam, net_param_at}
use cfg_mgr.Config.RoundTrip.{IsNet}
use cfg_mgr.Inet.{inet_pton}
use cfg_mgr.Inet.Bounds.{inet_pton-fits}
use cfg_mgr.Cgi.{Form}
use cfg_mgr.Cgi.Net.Fields.{net_param_get-IsNet}
use cfg_mgr.Cgi.Net.{
  net_param_get, put_net_param, put_dest_ip, lan1_test, lan2_test, net_config_save,
}

put_net_param_outside :
    (off : ℕ) (net : NetParam) (d : Bytes) (i : ℕ)
    → length net.mac ≡ 6
    → (i < off) ⊎ (off + 24 ≤ i)
    → put_net_param off net d i ≡ d i
unfolding put_net_param store write strncpy le_bytes
put_net_param_outside off net d i six (inl lo) = ground arith
put_net_param_outside off net d i six (inr hi) = ground arith

net_param_at-frame :
    (off : ℕ) (d e : Bytes)
    → ((i : ℕ) → off ≤ i → i < off + 24 → e i ≡ d i)
    → net_param_at off e ≡ net_param_at off d
unfolding net_param_at
net_param_at-frame off d e same = rw (
  load-frame 4 off d e (λ i lo hi. same i (omega arith) (omega arith)),
  load-frame 4 (off + 4) d e (λ i lo hi. same i (omega arith) (omega arith)),
  load-frame 4 (off + 8) d e (λ i lo hi. same i (omega arith) (omega arith)),
  load-frame 4 (off + 12) d e (λ i lo hi. same i (omega arith) (omega arith)),
  read-frame 6 (off + 16) d e (λ i lo hi. same i (omega arith) (omega arith)),
)

-- The structure that netParamGet has filled is the one that the daemon reads.
put_net_param-net_param_at :
    (off : ℕ) (net : NetParam) (d : Bytes)
    → IsNet net
    → net.is_dhcp < 4294967296
    → net_param_at off (put_net_param off net d) ≡ net
unfolding net_param_at put_net_param
put_net_param-net_param_at off net d v flag =
    let d₀ = strncpy off 24 [] d in
    let d₁ = store 4 off net.is_dhcp d₀ in
    let d₂ = store 4 (off + 4) net.ip d₁ in
    let d₃ = store 4 (off + 8) net.mask d₂ in
    let d₄ = store 4 (off + 12) net.gateway d₃ in
    let mac_behind =
      λ (at : ℕ) (le : at + 4 ≤ off + 16). load-write_apart 4 at (off + 16) net.mac d₄ (inl le) in
    let is_dhcp : load 4 off (write (off + 16) net.mac d₄) ≡ net.is_dhcp =
      mac_behind off (omega arith)
      ∙ load-store_apart 4 off 4 (off + 12) net.gateway d₃ (inl (omega arith))
      ∙ load-store_apart 4 off 4 (off + 8) net.mask d₂ (inl (omega arith))
      ∙ load-store_apart 4 off 4 (off + 4) net.ip d₁ (inl (omega arith))
      ∙ load-store32 off net.is_dhcp d₀ flag in
    let ip : load 4 (off + 4) (write (off + 16) net.mac d₄) ≡ net.ip =
      mac_behind (off + 4) (omega arith)
      ∙ load-store_apart 4 (off + 4) 4 (off + 12) net.gateway d₃ (inl (omega arith))
      ∙ load-store_apart 4 (off + 4) 4 (off + 8) net.mask d₂ (inl (omega arith))
      ∙ load-store32 (off + 4) net.ip d₁ v.ip_fits in
    let mask : load 4 (off + 8) (write (off + 16) net.mac d₄) ≡ net.mask =
      mac_behind (off + 8) (omega arith)
      ∙ load-store_apart 4 (off + 8) 4 (off + 12) net.gateway d₃ (inl (omega arith))
      ∙ load-store32 (off + 8) net.mask d₂ v.mask_fits in
    let gateway : load 4 (off + 12) (write (off + 16) net.mac d₄) ≡ net.gateway =
      mac_behind (off + 12) (omega arith) ∙ load-store32 (off + 12) net.gateway d₃ v.gateway_fits in
    let mac : read 6 (off + 16) (write (off + 16) net.mac d₄) ≡ net.mac =
      subst (λ n. read n (off + 16) (write (off + 16) net.mac d₄) ≡ net.mac) v.mac_six
        (read-write net.mac (off + 16) d₄) in
    rw (is_dhcp, ip, mask, gateway, mac)

-- It stays there when another one is filled behind it.
net_param_at-put_net_param_behind :
    (off at : ℕ) (net : NetParam) (d : Bytes)
    → length net.mac ≡ 6
    → (off + 24 ≤ at) ⊎ (at + 24 ≤ off)
    → net_param_at off (put_net_param at net d) ≡ net_param_at off d
net_param_at-put_net_param_behind off at net d six apart =
    net_param_at-frame off d _ λ i lo hi. put_net_param_outside at net d i six (ground arith)

-- When both interfaces' parameters can be read from the form, the message that netConfigSave makes
-- is one from which the daemon reads these parameters, whatever the message variable held.
pub net_config_save-net_param_at :
    (temp : ℕ) (form : Form) (m : Msg) (net1 net2 : NetParam)
    → net_param_get temp form 1 ≡ some net1
    → net_param_get temp form 2 ≡ some net2
    → (r : Msg) × (net_config_save temp form m ≡ some r)
      × (r.type ≡ netconfigsave)
      × (net_param_at 0 r.payload ≡ net1)
      × (net_param_at 24 r.payload ≡ net2)
unfolding net_config_save
net_config_save-net_param_at temp form m net1 net2 e1 e2 =
    let (v1, dhcp1) = net_param_get-IsNet temp form 1 net1 e1 in
    let (v2, dhcp2) = net_param_get-IsNet temp form 2 net2 e2 in
    let first = put_net_param 0 net1 m.payload in
    (
      _,
      rw (e1, e2) refl,
      refl,
      net_param_at-put_net_param_behind 0 24 net2 first v2.mac_six (inl (omega arith))
          ∙ put_net_param-net_param_at 0 net1 m.payload v1 (omega (arith, dhcp1)),
      put_net_param-net_param_at 24 net2 first v2 (omega (arith, dhcp2)),
    )

-- The address that the test of the second interface pings is whatever the message variable held at
-- its place: no field of the form has a say in it. The parameters are those of the form.
pub lan2_test_dest_ip :
    (temp : ℕ) (form : Form) (m : Msg) (net : NetParam)
    → net_param_get temp form 2 ≡ some net
    → (r : Msg) × (lan2_test temp form m ≡ some r)
      × (r.type ≡ lan2test)
      × (net_param_at 0 r.payload ≡ net)
      × (load 4 24 r.payload ≡ load 4 24 m.payload)
unfolding lan2_test
lan2_test_dest_ip temp form m net e =
    let (v, dhcp) = net_param_get-IsNet temp form 2 net e in
    (
      _,
      rw e refl,
      refl,
      put_net_param-net_param_at 0 net m.payload v (omega (arith, dhcp)),
      load-frame 4 24 m.payload _
          λ i lo hi. put_net_param_outside 0 net m.payload i v.mac_six (inr lo),
    )

-- The test of the first interface pings the address of the browser, if that is an address.
pub lan1_test_dest_ip :
    (temp : ℕ) (form : Form) (m : Msg) (net : NetParam) (addr : ℕ)
    → net_param_get temp form 1 ≡ some net
    → inet_pton form.remote_addr ≡ some addr
    → (r : Msg) × (lan1_test temp form m ≡ some r)
      × (r.type ≡ lan1test)
      × (net_param_at 0 r.payload ≡ net)
      × (load 4 24 r.payload ≡ addr)
unfolding lan1_test put_dest_ip
lan1_test_dest_ip temp form m net addr e remote =
    let (v, dhcp) = net_param_get-IsNet temp form 1 net e in
    let fits = inet_pton-fits form.remote_addr addr remote in
    let dest = store 4 24 addr m.payload in
    (
      record { type = lan1test; payload = put_net_param 0 net dest },
      rw (e, put_dest_ip, remote) refl,
      refl,
      put_net_param-net_param_at 0 net dest v (omega (arith, dhcp)),
      (load-frame 4 24 dest _ λ i lo hi. put_net_param_outside 0 net dest i v.mac_six (inr lo))
          ∙ load-store32 24 addr m.payload fits,
    )
