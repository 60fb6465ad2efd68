-- ===== src/Tests/Interfaces.antt =====
-- The start of the daemon, the network form and a LAN test on a kernel that shows its addresses.
use cfg_mgr.Base.{
  ℕ, ◌≡◌, ◌≢◌, refl, ap, true, [], ◌∷◌, none, some, inl, inr, Bool-cases, if◌then◌else◌,
}
use cfg_mgr.Base.Text.{Text, text_eq, text_eq_iff, text_eq_refl}
use cfg_mgr.Message.{Msg, zero_msg, cfgmgr_ok, cfgmgr_err, lan1test}
use cfg_mgr.Env.{Env, Doc, AddrFlag, siocsifaddr, siocsifnetmask, timeout}
use cfg_mgr.Trace.{Daemon}
use cfg_mgr.Config.{param_doc}
use cfg_mgr.Net.{net1_name, net2_name}
use cfg_mgr.Net.Device.{Device, Shown, shown_of}
use cfg_mgr.Web.Confirm.{Reply}
use cfg_mgr.Inet.{inet_pton_field, inet_pton, octet, more_digits, after_dot}
use cfg_mgr.Share.{
  mac_string2hex, scan_bytes, scan_02x, skip_blanks, scan_item, scan_digits, hex_value,
}
use cfg_mgr.Config.{param_save}
use cfg_mgr.Web.Net.{do_net_config_save}
use cfg_mgr.Memory.{zeroed, store, load, strncpy, write, le_bytes, read}
use cfg_mgr.Params.{net_param_at}
use cfg_mgr.Cgi.{Form, true_or_false}
use cfg_mgr.Cgi.Net.{net_param_get, put_net_param, net_config_save}
use cfg_mgr.Cgi.Table.{form_method_look_up, form_method_table, request_of, look_up_in}
use cfg_mgr.Web.Dispatch.{handle}
use cfg_mgr.EndToEnd.Routes.{submit}
use cfg_mgr.Web.Confirm.{confirm}
use cfg_mgr.Trace.{trace, log_write, log_open}
use cfg_mgr.Web.Dispatch.{start, set_both}
use cfg_mgr.Config.{save_lan1, save_lan2, save_users}
use cfg_mgr.Config.Load.{param_load, load_lan, element_text, find_element, mac_field, load_user}
use cfg_mgr.Config.Load.Traces.{trace_all, load_traces, lan_traces, user_traces}
use cfg_mgr.Web.Net.{lan_ping, do_lan_test}
use cfg_mgr.Web.Net.Interfaces.{do_lan_test-Shown}
use cfg_mgr.EndToEnd.Interfaces.{InStep, start-InStep, submit-net_config_save-Shown}
use cfg_mgr.Ping.{ping_test, icmp_send, icmp_recv}
use cfg_mgr.Tests.EndToEnd.{net_form-net1, net_form-net2}
use cfg_mgr.Base.Text.{strstr, starts_with, inet_ntoa, dec_onto, fmt_02x, hex_digit}
use cfg_mgr.Share.{mac_hex2string}
use cfg_mgr.Net.{
  set_net_parameters, set_addr, set_named_addr, is_netipvalid, get_mac_addr, set_net_mac,
  set_gateway, if_updown, change_flags, wait_link, set_mac_address,
}
use cfg_mgr.Tests.{calm, some_param, some_lan, some_net, net_form}

abbrev changed_at : Text → Shown → (Text → Shown) → Text → Shown
changed_at i x s j = if text_eq i j then x else s j

-- SIOCSIFADDR sets the mask of the address's class, here always a class A.
abbrev with_addr : AddrFlag → ℕ → Shown → Shown
with_addr siocsifaddr a x = record x { ip = a; mask = 255 }
with_addr siocsifnetmask a x = record x { mask = a }

-- The state of this world is what its interfaces show, and its configuration file.
abbrev pub wired : Env
wired = record {
  Sys = (Text → Shown) × Doc;
  time = λ s. (0, s);
  stime = λ t s. s;
  sqlite_exec = λ q s. s;
  sqlite_get_table = λ q s. (none, s);
  table_header = λ q s. [];
  system = λ c s. s;
  socket = λ s. (true, s);
  get_flags = λ i s. (some 1, s);
  set_flags = λ i f s. (true, s);
  set_if_addr = λ f i a s. (true, (changed_at i (with_addr f a (s.0 i)) s.0, s.1));
  get_hwaddr = λ i s. (some (s.0 i).mac, s);
  set_hwaddr = λ i m s. (true, (changed_at i (record (s.0 i) { mac = m }) s.0, s.1));
  get_link = λ i s. (some 1, s);
  stack_bytes = λ s. [];
  fopen_config = λ s. (true, s);
  save_file = λ doc s. (s.0, doc);
  load_file = λ s. (some s.1, s);
  fopen_export = λ s. (true, s);
  export_file = λ t s. s;
  localtime = Env.localtime calm;
  has_icmp = λ s. (true, s);
  getuid = λ s. 0;
  raw_socket = λ s. (true, s);
  sendto = λ a p s. (true, s);
  select = λ s. (timeout, s);
  recv = λ s. (none, s);
  mq_unlink = λ q s. s;
  mq_open = λ q s. (true, s);
  mq_send = λ q m s. (true, s);
  mq_receive = λ q s. (none, s);
}

pub changed_at_self : (i : Text) (x : Shown) (s : Text → Shown) → changed_at i x s i ≡ x
changed_at_self i x s = rw (text_eq_refl i) refl

pub changed_at_other :
    (i j : Text) (x : Shown) (s : Text → Shown) → i ≢ j → changed_at i x s j ≡ s j
changed_at_other i j x s differ = elim (Bool-cases (text_eq i j)) [
  | inl same ↦ absurd (differ ((text_eq_iff i j).0 same))
  | inr other ↦ rw other refl
]

abbrev pub wired_device : Device wired
wired_device = record {
  shows = λ i s. s.0 i;
  ip_set = λ i a s h.
      let x = record (s.0 i) { ip = a; mask = 255 } in
      let e = changed_at_self i x s.0 in (ap (λ (x : Shown). x.ip) e, ap (λ (x : Shown). x.mac) e);
  mask_set = λ i a s h. changed_at_self i _ s.0;
  mac_set = λ i m s h. changed_at_self i _ s.0;
  addr_other = λ f i j a s differ. changed_at_other i j _ s.0 differ;
  mac_other = λ i j m s differ. changed_at_other i j _ s.0 differ;
  socket_opens = λ s. refl;
  mac_read = λ i s. refl;
  socket_keeps = λ j s. refl;
  get_hwaddr_keeps = λ i j s. refl;
  get_flags_keeps = λ i j s. refl;
  set_flags_keeps = λ i j f s. refl;
  get_link_keeps = λ i j s. refl;
  route_keeps = λ j a s. refl;
  fopen_config_keeps = λ j s. refl;
  save_file_keeps = λ j doc s. refl;
  time_keeps = λ j s. refl;
  sqlite_keeps = λ j q s. refl;
}

-- Interfaces that have been set up otherwise.
abbrev pub wired_daemon : Daemon wired
wired_daemon = record {
  pa = some_param;
  last_cfg_mgr_err = [];
  ping = record { pingpacket = []; packet_send = 0; packet_recv = 0 };
  sys =
      (λ i. record { ip = 7; mask = 255; mac = 9 ∷ 9 ∷ 9 ∷ 9 ∷ 9 ∷ 9 ∷ [] }, param_doc some_param);
}

abbrev pub set_form : Form
set_form = net_form "Function_NetConfigSave"

abbrev pub wired_saved : Reply wired
wired_saved = elim (submit 0 9 set_form zero_msg zero_msg wired_daemon) [
  | none ↦ record { status = cfgmgr_err; out = zero_msg; daemon = wired_daemon }
  | some r ↦ r
]

pub wired_saved_lem :
    (submit 0 9 set_form zero_msg zero_msg wired_daemon ≡ some wired_saved)
    × (wired_saved.status ≡ cfgmgr_ok)
unfolding request_of form_method_look_up form_method_table look_up_in net_config_save put_net_param
    net_param_get true_or_false strstr starts_with inet_pton_field inet_pton octet more_digits
    after_dot mac_string2hex scan_bytes scan_02x skip_blanks scan_item scan_digits hex_value handle
    do_net_config_save set_net_parameters set_addr set_named_addr is_netipvalid net_param_at store
    load write strncpy le_bytes get_mac_addr set_net_mac set_gateway read text_eq trace param_save
    confirm if_updown change_flags wait_link set_mac_address log_write log_open
wired_saved_lem = (refl, refl)

submit-net_config_save-Shown_example :
    (wired_saved.daemon.sys.0 net1_name ≡ shown_of some_net)
    × (wired_saved.daemon.sys.0 net2_name ≡ shown_of some_net)
    × (wired_saved.daemon.pa ≡ record some_param {
      lan1 = record some_lan { net = some_net };
      lan2 = record some_lan { net = some_net };
    })
submit-net_config_save-Shown_example =
    submit-net_config_save-Shown wired_device 0 9 set_form zero_msg zero_msg wired_daemon some_net
      some_net wired_saved refl (net_form-net1 "Function_NetConfigSave")
      (net_form-net2 "Function_NetConfigSave") wired_saved_lem.0 wired_saved_lem.1

abbrev wired_started : Daemon wired
wired_started = elim (start 9 0 wired_daemon) [ none ↦ wired_daemon | some (ready, f) ↦ f ]

start-wired_started : start 9 0 wired_daemon ≡ some (true, wired_started)
unfolding start set_both param_load load_lan element_text find_element mac_field load_user param_doc
    save_lan1 save_lan2 save_users trace_all load_traces lan_traces user_traces strstr starts_with
    inet_pton_field inet_pton octet more_digits after_dot mac_string2hex scan_bytes scan_02x
    skip_blanks scan_item scan_digits hex_value set_net_parameters set_addr set_named_addr
    is_netipvalid get_mac_addr set_net_mac set_gateway text_eq trace if_updown change_flags
    wait_link set_mac_address log_write log_open inet_ntoa dec_onto mac_hex2string fmt_02x hex_digit
start-wired_started = refl

start-InStep_example : InStep wired_device wired_started
start-InStep_example = start-InStep wired_device 9 0 wired_daemon wired_started start-wired_started

-- A test with the address 10.0.0.2.
abbrev test_msg : Msg
test_msg = record { type = lan1test; payload = store 4 8 16777215 (store 4 4 33554442 zeroed) }

abbrev wired_tested : Reply wired
wired_tested = elim (do_lan_test 9 test_msg 1 wired_daemon) [ none ↦ wired_saved | some r ↦ r ]

wired_tested_lem :
    (do_lan_test 9 test_msg 1 wired_daemon ≡ some wired_tested) × (wired_tested.status ≡ cfgmgr_ok)
unfolding do_lan_test lan_ping ping_test icmp_send icmp_recv set_net_parameters set_addr
    set_named_addr is_netipvalid net_param_at store load write le_bytes get_mac_addr set_net_mac
    set_gateway read text_eq trace confirm if_updown change_flags wait_link set_mac_address
    log_write log_open
wired_tested_lem = (refl, refl)

do_lan_test-Shown_example : wired_tested.daemon.sys.0 net1_name ≡ shown_of some_net
do_lan_test-Shown_example =
    do_lan_test-Shown wired_device 9 test_msg 1 wired_daemon wired_tested wired_tested_lem.0
      wired_tested_lem.1
