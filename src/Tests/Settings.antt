-- ===== src/Tests/Settings.antt =====
-- The capture, filter and network forms, and a restart behind them.
use Prim.Native.String.{String}
use text.Mathlib.Text.{◌==◌ as str_eq}
use cfg_mgr.Base.{◌≡◌, refl, true, [], none, some, if◌then◌else◌, arith}
use cfg_mgr.Base.Text.{codes, strstr, starts_with, IsCstr}
use cfg_mgr.Message.{zero_msg, cfgmgr_ok}
use cfg_mgr.Params.{CaptureParam, FilterParam}
use cfg_mgr.Trace.{Daemon}
use cfg_mgr.Net.{net1_name, net2_name}
use cfg_mgr.Net.Device.{shown_of}
use cfg_mgr.Web.Confirm.{Reply}
use cfg_mgr.Web.Dispatch.{start, set_both}
use cfg_mgr.Web.Users.Written.{Persists, file}
use cfg_mgr.Cgi.{Form, true_or_false}
use cfg_mgr.Cgi.Net.{capture_param_get, filter_param_get}
use cfg_mgr.Config.Words.{IsWord}
use cfg_mgr.Env.{Doc}
use cfg_mgr.EndToEnd.Routes.{submit}
use cfg_mgr.EndToEnd.Settings.{with_captures, with_filters, submit-net_capture, submit-net_filter}
use cfg_mgr.EndToEnd.Kept.{
  reloaded_param, param_save-param_load, submit-net_capture-lost, submit-net_filter-kept,
  submit-net_config_save-kept,
}
use cfg_mgr.Tests.{some_param, some_net, form_of}
use cfg_mgr.Tests.EndToEnd.{net_form-net1, net_form-net2}
use cfg_mgr.Tests.Interfaces.{
  wired, wired_device, wired_daemon, set_form, wired_saved, wired_saved_lem,
}
use cfg_mgr.Tests.Sessions.{storing, storing-Persists, storing_daemon, some_param-Storable}
use cfg_mgr.Base.Text.{text_eq}
use cfg_mgr.Config.{param_doc}
use cfg_mgr.Inet.{inet_pton_field, inet_pton, octet, more_digits, after_dot}
use cfg_mgr.Share.{
  mac_string2hex, scan_bytes, scan_02x, skip_blanks, scan_item, scan_digits, hex_value,
}
use cfg_mgr.Config.{param_save}
use cfg_mgr.Web.Net.{do_net_config_save}
use cfg_mgr.Memory.{store, load, strncpy, write, le_bytes, read}
use cfg_mgr.Params.{net_param_at}
use cfg_mgr.Cgi.Net.{net_param_get, put_net_param, net_config_save}
use cfg_mgr.Cgi.Table.{form_method_look_up, form_method_table, request_of, look_up_in}
use cfg_mgr.Web.Dispatch.{handle}
use cfg_mgr.Web.Confirm.{confirm}
use cfg_mgr.Trace.{trace, log_write, log_open}
use cfg_mgr.Config.{save_lan1, save_lan2, save_users}
use cfg_mgr.Config.Load.{param_load, load_lan, element_text, find_element, mac_field, load_user}
use cfg_mgr.Config.Load.Traces.{trace_all, load_traces, lan_traces, user_traces}
use cfg_mgr.Base.Text.{inet_ntoa, dec_onto, fmt_02x, hex_digit}
use cfg_mgr.Share.{mac_hex2string}
use cfg_mgr.Net.{
  set_net_parameters, set_addr, set_named_addr, is_netipvalid, get_mac_addr, set_net_mac,
  set_gateway, if_updown, change_flags, wait_link, set_mac_address,
}

-- Both interfaces capture, and upload nothing, to the path "ftp".
abbrev some_capture : CaptureParam
some_capture = record { is_capture = 1; is_auto_up_load = 0; auto_up_load_path = codes "ftp" }

abbrev settings_form : String → Form
settings_form func = record (form_of func "" [] "" [] "" []) {
  form_string = λ name.
      if str_eq name "FunctionName"
      then codes func
      else if str_eq name "Lan1_AutoUpLoadEnable"
      then codes "false"
      else if str_eq name "Lan2_AutoUpLoadEnable"
      then codes "false"
      else if str_eq name "Lan1_AutoUpLoadPath"
      then codes "ftp"
      else if str_eq name "Lan2_AutoUpLoadPath"
      then codes "ftp"
      else codes "true";
}

settings_form-capture1 :
    (func : String) → capture_param_get (settings_form func) 1 ≡ some some_capture
unfolding capture_param_get true_or_false strstr starts_with
settings_form-capture1 func = refl

settings_form-capture2 :
    (func : String) → capture_param_get (settings_form func) 2 ≡ some some_capture
unfolding capture_param_get true_or_false strstr starts_with
settings_form-capture2 func = refl

abbrev on : FilterParam
on = record { is_filter = 1 }

settings_form-filter1 : (func : String) → filter_param_get (settings_form func) 1 ≡ some on
unfolding filter_param_get true_or_false strstr starts_with
settings_form-filter1 func = refl

settings_form-filter2 : (func : String) → filter_param_get (settings_form func) 2 ≡ some on
unfolding filter_param_get true_or_false strstr starts_with
settings_form-filter2 func = refl

path-IsWord : IsWord (codes "ftp")
path-IsWord = ground arith

path-IsCstr : IsCstr 254 (codes "ftp")
path-IsCstr = ground arith

-- The daemon's answers to the two forms, and its start on what each has left.
captured :
    (r : Reply storing) × (submit 0 9
        (settings_form "Function_NetCapture")
        zero_msg
        zero_msg
        storing_daemon
      ≡ some r)
    × (r.status ≡ cfgmgr_ok)
    × (r.daemon.pa ≡ with_captures some_capture some_capture some_param)
captured =
    submit-net_capture 0 9 (settings_form "Function_NetCapture") zero_msg zero_msg storing_daemon
      some_capture some_capture refl (settings_form-capture1 "Function_NetCapture")
      (settings_form-capture2 "Function_NetCapture") path-IsCstr path-IsCstr

filtered :
    (r : Reply storing) × (submit 0 9
        (settings_form "Function_NetFilter")
        zero_msg
        zero_msg
        storing_daemon
      ≡ some r)
    × (r.status ≡ cfgmgr_ok)
    × (r.daemon.pa ≡ with_filters on on some_param)
filtered =
    submit-net_filter 0 9 (settings_form "Function_NetFilter") zero_msg zero_msg storing_daemon on
      on refl (settings_form-filter1 "Function_NetFilter")
      (settings_form-filter2 "Function_NetFilter")

abbrev capture_boot : Daemon storing
capture_boot = record storing_daemon { sys = captured.0.daemon.sys }

abbrev filter_boot : Daemon storing
filter_boot = record storing_daemon { sys = filtered.0.daemon.sys }

submit-net_capture-lost_example :
    (captured.0.status ≡ cfgmgr_ok)
    × (up : Daemon storing) × (start 9 0 capture_boot ≡ set_both 9 up)
    × (up.pa.lan1.capture
        ≡ record { is_capture = 0; is_auto_up_load = 0; auto_up_load_path = codes "ftp" })
    × (up.pa.lan2.capture
        ≡ record { is_capture = 0; is_auto_up_load = 0; auto_up_load_path = codes "ftp" })
submit-net_capture-lost_example =
    submit-net_capture-lost storing-Persists 0 9 (settings_form "Function_NetCapture") zero_msg
      zero_msg storing_daemon 0 some_param-Storable some_capture some_capture captured.0
      capture_boot refl (settings_form-capture1 "Function_NetCapture")
      (settings_form-capture2 "Function_NetCapture") path-IsCstr path-IsCstr path-IsWord path-IsWord
      captured.1 refl

submit-net_filter-kept_example :
    (filtered.0.status ≡ cfgmgr_ok)
    × (up : Daemon storing) × (start 9 0 filter_boot ≡ set_both 9 up)
    × (up.pa.lan1.filter ≡ on)
    × (up.pa.lan2.filter ≡ on)
submit-net_filter-kept_example =
    submit-net_filter-kept storing-Persists 0 9 (settings_form "Function_NetFilter") zero_msg
      zero_msg storing_daemon 0 some_param-Storable on on filtered.0 filter_boot refl
      (settings_form-filter1 "Function_NetFilter") (settings_form-filter2 "Function_NetFilter")
      filtered.1 refl

-- The world of the interfaces keeps its file.
wired-Persists : Persists wired
wired-Persists = record {
  opens = λ s. refl;
  loads = λ doc s w. refl;
  logged = λ q s. refl;
  timed = λ s. refl;
}

abbrev rebooted : Daemon wired
rebooted = record wired_daemon { sys = wired_saved.daemon.sys }

abbrev restarted : Daemon wired
restarted = elim (start 9 0 rebooted) [ none ↦ rebooted | some (ready, f) ↦ f ]

start-restarted : start 9 0 rebooted ≡ some (true, restarted)
unfolding start set_both param_load load_lan element_text find_element mac_field load_user param_doc
    save_lan1 save_lan2 save_users trace_all load_traces lan_traces user_traces strstr starts_with
    inet_pton_field inet_pton octet more_digits after_dot mac_string2hex scan_bytes scan_02x
    skip_blanks scan_item scan_digits hex_value set_net_parameters set_addr set_named_addr
    is_netipvalid get_mac_addr set_net_mac set_gateway text_eq trace if_updown change_flags
    wait_link set_mac_address log_write log_open inet_ntoa dec_onto mac_hex2string fmt_02x hex_digit
    request_of form_method_look_up form_method_table look_up_in net_config_save put_net_param
    net_param_get true_or_false handle do_net_config_save net_param_at store load write strncpy
    le_bytes read param_save confirm
start-restarted = refl

submit-net_config_save-kept_example :
    (restarted.pa.lan1.net ≡ some_net)
    × (restarted.pa.lan2.net ≡ some_net)
    × (restarted.sys.0 net1_name ≡ shown_of some_net)
    × (restarted.sys.0 net2_name ≡ shown_of some_net)
submit-net_config_save-kept_example =
    submit-net_config_save-kept wired-Persists 0 9 set_form zero_msg zero_msg wired_daemon 0
      some_param-Storable wired_device some_net some_net wired_saved rebooted restarted refl
      (net_form-net1 "Function_NetConfigSave") (net_form-net2 "Function_NetConfigSave")
      wired_saved_lem.0 wired_saved_lem.1 refl start-restarted

param_save-param_load_example :
    (e : Daemon storing) × (doc : Doc) × (param_save storing_daemon ≡ (cfgmgr_ok, e))
    × (file e ≡ some doc)
    × (param_load 0 doc ≡ some (reloaded_param some_param))
param_save-param_load_example =
    param_save-param_load storing-Persists 0 storing_daemon some_param-Storable
