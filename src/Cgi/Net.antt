-- ===== src/Cgi/Net.antt =====
-- The requests of cfgMgrCgi.c on the network: lan1Test, lan2Test, netConfigSave, netCapture and
-- netFilter.
pub mod Laws
pub mod Settings
pub mod Fields
use Prim.Native.String.{String}
use cfg_mgr.Base.{ℕ, ◌+◌, Bool, ◌∷◌, [], Option, none, some, if◌then◌else◌, ◌==◌, ◌>>=◌}
use cfg_mgr.Base.Text.{Text}
use cfg_mgr.Memory.{Bytes, store, write, strncpy}
use cfg_mgr.Message.{
  Msg, lan1test, lan2test, netconfigsave, netcapture_request, netfilter_request, sizeof_net_param,
  sizeof_capture_param, sizeof_filter_param,
}
use cfg_mgr.Params.{NetParam, CaptureParam, FilterParam}
use cfg_mgr.Inet.{inet_pton, inet_pton_field}
use cfg_mgr.Share.{mac_string2hex}
use cfg_mgr.Cgi.{Form, Request, required, true_or_false}

-- The name of a field of the first interface, or else the one of the second.
abbrev pub lan_field : ℕ → String → String → String
lan_field n first second = if n == 1 then first else second

-- `netParamGet`: none for -1. `temp` is what the variable of macString2Hex holds at first.
unfoldable pub net_param_get : ℕ → Form → ℕ → Option NetParam
net_param_get temp form n = do
  auto ← required (form.form_string (lan_field n "Lan1_Auto" "Lan2_Auto"))
  mac_text ← required (form.form_string (lan_field n "Lan1_Mac" "Lan2_Mac"))
  is_dhcp ← true_or_false auto
  ip ← required (form.form_string (lan_field n "Lan1_IP" "Lan2_IP"))
  mask ← required (form.form_string (lan_field n "Lan1_Mask" "Lan2_Mask"))
  gateway ← required (form.form_string (lan_field n "Lan1_GateWay" "Lan2_GateWay"))
  mac ← mac_string2hex temp mac_text
  some (record {
    is_dhcp = is_dhcp;
    ip = inet_pton_field ip;
    mask = inet_pton_field mask;
    gateway = inet_pton_field gateway;
    mac = mac;
  })

-- The 24 bytes of a `netParam` in a payload: netParamGet zeroes them, and then stores its fields.
unfoldable pub put_net_param : ℕ → NetParam → Bytes → Bytes
put_net_param off net d = write (off + 16) net.mac (
    store 4 (off + 12) net.gateway (
      store 4 (off + 8) net.mask
        (store 4 (off + 4) net.ip (store 4 off net.is_dhcp (strncpy off sizeof_net_param [] d)))))

-- inet_pton of cgiRemoteAddr into destIp, which keeps its bytes where the text is no address.
unfoldable pub put_dest_ip : Text → Bytes → Bytes
put_dest_ip addr d = elim (inet_pton addr) [ none ↦ d | some a ↦ store 4 sizeof_net_param a d ]

unfoldable pub lan1_test : ℕ → Request
lan1_test temp form m = do
  net ← net_param_get temp form 1
  some (record {
    type = lan1test;
    payload = put_net_param 0 net (put_dest_ip form.remote_addr m.payload);
  })

-- destIp is not written here.
unfoldable pub lan2_test : ℕ → Request
lan2_test temp form m = do
  net ← net_param_get temp form 2
  some (record { type = lan2test; payload = put_net_param 0 net m.payload })

unfoldable pub net_config_save : ℕ → Request
net_config_save temp form m = do
  net1 ← net_param_get temp form 1
  net2 ← net_param_get temp form 2
  some (record {
    type = netconfigsave;
    payload = put_net_param sizeof_net_param net2 (put_net_param 0 net1 m.payload);
  })

-- `captureParamGet`
unfoldable pub capture_param_get : Form → ℕ → Option CaptureParam
capture_param_get form n = do
  status ←
      required
        (form.form_string (lan_field n "Lan1_CaptureServiceStatus" "Lan2_CaptureServiceStatus"))
  enable ← required (form.form_string (lan_field n "Lan1_AutoUpLoadEnable" "Lan2_AutoUpLoadEnable"))
  path ← required (form.form_string (lan_field n "Lan1_AutoUpLoadPath" "Lan2_AutoUpLoadPath"))
  is_capture ← true_or_false status
  is_auto_up_load ← true_or_false enable
  some (record {
    is_capture = is_capture;
    is_auto_up_load = is_auto_up_load;
    auto_up_load_path = path;
  })

unfoldable pub put_capture_param : ℕ → CaptureParam → Bytes → Bytes
put_capture_param off capture d =
    strncpy (off + 8) 255 capture.auto_up_load_path
      (store 4 (off + 4) capture.is_auto_up_load (store 4 off capture.is_capture d))

unfoldable pub net_capture : Request
net_capture form m = do
  capture1 ← capture_param_get form 1
  capture2 ← capture_param_get form 2
  some (record {
    type = netcapture_request;
    payload =
        put_capture_param sizeof_capture_param capture2 (put_capture_param 0 capture1 m.payload);
  })

-- `filterParamGet`
unfoldable pub filter_param_get : Form → ℕ → Option FilterParam
filter_param_get form n = do
  status ←
      required
        (form.form_string (lan_field n "Lan1_NetFilterServiceStatus" "Lan2_NetFilterServiceStatus"))
  is_filter ← true_or_false status
  some (record { is_filter = is_filter })

unfoldable pub net_filter : Request
net_filter form m = do
  filter1 ← filter_param_get form 1
  filter2 ← filter_param_get form 2
  some (record {
    type = netfilter_request;
    payload = store 4 sizeof_filter_param filter2.is_filter (store 4 0 filter1.is_filter m.payload);
  })
