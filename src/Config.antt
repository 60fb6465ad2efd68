-- ===== src/Config.antt =====
-- paramSave of web.c: the configuration as the document that Mini-XML writes. The texts of the
-- addresses and the MAC are printed as inet_ntop and macHex2String print them.
pub mod Load
pub mod RoundTrip
pub mod Loaded
pub mod Words
use cfg_mgr.Base.{ℕ, ◌+◌, List, [], ◌∷◌, ◌++◌, ◌==◌, if◌then◌else◌, Bool}
use cfg_mgr.Base.Text.{Text, codes, inet_ntoa}
use cfg_mgr.Share.{mac_hex2string}
use cfg_mgr.Message.{CfgMgrStatus, cfgmgr_ok, cfgmgr_err}
use cfg_mgr.Params.{LanParam, UserParam, Param}
use cfg_mgr.Env.{Env, Entry, Doc}
use cfg_mgr.Trace.{Daemon}

-- `flag ? "true" : "false"`
abbrev pub bool_text : ℕ → Text
bool_text flag = if flag == 0 then codes "false" else codes "true"

-- The elements of Lan1.
unfoldable pub save_lan1 : LanParam → Doc
save_lan1 lan =
    record { parent = "Lan1"; element = "Lan1_Auto"; text = bool_text lan.net.is_dhcp }
    ∷ record { parent = "Lan1"; element = "Lan1_IP"; text = inet_ntoa lan.net.ip }
    ∷ record { parent = "Lan1"; element = "Lan1_Mask"; text = inet_ntoa lan.net.mask }
    ∷ record { parent = "Lan1"; element = "Lan1_GateWay"; text = inet_ntoa lan.net.gateway }
    ∷ record { parent = "Lan1"; element = "Lan1_Mac"; text = mac_hex2string lan.net.mac }
    ∷ record {
      parent = "Lan1";
      element = "Lan1_CaptureServiceStatus";
      text = bool_text lan.capture.is_capture;
    }
    ∷ record {
      parent = "Lan1";
      element = "Lan1_AutoUpLoadEnable";
      text = bool_text lan.capture.is_auto_up_load;
    }
    ∷ record {
      parent = "Lan1";
      element = "Lan1_AutoUpLoadPath";
      text = lan.capture.auto_up_load_path;
    }
    ∷ record {
      parent = "Lan1";
      element = "Lan1_NetFilterServiceStatus";
      text = bool_text lan.filter.is_filter;
    }
    ∷ []

-- The elements of Lan2.
unfoldable pub save_lan2 : LanParam → Doc
save_lan2 lan =
    record { parent = "Lan2"; element = "Lan2_Auto"; text = bool_text lan.net.is_dhcp }
    ∷ record { parent = "Lan2"; element = "Lan2_IP"; text = inet_ntoa lan.net.ip }
    ∷ record { parent = "Lan2"; element = "Lan2_Mask"; text = inet_ntoa lan.net.mask }
    ∷ record { parent = "Lan2"; element = "Lan2_GateWay"; text = inet_ntoa lan.net.gateway }
    ∷ record { parent = "Lan2"; element = "Lan2_Mac"; text = mac_hex2string lan.net.mac }
    ∷ record {
      parent = "Lan2";
      element = "Lan2_CaptureServiceStatus";
      text = bool_text lan.capture.is_capture;
    }
    ∷ record {
      parent = "Lan2";
      element = "Lan2_AutoUpLoadEnable";
      text = bool_text lan.capture.is_auto_up_load;
    }
    ∷ record {
      parent = "Lan2";
      element = "Lan2_AutoUpLoadPath";
      text = lan.capture.auto_up_load_path;
    }
    ∷ record {
      parent = "Lan2";
      element = "Lan2_NetFilterServiceStatus";
      text = bool_text lan.filter.is_filter;
    }
    ∷ []

-- The elements of User.
unfoldable pub save_users : UserParam → UserParam → Doc
save_users admin normal =
    record { parent = "Administrators"; element = "UserName"; text = admin.user_name }
    ∷ record { parent = "Administrators"; element = "UserPws"; text = admin.passwd }
    ∷ record { parent = "NomalUser"; element = "UserName"; text = normal.user_name }
    ∷ record { parent = "NomalUser"; element = "UserPws"; text = normal.passwd }
    ∷ []

unfoldable pub param_doc : Param → Doc
param_doc p = save_lan1 p.lan1 ++ (save_lan2 p.lan2 ++ save_users p.admin p.normal)

-- The document is built first; then the file is opened, and the document is written if it opens.
unfoldable pub param_save : {env : Env} → Daemon env → CfgMgrStatus × Daemon env
param_save {env} d =
    let (opened, sys') = Env.fopen_config env d.sys in
    if opened
    then (cfgmgr_ok, record d { sys = Env.save_file env (param_doc d.pa) sys' })
    else (cfgmgr_err, record d { sys = sys' })
