-- ===== src/Cgi/Table.antt =====
-- formMethodTable and formMethodLookUp of cfgMgrCgi.c, and the request part of cgiMain.
pub mod Laws
pub mod Kinds
pub mod Served
use Prim.Native.String.{String}
use cfg_mgr.Base.{ℕ, Bool, List, [], ◌∷◌, Option, none, some, if◌then◌else◌, ◌>>=◌}
use cfg_mgr.Base.Text.{Text, codes, strstr}
use cfg_mgr.Message.{
  Msg, MsgType, diskinfo_request, systeminfo_request, lan1statisticsclear_request,
  lan2statisticsclear_request, systimeget_request, getversion_request, factoryreset_request,
  reboot_request, logclearall_request,
}
use cfg_mgr.Cgi.{Form, Request, required}
use cfg_mgr.Cgi.Net.{lan1_test, lan2_test, net_config_save, net_capture, net_filter}
use cfg_mgr.Cgi.Users.{login, normal_user_mgr, super_user_mgr, admin_passwd_confirm}
use cfg_mgr.Cgi.Logs.{log_look_up, log_export, system_time_set}
use cfg_mgr.Cgi.Files.{
  file_look_up, file_up_load, update_logic_file, update_cfg_mgr_file, update_web,
}

-- diskInfo, systemInfo, lan1StatisticsClear, lan2StatisticsClear, systemTimeGet, getVersion,
-- factoryReset, reboot and logClearAll: only the kind is set.
unfoldable pub bare_request : MsgType → Request
bare_request kind form m = some (record m { type = kind })

pub record FormMethod : Type 0 where
  pub form_name : String
  pub func : Request

-- `temp` is what the variable of macString2Hex holds at first.
unfoldable pub form_method_table : ℕ → List FormMethod
form_method_table temp =
    record { form_name = "Function_Login"; func = login }
    ∷ record { form_name = "Function_Lan1Test"; func = lan1_test temp }
    ∷ record { form_name = "Function_Lan2Test"; func = lan2_test temp }
    ∷ record { form_name = "Function_NetConfigSave"; func = net_config_save temp }
    ∷ record { form_name = "Function_NetCapture"; func = net_capture }
    ∷ record { form_name = "Function_NetFilter"; func = net_filter }
    ∷ record { form_name = "Function_FileLookUp"; func = file_look_up }
    ∷ record { form_name = "Function_FileUpLoad"; func = file_up_load }
    ∷ record { form_name = "Function_DiskInfo"; func = bare_request diskinfo_request }
    ∷ record { form_name = "Function_NormalUserMgr"; func = normal_user_mgr }
    ∷ record { form_name = "Function_SuperUserMgr"; func = super_user_mgr }
    ∷ record { form_name = "Function_SystemInfo"; func = bare_request systeminfo_request }
    ∷ record {
      form_name = "Function_Lan1StatisticsClear";
      func = bare_request lan1statisticsclear_request;
    }
    ∷ record {
      form_name = "Function_Lan2StatisticsClear";
      func = bare_request lan2statisticsclear_request;
    }
    ∷ record { form_name = "Function_SystemTimeGet"; func = bare_request systimeget_request }
    ∷ record { form_name = "Function_SystemTimeSet"; func = system_time_set }
    ∷ record { form_name = "Function_AdminPasswdConfirm"; func = admin_passwd_confirm }
    ∷ record { form_name = "Function_GetVersion"; func = bare_request getversion_request }
    ∷ record { form_name = "Function_UpdateLogicFile"; func = update_logic_file }
    ∷ record { form_name = "Function_UpdateCfgMgrFile"; func = update_cfg_mgr_file }
    ∷ record { form_name = "Function_UpdateWeb"; func = update_web }
    ∷ record { form_name = "Function_FactoryReset"; func = bare_request factoryreset_request }
    ∷ record { form_name = "Function_Reboot"; func = bare_request reboot_request }
    ∷ record { form_name = "Function_LogLookUp"; func = log_look_up }
    ∷ record { form_name = "Function_LogExport"; func = log_export }
    ∷ record { form_name = "Function_LogClearAll"; func = bare_request logclearall_request }
    ∷ []

-- The loop of formMethodLookUp: the first entry whose name stands in the form's.
unfoldable pub look_up_in : List FormMethod → Text → Option FormMethod
look_up_in [] name = none
look_up_in (e ∷ es) name =
    let rest = look_up_in es name in if strstr name (codes e.form_name) then some e else rest

unfoldable pub form_method_look_up : ℕ → Text → Option FormMethod
form_method_look_up temp name = look_up_in (form_method_table temp) name

-- cgiMain up to msgSend: the message that is sent, or none for an early return. `m` is what the
-- message variable holds at first.
unfoldable pub request_of : ℕ → Form → Msg → Option Msg
request_of temp form m = do
  name ← required (form.form_string "FunctionName")
  method ← form_method_look_up temp name
  method.func form m
