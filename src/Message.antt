-- ===== src/Message.antt =====
-- inc/message.h and inc/config.h: message kinds, status codes, the message with its payload, and
-- the places of the structures' fields in the payload (LP64: an `int` has four bytes, a `time_t`
-- eight, each aligned to its size).
use cfg_mgr.Base.{ℕ, ◌+◌, ◌*◌}
use cfg_mgr.Memory.{Bytes, zeroed}

-- `msgType`; `unlisted` is a number that the enumeration does not name.
pub data MsgType : Type 0 where
  comfirm login_request lan1test lan2test netconfigsave netcapture_request : MsgType
  netfilter_request filelookup_request fileupload_request diskinfo_request : MsgType
  normalusermgr_request superusermgr_request systeminfo_request : MsgType
  lan1statisticsclear_request lan2statisticsclear_request : MsgType
  systimeset_request systimeget_request adminpasswdcomfirm_request getversion_request : MsgType
  updatelogicfile_request updatecfgmgrfile_request updateweb_request : MsgType
  factoryreset_request reboot_request loglookup_request logexport_request : MsgType
  logclearall_request : MsgType
  filelookup_response fileupload_response diskinfo_response systeminfo_response : MsgType
  systimeget_response getversion_response loglookup_response logexport_response : MsgType
  unlisted : ℕ → MsgType

-- The number of a kind, as it stands in a message.
abbrev pub type_code : MsgType → ℕ
type_code comfirm = 0
type_code login_request = 1
type_code lan1test = 2
type_code lan2test = 3
type_code netconfigsave = 4
type_code netcapture_request = 5
type_code netfilter_request = 6
type_code filelookup_request = 7
type_code fileupload_request = 8
type_code diskinfo_request = 9
type_code normalusermgr_request = 10
type_code superusermgr_request = 11
type_code systeminfo_request = 12
type_code lan1statisticsclear_request = 13
type_code lan2statisticsclear_request = 14
type_code systimeset_request = 15
type_code systimeget_request = 16
type_code adminpasswdcomfirm_request = 17
type_code getversion_request = 18
type_code updatelogicfile_request = 19
type_code updatecfgmgrfile_request = 20
type_code updateweb_request = 21
type_code factoryreset_request = 22
type_code reboot_request = 23
type_code loglookup_request = 24
type_code logexport_request = 25
type_code logclearall_request = 26
type_code filelookup_response = 27
type_code fileupload_response = 28
type_code diskinfo_response = 29
type_code systeminfo_response = 30
type_code systimeget_response = 31
type_code getversion_response = 32
type_code loglookup_response = 33
type_code logexport_response = 34
type_code (unlisted n) = n

-- `cfgMgrStatus`
pub data CfgMgrStatus : Type 0 where
  cfgmgr_ok cfgmgr_err net_number_invalid ip_invalid not_support : CfgMgrStatus
  network_unreachable passwd_invalid user_not_exist : CfgMgrStatus

-- The number of a status, as it stands in a response.
abbrev pub status_code : CfgMgrStatus → ℕ
status_code cfgmgr_ok = 0
status_code cfgmgr_err = 1
status_code net_number_invalid = 2
status_code ip_invalid = 3
status_code not_support = 4
status_code network_unreachable = 5
status_code passwd_invalid = 6
status_code user_not_exist = 7

-- `msg`: the kind, and the bytes of `data`.
pub record Msg : Type 0 where
  pub type : MsgType
  pub payload : Bytes

-- `memset (m, 0, sizeof (msg))`: the kind with the number 0 is `comfirm`.
abbrev pub zero_msg : Msg
zero_msg = record { type = comfirm; payload = zeroed }

abbrev pub usr_key_lne_max : ℕ
usr_key_lne_max = 20

abbrev pub file_name_len_max : ℕ
file_name_len_max = 60

abbrev pub log_buf_len_max : ℕ
log_buf_len_max = 60

abbrev pub page_records_max : ℕ
page_records_max = 50

abbrev pub msg_data_len_max : ℕ
msg_data_len_max = 4096

-- `netParam`: isDhcp, ip, mask, gateway, then `mac [6]`, padded to 24 bytes.
abbrev pub sizeof_net_param : ℕ
sizeof_net_param = 24

-- `captureParam`: isCapture, isAutoUpLoad, then `autoUpLoadPath [255]`, padded to 264 bytes.
abbrev pub sizeof_capture_param : ℕ
sizeof_capture_param = 264

abbrev pub sizeof_filter_param : ℕ
sizeof_filter_param = 4

-- `logElement`: occurTime, typ, sgnfcc, `content [61]`, padded to 80 bytes.
abbrev pub sizeof_log_element : ℕ
sizeof_log_element = 80

-- `logLookUpResponse.elements [i]`, behind recordsTotal, length and draw, aligned to 8.
abbrev pub log_element_at : ℕ → ℕ
log_element_at i = 16 + sizeof_log_element * i
