-- ===== src/Web/Users.antt =====
-- doNormalUserMgr and doSuperUserMgr of web.c: changing a password.
pub mod Laws
pub mod Written
use cfg_mgr.Base.{ℕ, ◌-◌, Bool, true, false, not, ◌++◌, if◌then◌else◌, ltb, length, take}
use cfg_mgr.Base.Text.{Text, codes, fmt_d}
use cfg_mgr.Memory.{Bytes, strcmp_at, cstr_at}
use cfg_mgr.Message.{
  Msg, CfgMgrStatus, cfgmgr_ok, cfgmgr_err, passwd_invalid, user_not_exist, usr_key_lne_max,
  msg_data_len_max,
}
use cfg_mgr.Params.{UserParam, Param}
use cfg_mgr.Env.{Env}
use cfg_mgr.Trace.{Daemon, user, debug_info, debug_err, trace}
use cfg_mgr.Config.{param_save}
use cfg_mgr.Web.Confirm.{Reply, confirm}

-- The C string at `off`, read up to its NUL or the end of the payload.
abbrev pub string_at : ℕ → Bytes → Text
string_at off d = cstr_at (msg_data_len_max - off) off d

-- `"New Passwd len %d > %d !!!"`
abbrev pub too_long_message : ℕ → Text
too_long_message n =
    codes "New Passwd len " ++ (fmt_d n ++ (codes " > " ++ (fmt_d usr_key_lne_max ++ codes " !!!")))

-- `strncpy (u.passwd, &data[off], 21)`
abbrev pub with_passwd : UserParam → ℕ → Bytes → UserParam
with_passwd u off d = record u { passwd = cstr_at 21 off d }

module _ {env : Env} where
  -- The end of both handlers: save, and confirm with the status of paramSave.
  unfoldable pub save_and_confirm : Text → Daemon env → Reply env
  save_and_confirm done d =
      let (status, saved) = param_save d in
      elim status [
        | cfgmgr_ok ↦ confirm cfgmgr_ok (trace debug_info user done saved)
        | failed ↦ confirm failed (trace debug_err user (codes "paramSave failed.") saved)
      ]

  -- `normalUserMgrRequest`: primaryKey at 0, newKey at 21.
  unfoldable pub do_normal_user_mgr : Msg → Daemon env → Reply env
  do_normal_user_mgr m d =
      let started = trace debug_info user (codes "Normal User Manage start") d in
      let new_len = length (string_at 21 m.payload) in
      if not (strcmp_at d.pa.normal.passwd 0 m.payload)
      then confirm passwd_invalid (trace debug_err user (codes "Passwd invalid !!!") started)
      else if ltb usr_key_lne_max new_len
      then confirm passwd_invalid (trace debug_err user (too_long_message new_len) started)
      else save_and_confirm (codes "Normal User Manage succ")
          (record started { pa = record d.pa { normal = with_passwd d.pa.normal 21 m.payload } })

  -- `superUserMgrRequest`: userName at 0, adminKey at 21, newKey at 42.
  unfoldable pub do_super_user_mgr : Msg → Daemon env → Reply env
  do_super_user_mgr m d =
      let started = trace debug_info user (codes "Super User Manage start") d in
      let new_len = length (string_at 42 m.payload) in
      if not (strcmp_at d.pa.admin.passwd 21 m.payload)
      then confirm passwd_invalid (trace debug_err user (codes "Passwd invalid !!!") started)
      else if ltb usr_key_lne_max new_len
      then confirm passwd_invalid (trace debug_err user (too_long_message new_len) started)
      else if strcmp_at d.pa.admin.user_name 0 m.payload
      then save_and_confirm (codes "Super User Manage succ")
          (record started { pa = record d.pa { admin = with_passwd d.pa.admin 42 m.payload } })
      else if strcmp_at d.pa.normal.user_name 0 m.payload
      then save_and_confirm (codes "Super User Manage succ")
          (record started { pa = record d.pa { normal = with_passwd d.pa.normal 42 m.payload } })
      else confirm user_not_exist (
          trace debug_err user (codes "User " ++ (string_at 0 m.payload ++ codes " not exist !!!"))
            started)
