-- ===== src/Web/Users/Laws.antt =====
-- Who may change which password, and that the configuration stays well formed.
use cfg_mgr.Base.{ℕ, ◌-◌, ◌≤◌, ◌<◌, ◌≡◌, ap, ◌&&◌, ◌||◌, arith, length, leb, if◌then◌else◌}
use cfg_mgr.Base.Text.{Text, text_eq, codes}
use cfg_mgr.Memory.{Bytes, strcmp_at}
use cfg_mgr.Memory.Strings.{Holds, strcmp_at-text_eq, cstr_at-eq, cstr_at-IsCstr, cstr_at_shorter}
use cfg_mgr.Message.{Msg, CfgMgrStatus, cfgmgr_ok, cfgmgr_err, passwd_invalid, user_not_exist}
use cfg_mgr.Params.{UserParam, IsUser, IsValid}
use cfg_mgr.Env.{Env}
use cfg_mgr.Trace.{Daemon, user, debug_info, trace}
use cfg_mgr.Config.{param_save}
use cfg_mgr.Web.Confirm.{confirm}
use cfg_mgr.Web.Users.{
  string_at, with_passwd, save_and_confirm, do_normal_user_mgr, do_super_user_mgr,
}

-- A password that the length test lets pass is copied with its NUL.
new_passwd :
    (u : UserParam) (off : ℕ) (m : Bytes)
    → 21 ≤ 4096 - off
    → length (string_at off m) ≤ 20
    → IsUser u
    → IsUser (with_passwd u off m)
new_passwd u off m room short v =
    let same = cstr_at_shorter 21 (4096 - off) off m room (omega arith) in
    let copied = cstr_at-IsCstr 21 off m in
    record {
      name_fits = v.name_fits;
      passwd_fits = record { fits = omega (arith, ap length same); chars = copied.chars };
    }

module _ {env : Env} (m : Msg) (d : Daemon env) where
  normal_pa : (do_normal_user_mgr m d).daemon.pa ≡ (
      if strcmp_at d.pa.normal.passwd 0 m.payload && leb (length (string_at 21 m.payload)) 20
      then record d.pa { normal = with_passwd d.pa.normal 21 m.payload }
      else d.pa)
  unfolding do_normal_user_mgr save_and_confirm param_save trace confirm
  normal_pa = ground arith

  super_pa : (do_super_user_mgr m d).daemon.pa ≡ (
      if strcmp_at d.pa.admin.passwd 21 m.payload && leb (length (string_at 42 m.payload)) 20
      then (if strcmp_at d.pa.admin.user_name 0 m.payload
          then record d.pa { admin = with_passwd d.pa.admin 42 m.payload }
          else if strcmp_at d.pa.normal.user_name 0 m.payload
          then record d.pa { normal = with_passwd d.pa.normal 42 m.payload }
          else d.pa)
      else d.pa)
  unfolding do_super_user_mgr save_and_confirm param_save trace confirm
  super_pa = ground arith

  module _ (v : IsValid d.pa) where
    -- No request, whatever its bytes, makes a user's password longer than its field: the change of
    -- the normal user's password keeps the configuration well formed.
    pub do_normal_user_mgr-IsValid : IsValid (do_normal_user_mgr m d).daemon.pa
    do_normal_user_mgr-IsValid =
        rw normal_pa (ground (arith, new_passwd d.pa.normal 21 m.payload (omega arith)))

    -- So does a change by the administrator.
    pub do_super_user_mgr-IsValid : IsValid (do_super_user_mgr m d).daemon.pa
    do_super_user_mgr-IsValid = rw super_pa (
        ground (
          arith,
          new_passwd d.pa.normal 42 m.payload (omega arith),
          new_passwd d.pa.admin 42 m.payload (omega arith),
        ))

module _ {env : Env} where
  -- The status of paramSave after the first trace of a handler.
  abbrev pub saved_status : Text → Daemon env → CfgMgrStatus
  saved_status start d =
      if (Env.fopen_config env (trace debug_info user start d).sys).0 then cfgmgr_ok else cfgmgr_err

  normal_status :
      (m : Msg) (d : Daemon env)
      → (do_normal_user_mgr m d).status ≡ (
          if strcmp_at d.pa.normal.passwd 0 m.payload && leb (length (string_at 21 m.payload)) 20
          then saved_status (codes "Normal User Manage start") d
          else passwd_invalid)
  unfolding do_normal_user_mgr save_and_confirm param_save trace confirm
  normal_status m d = ground arith

  super_status :
      (m : Msg) (d : Daemon env)
      → (do_super_user_mgr m d).status ≡ (
          if strcmp_at d.pa.admin.passwd 21 m.payload && leb (length (string_at 42 m.payload)) 20
          then (if strcmp_at d.pa.admin.user_name 0 m.payload
                || strcmp_at d.pa.normal.user_name 0 m.payload
              then saved_status (codes "Super User Manage start") d
              else user_not_exist)
          else passwd_invalid)
  unfolding do_super_user_mgr save_and_confirm param_save trace confirm
  super_status m d = ground arith

  -- A request that holds an old and a new password changes the normal user's password to the new
  -- one if the old one is right and the new one has at most 20 characters, and then answers with
  -- the status of saving the file; otherwise it answers CFGMGR_PASSWD_INVALID and the
  -- configuration stays as it is. (The new text is in the payload with its NUL.)
  pub do_normal_user_mgr_lem :
      (d : Daemon env) (m : Msg) (old new : Text)
      → IsValid d.pa
      → Holds old 0 m.payload
      → Holds new 21 m.payload
      → length new < 4075
      → let r = do_normal_user_mgr m d in
        let accepted = text_eq d.pa.normal.passwd old && leb (length new) 20 in
        (r.status ≡ (
          if accepted then saved_status (codes "Normal User Manage start") d else passwd_invalid))
        × (r.daemon.pa ≡ (
            if accepted
            then record d.pa { normal = record d.pa.normal { passwd = new } }
            else d.pa))
  do_normal_user_mgr_lem d m old new v ho hn room =
      let compared =
        strcmp_at-text_eq d.pa.normal.passwd old 0 m.payload v.normal_valid.passwd_fits.chars ho in
      let whole = cstr_at-eq new 4075 21 m.payload room hn in
      rw (normal_status, normal_pa)
        (ground (arith, compared, whole, cstr_at_shorter 21 4075 21 m.payload (omega arith)))

  -- The administrator's request names a user. With the right administrator's password and a new one
  -- of at most 20 characters it changes that user's password and nothing else, and answers with the
  -- status of saving the file; a name that no user has is answered CFGMGR_USER_NOT_EXIST, and a
  -- wrong or too long password CFGMGR_PASSWD_INVALID, both with no change.
  pub do_super_user_mgr_lem :
      (d : Daemon env) (m : Msg) (name admin_key new : Text)
      → IsValid d.pa
      → Holds name 0 m.payload
      → Holds admin_key 21 m.payload
      → Holds new 42 m.payload
      → length new < 4054
      → let r = do_super_user_mgr m d in
        let accepted = text_eq d.pa.admin.passwd admin_key && leb (length new) 20 in
        let is_admin = text_eq d.pa.admin.user_name name in
        let is_normal = text_eq d.pa.normal.user_name name in
        (r.status ≡ (
          if accepted
          then (if is_admin || is_normal
              then saved_status (codes "Super User Manage start") d
              else user_not_exist)
          else passwd_invalid))
        × (r.daemon.pa ≡ (
            if accepted
            then (if is_admin
                then record d.pa { admin = record d.pa.admin { passwd = new } }
                else if is_normal
                then record d.pa { normal = record d.pa.normal { passwd = new } }
                else d.pa)
            else d.pa))
  do_super_user_mgr_lem d m name admin_key new v hu ha hn room =
      let compared =
        strcmp_at-text_eq d.pa.admin.passwd admin_key 21 m.payload v.admin_valid.passwd_fits.chars
          ha in
      let admin_named =
        strcmp_at-text_eq d.pa.admin.user_name name 0 m.payload v.admin_valid.name_fits.chars hu in
      let normal_named =
        strcmp_at-text_eq d.pa.normal.user_name name 0 m.payload v.normal_valid.name_fits.chars
          hu in
      let whole = cstr_at-eq new 4054 42 m.payload room hn in
      rw (super_status, super_pa)
        (ground (
          arith,
          compared,
          admin_named,
          normal_named,
          whole,
          cstr_at_shorter 21 4054 42 m.payload (omega arith),
        ))
