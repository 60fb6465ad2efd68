-- ===== src/EndToEnd.antt =====
-- The CGI and the daemon together: from the form to the handler's answer.
pub mod Routes
pub mod AdminPasswd
pub mod Answer
pub mod Pages
pub mod Sessions
pub mod Storable
pub mod Stored
pub mod Restart
pub mod Interfaces
pub mod Queued
pub mod LogLookUp
pub mod Logged
pub mod Settings
pub mod Kept
use Prim.Native.String.{String}
use cfg_mgr.Base.{
  ℕ, ◌+◌, ◌≤◌, ◌<◌, ◌≡◌, ◌≢◌, refl, ◌∙◌, ap, sym, Bool, true, false, ◌&&◌, ◌||◌, Option, none, some,
  arith, length, leb, if◌then◌else◌, ◌>>=◌, inl, inr, bind-some, ◌⊎◌, [], ◌∷◌,
}
use mathlib.Core.Path.{subst}
use cfg_mgr.Base.Text.{Text, codes, text_eq, text_eq_refl, text_eq_iff, IsCstr, strstr, starts_with}
use cfg_mgr.Memory.{Bytes, strcmp_at, strncpy}
use cfg_mgr.Memory.Strings.{Holds}
use cfg_mgr.Message.{
  Msg, MsgType, CfgMgrStatus, cfgmgr_ok, cfgmgr_err, passwd_invalid, user_not_exist, login_request,
  normalusermgr_request, superusermgr_request, adminpasswdcomfirm_request, netconfigsave,
}
use cfg_mgr.Params.{NetParam, Param, UserParam, IsUser, IsValid, net_param_at}
use cfg_mgr.Env.{Env}
use cfg_mgr.Trace.{Daemon, trace}
use cfg_mgr.Config.RoundTrip.{IsNet}
use cfg_mgr.Web.Confirm.{Reply}
use cfg_mgr.Web.Login.{do_login, do_admin_passwd_confirm}
use cfg_mgr.Web.Login.Laws.{is_account, do_login_lem, do_admin_passwd_confirm_lem}
use cfg_mgr.Web.Users.{do_normal_user_mgr, do_super_user_mgr}
use cfg_mgr.Web.Users.Laws.{saved_status, do_normal_user_mgr_lem, do_super_user_mgr_lem}
use cfg_mgr.Web.Net.{do_net_config_save}
use cfg_mgr.Web.Net.Laws.{do_net_config_save_done}
use cfg_mgr.Web.Dispatch.{dispatch, handle, arrived, received}
use cfg_mgr.Message.{normalusermgr_request, superusermgr_request}
use cfg_mgr.Cgi.{Form, Request, required, key_len_chk}
use cfg_mgr.Cgi.Users.{key_text, login, normal_user_mgr, super_user_mgr, admin_passwd_confirm}
use cfg_mgr.Cgi.Users.Laws.{
  IsKey, key_text-IsKey, login-Holds, normal_user_mgr-Holds, super_user_mgr-Holds,
  admin_passwd_confirm-Holds,
}
use cfg_mgr.Cgi.Net.{net_param_get, net_config_save}
use cfg_mgr.Cgi.Net.Laws.{net_config_save-net_param_at}
use cfg_mgr.Cgi.Table.{FormMethod, form_method_table, look_up_in, form_method_look_up, request_of}
use cfg_mgr.Cgi.Table.Laws.{form_method_look_up_own}
use cfg_mgr.EndToEnd.Routes.{
  submit, Asks, request_of-login, request_of-net_config_save, request_of-normal_user_mgr,
  request_of-super_user_mgr, request_of-admin_passwd_confirm, dispatch-do_login,
  dispatch-do_normal_user_mgr, dispatch-do_super_user_mgr, dispatch-do_admin_passwd_confirm,
  dispatch-do_net_config_save,
}

module _ {env : Env} (temp polls : ℕ) (form : Form) (m prev : Msg) (d : Daemon env) where
  -- With a well-formed configuration, a login form with a name and a password of 1 to 20 characters
  -- is answered, and with CFGMGR_OK exactly when they are those of one of the two users, whatever
  -- the message variables held; otherwise with CFGMGR_ERR. The configuration stays as it is.
  pub submit-login :
      Asks "Function_Login" form
      → IsKey (form.form_string "UserName")
      → IsKey (form.form_string "Passwd")
      → IsValid d.pa
      → (r : Reply env) × (submit temp polls form m prev d ≡ some r)
        × (r.status ≡ (
            if is_account (form.form_string "UserName") (form.form_string "Passwd") d.pa
            then cfgmgr_ok
            else cfgmgr_err))
        × (r.daemon.pa ≡ d.pa)
  unfolding trace
  submit-login asks vn vp v =
      let (r, sent, kind, held_name, held_passwd) = login-Holds form m vn vp in
      let law = do_login_lem (arrived r d) r _ _ v held_name held_passwd in
      (
        do_login r (arrived r d),
        rw (request_of-login temp form m asks, sent)
            (dispatch-do_login polls r prev (arrived r d) kind),
        law.0,
        law.2,
      )

  -- With a well-formed configuration, a form that changes the normal user's password, with an old
  -- and a new one of 1 to 20 characters, is answered. If the old one is right the password is now the new one, and the answer is the
  -- status of saving the file; otherwise the answer is CFGMGR_PASSWD_INVALID and nothing changes.
  pub submit-normal_user_mgr :
      Asks "Function_NormalUserMgr" form
      → IsKey (form.form_string "PrimaryKey")
      → IsKey (form.form_string "NewKey")
      → IsValid d.pa
      → let right = text_eq d.pa.normal.passwd (form.form_string "PrimaryKey") in
        (r : Reply env) × (submit temp polls form m prev d ≡ some r)
        × (r.status ≡ (
            if right
            then saved_status (codes "Normal User Manage start") (received normalusermgr_request d)
            else passwd_invalid))
        × (r.daemon.pa ≡ (
            if right
            then record d.pa { normal = record d.pa.normal { passwd = form.form_string "NewKey" } }
            else d.pa))
  unfolding trace
  submit-normal_user_mgr asks vo vn v =
      let (r, sent, kind, held_old, held_new) = normal_user_mgr-Holds form m vo vn in
      let short = vn.cstr.fits in
      let law = do_normal_user_mgr_lem (arrived r d) r _ _ v held_old held_new (omega arith) in
      let at =
        ap (λ (k : MsgType). saved_status (codes "Normal User Manage start") (received k d)) kind in
      (
        do_normal_user_mgr r (arrived r d),
        rw (request_of-normal_user_mgr temp form m asks, sent)
            (dispatch-do_normal_user_mgr polls r prev (arrived r d) kind),
        ground (arith, law, at),
        ground (arith, law, at),
      )

  -- With a well-formed configuration, the administrator's form with a name and two passwords of 1 to
  -- 20 characters is answered. If the administrator's password is right, the password of the user
  -- with the name becomes the new one, and nothing else changes; for another password or a name
  -- that no user has the configuration stays as it is. The answer is the status of saving the file,
  -- CFGMGR_PASSWD_INVALID for another password, or CFGMGR_USER_NOT_EXIST for another name.
  pub submit-super_user_mgr :
      Asks "Function_SuperUserMgr" form
      → IsKey (form.form_string "UserName")
      → IsKey (form.form_string "AdminKey")
      → IsKey (form.form_string "NewKey")
      → IsValid d.pa
      → let name = form.form_string "UserName" in
        let new = form.form_string "NewKey" in
        (r : Reply env) × (submit temp polls form m prev d ≡ some r)
        × (r.daemon.pa ≡ (
            if text_eq d.pa.admin.passwd (form.form_string "AdminKey")
            then (if text_eq d.pa.admin.user_name name
                then record d.pa { admin = record d.pa.admin { passwd = new } }
                else if text_eq d.pa.normal.user_name name
                then record d.pa { normal = record d.pa.normal { passwd = new } }
                else d.pa)
            else d.pa))
        × (r.status ≡ (
            if text_eq d.pa.admin.passwd (form.form_string "AdminKey")
            then (if text_eq d.pa.admin.user_name name || text_eq d.pa.normal.user_name name
                then saved_status
                    (codes "Super User Manage start")
                    (received superusermgr_request d)
                else user_not_exist)
            else passwd_invalid))
  unfolding trace
  submit-super_user_mgr asks vu va vn v =
      let (r, sent, kind, held_name, held_admin, held_new) = super_user_mgr-Holds form m vu va vn in
      let short = vn.cstr.fits in
      let law =
        do_super_user_mgr_lem (arrived r d) r _ _ _ v held_name held_admin held_new (omega arith) in
      let at =
        ap (λ (k : MsgType). saved_status (codes "Super User Manage start") (received k d)) kind in
      (
        do_super_user_mgr r (arrived r d),
        rw (request_of-super_user_mgr temp form m asks, sent)
            (dispatch-do_super_user_mgr polls r prev (arrived r d) kind),
        ground (arith, law, at),
        ground (arith, law, at),
      )

  -- A form with parameters for both interfaces is handled by doNetConfigSave, which reads them from
  -- its message.
  pub handled-net_config_save :
      (net1 net2 : NetParam) (r : Reply env)
      → Asks "Function_NetConfigSave" form
      → net_param_get temp form 1 ≡ some net1
      → net_param_get temp form 2 ≡ some net2
      → submit temp polls form m prev d ≡ some r
      → (q : Msg) × (do_net_config_save polls q (arrived q d) ≡ some r)
        × (net_param_at 0 q.payload ≡ net1)
        × (net_param_at 24 q.payload ≡ net2)
  handled-net_config_save net1 net2 r asks e1 e2 answered =
      let (q, sent, kind, at1, at2) = net_config_save-net_param_at temp form m net1 net2 e1 e2 in
      let request : request_of temp form m ≡ some q =
        request_of-net_config_save temp form m asks ∙ sent in
      (
        q,
        sym (dispatch-do_net_config_save polls q prev (arrived q d) kind)
            ∙ sym (ap (λ (o : Option Msg). o >>= λ x. dispatch polls x prev (arrived x d)) request)
            ∙ answered,
        at1,
        at2,
      )

  -- The form has parameters for both interfaces. If it
  -- is answered, and with CFGMGR_OK, the configuration has exactly these parameters for its two
  -- interfaces, and is otherwise unchanged.
  pub submit-net_config_save :
      (net1 net2 : NetParam) (r : Reply env)
      → Asks "Function_NetConfigSave" form
      → net_param_get temp form 1 ≡ some net1
      → net_param_get temp form 2 ≡ some net2
      → submit temp polls form m prev d ≡ some r
      → r.status ≡ cfgmgr_ok
      → r.daemon.pa ≡ record d.pa {
        lan1 = record d.pa.lan1 { net = net1 };
        lan2 = record d.pa.lan2 { net = net2 };
      }
  unfolding trace
  submit-net_config_save net1 net2 r asks e1 e2 answered ok =
      let (q, handled, at1, at2) = handled-net_config_save net1 net2 r asks e1 e2 answered in
      let law = do_net_config_save_done polls q (arrived q d) r handled ok in
      law ∙ rw (at1, at2) refl

-- With a well-formed configuration, once the normal user's password has been changed by a form with
-- the right old one, a login form with the user's name and the new password is accepted; the name
-- and both passwords have 1 to 20 characters.
pub submit-change_then_login :
    {env : Env} (temp polls : ℕ) (change entry : Form) (m m' prev : Msg) (d : Daemon env)
    → Asks "Function_NormalUserMgr" change
    → IsKey (change.form_string "NewKey")
    → IsKey d.pa.normal.passwd
    → change.form_string "PrimaryKey" ≡ d.pa.normal.passwd
    → IsValid d.pa
    → Asks "Function_Login" entry
    → IsKey d.pa.normal.user_name
    → entry.form_string "UserName" ≡ d.pa.normal.user_name
    → entry.form_string "Passwd" ≡ change.form_string "NewKey"
    → (r s : Reply env) × (submit temp polls change m prev d ≡ some r)
      × (submit temp polls entry m' r.out r.daemon ≡ some s)
      × (s.status ≡ cfgmgr_ok)
submit-change_then_login temp polls change entry m m' prev d asks vn vo old v asks' vu named given =
    let (r, changed, _, pa) =
      submit-normal_user_mgr temp polls change m prev d asks (subst IsKey (sym old) vo) vn v in
    let right : text_eq d.pa.normal.passwd (change.form_string "PrimaryKey") ≡ true =
      ap (text_eq d.pa.normal.passwd) old ∙ text_eq_refl d.pa.normal.passwd in
    let after = record d.pa {
      normal = record d.pa.normal { passwd = change.form_string "NewKey" };
    } in
    let same : r.daemon.pa ≡ after = ground (arith, pa, right) in
    let v' : IsValid r.daemon.pa = subst IsValid (sym same) (record {
      admin_valid = v.admin_valid;
      normal_valid = record { name_fits = vu.cstr; passwd_fits = vn.cstr };
    }) in
    let (s, entered, status, _) =
      submit-login temp polls entry m' r.out r.daemon asks' (subst IsKey (sym named) vu)
        (subst IsKey (sym given) vn) v' in
    let known : is_account (entry.form_string "UserName") (entry.form_string "Passwd") r.daemon.pa
        ≡ true =
      rw
        (
          same,
          named,
          given,
          text_eq_refl d.pa.normal.user_name,
          text_eq_refl (change.form_string "NewKey"),
        )
        (ground arith) in
    (r, s, changed, entered, ground (arith, status, known))
