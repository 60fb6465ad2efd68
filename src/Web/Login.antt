-- ===== src/Web/Login.antt =====
-- doLogin and doAdminPasswdConfirm of web.c.
pub mod Laws
use cfg_mgr.Base.{ℕ, Bool, true, false, ◌&&◌, ◌||◌, not, List, [], ◌∷◌, if◌then◌else◌}
use cfg_mgr.Base.Text.{codes}
use cfg_mgr.Memory.{Bytes, strcmp_at}
use cfg_mgr.Message.{Msg, cfgmgr_ok, cfgmgr_err, passwd_invalid}
use cfg_mgr.Params.{UserParam, Param}
use cfg_mgr.Env.{Env}
use cfg_mgr.Trace.{Daemon, user, debug_info, trace}
use cfg_mgr.Web.Confirm.{Reply, confirm}

-- `pa.users`, in the order of the array.
abbrev pub users : Param → List UserParam
users p = p.admin ∷ p.normal ∷ []

-- `loginRequest`: userName at 0, passwd at 21. One round of the loop.
unfoldable pub login_matches : UserParam → Bytes → Bool
login_matches u req = strcmp_at u.user_name 0 req && strcmp_at u.passwd 21 req

-- The loop over the users: whether it breaks before its end.
unfoldable pub find_user : List UserParam → Bytes → Bool
find_user [] req = false
find_user (u ∷ us) req = login_matches u req || find_user us req

unfoldable pub do_login : {env : Env} → Msg → Daemon env → Reply env
do_login m d =
    let started = trace debug_info user (codes "Login start") d in
    if find_user (users started.pa) m.payload
    then confirm cfgmgr_ok (trace debug_info user (codes "Login succ") started)
    else confirm cfgmgr_err
        (trace debug_info user (codes "UserName or Passwd not valid !!!") started)

-- `adminPasswdConfirmRequest`: adminPasswd at 0.
unfoldable pub do_admin_passwd_confirm : {env : Env} → Msg → Daemon env → Reply env
do_admin_passwd_confirm m d =
    if strcmp_at d.pa.admin.passwd 0 m.payload
    then confirm cfgmgr_ok d
    else confirm passwd_invalid (trace debug_info user (codes "Passwd Invalid") d)
