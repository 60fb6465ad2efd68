-- ===== src/Web/Login/Laws.antt =====
-- Who may log in.
use cfg_mgr.Base.{◌≡◌, Bool, ◌&&◌, ◌||◌, arith, if◌then◌else◌}
use cfg_mgr.Base.Text.{Text, text_eq, codes}
use cfg_mgr.Memory.{Bytes}
use cfg_mgr.Memory.Strings.{Holds, strcmp_at-text_eq}
use cfg_mgr.Message.{Msg, cfgmgr_ok, cfgmgr_err, passwd_invalid}
use cfg_mgr.Params.{UserParam, Param, IsUser, IsValid}
use cfg_mgr.Env.{Env}
use cfg_mgr.Trace.{Daemon, trace}
use cfg_mgr.Web.Confirm.{confirm, gen_confirm_msg}
use cfg_mgr.Web.Login.{login_matches, find_user, users, do_login, do_admin_passwd_confirm}

-- The name and the password are those of a user of the configuration.
abbrev pub is_account : Text → Text → Param → Bool
is_account name passwd p =
    (text_eq p.admin.user_name name && text_eq p.admin.passwd passwd)
    || (text_eq p.normal.user_name name && text_eq p.normal.passwd passwd)

login_matches-eq :
    (u : UserParam) (name passwd : Text) (req : Bytes)
    → IsUser u
    → Holds name 0 req
    → Holds passwd 21 req
    → login_matches u req ≡ (text_eq u.user_name name && text_eq u.passwd passwd)
unfolding login_matches
login_matches-eq u name passwd req v hn hp = rw (
  strcmp_at-text_eq u.user_name name 0 req v.name_fits.chars hn,
  strcmp_at-text_eq u.passwd passwd 21 req v.passwd_fits.chars hp,
)

find_user-eq :
    (p : Param) (name passwd : Text) (req : Bytes)
    → IsValid p
    → Holds name 0 req
    → Holds passwd 21 req
    → find_user (users p) req ≡ is_account name passwd p
unfolding find_user
find_user-eq p name passwd req v hn hp = ground (
  arith,
  login_matches-eq p.admin name passwd req v.admin_valid hn hp,
  login_matches-eq p.normal name passwd req v.normal_valid hn hp,
)

-- A login request that holds a name and a password is answered by CFGMGR_OK exactly when they are
-- those of one of the two users, and by CFGMGR_ERR otherwise; the confirmation carries the same
-- answer with its message, and the configuration stays as it is.
pub do_login_lem :
    {env : Env} (d : Daemon env) (m : Msg) (name passwd : Text)
    → IsValid d.pa
    → Holds name 0 m.payload
    → Holds passwd 21 m.payload
    → let r = do_login m d in
      let known = is_account name passwd d.pa in
      (r.status ≡ (if known then cfgmgr_ok else cfgmgr_err))
      × (r.out ≡ (
          if known
          then gen_confirm_msg cfgmgr_ok (codes "Login succ")
          else gen_confirm_msg cfgmgr_err (codes "UserName or Passwd not valid !!!")))
      × (r.daemon.pa ≡ d.pa)
unfolding do_login trace confirm
do_login_lem d m name passwd v hn hp =
    ground (arith, find_user-eq d.pa name passwd m.payload v hn hp)

-- The check of the administrator's password accepts exactly the stored one and changes nothing,
-- where the request's password ends in a NUL.
pub do_admin_passwd_confirm_lem :
    {env : Env} (d : Daemon env) (m : Msg) (passwd : Text)
    → IsValid d.pa
    → Holds passwd 0 m.payload
    → let r = do_admin_passwd_confirm m d in
      (r.status ≡ (if text_eq d.pa.admin.passwd passwd then cfgmgr_ok else passwd_invalid))
      × (r.daemon.pa ≡ d.pa)
unfolding do_admin_passwd_confirm trace confirm
do_admin_passwd_confirm_lem d m passwd v h = ground (
  arith,
  strcmp_at-text_eq d.pa.admin.passwd passwd 0 m.payload v.admin_valid.passwd_fits.chars h,
)
