-- ===== src/EndToEnd/Sessions.antt =====
-- The accounts of the device as its users see them, and that any session of forms keeps them so.
use cfg_mgr.Base.{
  ℕ, ◌≤◌, ◌≡◌, refl, ◌∙◌, ap, Bool, true, false, ◌&&◌, ◌||◌, List, [], ◌∷◌, Option, some, arith,
  length, if◌then◌else◌, ◌>>=◌, map, bind-some,
}
use mathlib.Core.Path.{ap₂}
use cfg_mgr.Base.Text.{Text, text_eq, codes}
use cfg_mgr.Web.Users.Laws.{saved_status}
use cfg_mgr.Web.Users.Written.{is_ok}
use cfg_mgr.Message.{normalusermgr_request, superusermgr_request, Msg, CfgMgrStatus, cfgmgr_ok}
use cfg_mgr.Params.{Param, IsValid}
use cfg_mgr.Env.{Env}
use cfg_mgr.Trace.{Daemon, trace}
use cfg_mgr.Web.Confirm.{Reply}
use cfg_mgr.Web.Dispatch.{dispatch, arrived, received}
use cfg_mgr.Web.Dispatch.Laws.{dispatch-Preserved}
use cfg_mgr.Cgi.{Form}
use cfg_mgr.Cgi.Users.Laws.{IsKey}
use cfg_mgr.Cgi.Table.{request_of}
use cfg_mgr.EndToEnd.{submit-login, submit-normal_user_mgr, submit-super_user_mgr}
use cfg_mgr.EndToEnd.AdminPasswd.{submit-admin_passwd_confirm}
use cfg_mgr.EndToEnd.Routes.{submit, Asks}

-- Two users with a name and a password each.
pub record Accounts : Type 0 where
  pub admin_name : Text
  pub admin_passwd : Text
  pub normal_name : Text
  pub normal_passwd : Text

-- What a user may do: log in; change the normal user's password, knowing the old one; set the
-- password of a named user, knowing the administrator's; and show that one knows the latter.
pub data Act : Type 0 where
  log_in : (name passwd : Text) → Act
  change : (old new : Text) → Act
  reset : (name key new : Text) → Act
  check : (passwd : Text) → Act

-- Whether an act is granted, and the accounts after it.
abbrev pub perform : Act → Accounts → Bool × Accounts
perform (log_in name passwd) a = (
  (text_eq a.admin_name name && text_eq a.admin_passwd passwd)
      || (text_eq a.normal_name name && text_eq a.normal_passwd passwd),
  a,
)
perform (change old new) a =
    if text_eq a.normal_passwd old then (true, record a { normal_passwd = new }) else (false, a)
perform (reset name key new) a =
    if text_eq a.admin_passwd key
    then (if text_eq a.admin_name name
        then (true, record a { admin_passwd = new })
        else if text_eq a.normal_name name
        then (true, record a { normal_passwd = new })
        else (false, a))
    else (false, a)
perform (check passwd) a = (text_eq a.admin_passwd passwd, a)

abbrev pub perform_all : List Act → Accounts → List Bool × Accounts
perform_all [] a = ([], a)
perform_all (act ∷ acts) a =
    let (granted, b) = perform act a in let (rest, c) = perform_all acts b in (granted ∷ rest, c)

-- What the configuration of the daemon holds of the accounts.
abbrev pub view : Param → Accounts
view p = record {
  admin_name = p.admin.user_name;
  admin_passwd = p.admin.passwd;
  normal_name = p.normal.user_name;
  normal_passwd = p.normal.passwd;
}

-- A form by which a user does an act, with names and passwords of 1 to 20 characters (at most 19
-- for the check).
pub data Enters (form : Form) : Act → Type 0 where
  enters_login :
      Asks "Function_Login" form
      → IsKey (form.form_string "UserName")
      → IsKey (form.form_string "Passwd")
      → Enters form (log_in (form.form_string "UserName") (form.form_string "Passwd"))
  enters_change :
      Asks "Function_NormalUserMgr" form
      → IsKey (form.form_string "PrimaryKey")
      → IsKey (form.form_string "NewKey")
      → Enters form (change (form.form_string "PrimaryKey") (form.form_string "NewKey"))
  enters_reset :
      Asks "Function_SuperUserMgr" form
      → IsKey (form.form_string "UserName")
      → IsKey (form.form_string "AdminKey")
      → IsKey (form.form_string "NewKey")
      → Enters form (
          reset
            (form.form_string "UserName")
            (form.form_string "AdminKey")
            (form.form_string "NewKey"))
  enters_check :
      Asks "Function_AdminPasswdConfirm" form
      → IsKey (form.form_string "AdminPasswd")
      → length (form.form_string "AdminPasswd") ≤ 19
      → Enters form (check (form.form_string "AdminPasswd"))

-- Forms, one after the other, each with what its process's message variable holds at first.
pub data Script : List Act → List (Form × Msg) → Type 0 where
  finished : Script [] []
  enter :
      (act : Act) (acts : List Act) (form : Form) (m : Msg) (rest : List (Form × Msg))
      → Enters form act
      → Script acts rest
      → Script (act ∷ acts) ((form, m) ∷ rest)

-- The answers to forms that are submitted one after the other, and the daemon after them.
unfoldable pub submit_all :
    {env : Env}
    → ℕ
    → ℕ
    → List (Form × Msg)
    → Msg
    → Daemon env
    → Option (List CfgMgrStatus × Daemon env)
submit_all temp polls [] prev d = some ([], d)
submit_all temp polls (f ∷ rest) prev d = do
  r ← submit temp polls f.0 f.1 prev d
  (statuses, e) ← submit_all temp polls rest r.out r.daemon
  some (r.status ∷ statuses, e)

module _ {env : Env} (opens : (sys : Env.Sys env) → (Env.fopen_config env sys).0 ≡ true) where
  saved : (started : Text) (d : Daemon env) → saved_status started d ≡ cfgmgr_ok
  saved started d = rw (opens _) refl

  -- One form is answered as its act is: granted exactly with CFGMGR_OK.
  unfoldable pub Granted : Act → Daemon env → Reply env → Type 0
  Granted act d r =
      (is_ok r.status ≡ (perform act (view d.pa)).0)
      × (view r.daemon.pa ≡ (perform act (view d.pa)).1)

  pub submit-Granted :
      (temp polls : ℕ) (act : Act) (form : Form) (m prev : Msg) (d : Daemon env)
      → Enters form act
      → IsValid d.pa
      → (r : Reply env) × (submit temp polls form m prev d ≡ some r) × Granted act d r
  unfolding Granted
  submit-Granted temp polls _ form m prev d (enters_login asks vn vp) v =
      let (r, e, status, pa) = submit-login temp polls form m prev d asks vn vp v in
      (r, e, (ground (arith, status), ap view pa))
  submit-Granted temp polls _ form m prev d (enters_change asks vo vn) v =
      let (r, e, status, pa) = submit-normal_user_mgr temp polls form m prev d asks vo vn v in
      (
        r,
        e,
        (
          ground (
            arith,
            status,
            saved (codes "Normal User Manage start") (received normalusermgr_request d),
          ),
          ground (arith, pa),
        ),
      )
  submit-Granted temp polls _ form m prev d (enters_reset asks vu va vn) v =
      let (r, e, pa, status) = submit-super_user_mgr temp polls form m prev d asks vu va vn v in
      (
        r,
        e,
        (
          ground (
            arith,
            status,
            saved (codes "Super User Manage start") (received superusermgr_request d),
          ),
          ground (arith, pa),
        ),
      )
  submit-Granted temp polls _ form m prev d (enters_check asks vp short) v =
      let (r, e, status, pa) =
        submit-admin_passwd_confirm temp polls form m prev d asks vp short v in
      (r, e, (ground (arith, status), ap view pa))

  -- Any session of forms runs to its end, and answers as the accounts prescribe: an act is granted
  -- exactly if its form is answered with CFGMGR_OK, and the accounts that the daemon holds at the
  -- end are those that the acts lead to. The forms have names and passwords of 1 to 20 characters, at
  -- most 19 for a check; the configuration is well formed at the start and its file can always be
  -- opened for writing.
  pub submit_all-perform_all :
      (temp polls : ℕ) (acts : List Act) (forms : List (Form × Msg)) (prev : Msg) (d : Daemon env)
      → Script acts forms
      → IsValid d.pa
      → (statuses : List CfgMgrStatus) × (e : Daemon env) × (submit_all temp polls forms prev d
          ≡ some (statuses, e))
        × (map is_ok statuses ≡ (perform_all acts (view d.pa)).0)
        × (view e.pa ≡ (perform_all acts (view d.pa)).1)
        × IsValid e.pa
  unfolding submit_all Granted trace
  submit_all-perform_all temp polls _ _ prev d finished v = ([], d, refl, refl, refl, v)
  submit_all-perform_all temp polls _ _ prev d (enter act acts form m rest entered later) v =
      let (r, answered, (granted, after)) = submit-Granted temp polls act form m prev d entered v in
      let (q, asked, served) =
        bind-some (request_of temp form m) (λ x. dispatch polls x prev (arrived x d)) r answered in
      let v' : IsValid r.daemon.pa = (dispatch-Preserved polls q prev (arrived q d) r v served).2 in
      let (statuses, e, ran, results, accounts, v'') =
        submit_all-perform_all temp polls acts rest r.out r.daemon later v' in
      (
        r.status ∷ statuses,
        e,
        rw (answered, ran) refl,
        ap₂ {C = List Bool} (λ b bs. b ∷ bs) granted
            (results ∙ ap (λ a. (perform_all acts a).0) after),
        accounts ∙ ap (λ a. (perform_all acts a).1) after,
        v'',
      )
