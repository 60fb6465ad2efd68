-- ===== src/Web/Users/Written.antt =====
-- What the requests of users write to the configuration file.
use cfg_mgr.Base.{
  ◌≡◌, refl, ◌∙◌, Bool, true, false, not, ◌++◌, Option, some, ltb, length, if◌then◌else◌, ◌⊎◌, inl,
  inr, arith, Bool-cases,
}
use cfg_mgr.Base.Text.{Text, codes}
use cfg_mgr.Memory.{strcmp_at}
use cfg_mgr.Message.{Msg, CfgMgrStatus, cfgmgr_ok, passwd_invalid, user_not_exist, usr_key_lne_max}
use cfg_mgr.Env.{Env, Doc}
use cfg_mgr.Trace.{
  Daemon, LogType, LogLevel, user, debug_info, debug_err, trace, log_write, log_open,
}
use cfg_mgr.Config.{param_save, param_doc}
use cfg_mgr.Config.Words.{Worded}
use cfg_mgr.Web.Confirm.{Reply, confirm}
use cfg_mgr.Web.Login.{do_login, do_admin_passwd_confirm, find_user, users}
use cfg_mgr.Web.Users.{
  string_at, with_passwd, too_long_message, save_and_confirm, do_normal_user_mgr, do_super_user_mgr,
}

-- What the file system promises, and Mini-XML, SQLite and the clock: the configuration file can be
-- opened for writing; a document that has been saved is the one that is loaded, if no text in it has
-- a blank (Mini-XML reads a text as words); and neither a statement on the log database nor reading
-- the clock changes it.
pub record Persists (env : Env) : Type 0 where
  pub opens : (sys : Env.Sys env) → (Env.fopen_config env sys).0 ≡ true
  pub loads :
      (doc : Doc) (sys : Env.Sys env)
      → Worded doc
      → (Env.load_file env (Env.save_file env doc sys)).0 ≡ some doc
  pub logged :
      (sql : Text) (sys : Env.Sys env)
      → (Env.load_file env (Env.sqlite_exec env sql sys)).0 ≡ (Env.load_file env sys).0
  pub timed :
      (sys : Env.Sys env) → (Env.load_file env (Env.time env sys).1).0 ≡ (Env.load_file env sys).0

abbrev pub is_ok : CfgMgrStatus → Bool
is_ok cfgmgr_ok = true
is_ok _ = false

-- The document that paramLoad would find.
abbrev pub file : {env : Env} → Daemon env → Option Doc
file {env} d = (Env.load_file env d.sys).0

module _ {env : Env} (holds : Persists env) where
  pub file-trace :
      (level : LogLevel) (typ : LogType) (message : Text) (d : Daemon env)
      → file (trace level typ message d) ≡ file d
  unfolding trace log_write log_open
  file-trace level typ message d = holds.logged _ _ ∙ holds.logged _ _ ∙ holds.timed d.sys

  -- A request that is granted and one that is refused leave different files: the first one the
  -- configuration after it, if there is no blank in it, the second one the file as it was.
  unfoldable pub Written : Daemon env → Reply env → Type 0
  Written d r =
      ((is_ok r.status ≡ false) × (file r.daemon ≡ file d))
      ⊎ ((is_ok r.status ≡ true)
          × (Worded (param_doc r.daemon.pa) → file r.daemon ≡ some (param_doc r.daemon.pa)))

  if-Written :
      (d : Daemon env) (b : Bool) (x y : Reply env)
      → Written d x
      → Written d y
      → Written d (if b then x else y)
  if-Written d true x y hx hy = hx
  if-Written d false x y hx hy = hy

  module _ (message : Text) (d e : Daemon env) (same : file e ≡ file d) where
    invalid-Written : Written d (confirm passwd_invalid (trace debug_err user message e))
    unfolding confirm Written
    invalid-Written = inl (refl, file-trace debug_err user message e ∙ same)

    not_exist-Written : Written d (confirm user_not_exist (trace debug_err user message e))
    unfolding confirm Written
    not_exist-Written = inl (refl, file-trace debug_err user message e ∙ same)

  save_and_confirm-opened :
      (done : Text) (e : Daemon env)
      → save_and_confirm done e
        ≡ confirm cfgmgr_ok (
            trace debug_info user done (record e {
              sys = Env.save_file env (param_doc e.pa) (Env.fopen_config env e.sys).1;
            }))
  unfolding save_and_confirm param_save
  save_and_confirm-opened done e = ground (arith, holds.opens e.sys)

  confirm-Written :
      (done : Text) (d e : Daemon env)
      → (Worded (param_doc e.pa) → file e ≡ some (param_doc e.pa))
      → Written d (confirm cfgmgr_ok (trace debug_info user done e))
  unfolding confirm Written trace log_write log_open
  confirm-Written done d e saved =
      inr (refl, λ w. holds.logged _ _ ∙ holds.logged _ _ ∙ holds.timed e.sys ∙ saved w)

  save_and_confirm-Written : (done : Text) (d e : Daemon env) → Written d (save_and_confirm done e)
  save_and_confirm-Written done d e =
      rw (save_and_confirm-opened done e)
        (confirm-Written done d _ (holds.loads (param_doc e.pa) (Env.fopen_config env e.sys).1))

  module _ (m : Msg) (d : Daemon env) where
    pub do_normal_user_mgr-Written : Written d (do_normal_user_mgr m d)
    unfolding do_normal_user_mgr
    do_normal_user_mgr-Written =
        let started = trace debug_info user (codes "Normal User Manage start") d in
        let new_len = length (string_at 21 m.payload) in
        let same = file-trace debug_info user (codes "Normal User Manage start") d in
        if-Written d (not (strcmp_at d.pa.normal.passwd 0 m.payload)) _ _
          (invalid-Written (codes "Passwd invalid !!!") d started same)
          (if-Written d (ltb usr_key_lne_max new_len) _ _
            (invalid-Written (too_long_message new_len) d started same)
            (save_and_confirm-Written (codes "Normal User Manage succ") d (record started {
              pa = record d.pa { normal = with_passwd d.pa.normal 21 m.payload };
            })))

    pub do_super_user_mgr-Written : Written d (do_super_user_mgr m d)
    unfolding do_super_user_mgr
    do_super_user_mgr-Written =
        let started = trace debug_info user (codes "Super User Manage start") d in
        let new_len = length (string_at 42 m.payload) in
        let same = file-trace debug_info user (codes "Super User Manage start") d in
        if-Written d (not (strcmp_at d.pa.admin.passwd 21 m.payload)) _ _
          (invalid-Written (codes "Passwd invalid !!!") d started same)
          (if-Written d (ltb usr_key_lne_max new_len) _ _
            (invalid-Written (too_long_message new_len) d started same)
            (if-Written d (strcmp_at d.pa.admin.user_name 0 m.payload) _ _
              (save_and_confirm-Written (codes "Super User Manage succ") d (record started {
                pa = record d.pa { admin = with_passwd d.pa.admin 42 m.payload };
              }))
              (if-Written d (strcmp_at d.pa.normal.user_name 0 m.payload) _ _
                (save_and_confirm-Written (codes "Super User Manage succ") d (record started {
                  pa = record d.pa { normal = with_passwd d.pa.normal 42 m.payload };
                }))
                (not_exist-Written
                  (codes "User " ++ (string_at 0 m.payload ++ codes " not exist !!!")) d started
                  same))))

    pub file-do_login : file (do_login m d).daemon ≡ file d
    unfolding do_login confirm
    file-do_login =
        let started = trace debug_info user (codes "Login start") d in
        let same = file-trace debug_info user (codes "Login start") d in
        elim (Bool-cases (find_user (users started.pa) m.payload)) [
          | inl e ↦ rw e (file-trace debug_info user (codes "Login succ") started ∙ same)
          | inr e ↦
              rw e (
                file-trace debug_info user (codes "UserName or Passwd not valid !!!") started
                ∙ same)
        ]

    pub file-do_admin_passwd_confirm : file (do_admin_passwd_confirm m d).daemon ≡ file d
    unfolding do_admin_passwd_confirm confirm
    file-do_admin_passwd_confirm = elim (Bool-cases (strcmp_at d.pa.admin.passwd 0 m.payload)) [
      | inl e ↦ rw e refl
      | inr e ↦ rw e (file-trace debug_info user (codes "Passwd Invalid") d)
    ]
