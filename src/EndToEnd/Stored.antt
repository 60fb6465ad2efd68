-- ===== src/EndToEnd/Stored.antt =====
-- The configuration file and the daemon's accounts, in step after each form.
use cfg_mgr.Base.{ℕ, ◌≡◌, refl, ◌∙◌, ap, sym, false, Option, some, arith, ◌>>=◌, inl, inr}
use mathlib.Core.Path.{subst}
use cfg_mgr.Base.Text.{text_eq}
use cfg_mgr.Message.{Msg}
use cfg_mgr.Params.{Param}
use cfg_mgr.Env.{Env, Doc}
use cfg_mgr.Trace.{Daemon, trace, system, debug_info}
use cfg_mgr.Config.{param_doc}
use cfg_mgr.Config.Words.{IsWord}
use cfg_mgr.Config.Load.{param_load}
use cfg_mgr.Config.RoundTrip.{param_load-param_doc}
use cfg_mgr.Web.Confirm.{Reply}
use cfg_mgr.Web.Users.Written.{
  Persists, file, file-trace, Written, do_normal_user_mgr-Written, do_super_user_mgr-Written,
  file-do_login, file-do_admin_passwd_confirm,
}
use cfg_mgr.Web.Login.Laws.{do_login_lem, do_admin_passwd_confirm_lem}
use cfg_mgr.Web.Dispatch.{dispatch, arrived}
use cfg_mgr.Web.Login.{do_login, do_admin_passwd_confirm}
use cfg_mgr.Web.Users.{do_normal_user_mgr, do_super_user_mgr}
use cfg_mgr.Cgi.{Form}
use cfg_mgr.Cgi.Table.{request_of}
use cfg_mgr.Cgi.Users.Laws.{
  login-Holds, normal_user_mgr-Holds, super_user_mgr-Holds, admin_passwd_confirm-Holds,
}
use cfg_mgr.EndToEnd.{submit-normal_user_mgr, submit-super_user_mgr}
use cfg_mgr.EndToEnd.Routes.{
  submit, request_of-login, request_of-normal_user_mgr, request_of-super_user_mgr,
  request_of-admin_passwd_confirm, dispatch-do_login, dispatch-do_normal_user_mgr,
  dispatch-do_super_user_mgr, dispatch-do_admin_passwd_confirm,
}
use cfg_mgr.EndToEnd.Storable.{
  Storable, Storable-Worded, normal-Storable, admin-Storable, if-Storable,
}
use cfg_mgr.EndToEnd.Sessions.{
  Accounts, Act, log_in, change, reset, check, perform, view, Enters, enters_login, enters_change,
  enters_reset, enters_check, Granted,
}

perform-refused : (act : Act) (a : Accounts) → (perform act a).0 ≡ false → (perform act a).1 ≡ a
perform-refused (log_in name passwd) a h = refl
perform-refused (change old new) a h = ground arith
perform-refused (reset name key new) a h = ground arith
perform-refused (check passwd) a h = refl

-- A new password of the act has no blank in it.
abbrev pub NewIsWord : Act → Type 0
NewIsWord (change old new) = IsWord new
NewIsWord (reset name key new) = IsWord new
NewIsWord act = Unit

module _ {env : Env} (temp : ℕ) where
  -- The configuration file can be loaded and has the daemon's accounts.
  abbrev pub Stored : Daemon env → Type 0
  Stored d =
      (doc : Doc) × (p : Param) × (file d ≡ some doc)
      × (param_load temp doc ≡ some p)
      × (view p ≡ view d.pa)

  Stored-same : (d e : Daemon env) → file e ≡ file d → view e.pa ≡ view d.pa → Stored d → Stored e
  Stored-same d e same accounts (doc, p, found, loaded, viewed) =
      (doc, p, same ∙ found, loaded, viewed ∙ sym accounts)

  Written-Stored :
      (act : Act) (d : Daemon env) (r : Reply env) (holds : Persists env)
      → Written holds d r
      → Granted holds.opens act d r
      → Storable r.daemon.pa
      → Stored d
      → Stored r.daemon
  unfolding Written Granted
  Written-Stored act d r holds (inl (refused, same)) (granted, after) v stored =
      Stored-same d r.daemon same (after ∙ perform-refused act (view d.pa) (sym granted ∙ refused))
        stored
  Written-Stored act d r holds (inr (ok, saved)) (granted, after) v stored = (
    param_doc r.daemon.pa,
    _,
    saved (Storable-Worded r.daemon.pa v),
    param_load-param_doc temp r.daemon.pa v.valid v.admin_texts v.normal_texts v.net1 v.net2 v.path1
        v.path2,
    refl,
  )

  -- A form that is submitted is answered by its handler and by nothing else.
  submit-handler :
      (temp' polls : ℕ) (form : Form) (m prev q : Msg) (d : Daemon env) (r s : Reply env)
      → submit temp' polls form m prev d ≡ some r
      → request_of temp' form m ≡ some q
      → dispatch polls q prev (arrived q d) ≡ some s
      → r ≡ s
  submit-handler temp' polls form m prev q d r s answered sent served =
      let both : some r ≡ some s =
        sym answered
        ∙ ap (λ (o : Option Msg). o >>= λ x. dispatch polls x prev (arrived x d)) sent
        ∙ served in
      cc

  unchanged-Stored :
      (d : Daemon env) (r s : Reply env)
      → r ≡ s
      → file s.daemon ≡ file d
      → s.daemon.pa ≡ d.pa
      → Storable d.pa
      → Stored d
      → Stored r.daemon × Storable r.daemon.pa
  unchanged-Stored d r s same kept pa v stored =
      let pa' = ap (λ (x : Reply env). x.daemon.pa) same ∙ pa in
      (
        Stored-same d r.daemon (ap (λ (x : Reply env). file x.daemon) same ∙ kept) (ap view pa')
            stored,
        subst Storable (sym pa') v,
      )

  changed-Stored :
      (act : Act) (d : Daemon env) (r s : Reply env) (holds : Persists env)
      → r ≡ s
      → Written holds d s
      → Granted holds.opens act d r
      → Storable r.daemon.pa
      → Stored d
      → Stored r.daemon × Storable r.daemon.pa
  changed-Stored act d r s holds same w g v stored =
      (Written-Stored act d r holds (subst (Written holds d) (sym same) w) g v stored, v)

  pa_of :
      (temp' polls : ℕ) (form : Form) (m prev : Msg) (d : Daemon env) (r s : Reply env) (p : Param)
      → submit temp' polls form m prev d ≡ some r
      → submit temp' polls form m prev d ≡ some s
      → s.daemon.pa ≡ p
      → r.daemon.pa ≡ p
  pa_of temp' polls form m prev d r s p answered again pa =
      let both : some r ≡ some s = sym answered ∙ again in
      let same : r ≡ s = cc in ap (λ (x : Reply env). x.daemon.pa) same ∙ pa

  module _ (holds : Persists env) (temp' polls : ℕ) where
    file-arrived : (q : Msg) (d : Daemon env) → file (arrived q d) ≡ file d
    file-arrived q d = file-trace holds debug_info system _ d

    Written-since :
        (q : Msg) (d : Daemon env) (r : Reply env)
        → Written holds (arrived q d) r
        → Written holds d r
    unfolding Written
    Written-since q d r (inl (refused, same)) = inl (refused, same ∙ file-arrived q d)
    Written-since q d r (inr saved) = inr saved

    -- Each form keeps the file and the configuration in step.
    pub submit-Stored :
        (act : Act) (form : Form) (m prev : Msg) (d : Daemon env) (r : Reply env)
        → Enters form act
        → NewIsWord act
        → submit temp' polls form m prev d ≡ some r
        → Granted holds.opens act d r
        → Storable d.pa
        → Stored d
        → Stored r.daemon × Storable r.daemon.pa
    unfolding trace
    submit-Stored _ form m prev d r (enters_login asks vn vp) w answered g v stored =
        let (q, sent, kind, held_name, held_passwd) = login-Holds form m vn vp in
        let same =
          submit-handler temp' polls form m prev q d r (do_login q (arrived q d)) answered
            (request_of-login temp' form m asks ∙ sent)
            (dispatch-do_login polls q prev (arrived q d) kind) in
        let pa = (do_login_lem (arrived q d) q _ _ v.valid held_name held_passwd).2 in
        unchanged-Stored d r _ same (file-do_login holds q (arrived q d) ∙ file-arrived q d) pa v
          stored
    submit-Stored _ form m prev d r (enters_change asks vo vn) w answered g v stored =
        let (q, sent, kind, _, _) = normal_user_mgr-Holds form m vo vn in
        let same =
          submit-handler temp' polls form m prev q d r (do_normal_user_mgr q (arrived q d)) answered
            (request_of-normal_user_mgr temp' form m asks ∙ sent)
            (dispatch-do_normal_user_mgr polls q prev (arrived q d) kind) in
        let (s, again, _, pa) =
          submit-normal_user_mgr temp' polls form m prev d asks vo vn v.valid in
        let v' =
          if-Storable (text_eq d.pa.normal.passwd (form.form_string "PrimaryKey")) _ d.pa
            (normal-Storable d.pa (form.form_string "NewKey") v vn w) v in
        changed-Stored _ d r _ holds same
          (Written-since q d _ (do_normal_user_mgr-Written holds q (arrived q d))) g
          (subst Storable (sym (pa_of temp' polls form m prev d r s _ answered again pa)) v') stored
    submit-Stored _ form m prev d r (enters_reset asks vu va vn) w answered g v stored =
        let new = form.form_string "NewKey" in
        let (q, sent, kind, _, _, _) = super_user_mgr-Holds form m vu va vn in
        let same =
          submit-handler temp' polls form m prev q d r (do_super_user_mgr q (arrived q d)) answered
            (request_of-super_user_mgr temp' form m asks ∙ sent)
            (dispatch-do_super_user_mgr polls q prev (arrived q d) kind) in
        let (s, again, pa, _) =
          submit-super_user_mgr temp' polls form m prev d asks vu va vn v.valid in
        let v' =
          if-Storable (text_eq d.pa.admin.passwd (form.form_string "AdminKey")) _ d.pa
            (if-Storable (text_eq d.pa.admin.user_name (form.form_string "UserName")) _ _
              (admin-Storable d.pa new v vn w)
              (if-Storable (text_eq d.pa.normal.user_name (form.form_string "UserName")) _ d.pa
                (normal-Storable d.pa new v vn w) v))
            v in
        changed-Stored _ d r _ holds same
          (Written-since q d _ (do_super_user_mgr-Written holds q (arrived q d))) g
          (subst Storable (sym (pa_of temp' polls form m prev d r s _ answered again pa)) v') stored
    submit-Stored _ form m prev d r (enters_check asks vp short) w answered g v stored =
        let (q, sent, kind, held) = admin_passwd_confirm-Holds form m vp short in
        let same =
          submit-handler temp' polls form m prev q d r (do_admin_passwd_confirm q (arrived q d))
            answered (request_of-admin_passwd_confirm temp' form m asks ∙ sent)
            (dispatch-do_admin_passwd_confirm polls q prev (arrived q d) kind) in
        let pa = (do_admin_passwd_confirm_lem (arrived q d) q _ v.valid held).1 in
        unchanged-Stored d r _ same
          (file-do_admin_passwd_confirm holds q (arrived q d) ∙ file-arrived q d) pa v stored
