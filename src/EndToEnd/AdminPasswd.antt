-- ===== src/EndToEnd/AdminPasswd.antt =====
-- The check of the administrator's password, from the form to the answer.
use cfg_mgr.Base.{
  ℕ, suc, ◌+◌, ◌≤◌, ◌<◌, ◌≡◌, refl, ◌∙◌, ap, some, arith, length, if◌then◌else◌, inr, [], ◌∷◌, ◌-◌,
  get_or, ◌==◌,
}
use cfg_mgr.Base.Text.{Text, text_eq}
use cfg_mgr.Memory.{Bytes, strcmp_at, strncpy}
use cfg_mgr.Memory.Strings.{strncpy_inside, strncpy_outside}
use cfg_mgr.Message.{Msg, cfgmgr_ok, passwd_invalid, adminpasswdcomfirm_request}
use cfg_mgr.Params.{IsValid}
use cfg_mgr.Env.{Env}
use cfg_mgr.Web.Dispatch.{arrived}
use cfg_mgr.Trace.{Daemon, trace}
use cfg_mgr.Web.Confirm.{Reply, confirm}
use cfg_mgr.Web.Login.{do_admin_passwd_confirm}
use cfg_mgr.Web.Login.Laws.{do_admin_passwd_confirm_lem}
use cfg_mgr.Cgi.{Form}
use cfg_mgr.Cgi.Users.{admin_passwd_confirm}
use cfg_mgr.Cgi.Users.Laws.{IsKey, key_text-IsKey, admin_passwd_confirm-Holds}
use cfg_mgr.EndToEnd.Routes.{
  submit, Asks, request_of-admin_passwd_confirm, dispatch-do_admin_passwd_confirm,
}

-- strcmp of a text with the same bytes in memory depends on the byte behind them.
strcmp_at_prefix :
    (s : Text) (off : ℕ) (d : Bytes)
    → ((i : ℕ) → off ≤ i → i < off + length s → d i ≡ get_or s (i - off) 0)
    → strcmp_at s off d ≡ (d (off + length s) == 0)
unfolding strcmp_at
strcmp_at_prefix [] off d h = let here : off + 0 ≡ off = omega arith in rw here refl
strcmp_at_prefix (c ∷ s) off d h =
    let start : off - off ≡ 0 = omega arith in
    let here : d off ≡ c = h off (omega arith) (omega arith) ∙ ap (λ k. get_or (c ∷ s) k 0) start in
    let rest = strcmp_at_prefix s (off + 1) d λ i lo hi.
      let back : i - off ≡ suc (i - (off + 1)) = omega arith in
      h i (omega arith) (omega arith) ∙ ap (λ k. get_or (c ∷ s) k 0) back in
    let behind : off + 1 + length s ≡ off + suc (length s) = omega arith in
    ground (arith, here, rest, behind)

module _ {env : Env} (temp polls : ℕ) (form : Form) (m prev : Msg) (d : Daemon env) where
  -- The check of a password of 1 to 19 characters accepts exactly the administrator's, and changes
  -- nothing.
  pub submit-admin_passwd_confirm :
      Asks "Function_AdminPasswdConfirm" form
      → IsKey (form.form_string "AdminPasswd")
      → length (form.form_string "AdminPasswd") ≤ 19
      → IsValid d.pa
      → (r : Reply env) × (submit temp polls form m prev d ≡ some r)
        × (r.status ≡ (
            if text_eq d.pa.admin.passwd (form.form_string "AdminPasswd")
            then cfgmgr_ok
            else passwd_invalid))
        × (r.daemon.pa ≡ d.pa)
  unfolding trace
  submit-admin_passwd_confirm asks vp short v =
      let (r, sent, kind, held) = admin_passwd_confirm-Holds form m vp short in
      let law = do_admin_passwd_confirm_lem (arrived r d) r _ v held in
      (
        do_admin_passwd_confirm r (arrived r d),
        rw (request_of-admin_passwd_confirm temp form m asks, sent)
            (dispatch-do_admin_passwd_confirm polls r prev (arrived r d) kind),
        law.0,
        law.1,
      )

  -- The administrator's own password of 20 characters, which the form and the configuration allow,
  -- is accepted only if the byte behind the request's field is 0 by chance: nothing writes it.
  pub submit-admin_passwd_confirm_full :
      Asks "Function_AdminPasswdConfirm" form
      → IsKey (form.form_string "AdminPasswd")
      → length (form.form_string "AdminPasswd") ≡ 20
      → form.form_string "AdminPasswd" ≡ d.pa.admin.passwd
      → (r : Reply env) × (submit temp polls form m prev d ≡ some r)
        × (r.status ≡ (if m.payload 20 == 0 then cfgmgr_ok else passwd_invalid))
  unfolding admin_passwd_confirm do_admin_passwd_confirm confirm trace
  submit-admin_passwd_confirm_full asks vp full same =
      let passwd = form.form_string "AdminPasswd" in
      let r : Msg = record {
        type = adminpasswdcomfirm_request;
        payload = strncpy 0 20 passwd m.payload;
      } in
      let sent : admin_passwd_confirm form m ≡ some r = rw (key_text-IsKey passwd vp) refl in
      let compared : strcmp_at d.pa.admin.passwd 0 r.payload ≡ (m.payload 20 == 0) = rw⁻¹ same (
        strcmp_at_prefix passwd 0 r.payload
          (λ i lo hi. strncpy_inside 0 20 passwd m.payload i lo (omega arith))
        ∙ rw (full, strncpy_outside 0 20 passwd m.payload 20 (inr (omega arith))) refl) in
      (
        do_admin_passwd_confirm r (arrived r d),
        rw (request_of-admin_passwd_confirm temp form m asks, sent)
            (dispatch-do_admin_passwd_confirm polls r prev (arrived r d) refl),
        ground (arith, compared),
      )
