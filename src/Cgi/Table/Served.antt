-- ===== src/Cgi/Table/Served.antt =====
-- The daemon serves every message that the CGI sends.
use cfg_mgr.Base.{
  ℕ, ◌≡◌, ◌≢◌, ◌⊎◌, refl, ◌∙◌, ap, inl, inr, Bool, true, false, List, [], ◌∷◌, Option, none, some,
  arith, All, ◌>>=◌, Bool-cases, bind-some,
}
use cfg_mgr.Base.Text.{Text, codes, strstr}
use cfg_mgr.Message.{
  comfirm, not_support, status_code, Msg, MsgType, login_request, lan1test, lan2test, netconfigsave,
  netcapture_request, netfilter_request, filelookup_request, fileupload_request, diskinfo_request,
  normalusermgr_request, superusermgr_request, systeminfo_request, lan1statisticsclear_request,
  lan2statisticsclear_request, systimeset_request, systimeget_request, adminpasswdcomfirm_request,
  getversion_request, updatelogicfile_request, updatecfgmgrfile_request, updateweb_request,
  factoryreset_request, reboot_request, loglookup_request, logexport_request, logclearall_request,
}
use mathlib.Core.Path.{subst}
use cfg_mgr.Env.{Env}
use cfg_mgr.Trace.{Daemon, trace}
use cfg_mgr.Memory.{store, load, strncpy}
use cfg_mgr.Web.Confirm.{Reply, confirm, gen_confirm_msg, confirm_payload}
use cfg_mgr.Web.Dispatch.{handle, dispatch, do_unsupported}
use cfg_mgr.Web.Dispatch.Supported.{is_supported, handle-Supported}
use cfg_mgr.Web.Net.Laws.{Replies-some}
use cfg_mgr.Cgi.{Form, required}
use cfg_mgr.Cgi.Table.{
  FormMethod, bare_request, form_method_table, look_up_in, form_method_look_up, request_of,
}
use cfg_mgr.Cgi.Table.Kinds.{
  Makes, login-Makes, lan1_test-Makes, lan2_test-Makes, net_config_save-Makes, net_capture-Makes,
  net_filter-Makes, file_look_up-Makes, file_up_load-Makes, normal_user_mgr-Makes,
  super_user_mgr-Makes, system_time_set-Makes, admin_passwd_confirm-Makes, log_look_up-Makes,
  log_export-Makes, update_request-Makes,
}

-- The kinds that the switch of webProcess names.
abbrev pub is_served : MsgType → Bool
is_served login_request = true
is_served lan1test = true
is_served lan2test = true
is_served netconfigsave = true
is_served netcapture_request = true
is_served netfilter_request = true
is_served filelookup_request = true
is_served fileupload_request = true
is_served diskinfo_request = true
is_served normalusermgr_request = true
is_served superusermgr_request = true
is_served systeminfo_request = true
is_served lan1statisticsclear_request = true
is_served lan2statisticsclear_request = true
is_served systimeset_request = true
is_served systimeget_request = true
is_served adminpasswdcomfirm_request = true
is_served getversion_request = true
is_served updatelogicfile_request = true
is_served updatecfgmgrfile_request = true
is_served updateweb_request = true
is_served factoryreset_request = true
is_served reboot_request = true
is_served loglookup_request = true
is_served logexport_request = true
is_served logclearall_request = true
is_served _ = false

-- A message of any other kind is confirmed with CFGMGR_NOT_SUPPORT, which the CGI reads from it, and
-- changes nothing but the log and the last error text.
pub handle_unserved :
    {env : Env} (polls : ℕ) (kind : MsgType) (m prev : Msg) (d : Daemon env)
    → is_served kind ≡ false
    → (r : Reply env) × (handle polls kind m prev d ≡ some r)
      × (r.status ≡ not_support)
      × (r.out.type ≡ comfirm)
      × (load 4 0 r.out.payload ≡ status_code not_support)
      × (r.daemon.pa ≡ d.pa)
      × (r.daemon.ping ≡ d.ping)
unfolding handle do_unsupported confirm trace gen_confirm_msg confirm_payload store strncpy load
handle_unserved polls kind m prev d h =
    (do_unsupported m d, ground arith, refl, refl, refl, refl, refl)

abbrev Served : Option Msg → Type 0
Served none = Unit
Served (some r) = is_served r.type ≡ true

Makes-Served : (kind : MsgType) (o : Option Msg) → is_served kind ≡ true → Makes kind o → Served o
Makes-Served kind none h made = tt
Makes-Served kind (some r) h made = ap is_served made ∙ h

module _ (temp : ℕ) (form : Form) (m : Msg) where
  table-Served : All (λ e. Served (e.func form m)) (form_method_table temp)
  unfolding form_method_table bare_request
  table-Served = (
    Makes-Served login_request _ refl (login-Makes form m),
    (
      Makes-Served lan1test _ refl (lan1_test-Makes form m temp),
      (
        Makes-Served lan2test _ refl (lan2_test-Makes form m temp),
        (
          Makes-Served netconfigsave _ refl (net_config_save-Makes form m temp),
          (
            Makes-Served netcapture_request _ refl (net_capture-Makes form m),
            (
              Makes-Served netfilter_request _ refl (net_filter-Makes form m),
              (
                Makes-Served filelookup_request _ refl (file_look_up-Makes form m),
                (
                  Makes-Served fileupload_request _ refl (file_up_load-Makes form m),
                  (
                    refl,
                    (
                      Makes-Served normalusermgr_request _ refl (normal_user_mgr-Makes form m),
                      (
                        Makes-Served superusermgr_request _ refl (super_user_mgr-Makes form m),
                        (
                          refl,
                          (
                            refl,
                            (
                              refl,
                              (
                                refl,
                                (
                                  Makes-Served systimeset_request _ refl
                                      (system_time_set-Makes form m),
                                  (
                                    Makes-Served adminpasswdcomfirm_request _ refl
                                        (admin_passwd_confirm-Makes form m),
                                    (
                                      refl,
                                      (
                                        Makes-Served updatelogicfile_request _ refl
                                            (update_request-Makes form m updatelogicfile_request),
                                        (
                                          Makes-Served updatecfgmgrfile_request _ refl (
                                              update_request-Makes form m updatecfgmgrfile_request),
                                          (
                                            Makes-Served updateweb_request _ refl
                                                (update_request-Makes form m updateweb_request),
                                            (
                                              refl,
                                              (
                                                refl,
                                                (
                                                  Makes-Served loglookup_request _ refl
                                                      (log_look_up-Makes form m),
                                                  (
                                                    Makes-Served logexport_request _ refl
                                                        (log_export-Makes form m),
                                                    (refl, tt),
                                                  ),
                                                ),
                                              ),
                                            ),
                                          ),
                                        ),
                                      ),
                                    ),
                                  ),
                                ),
                              ),
                            ),
                          ),
                        ),
                      ),
                    ),
                  ),
                ),
              ),
            ),
          ),
        ),
      ),
    ),
  )

look_up_in-All {ℓ} :
    (P : FormMethod → Type ℓ) (es : List FormMethod) (name : Text) (e : FormMethod)
    → All P es
    → look_up_in es name ≡ some e
    → P e
unfolding look_up_in
look_up_in-All P [] name e all h = cc
look_up_in-All P (e' ∷ es) name e all h = elim (Bool-cases (strstr name (codes e'.form_name))) [
  | inl found ↦ let same : e' ≡ e = ground arith in subst P same all.0
  | inr missed ↦ look_up_in-All P es name e all.1 (ground arith)
]

-- Every message that the CGI sends is of a kind that the switch names.
pub request_of-is_served :
    (temp : ℕ) (form : Form) (m r : Msg) → request_of temp form m ≡ some r → is_served r.type ≡ true
unfolding request_of form_method_look_up
request_of-is_served temp form m r h =
    let (name, _, looked) =
      bind-some (required (form.form_string "FunctionName"))
        (λ x. form_method_look_up temp x >>= λ method. method.func form m) r h in
    let (e, found, made) =
      bind-some (form_method_look_up temp name) (λ e. e.func form m) r looked in
    let served =
      look_up_in-All (λ e'. Served (e'.func form m)) (form_method_table temp) name e
        (table-Served temp form m) found in
    subst Served made served

refused_kind :
    (kind : MsgType)
    → is_served kind ≡ true
    → is_supported kind ≡ false
    → (kind ≡ factoryreset_request)
      ⊎ (kind ≡ reboot_request)
      ⊎ (kind ≡ lan1statisticsclear_request)
      ⊎ (kind ≡ lan2statisticsclear_request)
refused_kind factoryreset_request h other = inl refl
refused_kind reboot_request h other = inr (inl refl)
refused_kind lan1statisticsclear_request h other = inr (inr (inl refl))
refused_kind lan2statisticsclear_request h other = inr (inr (inr refl))
refused_kind kind h other = cc

-- If the daemon answers a message that the CGI sends, whatever the form and the uninitialised bytes,
-- with CFGMGR_NOT_SUPPORT, then the message asks for the factory reset, the reboot, or the clearing of
-- an interface's statistics.
pub request_of-served :
    {env : Env} (temp polls : ℕ) (form : Form) (m q prev : Msg) (d : Daemon env) (r : Reply env)
    → request_of temp form m ≡ some q
    → dispatch polls q prev d ≡ some r
    → r.status ≡ not_support
    → (q.type ≡ factoryreset_request)
      ⊎ (q.type ≡ reboot_request)
      ⊎ (q.type ≡ lan1statisticsclear_request)
      ⊎ (q.type ≡ lan2statisticsclear_request)
request_of-served {env} temp polls form m q prev d r sent answered refused =
    elim (Bool-cases (is_supported q.type)) [
      | inl supported ↦ absurd (
          Replies-some {env = env} (λ (x : Reply env). x.status ≢ not_support) _ r
            (handle-Supported polls q.type q prev d supported) answered refused)
      | inr other ↦ refused_kind q.type (request_of-is_served temp form m q sent) other
    ]
