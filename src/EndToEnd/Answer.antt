-- ===== src/EndToEnd/Answer.antt =====
-- What the browser gets for a login form.
use cfg_mgr.Base.{ℕ, ◌≡◌, ◌∙◌, ap, Bool, true, false, some, arith, if◌then◌else◌, []}
use cfg_mgr.Base.Text.{Text, codes, IsCstr, fmt_d}
use cfg_mgr.Message.{Msg, cfgmgr_ok, cfgmgr_err}
use cfg_mgr.Params.{IsValid}
use cfg_mgr.Env.{Env}
use cfg_mgr.Web.Dispatch.{arrived}
use cfg_mgr.Trace.{Daemon, trace}
use cfg_mgr.Web.Confirm.{Reply, gen_confirm_msg}
use cfg_mgr.Web.Login.{do_login}
use cfg_mgr.Web.Login.Laws.{is_account, do_login_lem}
use cfg_mgr.Cgi.{Form}
use cfg_mgr.Cgi.Users.Laws.{IsKey, login-Holds}
use cfg_mgr.Cgi.Answers.{confirm2json, braces, field_then, last_field, confirm2json-gen_confirm_msg}
use cfg_mgr.EndToEnd.Routes.{submit, Asks, request_of-login, dispatch-do_login}

-- The printed answer to a login.
abbrev pub login_json : Bool → Text
login_json true = braces (field_then "status" (codes "0") (last_field "message" []))
login_json false = braces (
    field_then "status" (codes "1")
      (last_field "message" (codes "UserName or Passwd not valid !!!")))

succ-IsCstr : IsCstr 59 (codes "Login succ")
succ-IsCstr = ground arith

refusal-IsCstr : IsCstr 59 (codes "UserName or Passwd not valid !!!")
refusal-IsCstr = ground arith

pub login_confirm-json :
    (known : Bool)
    → confirm2json (
        if known
        then gen_confirm_msg cfgmgr_ok (codes "Login succ")
        else gen_confirm_msg cfgmgr_err (codes "UserName or Passwd not valid !!!"))
      ≡ login_json known
unfolding fmt_d
login_confirm-json true = confirm2json-gen_confirm_msg cfgmgr_ok _ succ-IsCstr
login_confirm-json false = confirm2json-gen_confirm_msg cfgmgr_err _ refusal-IsCstr

-- With a well-formed configuration, the answer to a login form with a name and a password of 1 to 20
-- characters is printed with the status 0 and no message exactly when they are those of a user, and
-- otherwise with the status 1 and a message that does not tell which of the two is wrong.
pub submit-login-json :
    {env : Env} (temp polls : ℕ) (form : Form) (m prev : Msg) (d : Daemon env)
    → Asks "Function_Login" form
    → IsKey (form.form_string "UserName")
    → IsKey (form.form_string "Passwd")
    → IsValid d.pa
    → (r : Reply env) × (submit temp polls form m prev d ≡ some r)
      × (confirm2json r.out
          ≡ login_json (is_account (form.form_string "UserName") (form.form_string "Passwd") d.pa))
unfolding trace
submit-login-json temp polls form m prev d asks vn vp v =
    let (r, sent, kind, held_name, held_passwd) = login-Holds form m vn vp in
    let law = do_login_lem (arrived r d) r _ _ v held_name held_passwd in
    (
      do_login r (arrived r d),
      rw (request_of-login temp form m asks, sent)
          (dispatch-do_login polls r prev (arrived r d) kind),
      ap confirm2json law.1 ∙ login_confirm-json _,
    )
