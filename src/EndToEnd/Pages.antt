-- ===== src/EndToEnd/Pages.antt =====
-- What the browsers get when CGI processes share the queue.
use cfg_mgr.Base.{
  ℕ, ◌<◌, ◌≡◌, ◌≢◌, refl, ◌∙◌, ap, sym, Bool, true, false, Option, none, some, if◌then◌else◌, [],
  ◌∷◌,
}
use mathlib.Core.Path.{subst}
use cfg_mgr.Base.Text.{Text, codes}
use cfg_mgr.Message.{
  Msg, cfgmgr_ok, cfgmgr_err, MsgType, comfirm, filelookup_request, fileupload_request,
  diskinfo_request, systeminfo_request, systimeget_request, getversion_request, loglookup_request,
  logexport_request, filelookup_response, fileupload_response, systimeget_response,
  getversion_response, loglookup_response, logexport_response, diskinfo_response,
  systeminfo_response,
}
use cfg_mgr.Params.{IsValid}
use cfg_mgr.Env.{Env}
use cfg_mgr.Trace.{Daemon, trace}
use cfg_mgr.Web.Confirm.{Reply, gen_confirm_msg}
use cfg_mgr.Web.Login.{do_login}
use cfg_mgr.Web.Login.Laws.{is_account, do_login_lem}
use cfg_mgr.Web.Dispatch.{dispatch, arrived}
use cfg_mgr.Web.Dispatch.Kinds.{response_kind, dispatch-response_kind}
use cfg_mgr.Cgi.{Form}
use cfg_mgr.Cgi.Users.Laws.{IsKey, login-Holds}
use cfg_mgr.Cgi.Table.{request_of}
use cfg_mgr.Cgi.Answers.Times.{sys_time_get_resp2json}
use cfg_mgr.Cgi.Answers.Lists.{log_look_up_resp2json}
use cfg_mgr.Cgi.Table.Served.{is_served, request_of-is_served}
use cfg_mgr.Cgi.Answers.Page.{page, nothing, print_kind, msg2json, html_or_overrun}
use cfg_mgr.EndToEnd.Routes.{Asks, request_of-login, dispatch-do_login}
use cfg_mgr.EndToEnd.Answer.{login_json, login_confirm-json}
use cfg_mgr.Exchange.{world, answered, listening, Steps, fresh}
use cfg_mgr.Exchange.Races.{own_request_received, answers_swapped}

html_or_overrun-page : (o : Option Text) → html_or_overrun o ≢ nothing
html_or_overrun-page none h = cc
html_or_overrun-page (some text) h = cc

response_kind-page :
    (kind : MsgType) (form : Form) (m : Msg) → print_kind (response_kind kind) form m ≢ nothing
unfolding print_kind
response_kind-page fileupload_request form m = λ h. cc
response_kind-page diskinfo_request form m = λ h. cc
response_kind-page systeminfo_request form m = λ h. cc
response_kind-page systimeget_request form m = html_or_overrun-page (sys_time_get_resp2json form m)
response_kind-page getversion_request form m = λ h. cc
response_kind-page loglookup_request form m = html_or_overrun-page (log_look_up_resp2json form m)
response_kind-page logexport_request form m = λ h. cc
response_kind-page kind form m = λ h. cc

-- Every answer that the daemon makes itself has a page: msg2json knows its kind, whatever the
-- request and its form.
answer-page :
    {env : Env} (polls : ℕ) (form : Form) (m prev : Msg) (d : Daemon env) (r : Reply env)
    → m.type ≢ filelookup_request
    → dispatch polls m prev d ≡ some r
    → msg2json form r.out ≢ nothing
answer-page polls form m prev d r other e =
    subst (λ k. print_kind k form r.out ≢ nothing)
      (sym (dispatch-response_kind polls m prev d r other e)) (response_kind-page m.type form r.out)

served-nothing :
    (kind : MsgType) (form : Form) (m : Msg)
    → is_served kind ≡ true
    → print_kind kind form m ≡ nothing
unfolding print_kind
served-nothing comfirm form m h = cc
served-nothing filelookup_response form m h = cc
served-nothing fileupload_response form m h = cc
served-nothing systimeget_response form m h = cc
served-nothing getversion_response form m h = cc
served-nothing loglookup_response form m h = cc
served-nothing logexport_response form m h = cc
served-nothing diskinfo_response form m h = cc
served-nothing systeminfo_response form m h = cc
served-nothing kind form m h = refl

login_confirm-page :
    (form : Form) (known : Bool)
    → msg2json form (
        if known
        then gen_confirm_msg cfgmgr_ok (codes "Login succ")
        else gen_confirm_msg cfgmgr_err (codes "UserName or Passwd not valid !!!"))
      ≡ page "text/html" (login_json known)
unfolding print_kind gen_confirm_msg
login_confirm-page form true = ap (page "text/html") (login_confirm-json true)
login_confirm-page form false = ap (page "text/html") (login_confirm-json false)

module _ {env : Env} (cap polls temp : ℕ) (prev : Msg) (d : Daemon env) where
  -- A CGI process may receive the request that it has just sent, and then its browser gets nothing,
  -- not even a header: for every form that makes a request, on a queue with room for it.
  pub own_request-nothing :
      (form : Form) (m q : Msg)
      → 0 < cap
      → request_of temp form m ≡ some q
      → Steps env cap polls
          (fresh (q ∷ []) prev d)
          (world (answered q q ∷ []) [] (listening prev) d)
        × (msg2json form q ≡ nothing)
  own_request-nothing form m q room sent = (
    own_request_received cap polls room prev d q,
    served-nothing q.type form q (request_of-is_served temp form m q sent),
  )

  -- With a well-formed configuration, a process with any request may get the answer to the login
  -- form of another one, with a name and a password of 1 to 20 characters: if those are a user's,
  -- its browser is told that the login is accepted.
  pub login_answer_swapped :
      (form other : Form) (m n : Msg)
      → 0 < cap
      → Asks "Function_Login" form
      → IsKey (form.form_string "UserName")
      → IsKey (form.form_string "Passwd")
      → IsValid d.pa
      → (q : Msg) × (r : Reply env) × (request_of temp form m ≡ some q)
        × Steps env cap polls
            (fresh (q ∷ n ∷ []) prev d)
            (world (answered q n ∷ answered n r.out ∷ []) [] (listening r.out) r.daemon)
        × (msg2json other r.out
            ≡ page "text/html" (
                login_json
                  (is_account (form.form_string "UserName") (form.form_string "Passwd") d.pa)))
  unfolding trace
  login_answer_swapped form other m n room asks vn vp v =
      let (q, sent, kind, held_name, held_passwd) = login-Holds form m vn vp in
      let r = do_login q (arrived q d) in
      let law = do_login_lem (arrived q d) q _ _ v held_name held_passwd in
      (
        q,
        r,
        request_of-login temp form m asks ∙ sent,
        answers_swapped cap polls room prev d q n r
            (dispatch-do_login polls q prev (arrived q d) kind),
        ap (msg2json other) law.1 ∙ login_confirm-page other _,
      )
