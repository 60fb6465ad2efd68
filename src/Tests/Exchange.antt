-- ===== src/Tests/Exchange.antt =====
-- Interleavings on the shared queue, on concrete requests.
use cfg_mgr.Base.{◌≡◌, refl, true, [], ◌∷◌, some, arith}
use cfg_mgr.Base.Text.{codes, text_eq, strstr, starts_with}
use cfg_mgr.Memory.{zeroed, strncpy}
use cfg_mgr.Message.{Msg, zero_msg, login_request, getversion_request, getversion_response}
use cfg_mgr.Web.Confirm.{Reply}
use cfg_mgr.Web.Login.{do_login}
use cfg_mgr.Web.Info.{do_version_get}
use cfg_mgr.Web.Dispatch.{handle, arrived}
use cfg_mgr.Web.Dispatch.Laws.{SameUsers}
use cfg_mgr.Web.Dispatch.Kinds.{dispatch-response_kind}
use cfg_mgr.Cgi.{Form}
use cfg_mgr.Cgi.Users.Laws.{IsKey}
use cfg_mgr.Cgi.Table.{request_of, form_method_look_up, look_up_in, form_method_table, bare_request}
use cfg_mgr.Cgi.Answers.Page.{page, nothing, msg2json}
use cfg_mgr.EndToEnd.Answer.{login_json}
use cfg_mgr.EndToEnd.Pages.{own_request-nothing, login_answer_swapped}
use cfg_mgr.Exchange.{
  World, world, asking, waiting, answered, listening, ask, Steps, stay, step_then, fresh,
}
use cfg_mgr.Exchange.Balance.{Balanced, fresh-Balanced}
use cfg_mgr.Exchange.Races.{answer_delivered}
use cfg_mgr.Exchange.Users.{interleavings-SameUsers}
use cfg_mgr.Tests.{calm, some_param, some_daemon, some_param-IsValid, form_of}

abbrev bob_msg : Msg
bob_msg = record {
  type = login_request;
  payload = strncpy 21 21 (codes "guest") (strncpy 0 21 (codes "bob") zeroed);
}

abbrev version_msg : Msg
version_msg = record { type = getversion_request; payload = zeroed }

-- Two processes have sent their requests.
abbrev both_sent : World calm
both_sent =
    world (waiting bob_msg ∷ waiting version_msg ∷ []) (bob_msg ∷ version_msg ∷ [])
      (listening zero_msg) some_daemon

both_sent-Steps : Steps calm 2 9 (fresh (bob_msg ∷ version_msg ∷ []) zero_msg some_daemon) both_sent
both_sent-Steps =
    step_then _ _ _
      (ask [] (asking version_msg ∷ []) bob_msg [] (listening zero_msg) some_daemon (omega arith))
      (step_then _ _ _
        (ask (waiting bob_msg ∷ []) [] version_msg (bob_msg ∷ []) (listening zero_msg) some_daemon
          (omega arith))
        (stay _))

fresh-Balanced_example : Balanced both_sent
fresh-Balanced_example =
    fresh-Balanced 2 9 (bob_msg ∷ version_msg ∷ []) zero_msg some_daemon both_sent both_sent-Steps

abbrev logged_in : Reply calm
logged_in = do_login bob_msg (arrived bob_msg some_daemon)

interleavings-SameUsers_example : SameUsers some_param logged_in.daemon.pa
unfolding handle
interleavings-SameUsers_example =
    interleavings-SameUsers 1 9 (bob_msg ∷ []) zero_msg some_daemon
      (world (answered bob_msg logged_in.out ∷ []) [] (listening logged_in.out) logged_in.daemon)
      (refl, tt) (answer_delivered 1 9 (omega arith) zero_msg some_daemon bob_msg logged_in refl)

dispatch-response_kind_example : (do_version_get some_daemon).out.type ≡ getversion_response
unfolding handle
dispatch-response_kind_example =
    dispatch-response_kind 9 version_msg zero_msg some_daemon (do_version_get some_daemon) (λ h. cc)
      refl

abbrev bob_form : Form
bob_form = form_of "Function_Login" "UserName" (codes "bob") "Passwd" (codes "guest") "" []

bob_form-IsKey : IsKey (codes "bob")
bob_form-IsKey = record { given = λ h. cc; cstr = ground arith }

guest_form-IsKey : IsKey (codes "guest")
guest_form-IsKey = record { given = λ h. cc; cstr = ground arith }

abbrev version_form : Form
version_form = form_of "Function_GetVersion" "" [] "" [] "" []

version_form-request : request_of 0 version_form zero_msg ≡ some version_msg
unfolding request_of form_method_look_up look_up_in form_method_table strstr bare_request
    starts_with
version_form-request = refl

own_request-nothing_example :
    Steps calm 1 9
      (fresh (version_msg ∷ []) zero_msg some_daemon)
      (world (answered version_msg version_msg ∷ []) [] (listening zero_msg) some_daemon)
    × (msg2json version_form version_msg ≡ nothing)
own_request-nothing_example =
    own_request-nothing 1 9 0 zero_msg some_daemon version_form zero_msg version_msg (omega arith)
      version_form-request

login_answer_swapped_example :
    (q : Msg) × (r : Reply calm) × (request_of 0 bob_form zero_msg ≡ some q)
    × Steps calm 2 9 (fresh (q ∷ version_msg ∷ []) zero_msg some_daemon) (
        world
          (answered q version_msg ∷ answered version_msg r.out ∷ [])
          []
          (listening r.out)
          r.daemon)
    × (msg2json version_form r.out ≡ page "text/html" (login_json true))
unfolding text_eq
login_answer_swapped_example =
    login_answer_swapped 2 9 0 zero_msg some_daemon bob_form version_form zero_msg version_msg
      (omega arith) refl bob_form-IsKey guest_form-IsKey some_param-IsValid
