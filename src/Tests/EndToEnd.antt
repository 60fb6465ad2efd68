-- ===== src/Tests/EndToEnd.antt =====
-- Requests from the form to the answer, on concrete forms.
use cfg_mgr.Base.{◌⊎◌, ◌≡◌, refl, true, [], some, arith}
use cfg_mgr.Base.Text.{codes, text_eq}
use cfg_mgr.Tests.{calm, some_net, some_param, some_daemon, some_param-IsValid, form_of, net_form}
use Prim.Native.String.{String}
use cfg_mgr.Base.Text.{strstr, starts_with}
use cfg_mgr.Inet.{inet_pton_field, inet_pton, octet, more_digits, after_dot}
use cfg_mgr.Share.{
  mac_string2hex, scan_bytes, scan_02x, skip_blanks, scan_item, scan_digits, hex_value,
}
use cfg_mgr.Memory.{zeroed, load, strncpy}
use cfg_mgr.Web.Info.{do_factory_reset}
use cfg_mgr.Web.Confirm.{confirm}
use cfg_mgr.Web.Dispatch.{handle}
use cfg_mgr.Cgi.Table.{bare_request}
use cfg_mgr.Message.{
  Msg, factoryreset_request, reboot_request, lan1statisticsclear_request,
  lan2statisticsclear_request, Msg, zero_msg, lan2test, login_request, cfgmgr_ok, passwd_invalid,
}
use cfg_mgr.Params.{net_param_at}
use cfg_mgr.Cgi.{Form, true_or_false, key_len_chk}
use cfg_mgr.Cgi.Users.{login}
use cfg_mgr.Base.{true}
use cfg_mgr.Cgi.Answers.{confirm2json}
use cfg_mgr.EndToEnd.Answer.{login_json, submit-login-json}
use cfg_mgr.Cgi.Users.Laws.{IsKey}
use cfg_mgr.Cgi.Net.{net_param_get, lan2_test}
use cfg_mgr.Cgi.Net.Laws.{lan2_test_dest_ip}
use cfg_mgr.Cgi.Table.{form_method_look_up, form_method_table, request_of, look_up_in}
use cfg_mgr.Cgi.Table.Served.{request_of-served}
use cfg_mgr.Web.Confirm.{Reply}
use cfg_mgr.EndToEnd.Routes.{submit}
use cfg_mgr.EndToEnd.{
  submit-login, submit-normal_user_mgr, submit-super_user_mgr, submit-change_then_login,
}
use cfg_mgr.EndToEnd.AdminPasswd.{submit-admin_passwd_confirm_full}

abbrev login_form : Form
login_form = form_of "Function_Login" "UserName" (codes "bob") "Passwd" (codes "guest") "" []

abbrev change_form : Form
change_form =
    form_of "Function_NormalUserMgr" "PrimaryKey" (codes "guest") "NewKey" (codes "tulip") "" []

abbrev again_form : Form
again_form = form_of "Function_Login" "UserName" (codes "bob") "Passwd" (codes "tulip") "" []

abbrev super_form : Form
super_form =
    form_of "Function_SuperUserMgr" "UserName" (codes "bob") "AdminKey"
      (codes "abcdefghijklmnopqrst") "NewKey" (codes "tulip")

abbrev full_form : Form
full_form =
    form_of "Function_AdminPasswdConfirm" "AdminPasswd" (codes "abcdefghijklmnopqrst") "" [] "" []

abbrev short_form : Form
short_form = form_of "Function_AdminPasswdConfirm" "AdminPasswd" (codes "abcdef") "" [] "" []

bob-IsKey : IsKey (codes "bob")
bob-IsKey = record { given = λ h. cc; cstr = ground arith }

guest-IsKey : IsKey (codes "guest")
guest-IsKey = record { given = λ h. cc; cstr = ground arith }

tulip-IsKey : IsKey (codes "tulip")
tulip-IsKey = record { given = λ h. cc; cstr = ground arith }

full-IsKey : IsKey (codes "abcdefghijklmnopqrst")
full-IsKey = record { given = λ h. cc; cstr = ground arith }

short-IsKey : IsKey (codes "abcdef")
short-IsKey = record { given = λ h. cc; cstr = ground arith }

submit-login_example :
    (r : Reply calm) × (submit 0 9 login_form zero_msg zero_msg some_daemon ≡ some r)
    × (r.status ≡ cfgmgr_ok)
    × (r.daemon.pa ≡ some_param)
unfolding text_eq
submit-login_example =
    submit-login 0 9 login_form zero_msg zero_msg some_daemon refl bob-IsKey guest-IsKey
      some_param-IsValid

submit-login-json_example :
    (r : Reply calm) × (submit 0 9 login_form zero_msg zero_msg some_daemon ≡ some r)
    × (confirm2json r.out ≡ login_json true)
unfolding text_eq
submit-login-json_example =
    submit-login-json 0 9 login_form zero_msg zero_msg some_daemon refl bob-IsKey guest-IsKey
      some_param-IsValid

submit-normal_user_mgr_example :
    (r : Reply calm) × (submit 0 9 change_form zero_msg zero_msg some_daemon ≡ some r)
    × (r.status ≡ cfgmgr_ok)
    × (r.daemon.pa
        ≡ record some_param { normal = record some_param.normal { passwd = codes "tulip" } })
unfolding text_eq
submit-normal_user_mgr_example =
    submit-normal_user_mgr 0 9 change_form zero_msg zero_msg some_daemon refl guest-IsKey
      tulip-IsKey some_param-IsValid

submit-super_user_mgr_example :
    (r : Reply calm) × (submit 0 9 super_form zero_msg zero_msg some_daemon ≡ some r)
    × (r.daemon.pa
        ≡ record some_param { normal = record some_param.normal { passwd = codes "tulip" } })
    × (r.status ≡ cfgmgr_ok)
unfolding text_eq
submit-super_user_mgr_example =
    submit-super_user_mgr 0 9 super_form zero_msg zero_msg some_daemon refl bob-IsKey full-IsKey
      tulip-IsKey some_param-IsValid

submit-change_then_login_example :
    (r s : Reply calm) × (submit 0 9 change_form zero_msg zero_msg some_daemon ≡ some r)
    × (submit 0 9 again_form zero_msg r.out r.daemon ≡ some s)
    × (s.status ≡ cfgmgr_ok)
submit-change_then_login_example =
    submit-change_then_login 0 9 change_form again_form zero_msg zero_msg zero_msg some_daemon refl
      tulip-IsKey guest-IsKey refl some_param-IsValid refl bob-IsKey refl refl

-- The byte behind the field is 7.
abbrev used_msg : Msg
used_msg = record zero_msg { payload = λ i. 7 }

submit-admin_passwd_confirm_full_example :
    (r : Reply calm) × (submit 0 9 full_form used_msg zero_msg some_daemon ≡ some r)
    × (r.status ≡ passwd_invalid)
submit-admin_passwd_confirm_full_example =
    submit-admin_passwd_confirm_full 0 9 full_form used_msg zero_msg some_daemon refl full-IsKey
      refl refl

pub net_form-net1 : (func : String) → net_param_get 0 (net_form func) 1 ≡ some some_net
unfolding net_param_get true_or_false strstr starts_with inet_pton_field inet_pton octet more_digits
    after_dot mac_string2hex scan_bytes scan_02x skip_blanks scan_item scan_digits hex_value
net_form-net1 func = refl

pub net_form-net2 : (func : String) → net_param_get 0 (net_form func) 2 ≡ some some_net
unfolding net_param_get true_or_false strstr starts_with inet_pton_field inet_pton octet more_digits
    after_dot mac_string2hex scan_bytes scan_02x skip_blanks scan_item scan_digits hex_value
net_form-net2 func = refl

lan2_test_dest_ip_example :
    (r : Msg) × (lan2_test 0 (net_form "Function_Lan2Test") used_msg ≡ some r)
    × (r.type ≡ lan2test)
    × (net_param_at 0 r.payload ≡ some_net)
    × (load 4 24 r.payload ≡ 117901063)
unfolding load
lan2_test_dest_ip_example =
    lan2_test_dest_ip 0 (net_form "Function_Lan2Test") used_msg some_net
      (net_form-net2 "Function_Lan2Test")

remote-inet_pton : inet_pton (codes "10.0.0.2") ≡ some 33554442
unfolding inet_pton octet more_digits after_dot
remote-inet_pton = refl

login_form-request :
    request_of 0 login_form zero_msg
    ≡ some (record {
      type = login_request;
      payload = strncpy 21 21 (codes "guest") (strncpy 0 21 (codes "bob") zeroed);
    })
unfolding request_of form_method_look_up form_method_table look_up_in strstr starts_with login
    key_len_chk
login_form-request = refl

abbrev reset_form : Form
reset_form = form_of "Function_FactoryReset" "" [] "" [] "" []

abbrev reset_msg : Msg
reset_msg = record zero_msg { type = factoryreset_request }

reset_form-request : request_of 0 reset_form zero_msg ≡ some reset_msg
unfolding request_of form_method_look_up form_method_table look_up_in strstr starts_with
    bare_request
reset_form-request = refl

request_of-served_example :
    (reset_msg.type ≡ factoryreset_request)
    ⊎ (reset_msg.type ≡ reboot_request)
    ⊎ (reset_msg.type ≡ lan1statisticsclear_request)
    ⊎ (reset_msg.type ≡ lan2statisticsclear_request)
unfolding handle do_factory_reset confirm
request_of-served_example =
    request_of-served 0 9 reset_form zero_msg reset_msg zero_msg some_daemon
      (do_factory_reset some_daemon) reset_form-request refl refl
