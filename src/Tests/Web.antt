-- ===== src/Tests/Web.antt =====
-- The handlers and the loop of the daemon, on concrete messages.
use cfg_mgr.Base.{◌≡◌, ◌≢◌, refl, List, [], ◌∷◌, none, some, arith}
use cfg_mgr.Base.Text.{Text, codes, text_eq}
use cfg_mgr.Tests.{change_msg, calm, some_net, some_param, some_daemon, some_param-IsValid}
use cfg_mgr.Memory.{Bytes, zeroed, store, load, strncpy, write, le_bytes, read, strcmp_at, cstr_at}
use cfg_mgr.Memory.Strings.{Holds}
use cfg_mgr.Message.{
  Msg, zero_msg, login_request, superusermgr_request, netconfigsave, cfgmgr_ok, cfgmgr_err,
  network_unreachable,
}
use cfg_mgr.Params.{net_param_at}
use cfg_mgr.Trace.{Daemon, trace}
use cfg_mgr.Config.{param_save}
use cfg_mgr.Net.{
  set_net_parameters, set_addr, set_named_addr, is_netipvalid, get_mac_addr, set_net_mac,
  set_gateway,
}
use cfg_mgr.Ping.{ping_test, icmp_send, icmp_recv}
use cfg_mgr.Cgi.Net.{put_net_param}
use cfg_mgr.Web.Confirm.{Reply, confirm}
use cfg_mgr.Web.Login.{do_login}
use cfg_mgr.Web.Users.{do_normal_user_mgr, save_and_confirm}
use cfg_mgr.Web.Net.{do_net_config_save, do_lan_test, lan_ping}
use cfg_mgr.Web.Net.Laws.{do_lan_test_never_unreachable, ConfigOutcome, do_net_config_save_outcomes}
use cfg_mgr.Web.Logs.{log_look_up_payload}
use cfg_mgr.Web.Logs.Laws.{IsPage, log_look_up_counts}
use cfg_mgr.Web.Dispatch.{handle, dispatch, turn, serve, answer, answered, Turn}
use cfg_mgr.Web.Dispatch.Laws.{SameUsers, dispatch-SameUsers, Preserved}
use cfg_mgr.Web.Dispatch.Run.{here, next, Serves-Preserved}

abbrev login_msg : Msg
login_msg = record {
  type = login_request;
  payload = strncpy 21 21 (codes "guest") (strncpy 0 21 (codes "bob") zeroed);
}

bob-Holds : Holds (codes "bob") 0 login_msg.payload
unfolding strncpy
bob-Holds = ground arith

guest-Holds : Holds (codes "guest") 21 login_msg.payload
unfolding strncpy
guest-Holds = ground arith

old-Holds : Holds (codes "guest") 0 change_msg.payload
unfolding strncpy
old-Holds = ground arith

new-Holds : Holds (codes "tulip") 21 change_msg.payload
unfolding strncpy
new-Holds = ground arith

abbrev super_msg : Msg
super_msg = record {
  type = superusermgr_request;
  payload =
      strncpy 42 21 (codes "tulip")
        (strncpy 21 21 (codes "abcdefghijklmnopqrst") (strncpy 0 21 (codes "bob") zeroed));
}

named-Holds : Holds (codes "bob") 0 super_msg.payload
unfolding strncpy
named-Holds = ground arith

admin-Holds : Holds (codes "abcdefghijklmnopqrst") 21 super_msg.payload
unfolding strncpy
admin-Holds = ground arith

tulip-Holds : Holds (codes "tulip") 42 super_msg.payload
unfolding strncpy
tulip-Holds = ground arith

-- The columns of the log's table.
abbrev column_names : List Text
column_names = codes "OccurTime" ∷ codes "LogType" ∷ codes "Significance" ∷ codes "Content" ∷ []

-- Two entries, of which the page begins at the second.
abbrev two_rows : List (List Text)
two_rows =
    (codes "100" ∷ codes "1" ∷ codes "0" ∷ codes "start" ∷ [])
    ∷ (codes "200" ∷ codes "0" ∷ codes "1" ∷ codes "login" ∷ [])
    ∷ []

abbrev page_req : Bytes
page_req = store 4 28 10 (store 4 24 1 zeroed)

page_req-IsPage : IsPage two_rows page_req
unfolding load store write le_bytes
page_req-IsPage = ground arith

log_look_up_counts_example :
    (d : Bytes) × (log_look_up_payload column_names (some two_rows) page_req ≡ some d)
    × (load 4 0 d ≡ 2)
    × (load 4 4 d ≡ 1)
    × (d 4016 ≡ 0)
unfolding load store write le_bytes
log_look_up_counts_example =
    log_look_up_counts (some two_rows) page_req page_req-IsPage column_names 4016 (omega arith)

-- A request that holds parameters for both interfaces, with another address for the first.
abbrev net_msg : Msg
net_msg = record {
  type = netconfigsave;
  payload = put_net_param 24 some_net (put_net_param 0 (record some_net { ip = 184658112 }) zeroed);
}

abbrev net_saved : Reply calm
net_saved = elim (do_net_config_save 9 net_msg some_daemon) [
  | none ↦ record { status = cfgmgr_err; out = zero_msg; daemon = some_daemon }
  | some r ↦ r
]

net_saved-some : do_net_config_save 9 net_msg some_daemon ≡ some net_saved
unfolding handle put_net_param do_net_config_save set_net_parameters set_addr set_named_addr
    is_netipvalid net_param_at store load write strncpy le_bytes get_mac_addr set_net_mac
    set_gateway read text_eq trace param_save confirm do_lan_test lan_ping ping_test icmp_send
    icmp_recv
net_saved-some = refl

net_saved-ok : net_saved.status ≡ cfgmgr_ok
unfolding handle put_net_param do_net_config_save set_net_parameters set_addr set_named_addr
    is_netipvalid net_param_at store load write strncpy le_bytes get_mac_addr set_net_mac
    set_gateway read text_eq trace param_save confirm do_lan_test lan_ping ping_test icmp_send
    icmp_recv
net_saved-ok = refl

do_net_config_save_outcomes_example : ConfigOutcome 9 net_msg some_daemon net_saved
do_net_config_save_outcomes_example =
    do_net_config_save_outcomes 9 net_msg some_daemon net_saved net_saved-some

abbrev lan_tested : Reply calm
lan_tested = elim (do_lan_test 9 net_msg 1 some_daemon) [
  | none ↦ record { status = cfgmgr_err; out = zero_msg; daemon = some_daemon }
  | some r ↦ r
]

lan_tested-some : do_lan_test 9 net_msg 1 some_daemon ≡ some lan_tested
unfolding handle put_net_param do_net_config_save set_net_parameters set_addr set_named_addr
    is_netipvalid net_param_at store load write strncpy le_bytes get_mac_addr set_net_mac
    set_gateway read text_eq trace param_save confirm do_lan_test lan_ping ping_test icmp_send
    icmp_recv
lan_tested-some = refl

-- The ping is not answered in this world, and the test is still no failure.
do_lan_test_never_unreachable_example :
    (lan_tested.status ≢ network_unreachable) × (lan_tested.daemon.pa ≡ some_param)
do_lan_test_never_unreachable_example =
    do_lan_test_never_unreachable 9 net_msg 1 some_daemon lan_tested lan_tested-some

login-dispatched : dispatch 9 login_msg zero_msg some_daemon ≡ some (do_login login_msg some_daemon)
unfolding handle
login-dispatched = refl

dispatch-SameUsers_example : SameUsers some_param (do_login login_msg some_daemon).daemon.pa
dispatch-SameUsers_example =
    dispatch-SameUsers 9 login_msg zero_msg some_daemon _ refl login-dispatched

change-dispatched :
    dispatch 9 change_msg zero_msg some_daemon ≡ some (do_normal_user_mgr change_msg some_daemon)
unfolding handle
change-dispatched = refl

-- The daemon and its answer after one round, in which the password is changed.
abbrev round : Msg × Daemon calm
round = elim (turn 9 zero_msg some_daemon) [
  | none ↦ (zero_msg, some_daemon)
  | some t ↦ elim t [ Turn.stopped d ↦ (zero_msg, d) | answered out d ↦ (out, d) ]
]

turn-round : turn 9 zero_msg some_daemon ≡ some (answered round.0 round.1)
unfolding turn serve answer handle do_normal_user_mgr save_and_confirm param_save trace confirm
    strcmp_at cstr_at strncpy
turn-round = refl

Serves-Preserved_example : Preserved some_param round.1.pa
Serves-Preserved_example =
    Serves-Preserved 9 zero_msg round.0 some_daemon round.1 some_param-IsValid
      (next zero_msg round.0 round.0 some_daemon round.1 round.1 turn-round (here round.0 round.1))
