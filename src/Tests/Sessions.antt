-- ===== src/Tests/Sessions.antt =====
-- A session of two forms, and a start of the daemon, on a world that keeps its configuration file
-- and its log.
use cfg_mgr.Base.{All, ◌/◌, ◌%◌, ◌≡◌, refl, true, List, [], ◌∷◌, Option, none, some, arith, map}
use cfg_mgr.Base.Text.{Text, codes, text_eq}
use cfg_mgr.Message.{Msg, CfgMgrStatus, zero_msg}
use cfg_mgr.Params.{IsValid}
use cfg_mgr.Env.{Env, Doc, timeout}
use cfg_mgr.Trace.{Daemon}
use cfg_mgr.Config.{param_doc}
use cfg_mgr.Config.RoundTrip.{param_load-param_doc}
use cfg_mgr.Web.Users.Written.{Persists, is_ok}
use cfg_mgr.Web.Dispatch.{start, set_both}
use cfg_mgr.Cgi.{Form}
use cfg_mgr.Cgi.Users.Laws.{IsKey}
use cfg_mgr.EndToEnd.Sessions.{
  Accounts, Act, log_in, change, view, enters_login, enters_change, Script, finished, enter,
  submit_all, submit_all-perform_all,
}
use cfg_mgr.EndToEnd.Queued.{Interleaves, perform_all-Interleaves}
use cfg_mgr.EndToEnd.Storable.{Storable}
use cfg_mgr.EndToEnd.Stored.{NewIsWord, Stored}
use cfg_mgr.EndToEnd.Restart.{Begins, restart-perform_all}
use cfg_mgr.Tests.{calm, some_param, some_daemon, some_param-IsValid, some_net-IsNet, form_of}

-- The state of this world is its configuration file and the statements that SQLite has run.
abbrev pub storing : Env
storing = record {
  Sys = Option Doc × List Text;
  time = λ s. (0, s);
  stime = λ t s. s;
  sqlite_exec = λ q s. (s.0, q ∷ s.1);
  sqlite_get_table = λ q s. (none, s);
  table_header = λ q s. [];
  system = λ c s. s;
  socket = λ s. (true, s);
  get_flags = λ i s. (some 0, s);
  set_flags = λ i f s. (true, s);
  set_if_addr = λ f i a s. (true, s);
  get_hwaddr = λ i s. (some (0 ∷ 1 ∷ 2 ∷ 3 ∷ 4 ∷ 5 ∷ []), s);
  set_hwaddr = λ i m s. (true, s);
  get_link = λ i s. (some 1, s);
  stack_bytes = λ s. [];
  fopen_config = λ s. (true, (none, s.1));
  save_file = λ doc s. (some doc, s.1);
  load_file = λ s. (s.0, s);
  fopen_export = λ s. (true, s);
  export_file = λ t s. s;
  localtime = λ t. record {
    tm_year = 119;
    tm_mon = 9;
    tm_mday = 8;
    tm_hour = 0;
    tm_min = t / 60 % 60;
    tm_sec = t % 60;
  };
  has_icmp = λ s. (true, s);
  getuid = λ s. 0;
  raw_socket = λ s. (true, s);
  sendto = λ a p s. (true, s);
  select = λ s. (timeout, s);
  recv = λ s. (none, s);
  mq_unlink = λ q s. s;
  mq_open = λ q s. (true, s);
  mq_send = λ q m s. (true, s);
  mq_receive = λ q s. (none, s);
}

pub storing-Persists : Persists storing
storing-Persists = record {
  opens = λ s. refl;
  loads = λ doc s w. refl;
  logged = λ q s. refl;
  timed = λ s. refl;
}

abbrev pub storing_daemon : Daemon storing
storing_daemon = record {
  pa = some_param;
  last_cfg_mgr_err = [];
  ping = record { pingpacket = []; packet_send = 0; packet_recv = 0 };
  sys = (some (param_doc some_param), []);
}

pub some_param-Storable : Storable some_param
some_param-Storable = record {
  valid = some_param-IsValid;
  admin_texts = record { named = λ h. cc; secret = λ h. cc };
  normal_texts = record { named = λ h. cc; secret = λ h. cc };
  net1 = some_net-IsNet;
  net2 = some_net-IsNet;
  path1 = omega arith;
  path2 = omega arith;
  admin_words = record { name_word = ground arith; passwd_word = ground arith };
  normal_words = record { name_word = ground arith; passwd_word = ground arith };
  path1_word = ground arith;
  path2_word = ground arith;
}

storing-Stored : Stored 0 storing_daemon
storing-Stored =
    let v = some_param-Storable in
    (
      param_doc some_param,
      _,
      refl,
      param_load-param_doc 0 some_param v.valid v.admin_texts v.normal_texts v.net1 v.net2 v.path1
          v.path2,
      refl,
    )

abbrev new_passwd_form : Form
new_passwd_form =
    form_of "Function_NormalUserMgr" "PrimaryKey" (codes "guest") "NewKey" (codes "tulip") "" []

abbrev entry_form : Form
entry_form = form_of "Function_Login" "UserName" (codes "bob") "Passwd" (codes "tulip") "" []

abbrev two_forms : List (Form × Msg)
two_forms = (new_passwd_form, zero_msg) ∷ (entry_form, zero_msg) ∷ []

abbrev two_acts : List Act
two_acts = change (codes "guest") (codes "tulip") ∷ log_in (codes "bob") (codes "tulip") ∷ []

two_forms-Script : Script two_acts two_forms
two_forms-Script =
    let bob : IsKey (codes "bob") = record { given = λ h. cc; cstr = ground arith } in
    let guest : IsKey (codes "guest") = record { given = λ h. cc; cstr = ground arith } in
    let tulip : IsKey (codes "tulip") = record { given = λ h. cc; cstr = ground arith } in
    enter _ _ new_passwd_form zero_msg _ (enters_change refl guest tulip)
      (enter _ _ entry_form zero_msg _ (enters_login refl bob tulip) finished)

abbrev new_accounts : Accounts
new_accounts = record (view some_param) { normal_passwd = codes "tulip" }

submit_all-perform_all_example :
    (statuses : List CfgMgrStatus) × (e : Daemon calm) × (submit_all 0 9 two_forms zero_msg
        some_daemon
      ≡ some (statuses, e))
    × (map is_ok statuses ≡ true ∷ true ∷ [])
    × (view e.pa ≡ new_accounts)
    × IsValid e.pa
unfolding text_eq
submit_all-perform_all_example =
    submit_all-perform_all {env = calm} (λ s. refl) 0 9 two_acts two_forms zero_msg some_daemon
      two_forms-Script some_param-IsValid

-- How the session ends on this world.
two_forms_end :
    (statuses : List CfgMgrStatus) × (e : Daemon storing) × (submit_all 0 9 two_forms zero_msg
        storing_daemon
      ≡ some (statuses, e))
    × (map is_ok statuses ≡ true ∷ true ∷ [])
    × (view e.pa ≡ new_accounts)
    × IsValid e.pa
unfolding text_eq
two_forms_end =
    submit_all-perform_all {env = storing} (λ s. refl) 0 9 two_acts two_forms zero_msg
      storing_daemon two_forms-Script some_param-IsValid

two_acts-NewIsWord : All NewIsWord two_acts
two_acts-NewIsWord = ground arith

abbrev booting : Daemon storing
booting = record storing_daemon { sys = two_forms_end.1.sys }

restart-perform_all_example :
    (up : Daemon storing) × (start 9 0 booting ≡ set_both 9 up)
    × Begins 0 storing-Persists 0 9 new_accounts (start 9 0 booting)
unfolding text_eq
restart-perform_all_example =
    restart-perform_all 0 storing-Persists 0 9 two_acts two_forms zero_msg storing_daemon
      two_forms_end.1 booting two_forms_end.0 two_forms-Script two_acts-NewIsWord
      some_param-Storable storing-Stored two_forms_end.2 refl

perform_all-Interleaves_example :
    (out : List CfgMgrStatus × Daemon calm) × Interleaves {env = calm} 8 0 9
      (omega arith)
      two_forms
      zero_msg
      some_daemon
      out
    × (map is_ok out.0 ≡ true ∷ true ∷ [])
    × (view out.1.pa ≡ new_accounts)
unfolding text_eq
perform_all-Interleaves_example =
    perform_all-Interleaves {env = calm} 8 0 9 (omega arith) two_acts two_forms zero_msg some_daemon
      (λ s. refl) two_forms-Script some_param-IsValid
