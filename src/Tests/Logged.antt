-- ===== src/Tests/Logged.antt =====
-- A log that SQLite keeps, and a look-up of it.
use mathlib.Core.List.{Perm}
use mathlib.Core.List.Perm
use text.Mathlib.Text.{◌==◌ as str_eq}
use cfg_mgr.Base.{
  if◌then◌else◌, ◌≡◌, refl, List, [], ◌∷◌, ◌++◌, Option, none, some, arith, true, false, take, drop,
}
use cfg_mgr.Base.Text.{Text, codes, fmt_d, dec_onto, starts_with, strstr, text_eq, atoi}
use cfg_mgr.Message.{zero_msg}
use cfg_mgr.Env.{Env, timeout}
use cfg_mgr.Trace.{
  Daemon, user, system, general, key, logsignificance_all, select_sql, insert_sql, create_sql,
}
use cfg_mgr.Trace.Quoting.{insert_values}
use cfg_mgr.Trace.Select.{Condition, select_condition}
use cfg_mgr.Trace.Table.{LogTable, selection, matches, asked, entry}
use cfg_mgr.Trace.Order.{select_sql-insert_sql}
use cfg_mgr.Web.Confirm.{Reply}
use cfg_mgr.Cgi.{Form, format2time}
use cfg_mgr.Cgi.Logs.{log_type_named, significance_named}
use cfg_mgr.Cgi.Logs.Laws.{AsksPage}
use cfg_mgr.Cgi.Answers.Lists.Laws.{page_json}
use cfg_mgr.Cgi.Answers.Page.{page, msg2json}
use cfg_mgr.EndToEnd.Routes.{submit}
use cfg_mgr.EndToEnd.Logged.{submit-log_look_up-matching}
use cfg_mgr.Base.Text.{fmt_02x, hex_digit}
use cfg_mgr.Share.{mac_hex2string}
use cfg_mgr.Config.{param_doc, save_lan1, save_lan2, save_users}
use cfg_mgr.Config.Load.{param_load, element_text, find_element}
use cfg_mgr.Config.Load.Traces.{load_traces, lan_traces, user_traces}
use cfg_mgr.Config.RoundTrip.{param_load-param_doc}
use cfg_mgr.Trace.Journal.{Logged}
use cfg_mgr.Web.Dispatch.{start, set_both}
use cfg_mgr.Web.Dispatch.Passwords.{QuoteFree, start-Logged}
use cfg_mgr.EndToEnd.Kept.{reloaded_param}
use cfg_mgr.Tests.Sessions.{some_param-Storable}
use cfg_mgr.Tests.{calm, some_param, form_of}

-- A database with the rows of the log, which reads its statements.
abbrev run_sql : Text → List (List Text) → List (List Text)
run_sql sql rows = elim (insert_values sql) [ none ↦ rows | some values ↦ rows ++ (values ∷ []) ]

abbrev run_query : Text → List (List Text) → Option (List (List Text))
run_query sql rows = elim (select_condition sql) [ none ↦ none | some c ↦ some (selection c rows) ]

abbrev tabled : Env
tabled = record {
  Sys = List (List Text);
  time = λ s. (1570000000, s);
  stime = λ t s. s;
  sqlite_exec = run_sql;
  sqlite_get_table = λ q s. (run_query q s, s);
  table_header = λ q s. [];
  system = λ c s. s;
  socket = λ s. (true, s);
  get_flags = λ i s. (some 0, s);
  set_flags = λ i f s. (true, s);
  set_if_addr = λ f i a s. (true, s);
  get_hwaddr = λ i s. (some (0 ∷ 1 ∷ 2 ∷ 3 ∷ 4 ∷ 5 ∷ []), s);
  set_hwaddr = λ i m s. (true, s);
  get_link = λ i s. (some 1, s);
  stack_bytes = λ s. [];
  fopen_config = λ s. (true, s);
  save_file = λ doc s. s;
  load_file = λ s. (some (param_doc some_param), s);
  fopen_export = λ s. (true, s);
  export_file = λ t s. s;
  localtime = Env.localtime calm;
  has_icmp = λ s. (true, s);
  getuid = λ s. 0;
  raw_socket = λ s. (true, s);
  sendto = λ a p s. (true, s);
  select = λ s. (timeout, s);
  recv = λ s. (none, s);
  mq_unlink = λ q s. s;
  mq_open = λ q s. (true, s);
  mq_send = λ q m s. (true, s);
  mq_receive = λ q s. (none, s);
}

run_sql_reads :
    (sql : Text) (values : List Text) (rows : List (List Text))
    → insert_values sql ≡ some values
    → run_sql sql rows ≡ rows ++ (values ∷ [])
unfolding starts_with
run_sql_reads sql values rows h = rw h refl

run_query_reads :
    (sql : Text) (c : Condition) (rows : List (List Text))
    → select_condition sql ≡ some c
    → run_query sql rows ≡ some (selection c rows)
unfolding starts_with
run_query_reads sql c rows h = rw h refl

run_sql_create : (rows : List (List Text)) → run_sql create_sql rows ≡ rows
unfolding starts_with
run_sql_create rows = refl

abbrev tabled_table : LogTable tabled
tabled_table = record {
  rows = λ s. s;
  inserted = λ sql values s h. run_sql_reads sql values s h;
  created = run_sql_create;
  selected = λ sql c s h. (selection c s, run_query_reads sql c s h, Perm.refl (selection c s));
  timed = λ s. refl;
}

-- An entry of the system and one of a user, made at noon of a day in October 2019.
abbrev tabled_daemon : Daemon tabled
tabled_daemon = record {
  pa = some_param;
  last_cfg_mgr_err = [];
  ping = record { pingpacket = []; packet_send = 0; packet_recv = 0 };
  sys =
      entry 1570000000 system key (codes "disk full")
      ∷ entry 1570000000 user general (codes "Login succ")
      ∷ [];
}

abbrev log_form : Form
log_form = record (form_of "Function_LogLookUp" "" [] "" [] "" []) {
  form_string = λ name.
      if str_eq name "FunctionName"
      then codes "Function_LogLookUp"
      else if str_eq name "LogType"
      then codes "system"
      else if str_eq name "Significance"
      then codes "all"
      else if str_eq name "start"
      then codes "1"
      else if str_eq name "length"
      then codes "10"
      else if str_eq name "draw"
      then codes "7"
      else codes "2019-10-08 12:00:00";
  mktime = λ t. 1570000000;
}

log_form-AsksPage : AsksPage log_form system logsignificance_all
unfolding log_type_named significance_named strstr starts_with format2time atoi
log_form-AsksPage = record {
  typ_named = refl;
  sgnfcc_named = refl;
  start_time_given = λ h. cc;
  end_time_given = λ h. cc;
  start_given = λ h. cc;
  length_given = λ h. cc;
  draw_given = λ h. cc;
  start_time_fits = omega arith;
  end_time_fits = omega arith;
}

-- The first entry and the arrival of the request.
abbrev matching_entries : List (List Text)
matching_entries =
    entry 1570000000 system key (codes "disk full")
    ∷ entry 1570000000 system general (codes "msgRecv a message, type 24.")
    ∷ []

submit-log_look_up-matching_example :
    (found : List (List Text)) × Perm found matching_entries
    × (r : Reply tabled) × (submit 0 9 log_form zero_msg zero_msg tabled_daemon ≡ some r)
    × (msg2json log_form r.out ≡ page "text/html" (page_json log_form 2 7 (take 10 (drop 1 found))))
    × (r.daemon.pa ≡ some_param)
unfolding atoi fmt_d dec_onto text_eq format2time
submit-log_look_up-matching_example =
    submit-log_look_up-matching tabled_table 0 9 log_form zero_msg zero_msg tabled_daemon system
      logsignificance_all refl log_form-AsksPage (omega arith) (omega arith) (omega arith) refl

-- A look-up of one hour by type.
select_sql-insert_sql_example :
    (c : Condition) × (row : List Text) × (select_condition
        (select_sql 1570000000 1570003600 user logsignificance_all)
      ≡ some c)
    × (insert_values (insert_sql 1570001800 user general (codes "Login succ")) ≡ some row)
    × (matches c row ≡ true)
select_sql-insert_sql_example =
    select_sql-insert_sql 1570000000 1570003600 1570001800 user user logsignificance_all general
      (codes "Login succ") (ground arith) (omega arith) (omega arith) (omega arith) (omega arith)
      (omega arith) (omega arith)

-- The entry of a clock that was never set, one day into 1970, is not found between the seconds 0 and
-- 100000: the texts of these times have another order.
unset_clock_missed :
    matches
      (asked 0 100000 system logsignificance_all)
      (entry 86400 system general (codes "started"))
    ≡ false
unfolding fmt_d dec_onto
unset_clock_missed = refl

loaded_param : param_load 0 (param_doc some_param) ≡ some (reloaded_param some_param)
loaded_param =
    let v = some_param-Storable in
    param_load-param_doc 0 some_param v.valid v.admin_texts v.normal_texts v.net1 v.net2 v.path1
      v.path2

some_traces-QuoteFree : QuoteFree (load_traces (param_doc some_param) (reloaded_param some_param))
unfolding load_traces lan_traces user_traces fmt_02x hex_digit element_text find_element param_doc
    save_lan1 save_lan2 save_users strstr starts_with mac_hex2string
some_traces-QuoteFree = ground arith

start-Logged_example :
    (up : Daemon tabled) × (start 9 0 tabled_daemon ≡ set_both 9 up)
    × Logged (codes "Administrators UserPws abcdefghijklmnopqrst") up.sys
    × Logged (codes "NomalUser UserPws guest") up.sys
start-Logged_example =
    start-Logged tabled_table 9 0 tabled_daemon (param_doc some_param) (reloaded_param some_param)
      refl loaded_param (omega arith) (omega arith) some_traces-QuoteFree
