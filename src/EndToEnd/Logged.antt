-- ===== src/EndToEnd/Logged.antt =====
-- A look-up of the log against what has been traced.
use mathlib.Core.List.{Perm}
use mathlib.Core.Path.{subst}
use cfg_mgr.Base.{
  ℕ, ◌≤◌, ◌<◌, ◌≡◌, ap, ◌∙◌, true, List, [], ◌∷◌, ◌++◌, some, length, take, drop, min, arith,
}
use cfg_mgr.Base.Text.{Text, codes, atoi, dec_onto, fmt_d}
use cfg_mgr.Message.{Msg, loglookup_request}
use cfg_mgr.Env.{Env}
use cfg_mgr.Trace.{Daemon, LogType, LogSignificance, system, general, debug_info}
use cfg_mgr.Trace.Table.{LogTable, rows-trace, log_select-Perm, selection, asked, entry}
use cfg_mgr.Trace.Found.{Perm-length, every, has_content, page-IsCstr}
use cfg_mgr.Web.Confirm.{Reply}
use cfg_mgr.Web.Dispatch.{received}
use cfg_mgr.Cgi.{Form, format2time}
use cfg_mgr.Cgi.Logs.Laws.{AsksPage}
use cfg_mgr.Cgi.Answers.Lists.Laws.{page_json}
use cfg_mgr.Cgi.Answers.Page.{page, msg2json}
use cfg_mgr.EndToEnd.Routes.{submit, Asks}
use cfg_mgr.EndToEnd.LogLookUp.{submit-log_look_up-page}

module _ {env : Env} (table : LogTable env) where
  -- The log when the query of a look-up runs: the request's own arrival is its last entry.
  abbrev pub log_then : Daemon env → List (List Text)
  log_then d =
      table.rows d.sys
      ++ (entry (Env.time env d.sys).0 system general (codes "msgRecv a message, type 24.") ∷ [])

  rows-received : (d : Daemon env) → table.rows (received loglookup_request d).sys ≡ log_then d
  unfolding dec_onto fmt_d
  rows-received d = rows-trace table debug_info system _ d (ground arith)

  -- The form asks for a page of the log, with names of a type and of a significance and times of 64
  -- bits. The rows that match are those of the log, with the request's own arrival behind them, that
  -- have the type and the significance asked for and a time whose text is between the texts of the
  -- form's two times, in the order of texts, as SQLite compares them; for times of ten digits that
  -- is the order of the times. The request is answered: for an order of the rows that match, the
  -- browser gets the JSON list of the rows on the page, from row `start` on, at most `length` and at
  -- most 50, with the number of all rows that match and the form's draw. The configuration is
  -- unchanged. SQLite keeps the table, the page begins inside the rows that match, of which there
  -- are fewer than 2^31 - 1, and no content in the log is longer than the 59 characters that trace
  -- keeps.
  pub submit-log_look_up-matching :
      (temp polls : ℕ) (form : Form) (m prev : Msg) (d : Daemon env) (typ : LogType)
      (sgnfcc : LogSignificance)
      → let start = atoi (form.form_string "start") in
        let len = atoi (form.form_string "length") in
        let first_time = format2time form (form.form_string "StartTime") in
        let last_time = format2time form (form.form_string "EndTime") in
        let matching = selection (asked first_time last_time typ sgnfcc) (log_then d) in
        Asks "Function_LogLookUp" form
        → AsksPage form typ sgnfcc
        → start ≤ length matching
        → length matching < 2147483647
        → len < 2147483648
        → every has_content (log_then d) ≡ true
        → (found : List (List Text)) × Perm found matching
          × (r : Reply env) × (submit temp polls form m prev d ≡ some r)
          × (msg2json form r.out
              ≡ page "text/html" (
                  page_json form
                    (length matching)
                    (atoi (form.form_string "draw"))
                    (take (min len 50) (drop start found))))
          × (r.daemon.pa ≡ d.pa)
  submit-log_look_up-matching temp polls form m prev d typ sgnfcc asks a inside few small short =
      let start = atoi (form.form_string "start") in
      let len = atoi (form.form_string "length") in
      let s = format2time form (form.form_string "StartTime") in
      let e = format2time form (form.form_string "EndTime") in
      let c = asked s e typ sgnfcc in
      let (found, selected, same) =
        log_select-Perm table s e typ sgnfcc (received loglookup_request d).sys in
      let same' =
        subst (λ (rows : List (List Text)). Perm found (selection c rows)) (rows-received d) same in
      let size = Perm-length found _ same' in
      let (r, answered, printed, pa) =
        submit-log_look_up-page temp polls form m prev d typ sgnfcc found asks a selected
          (omega (arith, inside, size)) (omega (arith, few, size)) small
          (λ k row on_page.
            page-IsCstr c (log_then d) found (min len 50) start k row short same' on_page) in
      (
        found,
        same',
        r,
        answered,
        printed
            ∙ ap
                (λ n. page "text/html" (
                  page_json form n (atoi (form.form_string "draw"))
                    (take (min len 50) (drop start found))))
                size,
        pa,
      )
