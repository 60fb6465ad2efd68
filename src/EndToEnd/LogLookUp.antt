-- ===== src/EndToEnd/LogLookUp.antt =====
-- A look-up of the log, from the form to the printed page.
use cfg_mgr.Base.{
  ℕ, ◌≤◌, ◌<◌, ◌≡◌, refl, sym, ap, ◌∙◌, List, some, length, take, drop, min, get_elem?, arith, ◌%◌,
}
use cfg_mgr.Base.Text.{Text, atoi, IsCstr}
use cfg_mgr.Memory.{Bytes, load}
use cfg_mgr.Message.{Msg, loglookup_request, loglookup_response, cfgmgr_ok}
use cfg_mgr.Env.{Env}
use cfg_mgr.Trace.{Daemon, LogType, LogSignificance, log_select, select_sql, trace}
use cfg_mgr.Web.Confirm.{Reply}
use cfg_mgr.Web.Logs.{column, do_log_look_up, log_look_up_payload, log_type_of, log_significance_of}
use cfg_mgr.Web.Logs.Laws.{IsPage, shown, shown-take}
use cfg_mgr.Web.Dispatch.{arrived, received}
use cfg_mgr.Cgi.{Form, format2time}
use cfg_mgr.Cgi.Logs.Laws.{AsksPage, HoldsFilter, log_look_up-HoldsFilter, atoi-fits}
use cfg_mgr.Cgi.Answers.Lists.Laws.{page_json, log_look_up_resp2json-page}
use cfg_mgr.Cgi.Answers.Page.{page, msg2json, print_kind, html_or_overrun}
use cfg_mgr.EndToEnd.Routes.{submit, Asks, request_of-log_look_up, dispatch-do_log_look_up}

module _ {env : Env} where
  -- With the table that the filter of a request selects, doLogLookUp answers with its page.
  do_log_look_up-selected :
      (typ : LogType) (sgnfcc : LogSignificance) (s e : ℕ) (rows : List (List Text)) (q : Msg)
      (payload : Bytes) (d : Daemon env)
      → HoldsFilter typ sgnfcc s e q.payload
      → (log_select env s e typ sgnfcc d.sys).0 ≡ some rows
      → ((header : List Text) → log_look_up_payload header (some rows) q.payload ≡ some payload)
      → (r : Reply env) × (do_log_look_up q d ≡ some r)
        × (r.status ≡ cfgmgr_ok)
        × (r.out ≡ record { type = loglookup_response; payload = payload })
        × (r.daemon.pa ≡ d.pa)
  unfolding do_log_look_up
  do_log_look_up-selected typ sgnfcc s e rows q payload d held selected made =
      let load_q = q.payload in
      let table =
        log_select env (load 8 8 load_q) (load 8 16 load_q) (log_type_of (load 4 0 load_q))
          (log_significance_of (load 4 4 load_q)) d.sys in
      let asked : table.0 ≡ some rows =
        rw (held.typ_held, held.sgnfcc_held, held.start_held, held.end_held) selected in
      let header =
        Env.table_header env
          (select_sql (load 8 8 load_q) (load 8 16 load_q) (log_type_of (load 4 0 load_q))
            (log_significance_of (load 4 4 load_q)))
          table.1 in
      (
        record {
          status = cfgmgr_ok;
          out = record { type = loglookup_response; payload = payload };
          daemon = record d { sys = table.1 };
        },
        rw (do_log_look_up, asked, made header) refl,
        refl,
        refl,
        refl,
      )

  -- The form asks for a page of the log, with names of a type and of a significance and times of 64
  -- bits. Let `rows` be the table that SQLite gives for these: it is answered, and the browser gets
  -- the JSON list of the rows on the page, from row `start` on, at most `length` and at most 50, in
  -- order, with the number of all rows and the form's draw. The page begins inside the table, which
  -- has fewer than 2^31 - 1 rows, and no content on the page is longer than the 59 characters that
  -- trace keeps. The configuration is unchanged.
  pub submit-log_look_up-page :
      (temp polls : ℕ) (form : Form) (m prev : Msg) (d : Daemon env) (typ : LogType)
      (sgnfcc : LogSignificance) (rows : List (List Text))
      → let start = atoi (form.form_string "start") in
        let len = atoi (form.form_string "length") in
        let page_rows = take (min len 50) (drop start rows) in
        Asks "Function_LogLookUp" form
        → AsksPage form typ sgnfcc
        → (log_select env
            (format2time form (form.form_string "StartTime"))
            (format2time form (form.form_string "EndTime"))
            typ
            sgnfcc
            (received loglookup_request d).sys).0
          ≡ some rows
        → start ≤ length rows
        → length rows < 2147483647
        → len < 2147483648
        → ((k : ℕ) (row : List Text) → get_elem? page_rows k ≡ some row → IsCstr 59 (column 3 row))
        → (r : Reply env) × (submit temp polls form m prev d ≡ some r)
          × (msg2json form r.out
              ≡ page "text/html"
                  (page_json form (length rows) (atoi (form.form_string "draw")) page_rows))
          × (r.daemon.pa ≡ d.pa)
  unfolding trace print_kind
  submit-log_look_up-page temp polls form m prev d typ sgnfcc rows asks a selected inside few small
        short =
      let (q, sent, kind, held, start_held, length_held, draw_held) =
        log_look_up-HoldsFilter form m typ sgnfcc a in
      let is_page : IsPage rows q.payload = record {
        start_fits = omega (arith, start_held);
        rows_fit = few;
        length_fits = omega (arith, length_held);
      } in
      let same = shown-take rows q.payload is_page in
      let start = atoi (form.form_string "start") in
      let len = atoi (form.form_string "length") in
      let page_rows = take (min len 50) (drop start rows) in
      let on_page : shown rows q.payload is_page ≡ page_rows =
        same
        ∙ ap (λ n. take (min n 50) (drop (load 4 24 q.payload) rows)) length_held
        ∙ ap (λ n. take (min len 50) (drop n rows)) start_held in
      let (payload, made, printed) =
        log_look_up_resp2json-page form rows q.payload is_page λ k row found.
          short k row (ap (λ (xs : List (List Text)). get_elem? xs k) (sym on_page) ∙ found) in
      let s = format2time form (form.form_string "StartTime") in
      let e = format2time form (form.form_string "EndTime") in
      let found : (log_select env s e typ sgnfcc (arrived q d).sys).0 ≡ some rows =
        ap (λ k. (log_select env s e typ sgnfcc (received k d).sys).0) kind ∙ selected in
      let (r, served, ok, out, pa) =
        do_log_look_up-selected typ sgnfcc s e rows q payload (arrived q d) held found made in
      let fits = atoi-fits (form.form_string "draw") in
      let drawn : load 4 32 q.payload % 4294967296 ≡ atoi (form.form_string "draw") =
        omega (arith, draw_held, fits) in
      (
        r,
        rw (request_of-log_look_up temp form m asks, sent)
            (dispatch-do_log_look_up polls q prev (arrived q d) kind ∙ served),
        ap (msg2json form) out
            ∙ ap html_or_overrun printed
            ∙ ap
                (λ n.
                  page "text/html" (page_json form (length rows) n (shown rows q.payload is_page)))
                drawn
            ∙ ap
                (λ xs.
                  page "text/html"
                    (page_json form (length rows) (atoi (form.form_string "draw")) xs))
                on_page,
        pa,
      )
