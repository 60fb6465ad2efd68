-- ===== src/Cgi/Logs.antt =====
-- logLookUp, logExport and systemTimeSet of cfgMgrCgi.c.
pub mod Laws
use cfg_mgr.Base.{ℕ, Option, none, some, if◌then◌else◌, ◌>>=◌}
use cfg_mgr.Base.Text.{Text, codes, strstr, atoi}
use cfg_mgr.Memory.{Bytes, store}
use cfg_mgr.Message.{loglookup_request, logexport_request, systimeset_request}
use cfg_mgr.Trace.{
  LogType, user, system, logtype_all, LogSignificance, general, key, logsignificance_all,
  log_type_code, significance_code,
}
use cfg_mgr.Cgi.{Request, required, format2time}

-- The tests on the field LogType, in their order.
unfoldable pub log_type_named : Text → Option LogType
log_type_named s =
    if strstr s (codes "all")
    then some logtype_all
    else if strstr s (codes "user")
    then some user
    else if strstr s (codes "system")
    then some system
    else none

unfoldable pub significance_named : Text → Option LogSignificance
significance_named s =
    if strstr s (codes "all")
    then some logsignificance_all
    else if strstr s (codes "general")
    then some general
    else if strstr s (codes "key")
    then some key
    else none

-- logType at 0, logSignificance at 4, startTime at 8 and endTime at 16, as logLookUpRequest and
-- logExportRequest begin.
unfoldable pub put_log_filter : LogType → LogSignificance → ℕ → ℕ → Bytes → Bytes
put_log_filter typ sgnfcc s e d =
    store 8 16 e
      (store 8 8 s (store 4 4 (significance_code sgnfcc) (store 4 0 (log_type_code typ) d)))

unfoldable pub log_look_up : Request
log_look_up form m = do
  typ_text ← required (form.form_string "LogType")
  sgnfcc_text ← required (form.form_string "Significance")
  start_time ← required (form.form_string "StartTime")
  end_time ← required (form.form_string "EndTime")
  start ← required (form.form_string "start")
  length ← required (form.form_string "length")
  draw ← required (form.form_string "draw")
  typ ← log_type_named typ_text
  sgnfcc ← significance_named sgnfcc_text
  some (record {
    type = loglookup_request;
    payload =
        put_log_filter typ sgnfcc (format2time form start_time) (format2time form end_time)
          (store 4 32 (atoi draw) (store 4 28 (atoi length) (store 4 24 (atoi start) m.payload)));
  })

unfoldable pub log_export : Request
log_export form m = do
  typ_text ← required (form.form_string "LogType")
  sgnfcc_text ← required (form.form_string "Significance")
  start_time ← required (form.form_string "StartTime")
  end_time ← required (form.form_string "EndTime")
  typ ← log_type_named typ_text
  sgnfcc ← significance_named sgnfcc_text
  some (record {
    type = logexport_request;
    payload =
        put_log_filter typ sgnfcc (format2time form start_time) (format2time form end_time)
          m.payload;
  })

unfoldable pub system_time_set : Request
system_time_set form m = do
  correct_time ← required (form.form_string "CorrectTime")
  some (record {
    type = systimeset_request;
    payload = store 8 0 (format2time form correct_time) m.payload;
  })
