-- ===== src/Cgi/Answers/Page.antt =====
-- msg2json and cgiMain of cfgMgrCgi.c: what the CGI program prints for an answer, and its whole run.
use Prim.Native.String.{String}
use cfg_mgr.Base.{ℕ, Bool, true, false, Option, none, some, if◌then◌else◌}
use cfg_mgr.Base.Text.{Text}
use cfg_mgr.Message.{
  Msg, MsgType, comfirm, filelookup_response, fileupload_response, diskinfo_response,
  systeminfo_response, systimeget_response, getversion_response, loglookup_response,
  logexport_response,
}
use cfg_mgr.Cgi.{Form}
use cfg_mgr.Cgi.Table.{request_of}
use cfg_mgr.Cgi.Answers.{
  confirm2json, get_version_resp2json, log_export_resp2json, disk_info_resp2json,
}
use cfg_mgr.Cgi.Answers.Times.{sys_time_get_resp2json, system_info_resp2json}
use cfg_mgr.Cgi.Answers.Lists.{log_look_up_resp2json, file_look_up_resp2json}
use cfg_mgr.Cgi.Answers.Download.{file_up_load_resp2http}

-- What goes to the browser: a header with a content type and the text behind it, nothing at all, or
-- undefined behaviour before it is complete.
pub data Page : Type 0 where
  page : String → Text → Page
  nothing overrun : Page

abbrev pub html_or_overrun : Option Text → Page
html_or_overrun none = overrun
html_or_overrun (some text) = page "text/html" text

-- The switch on the kind of the answer.
unfoldable pub print_kind : MsgType → Form → Msg → Page
print_kind comfirm form m = page "text/html" (confirm2json m)
print_kind filelookup_response form m = html_or_overrun (file_look_up_resp2json form m)
print_kind fileupload_response form m =
    page "application/octet-stream" (file_up_load_resp2http form m)
print_kind systimeget_response form m = html_or_overrun (sys_time_get_resp2json form m)
print_kind getversion_response form m = page "text/html" (get_version_resp2json m)
print_kind loglookup_response form m = html_or_overrun (log_look_up_resp2json form m)
print_kind logexport_response form m = page "text/html" (log_export_resp2json m)
print_kind diskinfo_response form m = page "text/html" (disk_info_resp2json m)
print_kind systeminfo_response form m = page "text/html" (system_info_resp2json form m)
print_kind kind form m = nothing

abbrev pub msg2json : Form → Msg → Page
msg2json form m = print_kind m.type form m

-- A run of cgiMain: whether it returns 0, the message that it has given to msgSend, and the page.
pub record Run : Type 0 where
  pub ok : Bool
  pub sent : Option Msg
  pub shown : Page

-- The queue is a parameter: whether msgOpen and msgSend of a message succeed, and what msgRecv
-- gives after it, none where it fails. `m` is what the message variable holds at first.
unfoldable pub cgi_main : ℕ → Form → Msg → Bool → (Msg → Bool) → (Msg → Option Msg) → Run
cgi_main temp form m opens sends receives = elim (request_of temp form m) [
  | none ↦ record { ok = false; sent = none; shown = nothing }
  | some request ↦
      if opens
      then (if sends request
          then elim (receives request) [
            | none ↦ record { ok = false; sent = some request; shown = nothing }
            | some answer ↦ record { ok = true; sent = some request; shown = msg2json form answer }
          ]
          else record { ok = false; sent = some request; shown = nothing })
      else record { ok = false; sent = none; shown = nothing }
]
