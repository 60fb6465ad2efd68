-- ===== src/Web/Logs/Export.antt =====
-- doLogExport of web.c, with logRequestExport of trace.c.
use cfg_mgr.Base.{
  ℕ, zero, suc, ◌-◌, List, [], ◌∷◌, ◌++◌, Option, none, some, if◌then◌else◌, ◌==◌, length,
}
use cfg_mgr.Base.Text.{Text, codes, atoi}
use cfg_mgr.Memory.{zeroed, store, load, strncpy}
use cfg_mgr.Message.{Msg, cfgmgr_ok, logexport_response}
use cfg_mgr.Env.{Env}
use cfg_mgr.Trace.{
  Daemon, LogType, user, LogSignificance, debug_info, trace, log_select, select_sql,
}
use cfg_mgr.Share.{Tm}
use cfg_mgr.Share.Times.{time2format}
use cfg_mgr.Web.Confirm.{Reply}
use cfg_mgr.Web.Logs.{column, atoi_time, table_rows, log_type_of, log_significance_of}

-- What logRequestExport returns for a table: one less than its rows, and zero for none.
unfoldable pub exported_total : Option (List (List Text)) → ℕ
exported_total table = length (table_rows table) - 1

-- `%-Ns`: spaces behind the text up to `n` characters.
unfoldable pub padded : ℕ → Text → Text
padded zero s = s
padded (suc n) [] = b' ' ∷ padded n []
padded (suc n) (c ∷ s) = c ∷ padded n s

abbrev pub export_line : (time typ sgnfcc content : Text) → Text
export_line time typ sgnfcc content =
    padded 25 time ++ (padded 10 typ ++ (padded 15 sgnfcc ++ (padded 50 content ++ (13 ∷ 10 ∷ []))))

-- A row of the table in the export file.
unfoldable pub export_row : (ℕ → Tm) → List Text → Text
export_row localtime row =
    export_line (time2format localtime (atoi_time (column 0 row)))
      (if atoi (column 1 row) == 0 then codes "user" else codes "system")
      (if atoi (column 2 row) == 0 then codes "genarl" else codes "key") (column 3 row)

unfoldable pub export_rows : (ℕ → Tm) → List (List Text) → Text
export_rows localtime [] = []
export_rows localtime (row ∷ rows) = export_row localtime row ++ export_rows localtime rows

-- The text of the export file: nothing where there is no table.
unfoldable pub export_text : (ℕ → Tm) → List Text → Option (List (List Text)) → Text
export_text localtime header none = []
export_text localtime header (some rows) =
    export_line (column 0 header) (column 1 header) (column 2 header) (column 3 header)
    ++ (codes "------------------------------------------------------------------------------------"
        ++ (13 ∷ 10 ∷ export_rows localtime rows))

-- logRequestExport: the file is written if it opens; the number that is returned.
unfoldable pub log_request_export :
    (env : Env) → ℕ → ℕ → LogType → LogSignificance → Env.Sys env → ℕ × Env.Sys env
log_request_export env s e typ sgnfcc sys =
    let (opened, sys₁) = Env.fopen_export env sys in
    let (table, sys₂) = log_select env s e typ sgnfcc sys₁ in
    let header = Env.table_header env (select_sql s e typ sgnfcc) sys₂ in
    let text = export_text (Env.localtime env) header table in
    if opened then (exported_total table, Env.export_file env text sys₂) else (0, sys₁)

-- `logExportRequest` begins as `logLookUpRequest`; `logExportResponse`: recordsTotal at 0 and
-- logSearchResult at 4.
unfoldable pub do_log_export : {env : Env} → Msg → Daemon env → Reply env
do_log_export {env} m d =
    let req = m.payload in
    let started = trace debug_info user (codes "Log Export start") d in
    let (total, sys') =
      log_request_export env (load 8 8 req) (load 8 16 req) (log_type_of (load 4 0 req))
        (log_significance_of (load 4 4 req)) started.sys in
    record {
      status = cfgmgr_ok;
      out = record {
        type = logexport_response;
        payload = strncpy 4 61 (codes "tmp/logSearchResult.txt") (store 4 0 total zeroed);
      };
      daemon = trace debug_info user (codes "Log Export succ") (record started { sys = sys' });
    }
