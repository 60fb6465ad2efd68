-- ===== src/Web/Logs.antt =====
-- doLogLookUp of web.c, with logRequest of trace.c.
pub mod Export
pub mod Laws
use cfg_mgr.Base.{
  ℕ, zero, suc, ◌+◌, ◌-◌, ◌*◌, ◌%◌, Bool, true, false, not, ◌&&◌, ◌||◌, List, [], ◌∷◌, ◌++◌, Option,
  none, some, if◌then◌else◌, ltb, leb, ◌==◌, length, take, drop, get_or,
}
use cfg_mgr.Base.Text.{Text, codes, atoi}
use cfg_mgr.Memory.{Bytes, zeroed, store, load, strncpy}
use cfg_mgr.Message.{
  Msg, cfgmgr_ok, loglookup_response, logexport_response, page_records_max, log_buf_len_max,
  log_element_at,
}
use cfg_mgr.Env.{Env}
use cfg_mgr.Trace.{
  Daemon, LogType, user, system, logtype_all, LogSignificance, general, key, logsignificance_all,
  debug_info, trace, log_select, select_sql,
}
use cfg_mgr.Share.{Tm}
use cfg_mgr.Share.Times.{time2format}
use cfg_mgr.Web.Confirm.{Reply}

-- An `int` as a 32-bit pattern is negative from 2^31 on.
abbrev pub is_negative : ℕ → Bool
is_negative w = leb 2147483648 w

-- `MIN` on two patterns, as signed numbers.
unfoldable pub signed_min : ℕ → ℕ → ℕ
signed_min x y =
    if ltb ((x + 2147483648) % 4294967296) ((y + 2147483648) % 4294967296) then x else y

-- The enumerators of a request's `logType` and `logSignificance`.
abbrev pub log_type_of : ℕ → LogType
log_type_of n = if n == 0 then user else if n == 1 then system else logtype_all

abbrev pub log_significance_of : ℕ → LogSignificance
log_significance_of n = if n == 0 then general else if n == 1 then key else logsignificance_all

-- A column of a row; a row has four.
abbrev pub column : ℕ → List Text → Text
column i row = get_or row i []

-- `(time_t) atoi (…)`: the sign of the 32-bit result is extended to 64 bits.
abbrev pub atoi_time : Text → ℕ
atoi_time s = let t = atoi s in if is_negative t then t + 18446744069414584320 else t

-- `logElement`: occurTime at 0, typ at 8, sgnfcc at 12, content at 16.
unfoldable pub put_element : ℕ → List Text → Bytes → Bytes
put_element off row d = strncpy (off + 16) log_buf_len_max (column 3 row) (
    store 4 (off + 12) (atoi (column 2 row))
      (store 4 (off + 8) (atoi (column 1 row)) (store 8 off (atoi_time (column 0 row)) d)))

-- The loop of logRequest: the rows from `1 + start` on go to `elements [0]`, `elements [1]`, …
unfoldable pub put_elements : ℕ → List (List Text) → Bytes → Bytes
put_elements i [] d = d
put_elements i (row ∷ rows) d = put_elements (suc i) rows (put_element (log_element_at i) row d)

-- The rows that the loop visits: from row `start` on, at most `element_max`, which may be negative.
unfoldable pub visited : ℕ → ℕ → List (List Text) → List (List Text)
visited start element_max rows =
    if is_negative element_max then [] else take element_max (drop start rows)

-- The rows that the loop meets, if there is a table: a `start` of -1 begins with the names of the
-- columns, which sqlite3_get_table puts in front of the rows if there are any. `none`: the loop
-- reads in front of the table, or `1 + start` overflows.
unfoldable pub rows_met : List Text → Option (List (List Text)) → ℕ → ℕ → Option (List (List Text))
rows_met header none start element_max = some []
rows_met header (some rows) start element_max =
    if ltb start 2147483647 || (is_negative element_max || element_max == 0)
    then some (visited start element_max rows)
    else if start == 4294967295 && not (length rows == 0)
    then some (take element_max (header ∷ rows))
    else none

-- The rows of the table, if there is one.
abbrev pub table_rows : Option (List (List Text)) → List (List Text)
table_rows none = []
table_rows (some rows) = rows

-- `logLookUpRequest`: logType at 0, logSignificance at 4, startTime at 8, endTime at 16, start at
-- 24, length at 28, draw at 32. `logLookUpResponse`: recordsTotal at 0, length at 4, draw at 8.
-- `none` as for rows_met.
unfoldable pub log_look_up_payload : List Text → Option (List (List Text)) → Bytes → Option Bytes
log_look_up_payload header table req =
    let total = length (table_rows table) in
    let start = load 4 24 req in
    let len = load 4 28 req in
    let element_max = signed_min page_records_max len in
    let left = (total + 4294967296 - start) % 4294967296 in
    let count = signed_min len (signed_min left page_records_max) in
    elim (rows_met header table start element_max) [
      | none ↦ none
      | some shown ↦
          let filled = put_elements 0 shown zeroed in
          some (store 4 4 count (store 4 8 (load 4 32 req) (store 4 0 total filled)))
    ]

unfoldable pub do_log_look_up : {env : Env} → Msg → Daemon env → Option (Reply env)
do_log_look_up {env} m d =
    let req = m.payload in
    let (table, sys') =
      log_select env (load 8 8 req) (load 8 16 req) (log_type_of (load 4 0 req))
        (log_significance_of (load 4 4 req)) d.sys in
    let header =
      Env.table_header env
        (select_sql (load 8 8 req) (load 8 16 req) (log_type_of (load 4 0 req))
          (log_significance_of (load 4 4 req)))
        sys' in
    elim (log_look_up_payload header table req) [
      | none ↦ none
      | some payload ↦ some (record {
        status = cfgmgr_ok;
        out = record { type = loglookup_response; payload = payload };
        daemon = record d { sys = sys' };
      })
    ]
