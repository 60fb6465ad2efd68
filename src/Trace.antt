-- ===== src/Trace.antt =====
-- trace.c: the last error text and the log database; and the state of the daemon that it shares
-- with web.c.
pub mod Laws
pub mod Journal
pub mod Quoting
pub mod Select
pub mod Table
pub mod Order
pub mod Found
use cfg_mgr.Base.{ℕ, ◌+◌, ◌%◌, List, [], ◌∷◌, ◌++◌, Option, none, some, take}
use cfg_mgr.Base.Text.{Text, codes, fmt_d}
use cfg_mgr.Params.{Param}
use cfg_mgr.Ping.{PingState}
use cfg_mgr.Env.{Env}

-- The static variables of web.c, trace.c and ping.c, and the world behind them.
pub record Daemon (env : Env) : Type 0 where
  pub pa : Param
  pub last_cfg_mgr_err : Text
  pub ping : PingState
  pub sys : Env.Sys env

pub data LogType : Type 0 where
  user system logtype_all : LogType

pub data LogSignificance : Type 0 where
  general key logsignificance_all : LogSignificance

pub data LogLevel : Type 0 where
  debug_err debug_warn debug_info : LogLevel

abbrev pub log_type_code : LogType → ℕ
log_type_code user = 0
log_type_code system = 1
log_type_code logtype_all = 2

abbrev pub significance_code : LogSignificance → ℕ
significance_code general = 0
significance_code key = 1
significance_code logsignificance_all = 2

-- An error is a key entry of the log, anything else a general one.
abbrev pub significance_of : LogLevel → LogSignificance
significance_of debug_err = key
significance_of debug_warn = general
significance_of debug_info = general

-- The statement of logWrite.
unfoldable pub insert_sql : ℕ → LogType → LogSignificance → Text → Text
insert_sql now typ sgnfcc content =
    codes "insert into logtable values('"
    ++ (fmt_d (now % 4294967296)
        ++ (codes "','"
            ++ (fmt_d (log_type_code typ)
                ++ (codes "','"
                    ++ (fmt_d (significance_code sgnfcc)
                        ++ (codes "','" ++ (content ++ codes "');")))))))

-- The conditions of logSelect on the type and the significance; the two "all" values add none.
unfoldable pub select_conditions : LogType → LogSignificance → Text
select_conditions logtype_all logsignificance_all = []
select_conditions logtype_all sgnfcc =
    codes " and Significance='" ++ (fmt_d (significance_code sgnfcc) ++ codes "'")
select_conditions typ logsignificance_all =
    codes " and LogType='" ++ (fmt_d (log_type_code typ) ++ codes "'")
select_conditions typ sgnfcc =
    codes " and LogType='"
    ++ (fmt_d (log_type_code typ)
        ++ (codes "' and Significance='" ++ (fmt_d (significance_code sgnfcc) ++ codes "'")))

unfoldable pub select_sql : ℕ → ℕ → LogType → LogSignificance → Text
unfolding select_conditions
select_sql s e typ sgnfcc =
    codes "select * from logtable where OccurTime between '"
    ++ (fmt_d (s % 4294967296)
        ++ (codes "' and '"
            ++ (fmt_d (e % 4294967296) ++ (codes "'" ++ select_conditions typ sgnfcc))))

-- The statement of logOpen.
abbrev pub create_sql : Text
create_sql =
    codes
      "create table if not exists logtable( \t\tOccurTime, \t\tLogType,\t\tSignificance,\t\tContent\t\t)"

module _ (env : Env) where
  open env use {Sys, time, sqlite_exec, sqlite_get_table}

  unfoldable pub log_open : Sys → Sys
  log_open sys = sqlite_exec create_sql sys

  unfoldable pub log_write : LogType → LogSignificance → Text → Sys → Sys
  log_write typ sgnfcc content sys =
      let (now, sys') = time sys in sqlite_exec (insert_sql now typ sgnfcc content) (log_open sys')

  unfoldable pub log_select :
      ℕ → ℕ → LogType → LogSignificance → Sys → Option (List (List Text)) × Sys
  log_select s e typ sgnfcc sys = sqlite_get_table (select_sql s e typ sgnfcc) (log_open sys)

abbrev pub get_last_cfg_mgr_err : {env : Env} → Daemon env → Text
get_last_cfg_mgr_err d = d.last_cfg_mgr_err

-- vsnprintf into `lastCfgMgrErr` with size 60 keeps 59 characters; the text goes to the log too.
-- The message is given as formatted.
unfoldable pub trace : {env : Env} → LogLevel → LogType → Text → Daemon env → Daemon env
trace {env} level typ message d =
    let kept = take 59 message in
    record d { last_cfg_mgr_err = kept; sys = log_write env typ (significance_of level) kept d.sys }
