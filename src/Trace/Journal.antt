-- ===== src/Trace/Journal.antt =====
-- What stands in the log after traces, in a table that SQLite keeps.
use mathlib.Core.Path.{subst}
use cfg_mgr.Base.{ℕ, sym, List, [], ◌∷◌, ◌++◌, take}
use cfg_mgr.Base.Text.{Text}
use cfg_mgr.Env.{Env}
use cfg_mgr.Trace.{Daemon, trace, system, debug_info, general}
use cfg_mgr.Trace.Quoting.{Unquoted}
use cfg_mgr.Trace.Table.{LogTable, rows-trace, entry}

-- A row with the content is in the log, of some time, as a general entry of the system.
pub data Logged (content : Text) : List (List Text) → Type 0 where
  latest :
      (now : ℕ) (rows : List (List Text))
      → Logged content (rows ++ (entry now system general content ∷ []))
  followed :
      (row : List Text) (rows : List (List Text))
      → Logged content rows
      → Logged content (rows ++ (row ∷ []))

module _ {env : Env} (table : LogTable env) where
  pub trace-Logged :
      (t : Text) (d : Daemon env)
      → Unquoted (take 59 t)
      → Logged (take 59 t) (table.rows (trace debug_info system t d).sys)
  trace-Logged t d h =
      subst (Logged (take 59 t)) (sym (rows-trace table debug_info system t d h)) (latest _ _)

  pub trace-keeps_Logged :
      (s t : Text) (d : Daemon env)
      → Unquoted (take 59 t)
      → Logged s (table.rows d.sys)
      → Logged s (table.rows (trace debug_info system t d).sys)
  trace-keeps_Logged s t d h logged =
      subst (Logged s) (sym (rows-trace table debug_info system t d h)) (followed _ _ logged)
