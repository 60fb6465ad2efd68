-- ===== src/Web/Dispatch/Passwords.antt =====
-- What the log has of the passwords once webProcess has read the configuration.
use cfg_mgr.Base.{
  All, ℕ, zero, suc, ◌≡◌, ◌≤◌, refl, List, [], ◌∷◌, ◌++◌, length, some, get_elem?, take,
  take-eq_self, arith,
}
use mathlib.Core.Path.{subst}
use cfg_mgr.Base.Text.{Text, codes}
use cfg_mgr.Params.{Param}
use cfg_mgr.Env.{Env, Doc}
use cfg_mgr.Trace.{Daemon, trace, debug_info, system}
use cfg_mgr.Trace.Quoting.{Unquoted}
use cfg_mgr.Trace.Table.{LogTable}
use cfg_mgr.Trace.Journal.{Logged, trace-Logged, trace-keeps_Logged}
use cfg_mgr.Config.Load.{param_load}
use cfg_mgr.Config.Load.Traces.{load_traces, trace_all, lan_traces, user_traces}
use cfg_mgr.Web.Dispatch.{start, set_both}
use cfg_mgr.Web.Dispatch.Start.{start-loaded}

-- What the log keeps of the texts has no quote in it.
abbrev pub QuoteFree : List Text → Type 0
QuoteFree ts = All (λ t. Unquoted (take 59 t)) ts

module _ {env : Env} (table : LogTable env) where
  trace_all-keeps_Logged :
      (s : Text) (ts : List Text) (d : Daemon env)
      → QuoteFree ts
      → Logged s (table.rows d.sys)
      → Logged s (table.rows (trace_all ts d).sys)
  unfolding trace_all
  trace_all-keeps_Logged s [] d free h = h
  trace_all-keeps_Logged s (t ∷ ts) d free h =
      trace_all-keeps_Logged s ts (trace debug_info system t d) free.1
        (trace-keeps_Logged table s t d free.0 h)

  trace_all-Logged :
      (s : Text) (ts : List Text) (i : ℕ) (d : Daemon env)
      → QuoteFree ts
      → get_elem? ts i ≡ some s
      → Logged (take 59 s) (table.rows (trace_all ts d).sys)
  unfolding trace_all
  trace_all-Logged s [] i d free h = cc
  trace_all-Logged s (t ∷ ts) zero d free h =
      let same : t ≡ s = cc in
      subst (λ x. Logged (take 59 x) (table.rows (trace_all (t ∷ ts) d).sys)) same
        (trace_all-keeps_Logged (take 59 t) ts (trace debug_info system t d) free.1
          (trace-Logged table t d free.0))
  trace_all-Logged s (t ∷ ts) (suc i) d free h =
      trace_all-Logged s ts i (trace debug_info system t d) free.1 h

  short-Logged :
      (s : Text) (ts : List Text) (i : ℕ) (d : Daemon env)
      → QuoteFree ts
      → get_elem? ts i ≡ some s
      → length s ≤ 59
      → Logged s (table.rows (trace_all ts d).sys)
  short-Logged s ts i d free h short =
      subst (λ x. Logged x (table.rows (trace_all ts d).sys)) (take-eq_self 59 s short)
        (trace_all-Logged s ts i d free h)

  -- Whenever webProcess starts with a configuration file that it can read, passwords of at most 20
  -- characters and no quote in what it traces of the file, it comes to the interfaces with both
  -- users' passwords, as they are, in rows of the log, on an SQLite that keeps its table.
  pub start-Logged :
      (polls temp : ℕ) (boot : Daemon env) (doc : Doc) (p : Param)
      → (Env.load_file env boot.sys).0 ≡ some doc
      → param_load temp doc ≡ some p
      → length p.admin.passwd ≤ 20
      → length p.normal.passwd ≤ 20
      → QuoteFree (load_traces doc p)
      → (up : Daemon env) × (start polls temp boot ≡ set_both polls up)
        × Logged (codes "Administrators UserPws " ++ p.admin.passwd) (table.rows up.sys)
        × Logged (codes "NomalUser UserPws " ++ p.normal.passwd) (table.rows up.sys)
  unfolding load_traces lan_traces user_traces
  start-Logged polls temp boot doc p found loaded va vn free =
      let read : Daemon env = record boot { sys = (Env.load_file env boot.sys).1; pa = p } in
      let ts = load_traces doc p in
      (
        trace_all ts read,
        start-loaded polls temp boot doc p found loaded,
        short-Logged _ ts 17 read free refl (omega (arith, va)),
        short-Logged _ ts 19 read free refl (omega (arith, vn)),
      )
