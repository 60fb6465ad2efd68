-- ===== src/Trace/Table.antt =====
-- The log table as SQLite keeps it: what trace inserts, and what logSelect finds.
use mathlib.Core.List.{Perm}
use mathlib.Core.Path.{subst}
use cfg_mgr.Base.{
  ℕ, ◌%◌, ◌≡◌, ◌∙◌, ap, Bool, true, false, ◌&&◌, ◌||◌, List, [], ◌∷◌, ◌++◌, Option, none, some,
  take, if◌then◌else◌, ltb, ◌==◌, get_or,
}
use cfg_mgr.Base.Text.{Text, fmt_d, text_eq}
use cfg_mgr.Env.{Env}
use cfg_mgr.Trace.{
  Daemon, LogType, LogSignificance, LogLevel, log_type_code, significance_code, significance_of,
  select_sql, create_sql, trace, log_write, log_open, log_select,
}
use cfg_mgr.Trace.Quoting.{insert_values, insert_values-insert_sql, Unquoted}
use cfg_mgr.Trace.Select.{
  Condition, select_condition, select_condition-select_sql, type_asked, significance_asked,
}

-- The order of texts in SQL, byte by byte.
abbrev pub text_leb : Text → Text → Bool
text_leb [] t = true
text_leb (c ∷ s) [] = false
text_leb (c ∷ s) (c' ∷ t) = let rest = text_leb s t in ltb c c' || (c == c' && rest)

abbrev pub is_asked : Option Text → Text → Bool
is_asked none t = true
is_asked (some s) t = text_eq s t

-- The columns have no types, so that SQLite compares their values as texts.
abbrev pub matches : Condition → List Text → Bool
matches c row =
    (text_leb c.first_time (get_or row 0 []) && text_leb (get_or row 0 []) c.last_time)
    && (is_asked c.typ (get_or row 1 []) && is_asked c.sgnfcc (get_or row 2 []))

abbrev pub selection : Condition → List (List Text) → List (List Text)
selection c [] = []
selection c (row ∷ rows) = let rest = selection c rows in if matches c row then row ∷ rest else rest

-- What SQLite promises of the log table, and the clock: an insertion adds its row, creating the
-- table if it does not exist leaves it alone, and a query finds the rows of its condition, in an
-- order of its own.
pub record LogTable (env : Env) : Type 0 where
  pub rows : Env.Sys env → List (List Text)
  pub inserted :
      (sql : Text) (values : List Text) (sys : Env.Sys env)
      → insert_values sql ≡ some values
      → rows (Env.sqlite_exec env sql sys) ≡ rows sys ++ (values ∷ [])
  pub created : (sys : Env.Sys env) → rows (Env.sqlite_exec env create_sql sys) ≡ rows sys
  pub selected :
      (sql : Text) (c : Condition) (sys : Env.Sys env)
      → select_condition sql ≡ some c
      → (found : List (List Text)) × ((Env.sqlite_get_table env sql sys).0 ≡ some found)
        × Perm found (selection c (rows sys))
  pub timed : (sys : Env.Sys env) → rows (Env.time env sys).1 ≡ rows sys

-- The row of an entry, and the condition of a look-up.
abbrev pub entry : ℕ → LogType → LogSignificance → Text → List Text
entry now typ sgnfcc content =
    fmt_d (now % 4294967296)
    ∷ fmt_d (log_type_code typ)
    ∷ fmt_d (significance_code sgnfcc)
    ∷ content
    ∷ []

abbrev pub asked : ℕ → ℕ → LogType → LogSignificance → Condition
asked s e typ sgnfcc = record {
  first_time = fmt_d (s % 4294967296);
  last_time = fmt_d (e % 4294967296);
  typ = type_asked typ;
  sgnfcc = significance_asked sgnfcc;
}

module _ {env : Env} (table : LogTable env) where
  -- A trace adds one entry, with the 59 characters that it keeps, if there is no quote in them.
  pub rows-trace :
      (level : LogLevel) (typ : LogType) (message : Text) (d : Daemon env)
      → Unquoted (take 59 message)
      → table.rows (trace level typ message d).sys
        ≡ table.rows d.sys
          ++ (entry (Env.time env d.sys).0 typ (significance_of level) (take 59 message) ∷ [])
  unfolding trace log_write log_open
  rows-trace level typ message d h =
      let (now, sys') = Env.time env d.sys in
      let kept = take 59 message in
      let read = insert_values-insert_sql now typ (significance_of level) kept h in
      table.inserted _ _ _ read
      ∙ ap (λ (rows : List (List Text)). rows ++ (entry now typ (significance_of level) kept ∷ []))
          (table.created sys' ∙ table.timed d.sys)

  -- logSelect finds exactly the rows with a time, a type and a significance as asked for.
  pub log_select-Perm :
      (s e : ℕ) (typ : LogType) (sgnfcc : LogSignificance) (sys : Env.Sys env)
      → (found : List (List Text)) × ((log_select env s e typ sgnfcc sys).0 ≡ some found)
        × Perm found (selection (asked s e typ sgnfcc) (table.rows sys))
  unfolding log_select log_open
  log_select-Perm s e typ sgnfcc sys =
      let (found, got, same) =
        table.selected (select_sql s e typ sgnfcc) _ (Env.sqlite_exec env create_sql sys)
          (select_condition-select_sql s e typ sgnfcc) in
      (
        found,
        got,
        subst (λ rows. Perm found (selection (asked s e typ sgnfcc) rows)) (table.created sys) same,
      )
