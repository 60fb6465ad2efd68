-- ===== src/Trace/Select.antt =====
-- The query of logSelect as SQLite reads it.
use cfg_mgr.Base.{
  ℕ, ◌%◌, ◌≡◌, refl, Bool, false, [], ◌∷◌, ◌++◌, Option, none, some, ◌>>=◌, arith, ◌==◌,
}
use cfg_mgr.Base.Text.{Text, codes, fmt_d, starts_with, dec_onto}
use cfg_mgr.Trace.{
  LogType, user, system, logtype_all, LogSignificance, general, key, logsignificance_all,
  log_type_code, significance_code, select_conditions, select_sql,
}
use cfg_mgr.Trace.Quoting.{read_literal, expect, Unquoted, read_literal-Unquoted, fmt_d-Unquoted}

-- What a query of the log table asks of a row: a time between two literals, and a type and a
-- significance, where they matter.
pub record Condition : Type 0 where
  pub first_time : Text
  pub last_time : Text
  pub typ : Option Text
  pub sgnfcc : Option Text

-- A literal behind the text `p`, if `p` stands there.
abbrev pub clause : Text → Text → Option (Option Text × Text)
clause p s = elim (expect p s) [
  | none ↦ some (none, s)
  | some s' ↦ read_literal s' >>= λ r. some (some r.0, r.1)
]

abbrev ended : Text → Option Text × Option Text → Option (Option Text × Option Text)
ended [] r = some r
ended (c ∷ s) r = none

-- The conditions behind the two times.
abbrev pub conditions : Text → Option (Option Text × Option Text)
conditions s = do
  (typ, s₁) ← clause (codes " and LogType='") s
  (sgnfcc, s₂) ← clause (codes " and Significance='") s₁
  ended s₂ (typ, sgnfcc)

-- The condition of a query of the log table, if it is one and no more.
abbrev pub select_condition : Text → Option Condition
select_condition s = do
  s₁ ← expect (codes "select * from logtable where OccurTime between '") s
  (first_time, s₂) ← read_literal s₁
  s₃ ← expect (codes " and '") s₂
  (last_time, s₄) ← read_literal s₃
  (typ, sgnfcc) ← conditions s₄
  some (record { first_time = first_time; last_time = last_time; typ = typ; sgnfcc = sgnfcc })

-- What the query has to ask for, where the two "all" values ask for nothing.
abbrev pub type_asked : LogType → Option Text
type_asked logtype_all = none
type_asked typ = some (fmt_d (log_type_code typ))

abbrev pub significance_asked : LogSignificance → Option Text
significance_asked logsignificance_all = none
significance_asked sgnfcc = some (fmt_d (significance_code sgnfcc))

read_literal-last : (s : Text) → Unquoted s → read_literal (s ++ (39 ∷ [])) ≡ some (s, [])
read_literal-last [] h = ground arith
read_literal-last (x ∷ []) h = let other = h.0 in ground arith
read_literal-last (x ∷ y ∷ s) h =
    let more = read_literal-last (y ∷ s) h.1 in
    let here : (x == 39) ≡ false = let other = h.0 in ground arith in rw here (ground (arith, more))

conditions-select_conditions :
    (typ : LogType) (sgnfcc : LogSignificance)
    → conditions (select_conditions typ sgnfcc) ≡ some (type_asked typ, significance_asked sgnfcc)
unfolding select_conditions starts_with dec_onto fmt_d
conditions-select_conditions user general = refl
conditions-select_conditions user key = refl
conditions-select_conditions user logsignificance_all = refl
conditions-select_conditions system general = refl
conditions-select_conditions system key = refl
conditions-select_conditions system logsignificance_all = refl
conditions-select_conditions logtype_all general = refl
conditions-select_conditions logtype_all key = refl
conditions-select_conditions logtype_all logsignificance_all = refl

abbrev begins_quote : Text → Bool
begins_quote [] = false
begins_quote (c ∷ s) = c == 39

begins_quote-select_conditions :
    (typ : LogType) (sgnfcc : LogSignificance) → begins_quote (select_conditions typ sgnfcc) ≡ false
unfolding select_conditions
begins_quote-select_conditions user general = refl
begins_quote-select_conditions user key = refl
begins_quote-select_conditions user logsignificance_all = refl
begins_quote-select_conditions system general = refl
begins_quote-select_conditions system key = refl
begins_quote-select_conditions system logsignificance_all = refl
begins_quote-select_conditions logtype_all general = refl
begins_quote-select_conditions logtype_all key = refl
begins_quote-select_conditions logtype_all logsignificance_all = refl

-- A literal ends at its quote, unless another one follows.
read_literal-ends :
    (s rest : Text)
    → Unquoted s
    → begins_quote rest ≡ false
    → read_literal (s ++ (39 ∷ rest)) ≡ some (s, rest)
read_literal-ends s [] h other = read_literal-last s h
read_literal-ends s (c ∷ rest) h other = read_literal-Unquoted s c rest h (ground (arith, other))

module _ (s s₁ s₂ s₃ s₄ first_time last_time : Text) (typ sgnfcc : Option Text) where
  select_condition-parts :
      expect (codes "select * from logtable where OccurTime between '") s ≡ some s₁
      → read_literal s₁ ≡ some (first_time, s₂)
      → expect (codes " and '") s₂ ≡ some s₃
      → read_literal s₃ ≡ some (last_time, s₄)
      → conditions s₄ ≡ some (typ, sgnfcc)
      → select_condition s
        ≡ some
            (record { first_time = first_time; last_time = last_time; typ = typ; sgnfcc = sgnfcc })
  select_condition-parts e₁ e₂ e₃ e₄ e₅ = rw (e₁, e₂, e₃, e₄, e₅) refl

-- The query that logSelect prints asks for the times between its two, for its type and for its
-- significance, the last two unless they are the "all" values, and for nothing else.
pub select_condition-select_sql :
    (s e : ℕ) (typ : LogType) (sgnfcc : LogSignificance)
    → select_condition (select_sql s e typ sgnfcc)
      ≡ some (record {
        first_time = fmt_d (s % 4294967296);
        last_time = fmt_d (e % 4294967296);
        typ = type_asked typ;
        sgnfcc = significance_asked sgnfcc;
      })
unfolding select_sql starts_with
select_condition-select_sql s e typ sgnfcc =
    let a = fmt_d (s % 4294967296) in
    let b = fmt_d (e % 4294967296) in
    let rest = select_conditions typ sgnfcc in
    let s₃ = b ++ (39 ∷ rest) in
    select_condition-parts (select_sql s e typ sgnfcc) (a ++ (codes "' and '" ++ s₃))
      (codes " and '" ++ s₃) s₃ rest a b (type_asked typ) (significance_asked sgnfcc) refl
      (read_literal-Unquoted a 32 (codes "and '" ++ s₃) (fmt_d-Unquoted (s % 4294967296)) (λ e. cc))
      refl
      (read_literal-ends b rest (fmt_d-Unquoted (e % 4294967296))
        (begins_quote-select_conditions typ sgnfcc))
      (conditions-select_conditions typ sgnfcc)
