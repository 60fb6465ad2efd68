-- ===== src/Trace/Laws.antt =====
-- What a trace call leaves alone, and the length of the statements that trace.c prints into its
-- buffer of 200 bytes.
use cfg_mgr.Base.{
  ℕ, zero, suc, ◌+◌, ◌%◌, ◌/◌, ◌≤◌, ◌<◌, ◌-◌, ◌≡◌, refl, [], ◌∷◌, arith, length, take,
  length-append, length-take,
}
use cfg_mgr.Base.Text.{Text, fmt_d, dec_onto}
use cfg_mgr.Env.{Env}
use cfg_mgr.Trace.{
  Daemon, LogLevel, LogType, LogSignificance, log_type_code, significance_code, insert_sql, trace,
}

module _ {env : Env} (level : LogLevel) (typ : LogType) (message : Text) (d : Daemon env) where
  pub pa-trace : (trace level typ message d).pa ≡ d.pa
  unfolding trace
  pa-trace = refl

  pub ping-trace : (trace level typ message d).ping ≡ d.ping
  unfolding trace
  ping-trace = refl

  pub last_cfg_mgr_err-trace : (trace level typ message d).last_cfg_mgr_err ≡ take 59 message
  unfolding trace
  last_cfg_mgr_err-trace = refl

dec_onto-length : (fuel n : ℕ) (rest : Text) → length (dec_onto fuel n rest) ≤ length rest + fuel
unfolding dec_onto
dec_onto-length zero n rest = omega arith
dec_onto-length (suc fuel) n rest =
    ground (arith, dec_onto-length fuel (n / 10) ((48 + n % 10) ∷ rest))

-- `%d` of a 32-bit number takes at most 11 characters.
pub fmt_d-length : (w : ℕ) → length (fmt_d w) ≤ 11
unfolding fmt_d
fmt_d-length w = ground (arith, dec_onto-length 10 w [], dec_onto-length 10 (4294967296 - w) [])

-- The insert statement of a trace message, of which 59 characters are kept, fits the `char sql
-- [200]` of logWrite with its NUL.
pub insert_sql-fits :
    (now : ℕ) (typ : LogType) (sgnfcc : LogSignificance) (message : Text)
    → length (insert_sql now typ sgnfcc (take 59 message)) < 200
unfolding insert_sql
insert_sql-fits now typ sgnfcc message = grind (
  arith,
  length-append,
  length-take 59 message,
  fmt_d-length (now % 4294967296),
  fmt_d-length (log_type_code typ),
  fmt_d-length (significance_code sgnfcc),
)
