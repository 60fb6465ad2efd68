-- ===== src/Cgi/Logs/Laws.antt =====
-- What the request of logLookUp holds of its form.
use cfg_mgr.Base.{ℕ, ◌<◌, ◌≡◌, ◌≢◌, refl, ap, ◌∙◌, ◌≤◌, [], ◌∷◌, some, inl, inr, arith}
use cfg_mgr.Base.Text.{Text, strstr, starts_with, atoi}
use cfg_mgr.Memory.{Bytes, store, load}
use cfg_mgr.Memory.Words.{load-store, load-store32, load-store_apart}
use cfg_mgr.Message.{Msg, loglookup_request}
use cfg_mgr.Trace.{
  LogType, user, system, logtype_all, LogSignificance, general, key, logsignificance_all,
  log_type_code, significance_code,
}
use cfg_mgr.Web.Logs.{log_type_of, log_significance_of}
use cfg_mgr.Cgi.{Form, required, format2time}
use cfg_mgr.Cgi.Logs.{log_type_named, significance_named, put_log_filter, log_look_up}

-- The form of a look-up has all its fields, the names of a type and of a significance, and times
-- that fit their 64 bits.
pub record AsksPage (form : Form) (typ : LogType) (sgnfcc : LogSignificance) : Type 0 where
  pub typ_named : log_type_named (form.form_string "LogType") ≡ some typ
  pub sgnfcc_named : significance_named (form.form_string "Significance") ≡ some sgnfcc
  pub start_time_given : form.form_string "StartTime" ≢ []
  pub end_time_given : form.form_string "EndTime" ≢ []
  pub start_given : form.form_string "start" ≢ []
  pub length_given : form.form_string "length" ≢ []
  pub draw_given : form.form_string "draw" ≢ []
  pub start_time_fits : format2time form (form.form_string "StartTime") < 18446744073709551616
  pub end_time_fits : format2time form (form.form_string "EndTime") < 18446744073709551616

-- The filter that a request's payload holds, as logRequest and logRequestExport read it.
pub record HoldsFilter (typ : LogType) (sgnfcc : LogSignificance) (s e : ℕ) (d : Bytes)
    : Type 0 where
  pub typ_held : log_type_of (load 4 0 d) ≡ typ
  pub sgnfcc_held : log_significance_of (load 4 4 d) ≡ sgnfcc
  pub start_held : load 8 8 d ≡ s
  pub end_held : load 8 16 d ≡ e

pub atoi-fits : (s : Text) → atoi s < 4294967296
unfolding atoi
atoi-fits [] = omega arith
atoi-fits (c ∷ s) = ground (arith, atoi-fits s)

log_type_of-code : (typ : LogType) → log_type_of (log_type_code typ) ≡ typ
log_type_of-code user = refl
log_type_of-code system = refl
log_type_of-code logtype_all = refl

log_significance_of-code :
    (sgnfcc : LogSignificance) → log_significance_of (significance_code sgnfcc) ≡ sgnfcc
log_significance_of-code general = refl
log_significance_of-code key = refl
log_significance_of-code logsignificance_all = refl

log_type_code-fits : (typ : LogType) → log_type_code typ < 4294967296
log_type_code-fits user = omega arith
log_type_code-fits system = omega arith
log_type_code-fits logtype_all = omega arith

significance_code-fits : (sgnfcc : LogSignificance) → significance_code sgnfcc < 4294967296
significance_code-fits general = omega arith
significance_code-fits key = omega arith
significance_code-fits logsignificance_all = omega arith

module _ (typ : LogType) (sgnfcc : LogSignificance) (s e : ℕ) (d : Bytes) where
  pub put_log_filter-HoldsFilter :
      s < 18446744073709551616
      → e < 18446744073709551616
      → HoldsFilter typ sgnfcc s e (put_log_filter typ sgnfcc s e d)
  unfolding put_log_filter
  put_log_filter-HoldsFilter hs he =
      let coded = store 4 0 (log_type_code typ) d in
      let filtered = store 4 4 (significance_code sgnfcc) coded in
      record {
        typ_held =
            ap log_type_of (
              load-store_apart 4 0 8 16 e _ (inl (omega arith))
              ∙ load-store_apart 4 0 8 8 s _ (inl (omega arith))
              ∙ load-store_apart 4 0 4 4 (significance_code sgnfcc) coded (inl (omega arith))
              ∙ load-store32 0 (log_type_code typ) d (log_type_code-fits typ))
            ∙ log_type_of-code typ;
        sgnfcc_held =
            ap log_significance_of (
              load-store_apart 4 4 8 16 e _ (inl (omega arith))
              ∙ load-store_apart 4 4 8 8 s filtered (inl (omega arith))
              ∙ load-store32 4 (significance_code sgnfcc) coded (significance_code-fits sgnfcc))
            ∙ log_significance_of-code sgnfcc;
        start_held =
            load-store_apart 8 8 8 16 e _ (inl (omega arith)) ∙ load-store 8 8 s filtered hs;
        end_held = load-store 8 16 e _ he;
      }

  -- What stands behind the filter is not touched by it.
  put_log_filter-apart :
      (off : ℕ) → 24 ≤ off → load 4 off (put_log_filter typ sgnfcc s e d) ≡ load 4 off d
  unfolding put_log_filter
  put_log_filter-apart off h =
      load-store_apart 4 off 8 16 e _ (inr (omega arith))
      ∙ load-store_apart 4 off 8 8 s _ (inr (omega arith))
      ∙ load-store_apart 4 off 4 4 (significance_code sgnfcc) _ (inr (omega arith))
      ∙ load-store_apart 4 off 4 0 (log_type_code typ) d (inr (omega arith))

required-given : (s : Text) → s ≢ [] → required s ≡ some s
required-given [] h = absurd (h refl)
required-given (c ∷ s) h = refl

typ-given : (s : Text) (typ : LogType) → log_type_named s ≡ some typ → required s ≡ some s
unfolding log_type_named strstr starts_with
typ-given [] typ h = cc
typ-given (c ∷ s) typ h = refl

sgnfcc-given :
    (s : Text) (sgnfcc : LogSignificance) → significance_named s ≡ some sgnfcc → required s ≡ some s
unfolding significance_named strstr starts_with
sgnfcc-given [] sgnfcc h = cc
sgnfcc-given (c ∷ s) sgnfcc h = refl

-- The request of a look-up holds what its form asks for, whatever the message held.
pub log_look_up-HoldsFilter :
    (form : Form) (m : Msg) (typ : LogType) (sgnfcc : LogSignificance)
    → AsksPage form typ sgnfcc
    → (q : Msg) × (log_look_up form m ≡ some q)
      × (q.type ≡ loglookup_request)
      × HoldsFilter typ sgnfcc
          (format2time form (form.form_string "StartTime"))
          (format2time form (form.form_string "EndTime"))
          q.payload
      × (load 4 24 q.payload ≡ atoi (form.form_string "start"))
      × (load 4 28 q.payload ≡ atoi (form.form_string "length"))
      × (load 4 32 q.payload ≡ atoi (form.form_string "draw"))
unfolding log_look_up
log_look_up-HoldsFilter form m typ sgnfcc a =
    let s = format2time form (form.form_string "StartTime") in
    let e = format2time form (form.form_string "EndTime") in
    let start = atoi (form.form_string "start") in
    let len = atoi (form.form_string "length") in
    let draw = atoi (form.form_string "draw") in
    let paged = store 4 32 draw (store 4 28 len (store 4 24 start m.payload)) in
    (
      record { type = loglookup_request; payload = put_log_filter typ sgnfcc s e paged },
      rw
          (
            typ-given (form.form_string "LogType") typ a.typ_named,
            sgnfcc-given (form.form_string "Significance") sgnfcc a.sgnfcc_named,
            required-given (form.form_string "StartTime") a.start_time_given,
            required-given (form.form_string "EndTime") a.end_time_given,
            required-given (form.form_string "start") a.start_given,
            required-given (form.form_string "length") a.length_given,
            required-given (form.form_string "draw") a.draw_given,
            a.typ_named,
            a.sgnfcc_named,
          )
          refl,
      refl,
      put_log_filter-HoldsFilter typ sgnfcc s e paged a.start_time_fits a.end_time_fits,
      put_log_filter-apart typ sgnfcc s e paged 24 (omega arith)
          ∙ load-store_apart 4 24 4 32 draw _ (inl (omega arith))
          ∙ load-store_apart 4 24 4 28 len _ (inl (omega arith))
          ∙ load-store32 24 start m.payload (atoi-fits (form.form_string "start")),
      put_log_filter-apart typ sgnfcc s e paged 28 (omega arith)
          ∙ load-store_apart 4 28 4 32 draw _ (inl (omega arith))
          ∙ load-store32 28 len _ (atoi-fits (form.form_string "length")),
      put_log_filter-apart typ sgnfcc s e paged 32 (omega arith)
          ∙ load-store32 32 draw _ (atoi-fits (form.form_string "draw")),
    )
