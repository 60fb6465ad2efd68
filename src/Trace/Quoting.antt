-- ===== src/Trace/Quoting.antt =====
-- The insert statement of logWrite as SQLite reads it: its four values are literals in quotes.
use cfg_mgr.Base.{
  ℕ, zero, suc, ◌+◌, ◌-◌, ◌/◌, ◌%◌, ◌≡◌, ◌≢◌, refl, true, false, List, [], ◌∷◌, ◌++◌, Option, none,
  some, ◌>>=◌, arith, if◌then◌else◌, ◌==◌, ltb, length, drop, All, inl, inr, Bool-cases,
}
use cfg_mgr.Base.Text.{Text, codes, fmt_d, dec_onto, starts_with, text_eq}
use cfg_mgr.Trace.{LogType, LogSignificance, log_type_code, significance_code, insert_sql}

-- An SQL string literal behind its opening quote: its text, where two quotes stand for one, and what
-- is behind its closing quote.
abbrev pub read_literal : Text → Option (Text × Text)
read_literal [] = none
read_literal (c ∷ []) = if c == 39 then some ([], []) else none
read_literal (c ∷ c' ∷ s) =
    let more = read_literal (c' ∷ s) in
    let behind = read_literal s in
    if c == 39
    then (if c' == 39 then behind >>= (λ p. some (39 ∷ p.0, p.1)) else some ([], c' ∷ s))
    else more >>= (λ p. some (c ∷ p.0, p.1))

-- What is behind a text that has to stand there.
abbrev pub expect : Text → Text → Option Text
expect p s = if starts_with p s then some (drop (length p) s) else none

abbrev closed : Text → List Text → Option (List Text)
closed s values = if text_eq s (codes ");") then some values else none

-- The four values of an insert statement into the log table, if it is one and no more.
abbrev pub insert_values : Text → Option (List Text)
insert_values s = do
  s₁ ← expect (codes "insert into logtable values('") s
  (time, s₂) ← read_literal s₁
  s₃ ← expect (codes ",'") s₂
  (typ, s₄) ← read_literal s₃
  s₅ ← expect (codes ",'") s₄
  (sgnfcc, s₆) ← read_literal s₅
  s₇ ← expect (codes ",'") s₆
  (content, s₈) ← read_literal s₇
  closed s₈ (time ∷ typ ∷ sgnfcc ∷ content ∷ [])

-- No character of the text is a quote.
abbrev pub Unquoted : Text → Type 0
Unquoted s = All (λ c. c ≢ 39) s

pub read_literal-Unquoted :
    (s : Text) (c : ℕ) (rest : Text)
    → Unquoted s
    → c ≢ 39
    → read_literal (s ++ (39 ∷ c ∷ rest)) ≡ some (s, c ∷ rest)
read_literal-Unquoted [] c rest h other = ground arith
read_literal-Unquoted (x ∷ []) c rest h other =
    let more = read_literal-Unquoted [] c rest tt other in
    let here : (x == 39) ≡ false = let other = h.0 in ground arith in rw here (ground (arith, more))
read_literal-Unquoted (x ∷ y ∷ s) c rest h other =
    let more = read_literal-Unquoted (y ∷ s) c rest h.1 other in
    let here : (x == 39) ≡ false = let other = h.0 in ground arith in rw here (ground (arith, more))

dec_onto-Unquoted : (fuel n : ℕ) (rest : Text) → Unquoted rest → Unquoted (dec_onto fuel n rest)
unfolding dec_onto
dec_onto-Unquoted zero n rest h = h
dec_onto-Unquoted (suc fuel) n rest h =
    let digit : 48 + n % 10 ≢ 39 = omega arith in
    let more = dec_onto-Unquoted fuel (n / 10) ((48 + n % 10) ∷ rest) (digit, h) in
    ground (arith, more)

pub fmt_d-Unquoted : (w : ℕ) → Unquoted (fmt_d w)
unfolding fmt_d
fmt_d-Unquoted w = elim (Bool-cases (ltb w 2147483648)) [
  | inl e ↦ rw e (dec_onto-Unquoted 10 w [] tt)
  | inr e ↦ rw e ((λ h. cc), dec_onto-Unquoted 10 (4294967296 - w) [] tt)
]

module _ (s s₁ s₂ s₃ s₄ s₅ s₆ s₇ s₈ time typ sgnfcc content : Text) where
  insert_values-parts :
      expect (codes "insert into logtable values('") s ≡ some s₁
      → read_literal s₁ ≡ some (time, s₂)
      → expect (codes ",'") s₂ ≡ some s₃
      → read_literal s₃ ≡ some (typ, s₄)
      → expect (codes ",'") s₄ ≡ some s₅
      → read_literal s₅ ≡ some (sgnfcc, s₆)
      → expect (codes ",'") s₆ ≡ some s₇
      → read_literal s₇ ≡ some (content, s₈)
      → text_eq s₈ (codes ");") ≡ true
      → insert_values s ≡ some (time ∷ typ ∷ sgnfcc ∷ content ∷ [])
  insert_values-parts e₁ e₂ e₃ e₄ e₅ e₆ e₇ e₈ e₉ = rw (e₁, e₂, e₃, e₄, e₅, e₆, e₇, e₈, e₉) refl

-- The statement that logWrite prints for a text without quotes is an insertion of exactly the time,
-- the type, the significance and the text. (A quote in the text ends its literal.)
pub insert_values-insert_sql :
    (now : ℕ) (typ : LogType) (sgnfcc : LogSignificance) (content : Text)
    → All (λ c. c ≢ 39) content
    → insert_values (insert_sql now typ sgnfcc content)
      ≡ some (
          fmt_d (now % 4294967296)
          ∷ fmt_d (log_type_code typ)
          ∷ fmt_d (significance_code sgnfcc)
          ∷ content
          ∷ [])
unfolding insert_sql starts_with text_eq
insert_values-insert_sql now typ sgnfcc content h =
    let a = fmt_d (now % 4294967296) in
    let b = fmt_d (log_type_code typ) in
    let c = fmt_d (significance_code sgnfcc) in
    let s₇ = content ++ codes "');" in
    let s₅ = c ++ (codes "','" ++ s₇) in
    let s₃ = b ++ (codes "','" ++ s₅) in
    let s₁ = a ++ (codes "','" ++ s₃) in
    insert_values-parts (insert_sql now typ sgnfcc content) s₁ (codes ",'" ++ s₃) s₃
      (codes ",'" ++ s₅) s₅ (codes ",'" ++ s₇) s₇ (codes ");") a b c content refl
      (read_literal-Unquoted a 44 (39 ∷ s₃) (fmt_d-Unquoted (now % 4294967296)) (λ e. cc)) refl
      (read_literal-Unquoted b 44 (39 ∷ s₅) (fmt_d-Unquoted (log_type_code typ)) (λ e. cc)) refl
      (read_literal-Unquoted c 44 (39 ∷ s₇) (fmt_d-Unquoted (significance_code sgnfcc)) (λ e. cc))
      refl (read_literal-Unquoted content 41 (59 ∷ []) h (λ e. cc)) refl
