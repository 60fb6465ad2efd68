-- ===== src/Trace/Order.antt =====
-- Times of ten digits, compared as texts.
use cfg_mgr.Base.{
  ℕ, zero, suc, ◌+◌, ◌*◌, ◌/◌, ◌%◌, ◌≡◌, ◌≤◌, ◌<◌, refl, ◌∙◌, Bool, true, ◌&&◌, ◌||◌, List, [], ◌∷◌,
  some, ltb, leb, ◌==◌, arith,
}
use cfg_mgr.Base.Text.{Text, fmt_d, dec_onto, text_eq}
use cfg_mgr.Trace.{
  LogType, user, system, logtype_all, LogSignificance, general, key, logsignificance_all,
  log_type_code, significance_code, insert_sql, select_sql,
}
use cfg_mgr.Trace.Quoting.{Unquoted, insert_values, insert_values-insert_sql}
use cfg_mgr.Trace.Select.{
  Condition, select_condition, select_condition-select_sql, type_asked, significance_asked,
}
use cfg_mgr.Trace.Table.{text_leb, is_asked, matches, asked, entry}

-- The powers of ten.
abbrev ten_to : ℕ → ℕ
ten_to zero = 1
ten_to (suc k) = 10 * ten_to k

dec_onto_last : (fuel n : ℕ) (r : Text) → n < 10 → dec_onto (suc fuel) n r ≡ (48 + n) ∷ r
unfolding dec_onto
dec_onto_last fuel n r h = ground arith

dec_onto_more :
    (fuel n : ℕ) (r : Text)
    → 10 ≤ n
    → dec_onto (suc fuel) n r ≡ dec_onto fuel (n / 10) ((48 + n % 10) ∷ r)
unfolding dec_onto
dec_onto_more fuel n r h = ground arith

-- The last digits decide where the numbers before them are equal.
text_leb_digits :
    (n m : ℕ) (r t : Text)
    → (ltb (n / 10) (m / 10)
        || (n / 10 == m / 10 && text_leb ((48 + n % 10) ∷ r) ((48 + m % 10) ∷ t)))
      ≡ (ltb n m || (n == m && text_leb r t))
text_leb_digits n m r t = ground arith

-- Of two numbers with the same number of digits the smaller one has the smaller text.
text_leb-dec_onto :
    (k fuel n m : ℕ) (r t : Text)
    → k < fuel
    → ten_to k ≤ n
    → n < 10 * ten_to k
    → ten_to k ≤ m
    → m < 10 * ten_to k
    → text_leb (dec_onto fuel n r) (dec_onto fuel m t) ≡ (ltb n m || (n == m && text_leb r t))
text_leb-dec_onto k zero n m r t deep n₀ n₁ m₀ m₁ = absurd (omega (arith, deep))
text_leb-dec_onto zero (suc fuel) n m r t deep n₀ n₁ m₀ m₁ =
    rw (dec_onto_last fuel n r (omega arith), dec_onto_last fuel m t (omega arith)) (ground arith)
text_leb-dec_onto (suc k) (suc fuel) n m r t deep n₀ n₁ m₀ m₁ =
    rw (dec_onto_more fuel n r (omega arith), dec_onto_more fuel m t (omega arith))
      (text_leb-dec_onto k fuel (n / 10) (m / 10) ((48 + n % 10) ∷ r) ((48 + m % 10) ∷ t)
          (omega arith) (omega arith) (omega arith) (omega arith) (omega arith)
        ∙ text_leb_digits n m r t)

fmt_d_lem : (n : ℕ) → n < 2147483648 → fmt_d (n % 4294967296) ≡ dec_onto 10 n []
unfolding fmt_d
fmt_d_lem n h =
    let same : n % 4294967296 ≡ n = omega arith in
    let small : ltb n 2147483648 ≡ true = ground arith in rw (same, small) refl

text_leb-fmt_d :
    (n m : ℕ)
    → 1000000000 ≤ n
    → n < 2147483648
    → 1000000000 ≤ m
    → m < 2147483648
    → text_leb (fmt_d (n % 4294967296)) (fmt_d (m % 4294967296)) ≡ leb n m
text_leb-fmt_d n m n₀ n₁ m₀ m₁ =
    let order : text_leb (dec_onto 10 n []) (dec_onto 10 m []) ≡ (ltb n m || (n == m && true)) =
      text_leb-dec_onto 9 10 n m [] [] (omega arith) n₀ (omega arith) m₀ (omega arith) in
    rw (fmt_d_lem n n₁, fmt_d_lem m m₁) (order ∙ ground arith)

-- The entries of a type, or of a significance.
abbrev pub of_type : LogType → LogType → Bool
of_type logtype_all typ = true
of_type user typ = log_type_code typ == 0
of_type system typ = log_type_code typ == 1

abbrev pub of_significance : LogSignificance → LogSignificance → Bool
of_significance logsignificance_all sgnfcc = true
of_significance general sgnfcc = significance_code sgnfcc == 0
of_significance key sgnfcc = significance_code sgnfcc == 1

is_asked-type :
    (typ typ' : LogType) → is_asked (type_asked typ) (fmt_d (log_type_code typ')) ≡ of_type typ typ'
unfolding text_eq fmt_d dec_onto
is_asked-type user user = refl
is_asked-type user system = refl
is_asked-type user logtype_all = refl
is_asked-type system user = refl
is_asked-type system system = refl
is_asked-type system logtype_all = refl
is_asked-type logtype_all user = refl
is_asked-type logtype_all system = refl
is_asked-type logtype_all logtype_all = refl

is_asked-significance :
    (sgnfcc sgnfcc' : LogSignificance)
    → is_asked (significance_asked sgnfcc) (fmt_d (significance_code sgnfcc'))
      ≡ of_significance sgnfcc sgnfcc'
unfolding text_eq fmt_d dec_onto
is_asked-significance general general = refl
is_asked-significance general key = refl
is_asked-significance general logsignificance_all = refl
is_asked-significance key general = refl
is_asked-significance key key = refl
is_asked-significance key logsignificance_all = refl
is_asked-significance logsignificance_all general = refl
is_asked-significance logsignificance_all key = refl
is_asked-significance logsignificance_all logsignificance_all = refl

matches-entry :
    (s e now : ℕ) (typ typ' : LogType) (sgnfcc sgnfcc' : LogSignificance) (content : Text)
    → 1000000000 ≤ s
    → s < 2147483648
    → 1000000000 ≤ e
    → e < 2147483648
    → 1000000000 ≤ now
    → now < 2147483648
    → matches (asked s e typ sgnfcc) (entry now typ' sgnfcc' content)
      ≡ ((leb s now && leb now e) && (of_type typ typ' && of_significance sgnfcc sgnfcc'))
matches-entry s e now typ typ' sgnfcc sgnfcc' content s₀ s₁ e₀ e₁ t₀ t₁ =
    rw
      (
        text_leb-fmt_d s now s₀ s₁ t₀ t₁,
        text_leb-fmt_d now e t₀ t₁ e₀ e₁,
        is_asked-type typ typ',
        is_asked-significance sgnfcc sgnfcc',
      )
      refl

-- The query that logSelect prints asks of the row that logWrite inserts exactly that it was made
-- between the query's two times, inclusive, and is of its type and of its significance, the last two
-- unless the query is for all. The text of the row has no quote in it, and the three times have ten
-- digits, as those from September 2001 to January 2038 do.
pub select_sql-insert_sql :
    (s e now : ℕ) (typ typ' : LogType) (sgnfcc sgnfcc' : LogSignificance) (content : Text)
    → Unquoted content
    → 1000000000 ≤ s
    → s < 2147483648
    → 1000000000 ≤ e
    → e < 2147483648
    → 1000000000 ≤ now
    → now < 2147483648
    → (c : Condition) × (row : List Text) × (select_condition (select_sql s e typ sgnfcc) ≡ some c)
      × (insert_values (insert_sql now typ' sgnfcc' content) ≡ some row)
      × (matches c row
          ≡ ((leb s now && leb now e) && (of_type typ typ' && of_significance sgnfcc sgnfcc')))
select_sql-insert_sql s e now typ typ' sgnfcc sgnfcc' content h s₀ s₁ e₀ e₁ t₀ t₁ = (
  asked s e typ sgnfcc,
  entry now typ' sgnfcc' content,
  select_condition-select_sql s e typ sgnfcc,
  insert_values-insert_sql now typ' sgnfcc' content h,
  matches-entry s e now typ typ' sgnfcc sgnfcc' content s₀ s₁ e₀ e₁ t₀ t₁,
)
