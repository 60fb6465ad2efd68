-- ===== src/Share/Times/RoundTrip.antt =====
-- Times that time2format prints, and format2time reads back.
use cfg_mgr.Base.{
  ltb, leb, ◌&&◌, false, true, ℕ, suc, ◌+◌, ◌-◌, ◌*◌, ◌/◌, ◌%◌, ◌≤◌, ◌<◌, ◌≡◌, ◌⊎◌, inl, inr, refl,
  ◌∙◌, ap, [], ◌∷◌, ◌++◌, arith, length, drop,
}
use cfg_mgr.Base.Text.{Text, dec_onto, atoi, parse_digits}
use cfg_mgr.Share.{Tm}
use cfg_mgr.Share.Times.{fmt_0d, zeros_onto, time2format}
use cfg_mgr.Cgi.{Form, format2time}

compare-lt : (n m : ℕ) → (n < m) ⊎ (m ≤ n)
compare-lt n m = omega arith

dec_onto-last :
    (fuel n : ℕ) (rest : Text) → n < 10 → dec_onto (suc fuel) n rest ≡ (48 + n % 10) ∷ rest
unfolding dec_onto
dec_onto-last fuel n rest h = ground arith

dec_onto-more :
    (fuel n : ℕ) (rest : Text)
    → 10 ≤ n
    → dec_onto (suc fuel) n rest ≡ dec_onto fuel (n / 10) ((48 + n % 10) ∷ rest)
unfolding dec_onto
dec_onto-more fuel n rest h = ground arith

abbrev two_digits : ℕ → Text
two_digits n = (48 + n / 10) ∷ (48 + n % 10) ∷ []

abbrev four_digits : ℕ → Text
four_digits n = (48 + n / 1000) ∷ (48 + n / 100 % 10) ∷ (48 + n / 10 % 10) ∷ (48 + n % 10) ∷ []

dec_onto-two : (n : ℕ) → 10 ≤ n → n < 100 → dec_onto 10 n [] ≡ two_digits n
dec_onto-two n lo hi =
    dec_onto-more 9 n [] lo
    ∙ dec_onto-last 8 (n / 10) _ (omega arith)
    ∙ (let e : n / 10 % 10 ≡ n / 10 = omega arith in rw e)

dec_onto-four : (n : ℕ) → 1000 ≤ n → n < 10000 → dec_onto 10 n [] ≡ four_digits n
dec_onto-four n lo hi =
    let e : n / 10 / 10 / 10 % 10 ≡ n / 1000 = omega arith in
    let e' : n / 10 / 10 % 10 ≡ n / 100 % 10 = omega arith in
    dec_onto-more 9 n [] (omega arith)
    ∙ dec_onto-more 8 (n / 10) _ (omega arith)
    ∙ dec_onto-more 7 (n / 10 / 10) _ (omega arith)
    ∙ dec_onto-last 6 (n / 10 / 10 / 10) _ (omega arith)
    ∙ rw (e, e') refl

fmt_0d-digits :
    (w v : ℕ) (s : Text)
    → v < 2147483648
    → dec_onto 10 v [] ≡ s
    → fmt_0d w v ≡ zeros_onto (w - length s) s
unfolding fmt_0d
fmt_0d-digits w v s h e = let small : ltb v 2147483648 ≡ true = ground arith in rw (small, e)

fmt_0d-two : (n : ℕ) → n < 100 → fmt_0d 2 n ≡ two_digits n
unfolding zeros_onto
fmt_0d-two n h = elim (compare-lt n 10) [
  | inl lo ↦
      fmt_0d-digits 2 n _ (omega arith) (dec_onto-last 9 n [] lo)
      ∙ (let e : n / 10 ≡ 0 = omega arith in let e' : n % 10 ≡ n = omega arith in rw (e, e') refl)
  | inr hi ↦ fmt_0d-digits 2 n _ (omega arith) (dec_onto-two n hi h)
]

fmt_0d-four : (n : ℕ) → 1000 ≤ n → n < 10000 → fmt_0d 4 n ≡ four_digits n
unfolding zeros_onto
fmt_0d-four n lo hi = fmt_0d-digits 4 n _ (omega arith) (dec_onto-four n lo hi)

parse_digits-more :
    (n d : ℕ) (s : Text) → d < 10 → parse_digits n ((48 + d) ∷ s) ≡ parse_digits (10 * n + d) s
unfolding parse_digits
parse_digits-more n d s h = let e : 48 + d - 48 ≡ d = omega arith in ground arith

parse_digits-stop :
    (n c : ℕ) (s : Text) → (leb 48 c && leb c 57) ≡ false → parse_digits n (c ∷ s) ≡ n
unfolding parse_digits
parse_digits-stop n c s h = ground arith

parse_digits-end : (n : ℕ) → parse_digits n [] ≡ n
unfolding parse_digits
parse_digits-end n = refl

atoi-digit :
    (d : ℕ) (s : Text) → d < 10 → atoi ((48 + d) ∷ s) ≡ parse_digits 0 ((48 + d) ∷ s) % 4294967296
unfolding atoi
atoi-digit d s h = ground arith

-- The digits of a number are read up to something that is no digit.
atoi-two :
    (n c : ℕ) (s : Text)
    → n < 100
    → (leb 48 c && leb c 57) ≡ false
    → atoi (two_digits n ++ (c ∷ s)) ≡ n
atoi-two n c s h small =
    let high : n / 10 < 10 = omega arith in
    let low : n % 10 < 10 = omega arith in
    rw
      (
        atoi-digit (n / 10) ((48 + n % 10) ∷ c ∷ s) high,
        parse_digits-more 0 (n / 10) ((48 + n % 10) ∷ c ∷ s) high,
        parse_digits-more (10 * 0 + n / 10) (n % 10) (c ∷ s) low,
        parse_digits-stop (10 * (10 * 0 + n / 10) + n % 10) c s small,
      )
      (omega arith)

atoi-two_end : (n : ℕ) → n < 100 → atoi (two_digits n) ≡ n
atoi-two_end n h =
    let high : n / 10 < 10 = omega arith in
    let low : n % 10 < 10 = omega arith in
    rw
      (
        atoi-digit (n / 10) ((48 + n % 10) ∷ []) high,
        parse_digits-more 0 (n / 10) ((48 + n % 10) ∷ []) high,
        parse_digits-more (10 * 0 + n / 10) (n % 10) [] low,
        parse_digits-end (10 * (10 * 0 + n / 10) + n % 10),
      )
      (omega arith)

atoi-four :
    (n c : ℕ) (s : Text)
    → n < 10000
    → (leb 48 c && leb c 57) ≡ false
    → atoi (four_digits n ++ (c ∷ s)) ≡ n
atoi-four n c s h small =
    let d3 : n / 1000 < 10 = omega arith in
    let d2 : n / 100 % 10 < 10 = omega arith in
    let d1 : n / 10 % 10 < 10 = omega arith in
    let d0 : n % 10 < 10 = omega arith in
    let n3 = 10 * 0 + n / 1000 in
    let n2 = 10 * n3 + n / 100 % 10 in
    let n1 = 10 * n2 + n / 10 % 10 in
    let s0 = (48 + n % 10) ∷ c ∷ s in
    let s1 = (48 + n / 10 % 10) ∷ s0 in
    let s2 = (48 + n / 100 % 10) ∷ s1 in
    atoi-digit (n / 1000) s2 d3
    ∙ ap (λ k. k % 4294967296)
        (parse_digits-more 0 (n / 1000) s2 d3
          ∙ parse_digits-more n3 (n / 100 % 10) s1 d2
          ∙ parse_digits-more n2 (n / 10 % 10) s0 d1
          ∙ parse_digits-more n1 (n % 10) (c ∷ s) d0
          ∙ parse_digits-stop (10 * n1 + n % 10) c s small)
    ∙ omega arith

-- A calendar time from 1900 to 9999, as localtime_r gives it (a minute may have a 60th
-- second).
pub record IsTm (t : Tm) : Type 0 where
  pub year : t.tm_year < 8100
  pub mon : t.tm_mon < 12
  pub mday : t.tm_mday < 32
  pub hour : t.tm_hour < 24
  pub min : t.tm_min < 60
  pub sec : t.tm_sec < 61

module _ (localtime : ℕ → Tm) (ti : ℕ) (v : IsTm (localtime ti)) where
  abbrev t : Tm
  t = localtime ti

  abbrev printed : Text
  printed =
      four_digits (t.tm_year + 1900)
      ++ (b'-' ∷ two_digits (t.tm_mon + 1)
          ++ (b'-' ∷ two_digits t.tm_mday
              ++ (b' ' ∷ two_digits t.tm_hour
                  ++ (b':' ∷ two_digits t.tm_min ++ (b':' ∷ two_digits t.tm_sec)))))

  time2format-printed : time2format localtime ti ≡ printed
  unfolding time2format
  time2format-printed =
      let y = v.year in
      let m = v.mon in
      let d = v.mday in
      let h = v.hour in
      let mi = v.min in
      let se = v.sec in
      let year : (t.tm_year + 1900) % 4294967296 ≡ t.tm_year + 1900 = omega arith in
      let month : (t.tm_mon + 1) % 4294967296 ≡ t.tm_mon + 1 = omega arith in
      rw
        (
          year,
          month,
          fmt_0d-four (t.tm_year + 1900) (omega arith) (omega arith),
          fmt_0d-two (t.tm_mon + 1) (omega arith),
          fmt_0d-two t.tm_mday (omega arith),
          fmt_0d-two t.tm_hour (omega arith),
          fmt_0d-two t.tm_min (omega arith),
          fmt_0d-two t.tm_sec (omega arith),
        )
        refl

  -- The text has 19 characters.
  pub time2format-length : length (time2format localtime ti) ≡ 19
  time2format-length = ap length time2format-printed

format2time-read :
    (form : Form) (s : Text) {y m d h mi se : ℕ}
    → atoi s ≡ y
    → atoi (drop 5 s) ≡ m
    → atoi (drop 8 s) ≡ d
    → atoi (drop 11 s) ≡ h
    → atoi (drop 14 s) ≡ mi
    → atoi (drop 17 s) ≡ se
    → format2time form s
      ≡ form.mktime (record {
        tm_year = (y + 4294965396) % 4294967296;
        tm_mon = (m + 4294967295) % 4294967296;
        tm_mday = d;
        tm_hour = h;
        tm_min = mi;
        tm_sec = se;
      })
unfolding format2time
format2time-read form s ey em ed eh emi es = cc

-- What time2format prints of a calendar time from 1900 to 9999 is read back by
-- format2time as the same six numbers.
pub format2time-time2format :
    (form : Form) (ti : ℕ)
    → IsTm (form.localtime ti)
    → format2time form (time2format form.localtime ti) ≡ form.mktime (form.localtime ti)
format2time-time2format form ti v =
    let t = form.localtime ti in
    let y = v.year in
    let m = v.mon in
    let d = v.mday in
    let h = v.hour in
    let mi = v.min in
    let se = v.sec in
    let year : (t.tm_year + 1900 + 4294965396) % 4294967296 ≡ t.tm_year = omega arith in
    let month : (t.tm_mon + 1 + 4294967295) % 4294967296 ≡ t.tm_mon = omega arith in
    ap (format2time form) (time2format-printed form.localtime ti v)
    ∙ format2time-read form (printed form.localtime ti v)
        (atoi-four (t.tm_year + 1900) 45 _ (omega arith) refl)
        (atoi-two (t.tm_mon + 1) 45 _ (omega arith) refl)
        (atoi-two t.tm_mday 32 _ (omega arith) refl) (atoi-two t.tm_hour 58 _ (omega arith) refl)
        (atoi-two t.tm_min 58 _ (omega arith) refl) (atoi-two_end t.tm_sec (omega arith))
    ∙ rw (year, month) refl
