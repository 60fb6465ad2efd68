-- ===== src/Share/Times.antt =====
-- time2format, time2format1 and time2format2 of share.c. localtime_r is a parameter: it is taken to
-- succeed, as it does unless the year does not fit an `int`.
pub mod RoundTrip
use cfg_mgr.Base.{ℕ, zero, suc, ◌+◌, ◌-◌, ◌%◌, [], ◌∷◌, ◌++◌, if◌then◌else◌, ltb, length}
use cfg_mgr.Base.Text.{Text, dec_onto}
use cfg_mgr.Share.{Tm}

-- `n` zeros in front of a text.
unfoldable pub zeros_onto : ℕ → Text → Text
zeros_onto zero s = s
zeros_onto (suc n) s = b'0' ∷ zeros_onto n s

-- `%0wd` of an `int`, given as its 32-bit pattern: the sign counts for the width `w`.
unfoldable pub fmt_0d : ℕ → ℕ → Text
fmt_0d w v =
    let digits = dec_onto 10 v [] in
    let minus = dec_onto 10 (4294967296 - v) [] in
    if ltb v 2147483648
    then zeros_onto (w - length digits) digits
    else b'-' ∷ zeros_onto (w - 1 - length minus) minus

module _ (localtime : ℕ → Tm) where
  -- The text that sprintf writes; the callers' buffers are of 50 and 20 bytes, the static one of
  -- time2format2 has 40.
  unfoldable pub time2format : ℕ → Text
  time2format ti =
      let t = localtime ti in
      fmt_0d 4 ((t.tm_year + 1900) % 4294967296)
      ++ (b'-' ∷ fmt_0d 2 ((t.tm_mon + 1) % 4294967296)
          ++ (b'-' ∷ fmt_0d 2 t.tm_mday
              ++ (b' ' ∷ fmt_0d 2 t.tm_hour
                  ++ (b':' ∷ fmt_0d 2 t.tm_min ++ (b':' ∷ fmt_0d 2 t.tm_sec)))))

  unfoldable pub time2format1 : ℕ → Text
  time2format1 ti =
      let t = localtime ti in
      fmt_0d 4 ((t.tm_year + 1900) % 4294967296)
      ++ (fmt_0d 2 ((t.tm_mon + 1) % 4294967296)
          ++ (fmt_0d 2 t.tm_mday
              ++ (fmt_0d 2 t.tm_hour ++ (fmt_0d 2 t.tm_min ++ fmt_0d 2 t.tm_sec))))

  unfoldable pub time2format2 : ℕ → Text
  time2format2 ti =
      let t = localtime ti in
      fmt_0d 4 ((t.tm_year + 1900) % 4294967296)
      ++ (b'-' ∷ fmt_0d 2 ((t.tm_mon + 1) % 4294967296)
          ++ (b'-' ∷ fmt_0d 2 t.tm_mday
              ++ (b' ' ∷ fmt_0d 2 t.tm_hour
                  ++ (b':' ∷ fmt_0d 2 t.tm_min ++ (b':' ∷ fmt_0d 2 t.tm_sec)))))
