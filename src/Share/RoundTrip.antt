-- ===== src/Share/RoundTrip.antt =====
-- A MAC address printed by macHex2String is read back by macString2Hex.
use cfg_mgr.Base.{
  ℕ, ◌+◌, ◌*◌, ◌/◌, ◌%◌, ◌<◌, ◌≡◌, refl, false, ap, sym, ◌∙◌, List, [], ◌∷◌, ◌++◌, some, arith,
  length, All, ltb,
}
use native.Mathlib.Nat.{mod-eq_of_lt}
use cfg_mgr.Base.Text.{Text, hex_digit, fmt_02x}
use cfg_mgr.Share.{
  hex_value, mac_hex2string, scan_02x, scan_bytes, mac_string2hex, skip_blanks, scan_item,
  scan_digits,
}

hex_value-hex_digit : (n : ℕ) → n < 16 → hex_value (hex_digit n) ≡ some n
unfolding hex_value hex_digit
hex_value-hex_digit n h = ground arith

skip_blanks-hex_digit :
    (n : ℕ) (s : Text) → n < 16 → skip_blanks (hex_digit n ∷ s) ≡ hex_digit n ∷ s
unfolding skip_blanks hex_digit
skip_blanks-hex_digit n s h = ground arith

scan_item-hex_digit :
    (temp n : ℕ) (s : Text)
    → n < 16
    → scan_item temp (hex_digit n ∷ s) ≡ scan_digits temp (hex_digit n ∷ s)
unfolding scan_item hex_digit
scan_item-hex_digit temp n s h = ground arith

scan_digits-fmt_02x :
    (temp b : ℕ) (rest : Text) → b < 256 → scan_digits temp (fmt_02x b ++ rest) ≡ b
unfolding scan_digits fmt_02x
scan_digits-fmt_02x temp b rest h = ground (
  arith,
  hex_value-hex_digit (b / 16 % 16) (omega arith),
  hex_value-hex_digit (b % 16) (omega arith),
)

scan_02x-fmt_02x : (temp b : ℕ) (rest : Text) → b < 256 → scan_02x temp (fmt_02x b ++ rest) ≡ b
unfolding scan_02x fmt_02x
scan_02x-fmt_02x temp b rest h =
    let n = b / 16 % 16 in
    let s = hex_digit (b % 16) ∷ rest in
    ap (scan_item temp) (skip_blanks-hex_digit n s (omega arith))
    ∙ scan_item-hex_digit temp n s (omega arith)
    ∙ scan_digits-fmt_02x temp b rest h

scan_bytes-mac_hex2string :
    (bs : List ℕ) (temp : ℕ)
    → All (λ b. b < 256) bs
    → scan_bytes (length bs) temp (mac_hex2string bs) ≡ bs
unfolding scan_bytes mac_hex2string fmt_02x
scan_bytes-mac_hex2string [] temp h = refl
scan_bytes-mac_hex2string (b ∷ []) temp h = cc (scan_02x-fmt_02x temp b [] h.0, mod-eq_of_lt h.0)
scan_bytes-mac_hex2string (b ∷ c ∷ bs) temp h =
    let rest = mac_hex2string (c ∷ bs) in
    rw (scan_02x-fmt_02x temp b (45 ∷ rest) h.0, mod-eq_of_lt h.0)
      (cc (scan_bytes-mac_hex2string (c ∷ bs) b h.1))

mac_hex2string-length : (b : ℕ) (bs : List ℕ) → length (mac_hex2string (b ∷ bs)) ≡ 3 * length bs + 2
unfolding mac_hex2string fmt_02x
mac_hex2string-length b [] = omega arith
mac_hex2string-length b (c ∷ bs) = omega (arith, mac_hex2string-length c bs)

-- A MAC address of six bytes is printed as a text that macString2Hex accepts and reads back as the
-- same six bytes, whatever its variable held before.
pub mac_string2hex-mac_hex2string :
    (temp : ℕ) (mac : List ℕ)
    → length mac ≡ 6
    → All (λ b. b < 256) mac
    → mac_string2hex temp (mac_hex2string mac) ≡ some mac
unfolding mac_string2hex
mac_string2hex-mac_hex2string temp [] six h = absurd (omega arith)
mac_string2hex-mac_hex2string temp (b ∷ bs) six h =
    let long : ltb (length (mac_hex2string (b ∷ bs))) 17 ≡ false =
      ground (arith, mac_hex2string-length b bs) in
    let scanned =
      ap (λ n. scan_bytes n temp (mac_hex2string (b ∷ bs))) (sym six)
      ∙ scan_bytes-mac_hex2string (b ∷ bs) temp h in
    rw long (ap some scanned)
