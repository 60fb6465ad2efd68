-- ===== src/Share.antt =====
-- share.c: MAC addresses to and from text; the broken-down time of its time conversions.
pub mod Bounds
pub mod RoundTrip
pub mod Times
use cfg_mgr.Base.{
  ℕ, zero, suc, ◌+◌, ◌-◌, ◌*◌, ◌%◌, List, [], ◌∷◌, ◌++◌, Option, none, some, Bool, ◌&&◌, ◌||◌, leb,
  ltb, if◌then◌else◌, length, drop, ◌==◌,
}
use cfg_mgr.Base.Text.{Text, fmt_02x}

-- The value of a hexadecimal digit; none for any other character.
unfoldable pub hex_value : ℕ → Option ℕ
hex_value c =
    if leb 48 c && leb c 57
    then some (c - 48)
    else if leb 97 c && leb c 102
    then some (c - 87)
    else if leb 65 c && leb c 70
    then some (c - 55)
    else none

-- `macHex2String`: each snprintf writes "xx-" at its place, and the last dash is cut off.
unfoldable pub mac_hex2string : List ℕ → Text
mac_hex2string [] = []
mac_hex2string (b ∷ []) = fmt_02x b
mac_hex2string (b ∷ bs) = fmt_02x b ++ (b'-' ∷ mac_hex2string bs)

-- What `isspace` is true of.
abbrev is_blank : ℕ → Bool
is_blank c = c == 32 || (leb 9 c && leb c 13)

unfoldable pub skip_blanks : Text → Text
skip_blanks [] = []
skip_blanks (c ∷ s) = let rest = skip_blanks s in if is_blank c then rest else c ∷ s

-- Up to two digits; without one `temp` keeps its value. (Of a prefix 0x only the 0 is read.)
unfoldable pub scan_digits : ℕ → Text → ℕ
scan_digits temp [] = temp
scan_digits temp (c ∷ []) = elim (hex_value c) [ none ↦ temp | some v ↦ v ]
scan_digits temp (c ∷ c' ∷ s) = elim (hex_value c) [
  | none ↦ temp
  | some v ↦ elim (hex_value c') [ none ↦ v | some v' ↦ 16 * v + v' ]
]

abbrev first_digit : Text → Option ℕ
first_digit [] = none
first_digit (c ∷ s) = hex_value c

-- Behind a sign there is room for one digit; -v is the 32-bit pattern 2^32 - v.
unfoldable pub scan_item : ℕ → Text → ℕ
scan_item temp [] = temp
scan_item temp (c ∷ s) =
    if c == b'+'
    then elim (first_digit s) [ none ↦ temp | some v ↦ v ]
    else if c == b'-'
    then elim (first_digit s) [ none ↦ temp | some v ↦ (4294967296 - v) % 4294967296 ]
    else scan_digits temp (c ∷ s)

-- `sscanf (s, "%02x", &temp)`: blanks are skipped. `temp` is given as a 32-bit pattern.
unfoldable pub scan_02x : ℕ → Text → ℕ
scan_02x temp s = scan_item temp (skip_blanks s)

-- The rounds of the loop from `&str [i * 3]` on.
unfoldable pub scan_bytes : ℕ → ℕ → Text → List ℕ
scan_bytes zero temp s = []
scan_bytes (suc n) temp s =
    let temp' = scan_02x temp s in temp' % 256 ∷ scan_bytes n temp' (drop 3 s)

-- `macString2Hex`: none for its -1. `temp` is what the variable holds at first.
unfoldable pub mac_string2hex : ℕ → Text → Option (List ℕ)
mac_string2hex temp str = if ltb (length str) 17 then none else some (scan_bytes 6 temp str)

-- `struct tm`, the fields that share.c reads and sets, as 32-bit patterns.
pub record Tm : Type 0 where
  pub tm_year : ℕ
  pub tm_mon : ℕ
  pub tm_mday : ℕ
  pub tm_hour : ℕ
  pub tm_min : ℕ
  pub tm_sec : ℕ
