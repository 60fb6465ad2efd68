-- ===== src/Base/Text.antt =====
-- C text as the list of its bytes without the final NUL, and the library calls on it that the
-- program makes: strcmp, strstr, strlen and the decimal and hexadecimal conversions.
use Prim.Native.Char.{code}
use Prim.Native.String.{String}
use Prim.Native.Nat.{ℕ, zero, suc, ◌+◌, ◌-◌, ◌*◌, ◌/◌, ◌%◌, ◌≤◌}
use mathlib.Core.Path.{◌≡◌, refl}
use mathlib.Core.Logic.{◌↔◌, ◌≢◌}
use mathlib.Core.Bool.{Bool, true, false, ◌&&◌, ◌||◌}
use mathlib.Core.List.{List, [], ◌∷◌}
use native.Mathlib.Omega.{arith}
use cfg_mgr.Base.Tests.{ltb, leb, ◌==◌, if◌then◌else◌}
use cfg_mgr.Base.Lists.{length, All}

abbrev pub Text : Type 0
Text = List ℕ

-- The bytes of a literal.
abbrev pub codes : String → Text
codes String.[] = []
codes (String.◌∷◌ c s) = code c ∷ codes s

-- `strcmp (a, b) == 0`
unfoldable pub text_eq : Text → Text → Bool
text_eq [] [] = true
text_eq [] (c ∷ s) = false
text_eq (c ∷ s) [] = false
text_eq (c ∷ s) (c' ∷ s') = c == c' && text_eq s s'

pub text_eq_iff : (s s' : Text) → (text_eq s s' ≡ true) ↔ (s ≡ s')
unfolding text_eq
text_eq_iff [] [] = (λ _. refl, λ _. refl)
text_eq_iff [] (c ∷ s) = (λ h. cc, λ h. cc)
text_eq_iff (c ∷ s) [] = (λ h. cc, λ h. cc)
text_eq_iff (c ∷ s) (c' ∷ s') =
    (λ h. ground (arith, text_eq_iff s s'), λ h. ground (arith, text_eq_iff s s'))

pub text_eq_refl : (s : Text) → text_eq s s ≡ true
text_eq_refl s = (text_eq_iff s s).1 refl

-- Whether the second text begins with the first.
unfoldable pub starts_with : Text → Text → Bool
starts_with [] s = true
starts_with (c ∷ p) [] = false
starts_with (c ∷ p) (c' ∷ s) = c == c' && starts_with p s

-- `strstr (s, p) != NULL`: the second text stands somewhere in the first.
unfoldable pub strstr : Text → Text → Bool
unfolding starts_with
strstr [] p = starts_with p []
strstr (c ∷ s) p = starts_with p (c ∷ s) || strstr s p

-- The decimal digits of a number below 10^fuel, in front of `rest`.
unfoldable pub dec_onto : ℕ → ℕ → Text → Text
dec_onto zero n rest = rest
dec_onto (suc fuel) n rest =
    let digit = 48 + n % 10 in
    let more = dec_onto fuel (n / 10) (digit ∷ rest) in if ltb n 10 then digit ∷ rest else more

-- `%d` of an `int`, given as its 32-bit pattern.
unfoldable pub fmt_d : ℕ → Text
unfolding dec_onto
fmt_d w = if ltb w 2147483648 then dec_onto 10 w [] else b'-' ∷ dec_onto 10 (4294967296 - w) []

-- The number that leading decimal digits make, after `n`.
unfoldable pub parse_digits : ℕ → Text → ℕ
parse_digits n [] = n
parse_digits n (c ∷ s) =
    let more = parse_digits (10 * n + (c - 48)) s in if leb 48 c && leb c 57 then more else n

-- `atoi`: blanks, a sign, and digits; the result as a 32-bit pattern.
unfoldable pub atoi : Text → ℕ
unfolding parse_digits
atoi [] = 0
atoi (c ∷ s) =
    let skipped = atoi s in
    if c == 32 || (leb 9 c && leb c 13)
    then skipped
    else if c == b'-'
    then (4294967296 - parse_digits 0 s % 4294967296) % 4294967296
    else if c == b'+'
    then parse_digits 0 s % 4294967296
    else parse_digits 0 (c ∷ s) % 4294967296

-- One digit of `%x`, and the two of `%02x` of a byte.
unfoldable pub hex_digit : ℕ → ℕ
hex_digit n = if ltb n 10 then 48 + n else 87 + n

unfoldable pub fmt_02x : ℕ → Text
fmt_02x b = hex_digit (b / 16 % 16) ∷ hex_digit (b % 16) ∷ []

-- `%x` of a number below 16^fuel, in front of `rest`.
unfoldable pub hex_onto : ℕ → ℕ → Text → Text
unfolding hex_digit
hex_onto zero n rest = rest
hex_onto (suc fuel) n rest =
    let digit = hex_digit (n % 16) in
    let more = hex_onto fuel (n / 16) (digit ∷ rest) in if ltb n 16 then digit ∷ rest else more

unfoldable pub fmt_x : ℕ → Text
unfolding hex_onto
fmt_x w = hex_onto 8 w []

-- `inet_ntoa`: the four bytes of an address in memory order, with dots.
unfoldable pub inet_ntoa : ℕ → Text
inet_ntoa a = dec_onto 3 (a % 256) (
    b'.'
    ∷ dec_onto 3 (a / 256 % 256)
        (b'.' ∷ dec_onto 3 (a / 65536 % 256) (b'.' ∷ dec_onto 3 (a / 16777216 % 256) [])))

-- A text of at most `n` characters, with no NUL inside: it fits a `char [n + 1]` with its NUL.
pub record IsCstr (n : ℕ) (s : Text) : Type 0 where
  pub fits : length s ≤ n
  pub chars : All (λ c. c ≢ 0) s
