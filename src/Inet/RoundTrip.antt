-- ===== src/Inet/RoundTrip.antt =====
-- An address printed by inet_ntoa is read back by inet_pton.
use cfg_mgr.Base.{
  ℕ, zero, suc, ◌+◌, ◌-◌, ◌*◌, ◌/◌, ◌%◌, ◌<◌, ◌≡◌, refl, true, false, [], ◌∷◌, some, if◌then◌else◌,
  arith, leb, ◌==◌, ap, ◌∙◌,
}
use native.Mathlib.Decide.{dec_lt}
use cfg_mgr.Base.Text.{Text, dec_onto, inet_ntoa}
use cfg_mgr.Inet.{is_digit, more_digits, octet, after_dot, inet_pton}

-- A text that does not go on with a digit.
abbrev pub NoDigit : Text → Type 0
NoDigit [] = Unit
NoDigit (c ∷ s) = is_digit c ≡ false

more_digits_end : (fuel n : ℕ) (s : Text) → NoDigit s → more_digits fuel n s ≡ (n, s)
unfolding more_digits
more_digits_end zero n s h = refl
more_digits_end (suc fuel) n [] h = refl
more_digits_end (suc fuel) n (c ∷ s) h = rw h

octet_one : (a : ℕ) (rest : Text) → a < 10 → NoDigit rest → octet ((48 + a) ∷ rest) ≡ some (a, rest)
unfolding octet
octet_one a rest h nd =
    ground (arith, more_digits_end 0 (48 + a - 48) rest nd, more_digits_end 2 (48 + a - 48) rest nd)

more_digits_step :
    (fuel n a : ℕ) (rest : Text)
    → a < 10
    → more_digits (suc fuel) n ((48 + a) ∷ rest) ≡ more_digits fuel (10 * n + a) rest
unfolding more_digits
more_digits_step fuel n a rest h =
    let value : 48 + a - 48 ≡ a = omega arith in
    let digit : is_digit (48 + a) ≡ true = ground arith in rw (digit, value)

octet_more :
    (a : ℕ) (s : Text) (n : ℕ) (rest : Text)
    → 0 < a
    → a < 10
    → more_digits 2 a s ≡ (n, rest)
    → n < 256
    → octet ((48 + a) ∷ s) ≡ some (n, rest)
unfolding octet
octet_more a s n rest pos h e small =
    let value : 48 + a - 48 ≡ a = omega arith in
    let digit : is_digit (48 + a) ≡ true = ground arith in
    let fuel : ◌≡◌ {A = ℕ} (if 48 + a == 48 then 0 else 2) 2 = ground arith in
    let fits : leb n 255 ≡ true = ground arith in rw (fuel, value, e, digit, fits)

dec_onto_one : (b : ℕ) (rest : Text) → b < 10 → dec_onto 3 b rest ≡ (48 + b) ∷ rest
unfolding dec_onto
dec_onto_one b rest h = ground arith

dec_onto_two :
    (b : ℕ) (rest : Text)
    → 9 < b
    → b < 100
    → dec_onto 3 b rest ≡ (48 + b / 10) ∷ (48 + b % 10) ∷ rest
unfolding dec_onto
dec_onto_two b rest lo hi = ground arith

dec_onto_three :
    (b : ℕ) (rest : Text)
    → 99 < b
    → b < 256
    → dec_onto 3 b rest ≡ (48 + b / 100) ∷ (48 + b / 10 % 10) ∷ (48 + b % 10) ∷ rest
unfolding dec_onto
dec_onto_three b rest lo hi = ground arith

digits_two :
    (a c : ℕ) (rest : Text)
    → c < 10
    → NoDigit rest
    → more_digits 2 a ((48 + c) ∷ rest) ≡ (10 * a + c, rest)
digits_two a c rest h nd = more_digits_step 1 a c rest h ∙ more_digits_end 1 (10 * a + c) rest nd

digits_three :
    (a c e : ℕ) (rest : Text)
    → c < 10
    → e < 10
    → NoDigit rest
    → more_digits 2 a ((48 + c) ∷ (48 + e) ∷ rest) ≡ (10 * (10 * a + c) + e, rest)
digits_three a c e rest h k nd =
    more_digits_step 1 a c ((48 + e) ∷ rest) h
    ∙ more_digits_step 0 (10 * a + c) e rest k
    ∙ more_digits_end 0 (10 * (10 * a + c) + e) rest nd

octet-dec_onto :
    (b : ℕ) (rest : Text) → b < 256 → NoDigit rest → octet (dec_onto 3 b rest) ≡ some (b, rest)
octet-dec_onto b rest h nd = elim (dec_lt b 10) [
  | yes one ↦ rw (dec_onto_one b rest one) (octet_one b rest one nd)
  | no more ↦ elim (dec_lt b 100) [
    | yes two ↦ rw (dec_onto_two b rest (omega arith) two) (
        octet_more (b / 10) ((48 + b % 10) ∷ rest) b rest (omega arith) (omega arith)
          (digits_two (b / 10) (b % 10) rest (omega arith) nd ∙ ap (λ n. (n, rest)) (omega arith))
          h)
    | no three ↦ rw (dec_onto_three b rest (omega arith) h) (
        octet_more (b / 100) ((48 + b / 10 % 10) ∷ (48 + b % 10) ∷ rest) b rest (omega arith)
          (omega arith)
          (digits_three (b / 100) (b / 10 % 10) (b % 10) rest (omega arith) (omega arith) nd
            ∙ ap (λ n. (n, rest)) (omega arith))
          h)
  ]
]

-- Every 32-bit address is printed as a text that inet_pton accepts and reads as the same address.
pub inet_pton-inet_ntoa : (a : ℕ) → a < 4294967296 → inet_pton (inet_ntoa a) ≡ some a
unfolding inet_pton inet_ntoa after_dot
inet_pton-inet_ntoa a h =
    rw
      (
        octet-dec_onto (a % 256) _ (omega arith) refl,
        octet-dec_onto (a / 256 % 256) _ (omega arith) refl,
        octet-dec_onto (a / 65536 % 256) _ (omega arith) refl,
        octet-dec_onto (a / 16777216 % 256) [] (omega arith) tt,
      )
      (ap some (omega arith))
