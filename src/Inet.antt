-- ===== src/Inet.antt =====
-- inet_pton for IPv4, which the program calls on addresses from the configuration file and from
-- forms: four decimal numbers with dots. The result is the address as the machine reads it.
pub mod RoundTrip
pub mod Bounds
use cfg_mgr.Base.{
  ℕ, zero, suc, ◌+◌, ◌-◌, ◌*◌, Bool, true, false, ◌&&◌, ◌||◌, not, List, [], ◌∷◌, Option, none,
  some, if◌then◌else◌, ltb, leb, ◌==◌, ◌>>=◌,
}
use cfg_mgr.Base.Text.{Text}

abbrev pub is_digit : ℕ → Bool
is_digit c = leb 48 c && leb c 57

-- At most `fuel` further digits after the value `n`.
unfoldable pub more_digits : ℕ → ℕ → Text → ℕ × Text
more_digits zero n s = (n, s)
more_digits (suc fuel) n [] = (n, [])
more_digits (suc fuel) n (c ∷ s) =
    let rest = more_digits fuel (10 * n + (c - 48)) s in if is_digit c then rest else (n, c ∷ s)

-- A number of one to three digits up to 255, with no zero in front of another digit.
unfoldable pub octet : Text → Option (ℕ × Text)
octet [] = none
octet (c ∷ s) =
    let (n, rest) = more_digits (if c == 48 then 0 else 2) (c - 48) s in
    if is_digit c && leb n 255 then some (n, rest) else none

unfoldable pub after_dot : Text → Option Text
after_dot [] = none
after_dot (c ∷ s) = if c == b'.' then some s else none

unfoldable pub inet_pton : Text → Option ℕ
inet_pton s = do
  (b₀, s₁) ← octet s
  s₁' ← after_dot s₁
  (b₁, s₂) ← octet s₁'
  s₂' ← after_dot s₂
  (b₂, s₃) ← octet s₂'
  s₃' ← after_dot s₃
  (b₃, s₄) ← octet s₃'
  elim s₄ [ [] ↦ some (b₀ + 256 * b₁ + 65536 * b₂ + 16777216 * b₃) | _ ∷ _ ↦ none ]

-- A call into a field that was zeroed before, its result not looked at.
unfoldable pub inet_pton_field : Text → ℕ
inet_pton_field s = elim (inet_pton s) [ none ↦ 0 | some a ↦ a ]
