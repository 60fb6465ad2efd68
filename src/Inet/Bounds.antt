-- ===== src/Inet/Bounds.antt =====
-- The addresses that inet_pton gives: 32 bits.
use cfg_mgr.Base.{
  ℕ, ◌≤◌, ◌<◌, ◌≡◌, refl, sym, ap, ◌-◌, Bool-cases, ◌&&◌, [], ◌∷◌, Option, none, some, bind-some,
  inl, inr, arith, leb, ◌==◌, if◌then◌else◌,
}
use cfg_mgr.Base.Text.{Text}
use cfg_mgr.Inet.{octet, more_digits, is_digit, after_dot, inet_pton, inet_pton_field}

octet-fits : (s : Text) (r : ℕ × Text) → octet s ≡ some r → r.0 ≤ 255
unfolding octet
octet-fits [] r h = cc
octet-fits (c ∷ s) r h =
    let v = more_digits (if c == 48 then 0 else 2) (c - 48) s in
    elim (Bool-cases (is_digit c && leb v.0 255)) [
      | inl fits ↦
          let same : v ≡ r = cc in
          let first = ap (λ (x : ℕ × Text). x.0) same in ground (arith, first, fits)
      | inr not ↦ cc
    ]

-- Behind the last number the text ends.
ended-value :
    (s : Text) (n a : ℕ)
    → (elim s as (λ _. Option ℕ) [ [] ↦ some n | _ ∷ _ ↦ none ]) ≡ some a
    → n ≡ a
ended-value [] n a h = cc
ended-value (c ∷ s) n a h = cc

-- An address that inet_pton finds has 32 bits.
pub inet_pton-fits : (s : Text) (a : ℕ) → inet_pton s ≡ some a → a < 4294967296
unfolding inet_pton
inet_pton-fits s a h =
    let (r₀, e₀, h₀) = bind-some (octet s) _ _ h in
    let (s₁, f₁, g₁) = bind-some (after_dot r₀.1) _ _ h₀ in
    let (r₁, e₁, h₁) = bind-some (octet s₁) _ _ g₁ in
    let (s₂, f₂, g₂) = bind-some (after_dot r₁.1) _ _ h₁ in
    let (r₂, e₂, h₂) = bind-some (octet s₂) _ _ g₂ in
    let (s₃, f₃, g₃) = bind-some (after_dot r₂.1) _ _ h₂ in
    let (r₃, e₃, h₃) = bind-some (octet s₃) _ _ g₃ in
    let same = ended-value r₃.1 _ a h₃ in
    let b₀ = octet-fits s r₀ e₀ in
    let b₁ = octet-fits s₁ r₁ e₁ in
    let b₂ = octet-fits s₂ r₂ e₂ in let b₃ = octet-fits s₃ r₃ e₃ in omega (arith, sym same)

address-fits :
    (o : Option ℕ)
    → ((a : ℕ) → o ≡ some a → a < 4294967296)
    → (elim o as (λ _. ℕ) [ none ↦ 0 | some a ↦ a ]) < 4294967296
address-fits none h = omega arith
address-fits (some a) h = h a refl

-- The field of an address holds 32 bits, whatever the text.
pub inet_pton_field-fits : (s : Text) → inet_pton_field s < 4294967296
unfolding inet_pton_field
inet_pton_field-fits s = address-fits (inet_pton s) (inet_pton-fits s)
