-- ===== src/Share/Bounds.antt =====
-- The bytes that macString2Hex reads: six of 8 bits.
use cfg_mgr.Base.{
  ℕ, zero, suc, ◌<◌, ◌≡◌, refl, ap, sym, ◌∙◌, All, length, drop, some, Bool-cases, inl, inr, arith,
  ltb, List,
}
use mathlib.Core.Path.{subst}
use cfg_mgr.Base.Text.{Text}
use cfg_mgr.Share.{scan_02x, scan_bytes, mac_string2hex}

scan_bytes-length : (n temp : ℕ) (s : Text) → length (scan_bytes n temp s) ≡ n
unfolding scan_bytes
scan_bytes-length zero temp s = refl
scan_bytes-length (suc n) temp s = ap suc (scan_bytes-length n (scan_02x temp s) (drop 3 s))

scan_bytes-fit : (n temp : ℕ) (s : Text) → All (λ b. b < 256) (scan_bytes n temp s)
unfolding scan_bytes
scan_bytes-fit zero temp s = tt
scan_bytes-fit (suc n) temp s = (omega arith, scan_bytes-fit n (scan_02x temp s) (drop 3 s))

pub mac_string2hex-fits :
    (temp : ℕ) (s : Text) (mac : List ℕ)
    → mac_string2hex temp s ≡ some mac
    → (length mac ≡ 6) × All (λ b. b < 256) mac
unfolding mac_string2hex
mac_string2hex-fits temp s mac h = elim (Bool-cases (ltb (length s) 17)) [
  | inl short ↦ cc
  | inr long ↦
      let same : scan_bytes 6 temp s ≡ mac = cc in
      (
        ap length (sym same) ∙ scan_bytes-length 6 temp s,
        subst (All (λ b. b < 256)) same (scan_bytes-fit 6 temp s),
      )
]
