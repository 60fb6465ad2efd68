-- ===== src/Memory/Strings.antt =====
-- C strings in memory: what strncpy leaves is what strcmp and strlen find.
use cfg_mgr.Base.{
  ℕ, zero, suc, ◌+◌, ◌-◌, ◌≤◌, ◌<◌, ◌≡◌, ◌≢◌, ◌⊎◌, ap, refl, [], ◌∷◌, arith, All, length, get_or,
  inl, inr, ◌∙◌,
}
use cfg_mgr.Base.Text.{Text, text_eq, IsCstr}
use cfg_mgr.Memory.{Bytes, load, strncpy, cstr_at, strcmp_at}
use cfg_mgr.Memory.Words.{load-frame}

-- The text with its NUL stands at `off`, and has no NUL inside.
abbrev pub Holds : Text → ℕ → Bytes → Type 0
Holds [] off d = d off ≡ 0
Holds (c ∷ s) off d = (d off ≡ c) × (c ≢ 0) × Holds s (off + 1) d

-- Memory that agrees up to the NUL holds the same string.
pub Holds-frame :
    (s : Text) (off : ℕ) (d e : Bytes)
    → ((i : ℕ) → off ≤ i → i ≤ off + length s → e i ≡ d i)
    → Holds s off d
    → Holds s off e
Holds-frame [] off d e same h = same off (omega arith) (omega arith) ∙ h
Holds-frame (c ∷ s) off d e same h = (
  same off (omega arith) (omega arith) ∙ h.0,
  h.1,
  Holds-frame s (off + 1) d e (λ i lo hi. same i (omega arith) (omega arith)) h.2,
)

-- The bytes that strncpy writes, and those that it leaves.
pub strncpy_inside :
    (off n : ℕ) (s : Text) (d : Bytes) (i : ℕ)
    → off ≤ i
    → i < off + n
    → strncpy off n s d i ≡ get_or s (i - off) 0
unfolding strncpy
strncpy_inside off n s d i lo hi = ground arith

pub strncpy_outside :
    (off n : ℕ) (s : Text) (d : Bytes) (i : ℕ)
    → (i < off) ⊎ (off + n ≤ i)
    → strncpy off n s d i ≡ d i
unfolding strncpy
strncpy_outside off n s d i (inl lo) = ground arith
strncpy_outside off n s d i (inr hi) = ground arith

-- A load elsewhere does not see strncpy.
pub load-strncpy_apart :
    (w off at n : ℕ) (s : Text) (d : Bytes)
    → (off + w ≤ at) ⊎ (at + n ≤ off)
    → load w off (strncpy at n s d) ≡ load w off d
load-strncpy_apart w off at n s d (inl le) =
    load-frame w off d _ λ i lo hi. strncpy_outside at n s d i (inl (omega arith))
load-strncpy_apart w off at n s d (inr le) =
    load-frame w off d _ λ i lo hi. strncpy_outside at n s d i (inr (omega arith))

get_or-pred : (c : ℕ) (s : Text) (k : ℕ) → 0 < k → get_or (c ∷ s) k 0 ≡ get_or s (k - 1) 0
get_or-pred c s zero h = elim h [ ]
get_or-pred c s (suc k) h = let e : suc k - 1 ≡ k = omega arith in rw e

bytes-Holds :
    (s : Text) (off : ℕ) (d : Bytes)
    → All (λ c. c ≢ 0) s
    → ((i : ℕ) → off ≤ i → i ≤ off + length s → d i ≡ get_or s (i - off) 0)
    → Holds s off d
bytes-Holds [] off d nz h = h off (omega arith) (omega arith)
bytes-Holds (c ∷ s) off d nz h = (
  h off (omega arith) (omega arith) ∙ rw (let e : off - off ≡ 0 = omega arith in e) refl,
  nz.0,
  bytes-Holds s (off + 1) d nz.1 λ i lo hi.
      h i (omega arith) (omega arith)
      ∙ get_or-pred c s (i - off) (omega arith)
      ∙ ap (λ k. get_or s k 0) (omega arith),
)

-- A text that fits the field with its NUL is there after strncpy.
pub strncpy-Holds :
    (off n m : ℕ) (s : Text) (d : Bytes) → IsCstr m s → m < n → Holds s off (strncpy off n s d)
strncpy-Holds off n m s d v h =
    let short = v.fits in
    bytes-Holds s off (strncpy off n s d) v.chars
      λ i lo hi. strncpy_inside off n s d i lo (omega arith)

-- strcmp of a C string with one in memory compares the two texts.
pub strcmp_at-text_eq :
    (t s : Text) (off : ℕ) (d : Bytes)
    → All (λ c. c ≢ 0) t
    → Holds s off d
    → strcmp_at t off d ≡ text_eq t s
unfolding strcmp_at text_eq
strcmp_at-text_eq [] [] off d nz h = ground arith
strcmp_at-text_eq [] (c ∷ s) off d nz h = ground arith
strcmp_at-text_eq (c ∷ t) [] off d nz h = ground arith
strcmp_at-text_eq (c ∷ t) (c' ∷ s) off d nz h =
    ground (arith, strcmp_at-text_eq t s (off + 1) d nz.1 h.2)

-- Reading the field back gives the text.
pub cstr_at-eq :
    (s : Text) (n off : ℕ) (d : Bytes) → length s < n → Holds s off d → cstr_at n off d ≡ s
unfolding cstr_at
cstr_at-eq s zero off d l h = absurd (omega arith)
cstr_at-eq [] (suc n) off d l h = ground arith
cstr_at-eq (c ∷ s) (suc n) off d l h = ground (arith, cstr_at-eq s n (off + 1) d (omega arith) h.2)

-- What a field of `n` bytes is read as has at most `n` characters, none of them NUL.
pub cstr_at-IsCstr : (n off : ℕ) (d : Bytes) → IsCstr n (cstr_at n off d)
unfolding cstr_at
cstr_at-IsCstr zero off d = record { fits = omega arith; chars = tt }
cstr_at-IsCstr (suc n) off d = ground (arith, cstr_at-IsCstr n (off + 1) d)

-- A field that ends before the shorter of two bounds is read alike under both.
pub cstr_at_shorter :
    (m n off : ℕ) (d : Bytes)
    → m ≤ n
    → length (cstr_at n off d) < m
    → cstr_at m off d ≡ cstr_at n off d
unfolding cstr_at
cstr_at_shorter zero n off d le lt = absurd (omega arith)
cstr_at_shorter (suc m) zero off d le lt = absurd (omega arith)
cstr_at_shorter (suc m) (suc n) off d le lt =
    ground (arith, cstr_at_shorter m n (off + 1) d (omega arith))
