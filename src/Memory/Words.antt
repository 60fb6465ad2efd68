-- ===== src/Memory/Words.antt =====
-- Numbers in memory: a load after a store.
use cfg_mgr.Base.{
  ℕ, zero, suc, ◌+◌, ◌-◌, ◌*◌, ◌/◌, ◌%◌, ◌≤◌, ◌<◌, ◌≡◌, refl, ap, ◌∙◌, ◌⊎◌, inl, inr, List, [], ◌∷◌,
  arith, length, get_or,
}
use cfg_mgr.Memory.{Bytes, write, le_bytes, store, load, read}

pub write_outside :
    (off : ℕ) (bs : List ℕ) (d : Bytes) (i : ℕ)
    → (i < off) ⊎ (off + length bs ≤ i)
    → write off bs d i ≡ d i
unfolding write
write_outside off bs d i (inl lo) = ground arith
write_outside off bs d i (inr hi) = ground arith

-- A load reads only its own bytes.
pub load-frame :
    (w off : ℕ) (d e : Bytes)
    → ((i : ℕ) → off ≤ i → i < off + w → e i ≡ d i)
    → load w off e ≡ load w off d
unfolding load
load-frame zero off d e same = refl
load-frame (suc w) off d e same =
    let here = same off (omega arith) (omega arith) in
    let rest = load-frame w (off + 1) d e (λ i lo hi. same i (omega arith) (omega arith)) in
    rw (here, rest)

-- Four bytes hold any number below 2^32.
pub load-store32 : (off v : ℕ) (d : Bytes) → v < 4294967296 → load 4 off (store 4 off v d) ≡ v
unfolding load store
load-store32 off v d h = ground arith

le_bytes-length : (w v : ℕ) → length (le_bytes w v) ≡ w
unfolding le_bytes
le_bytes-length zero v = refl
le_bytes-length (suc w) v = ap suc (le_bytes-length w (v / 256))

-- A load elsewhere does not see a write or a store.
pub load-write_apart :
    (w off at : ℕ) (bs : List ℕ) (d : Bytes)
    → (off + w ≤ at) ⊎ (at + length bs ≤ off)
    → load w off (write at bs d) ≡ load w off d
load-write_apart w off at bs d (inl le) =
    load-frame w off d _ λ i lo hi. write_outside at bs d i (inl (omega arith))
load-write_apart w off at bs d (inr le) =
    load-frame w off d _ λ i lo hi. write_outside at bs d i (inr (omega arith))

pub load-store_apart :
    (w off w' at v : ℕ) (d : Bytes)
    → (off + w ≤ at) ⊎ (at + w' ≤ off)
    → load w off (store w' at v d) ≡ load w off d
unfolding store
load-store_apart w off w' at v d (inl le) = load-write_apart w off at (le_bytes w' v) d (inl le)
load-store_apart w off w' at v d (inr le) =
    let size = le_bytes-length w' v in
    load-write_apart w off at (le_bytes w' v) d (inr (omega arith))

read_of_bytes :
    (bs : List ℕ) (off : ℕ) (d : Bytes)
    → ((i : ℕ) → off ≤ i → i < off + length bs → d i ≡ get_or bs (i - off) 0)
    → read (length bs) off d ≡ bs
unfolding read
read_of_bytes [] off d h = refl
read_of_bytes (b ∷ bs) off d h =
    let start : off - off ≡ 0 = omega arith in
    let here : d off ≡ b =
      h off (omega arith) (omega arith) ∙ ap (λ k. get_or (b ∷ bs) k 0) start in
    let rest = read_of_bytes bs (off + 1) d λ i lo hi.
      let back : i - off ≡ suc (i - (off + 1)) = omega arith in
      h i (omega arith) (omega arith) ∙ ap (λ k. get_or (b ∷ bs) k 0) back in
    rw (here, rest)

-- The bytes that have been written are read back.
pub read-write : (bs : List ℕ) (off : ℕ) (d : Bytes) → read (length bs) off (write off bs d) ≡ bs
unfolding write
read-write bs off d = read_of_bytes bs off (write off bs d) λ i lo hi. ground arith

pub read-frame :
    (n off : ℕ) (d e : Bytes)
    → ((i : ℕ) → off ≤ i → i < off + n → e i ≡ d i)
    → read n off e ≡ read n off d
unfolding read
read-frame zero off d e same = refl
read-frame (suc n) off d e same =
    let here = same off (omega arith) (omega arith) in
    let rest = read-frame n (off + 1) d e (λ i lo hi. same i (omega arith) (omega arith)) in
    rw (here, rest)

-- The numbers that `w` bytes hold.
abbrev bytes_bound : ℕ → ℕ
bytes_bound zero = 1
bytes_bound (suc w) = 256 * bytes_bound w

get_or-next :
    (b off i : ℕ) (bs : List ℕ)
    → off + 1 ≤ i
    → get_or (b ∷ bs) (i - off) 0 ≡ get_or bs (i - (off + 1)) 0
get_or-next b off i bs h =
    let e : i - off ≡ suc (i - (off + 1)) = omega arith in ap (λ k. get_or (b ∷ bs) k 0) e

load-value :
    (w off v : ℕ) (d : Bytes)
    → v < bytes_bound w
    → ((i : ℕ) → off ≤ i → i < off + w → d i ≡ get_or (le_bytes w v) (i - off) 0)
    → load w off d ≡ v
unfolding load le_bytes
load-value zero off v d h same = omega arith
load-value (suc w) off v d h same =
    let start : off - off ≡ 0 = omega arith in
    let low : d off ≡ v % 256 =
      same off (omega arith) (omega arith)
      ∙ ap (λ k. get_or (v % 256 ∷ le_bytes w (v / 256)) k 0) start in
    let high : load w (off + 1) d ≡ v / 256 =
      load-value w (off + 1) (v / 256) d (omega arith) λ i lo hi.
        same i (omega arith) (omega arith)
        ∙ get_or-next (v % 256) off i (le_bytes w (v / 256)) lo in
    omega (arith, low, high)

-- A number that fits `w` bytes is read back after a store.
pub load-store : (w off v : ℕ) (d : Bytes) → v < bytes_bound w → load w off (store w off v d) ≡ v
unfolding store write
load-store w off v d h =
    let size = le_bytes-length w v in
    load-value w off v (store w off v d) h λ i lo hi. ground (arith, size)
