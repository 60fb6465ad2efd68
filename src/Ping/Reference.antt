-- ===== src/Ping/Reference.antt =====
-- The checksum of ping.c against the Internet checksum of RFC 1071.
use cfg_mgr.Base.{
  ℕ, ◌+◌, ◌-◌, ◌*◌, ◌%◌, ◌≤◌, ◌<◌, ◌≡◌, refl, ◌∙◌, ap, List, [], ◌∷◌, arith, if◌then◌else◌, ltb,
  ◌==◌, length, All,
}
use cfg_mgr.Ping.{sum_words, fold_sum, icmp_cksum}

-- Addition of 16-bit numbers in ones' complement: the carry comes back in at the low end.
abbrev pub ones_add : ℕ → ℕ → ℕ
ones_add a b = if ltb (a + b) 65536 then a + b else a + b - 65535

-- The sum of the 16-bit words of an even number of bytes, low byte first.
abbrev pub rfc1071_sum : List ℕ → ℕ
rfc1071_sum [] = 0
rfc1071_sum (b ∷ []) = b
rfc1071_sum (lo ∷ hi ∷ rest) = ones_add (lo + 256 * hi) (rfc1071_sum rest)

abbrev pub rfc1071 : List ℕ → ℕ
rfc1071 bytes = 65535 - rfc1071_sum bytes

-- The number from 1 to 65535 that is the same modulo 65535, and 0 for 0.
abbrev residue : ℕ → ℕ
residue s = if s == 0 then 0 else (s - 1) % 65535 + 1

fold_sum-residue : (s : ℕ) → s < 2147418112 → fold_sum s ≡ residue s
unfolding fold_sum
fold_sum-residue s h = ground arith

ones_add-residue : (w s : ℕ) → w < 65536 → ones_add w (residue s) ≡ residue (w + s)
ones_add-residue w s h = ground arith

sum_words-le :
    (bytes : List ℕ)
    → All (λ b. b < 256) bytes
    → length bytes % 2 ≡ 0
    → 2 * sum_words bytes ≤ 65535 * length bytes
unfolding sum_words
sum_words-le [] h even = omega arith
sum_words-le (b ∷ []) h even = absurd (omega arith)
sum_words-le (lo ∷ hi ∷ rest) h even =
    let small = h.0 in let small' = h.1.0 in omega (arith, sum_words-le rest h.1.1 (omega arith))

rfc1071_sum-residue :
    (bytes : List ℕ)
    → All (λ b. b < 256) bytes
    → length bytes % 2 ≡ 0
    → rfc1071_sum bytes ≡ residue (sum_words bytes)
unfolding sum_words
rfc1071_sum-residue [] h even = refl
rfc1071_sum-residue (b ∷ []) h even = absurd (omega arith)
rfc1071_sum-residue (lo ∷ hi ∷ rest) h even =
    let small = h.0 in
    let small' = h.1.0 in
    ap (ones_add (lo + 256 * hi)) (rfc1071_sum-residue rest h.1.1 (omega arith))
    ∙ ones_add-residue (lo + 256 * hi) (sum_words rest) (omega arith)

-- For an even number of bytes below 65536, icmp_cksum, which adds all words in an `int` and folds
-- the carries at the end, computes the checksum of RFC 1071, which adds them in ones' complement.
pub icmp_cksum-rfc1071 :
    (bytes : List ℕ)
    → All (λ b. b < 256) bytes
    → length bytes % 2 ≡ 0
    → length bytes < 65536
    → icmp_cksum bytes ≡ rfc1071 bytes
unfolding icmp_cksum
icmp_cksum-rfc1071 bytes h even short =
    let bound = sum_words-le bytes h even in
    omega
      (arith, fold_sum-residue (sum_words bytes) (omega arith), rfc1071_sum-residue bytes h even)
