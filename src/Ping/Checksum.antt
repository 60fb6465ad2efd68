-- ===== src/Ping/Checksum.antt =====
-- The Internet checksum of ping.c: a packet that carries it sums to zero at the receiver.
use cfg_mgr.Base.{ℕ, ◌+◌, ◌-◌, ◌<◌, ◌≡◌, ap, List, ◌++◌, arith}
use native.Mathlib.Nat.{add_comm}
use cfg_mgr.Ping.{sum_words, fold_sum, icmp_cksum, icmp_header, icmp_pack, count_up}

fold_sum-complement : (s : ℕ) → s < 2147418112 → fold_sum (s + (65535 - fold_sum s)) ≡ 65535
unfolding fold_sum
fold_sum-complement s h = omega arith

header_sum :
    (c id seq : ℕ) (body : List ℕ)
    → c < 65536
    → sum_words (icmp_header c id seq ++ body) ≡ c + sum_words (icmp_header 0 id seq ++ body)
unfolding sum_words icmp_header
header_sum c id seq body h = omega arith

fold_sum-lt : (s : ℕ) → fold_sum s < 65536
unfolding fold_sum
fold_sum-lt s = omega arith

-- The words of a request with its checksum field zero stay far below 2^31, so that the `int` of
-- icmp_cksum does not overflow.
pub request_sum-lt : (id seq : ℕ) → sum_words (icmp_header 0 id seq ++ count_up 56 0) < 2147418112
unfolding sum_words icmp_header count_up
request_sum-lt id seq = omega arith

-- The checksum of every echo request, taken over the packet with its checksum in place, is zero,
-- whatever the id and the sequence number: this is the test by which a receiver accepts it.
pub icmp_cksum-icmp_pack : (id seq : ℕ) → icmp_cksum (icmp_pack id seq) ≡ 0
unfolding icmp_pack icmp_cksum
icmp_cksum-icmp_pack id seq =
    let body = count_up 56 0 in
    let s = sum_words (icmp_header 0 id seq ++ body) in
    omega (
      arith,
      ap fold_sum (header_sum (65535 - fold_sum s) id seq body (omega arith)),
      ap fold_sum (add_comm (65535 - fold_sum s) s),
      fold_sum-complement s (request_sum-lt id seq),
    )
