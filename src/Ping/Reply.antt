-- ===== src/Ping/Reply.antt =====
-- Which packets pingTest takes for the reply to its request.
use cfg_mgr.Base.{
  ℕ, zero, suc, ◌+◌, ◌*◌, ◌%◌, ◌≡◌, ◌≢◌, refl, ◌∙◌, Bool, true, false, ◌&&◌, ◌||◌, List, ◌∷◌,
  Option, none, some, leb, ltb, ◌==◌, length, get_or, arith,
}
use cfg_mgr.Ping.{
  PingmPacket, PingState, claim_packet, seq_matches, answer_packet, empty_table, word_at,
  icmp_unpack,
}

abbrev is_some : Option (List PingmPacket) → Bool
is_some none = false
is_some (some t) = true

-- The entries that no request has claimed have the number 0.
empty_table-unanswered : (n seq : ℕ) → seq ≢ 0 → answer_packet seq (empty_table n) ≡ none
unfolding answer_packet empty_table seq_matches
empty_table-unanswered zero seq h = refl
empty_table-unanswered (suc n) seq h =
    let rest = empty_table-unanswered n seq h in ground (arith, rest)

empty_table-answered : (n seq : ℕ) → is_some (answer_packet seq (empty_table (suc n))) ≡ (seq == 0)
unfolding answer_packet empty_table seq_matches
empty_table-answered n zero = refl
empty_table-answered n (suc seq) =
    let rest = empty_table-unanswered n (suc seq) (λ h. cc) in ground (arith, rest)

answer_packet-cons :
    (seq : ℕ) (p : PingmPacket) (ps : List PingmPacket)
    → is_some (answer_packet seq (p ∷ ps))
      ≡ (seq_matches p.seq seq || is_some (answer_packet seq ps))
unfolding answer_packet
answer_packet-cons seq p ps = ground arith

-- The table when one request has been sent.
claimed-answered :
    (n own seq : ℕ)
    → is_some (answer_packet seq (claim_packet own (empty_table (suc (suc n)))))
      ≡ ((ltb own 32768 && own == seq) || seq == 0)
unfolding claim_packet empty_table seq_matches
claimed-answered n own seq =
    answer_packet-cons seq (record { seq = own; flag = 1 }) (empty_table (suc n))
    ∙ rw (empty_table-answered n seq) refl

icmp_unpack-cases :
    (pid : ℕ) (buf : List ℕ) (s : PingState)
    → let off = get_or buf 0 0 % 16 * 4 in
      (icmp_unpack pid buf s).0 ≡ (
        leb (off + 8) (length buf)
        && (get_or buf off 0 == 0 && word_at (off + 4) buf == pid)
        && is_some (answer_packet (word_at (off + 6) buf) s.pingpacket))
unfolding icmp_unpack
icmp_unpack-cases pid buf s = ground arith

-- Which received packets count, when the request with the number `own` is the only one that has
-- claimed an entry of the table of 128: those with a whole ICMP header behind the IP header, of
-- type echo reply, with the process's id, and with the number `own` if it is below 2^15, or the
-- number 0. So a reply to a request from 2^15 on is never recognised, and a late reply with the
-- number 0 counts as one to this request.
pub icmp_unpack_lem :
    (pid own : ℕ) (buf : List ℕ) (s : PingState)
    → s.pingpacket ≡ claim_packet own (empty_table 128)
    → let off = get_or buf 0 0 % 16 * 4 in
      let seq = word_at (off + 6) buf in
      (icmp_unpack pid buf s).0 ≡ (
        leb (off + 8) (length buf)
        && (get_or buf off 0 == 0 && word_at (off + 4) buf == pid)
        && ((ltb own 32768 && own == seq) || seq == 0))
icmp_unpack_lem pid own buf s table =
    let off = get_or buf 0 0 % 16 * 4 in
    icmp_unpack-cases pid buf s ∙ rw (table, claimed-answered 126 own (word_at (off + 6) buf)) refl
