-- ===== src/Ping.antt =====
-- ping.c: one ICMP echo request and the wait for its reply. Time stamps and what is printed are
-- left out; nothing is decided by them.
pub mod Checksum
pub mod Reply
pub mod Reference
pub mod Echo
use cfg_mgr.Base.{
  ℕ, zero, suc, ◌+◌, ◌-◌, ◌*◌, ◌/◌, ◌%◌, Bool, true, false, not, ◌&&◌, List, [], ◌∷◌, ◌++◌, Option,
  none, some, leb, ltb, ◌==◌, if◌then◌else◌, length, get_or,
}
use cfg_mgr.Env.{Env, Select, select_error, timeout, ready}

-- `pingm_pakcet`: a 16-bit sequence number (as its bit pattern), and whether a reply is awaited.
pub record PingmPacket : Type 0 where
  pub seq : ℕ
  pub flag : ℕ

-- The static variables: the table, and the two counters of type short, as bit patterns.
pub record PingState : Type 0 where
  pub pingpacket : List PingmPacket
  pub packet_send : ℕ
  pub packet_recv : ℕ

-- The sum of the 16-bit words, low byte first, `odd` bytes included: the source shifts a last odd
-- byte up by eight.
unfoldable pub sum_words : List ℕ → ℕ
sum_words [] = 0
sum_words (b ∷ []) = b * 256
sum_words (lo ∷ hi ∷ rest) = lo + 256 * hi + sum_words rest

-- Two folds of the carries, and the complement in 16 bits.
unfoldable pub fold_sum : ℕ → ℕ
fold_sum sum = let once = sum / 65536 + sum % 65536 in (once + once / 65536) % 65536

unfoldable pub icmp_cksum : List ℕ → ℕ
icmp_cksum bytes = 65535 - fold_sum (sum_words bytes)

-- The bytes `i`, `i + 1`, … of the payload loop.
unfoldable pub count_up : ℕ → ℕ → List ℕ
count_up zero i = []
count_up (suc n) i = i % 256 ∷ count_up n (i + 1)

-- The header with the checksum given: type 8 (ICMP_ECHO), code 0, checksum, id, sequence number.
unfoldable pub icmp_header : ℕ → ℕ → ℕ → List ℕ
icmp_header cksum id seq =
    8
    ∷ 0
    ∷ cksum % 256
    ∷ cksum / 256 % 256
    ∷ id % 256
    ∷ id / 256 % 256
    ∷ seq % 256
    ∷ seq / 256 % 256
    ∷ []

-- The 64 bytes that are sent of what icmp_pack lays out with `length` 64: the checksum is taken
-- with its own field zero, over 64 bytes.
unfoldable pub icmp_pack : ℕ → ℕ → List ℕ
icmp_pack id seq =
    let body = count_up 56 0 in
    icmp_header (icmp_cksum (icmp_header 0 id seq ++ body)) id seq ++ body

-- `icmp_findpacket (-1)`: the first entry with no reply awaited is taken for the packet `seq`.
unfoldable pub claim_packet : ℕ → List PingmPacket → List PingmPacket
claim_packet seq [] = []
claim_packet seq (p ∷ ps) =
    if p.flag == 0 then record { seq = seq; flag = 1 } ∷ ps else p ∷ claim_packet seq ps

-- `pingpacket [i].seq == seq` compares a short with the unsigned 16-bit number of the reply: a
-- negative short equals none.
unfoldable pub seq_matches : ℕ → ℕ → Bool
seq_matches short seq = ltb short 32768 && short == seq

-- `icmp_findpacket (seq)` for a reply, and the flag cleared: none if no entry has that number.
unfoldable pub answer_packet : ℕ → List PingmPacket → Option (List PingmPacket)
unfolding seq_matches
answer_packet seq [] = none
answer_packet seq (p ∷ ps) =
    if seq_matches p.seq seq
    then some (record p { flag = 0 } ∷ ps)
    else elim (answer_packet seq ps) [ none ↦ none | some qs ↦ some (p ∷ qs) ]

unfoldable pub empty_table : ℕ → List PingmPacket
empty_table zero = []
empty_table (suc n) = record { seq = 0; flag = 0 } ∷ empty_table n

-- A 16-bit field of a packet, low byte first.
abbrev pub word_at : ℕ → List ℕ → ℕ
word_at i bytes = get_or bytes i 0 + 256 * get_or bytes (i + 1) 0

-- The reply is accepted if it is long enough, is an echo reply (type 0) with this process's id and
-- has the number of an entry of the table.
unfoldable pub icmp_unpack : ℕ → List ℕ → PingState → Bool × PingState
unfolding answer_packet
icmp_unpack pid buf s =
    let off = get_or buf 0 0 % 16 * 4 in
    if ltb (length buf) (off + 8)
    then (false, s)
    else if get_or buf off 0 == 0 && word_at (off + 4) buf == pid
    then (elim (answer_packet (word_at (off + 6) buf) s.pingpacket) [
      | none ↦ (false, s)
      | some table ↦
          (true, record s { pingpacket = table; packet_recv = (s.packet_recv + 1) % 65536 })
    ])
    else (false, s)

module _ (env : Env) where
  open env use {Sys, has_icmp, getuid, raw_socket, sendto, select, recv}

  -- One request is sent; the counter of sent packets goes up if that succeeds.
  unfoldable pub icmp_send : ℕ → ℕ → PingState → Sys → Bool × PingState × Sys
  icmp_send pid dest s sys =
      let claimed = record s { pingpacket = claim_packet s.packet_send s.pingpacket } in
      let (sent, sys') = sendto dest (icmp_pack (pid % 65536) s.packet_send) sys in
      if sent
      then (true, record claimed { packet_send = (s.packet_send + 1) % 65536 }, sys')
      else (false, claimed, sys')

  unfoldable pub icmp_recv : ℕ → PingState → Sys → Bool × PingState × Sys
  icmp_recv pid s sys =
      let (ready', sys') = select sys in
      elim ready' [
        | select_error ↦ (false, s, sys')
        | timeout ↦ (false, s, sys')
        | ready ↦
            let (packet, sys'') = recv sys' in
            elim packet [
              | none ↦ (false, s, sys'')
              | some buf ↦ let (good, s') = icmp_unpack pid buf s in (good, s', sys'')
            ]
      ]

  -- `pingTest (destIp) == 0`
  unfoldable pub ping_test : ℕ → PingState → Sys → Bool × PingState × Sys
  ping_test dest s sys =
      let (found, sys₁) = has_icmp sys in
      let cleared = record s { pingpacket = empty_table 128 } in
      let (opened, sys₂) = raw_socket sys₁ in
      let pid = getuid sys₂ in
      let (sent, s₁, sys₃) = icmp_send pid dest cleared sys₂ in
      if not found
      then (false, s, sys₁)
      else if not opened
      then (false, cleared, sys₂)
      else if not sent
      then (false, s₁, sys₃)
      else icmp_recv pid s₁ sys₃
