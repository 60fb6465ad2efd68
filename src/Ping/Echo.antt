-- ===== src/Ping/Echo.antt =====
-- pingTest against a host that answers.
use cfg_mgr.Base.{
  ℕ, zero, suc, ◌+◌, ◌*◌, ◌%◌, ◌≤◌, ◌<◌, ◌≡◌, refl, ◌∙◌, true, List, [], ◌∷◌, ◌++◌, some, arith,
  length, get_or, drop, length-append,
}
use cfg_mgr.Env.{Env, ready}
use cfg_mgr.Ping.{
  PingState, icmp_pack, icmp_header, count_up, claim_packet, empty_table, word_at, icmp_unpack,
  icmp_send, icmp_recv, ping_test,
}
use cfg_mgr.Ping.Reply.{icmp_unpack_lem}

-- The echo reply to a request: type and code 0, a checksum of two bytes, and all behind it as in
-- the request (RFC 792).
abbrev pub echo_reply : ℕ → ℕ → List ℕ → List ℕ
echo_reply c c' request = 0 ∷ 0 ∷ c ∷ c' ∷ drop 4 request

get_or-append :
    (xs ys : List ℕ) (n i : ℕ) → length xs ≡ n → get_or (xs ++ ys) (n + i) 0 ≡ get_or ys i 0
get_or-append [] ys n i h = let e : n + i ≡ i = omega arith in rw e
get_or-append (x ∷ xs) ys zero i h = absurd (omega arith)
get_or-append (x ∷ xs) ys (suc n) i h =
    let e : suc n + i ≡ suc (n + i) = omega arith in rw e (get_or-append xs ys n i (omega arith))

get_or-first : (xs ys : List ℕ) → 0 < length xs → get_or (xs ++ ys) 0 0 ≡ get_or xs 0 0
get_or-first [] ys h = absurd (omega arith)
get_or-first (x ∷ xs) ys h = refl

module _ (ip : List ℕ) (c c' id seq : ℕ) where
  abbrev reply : List ℕ
  reply = echo_reply c c' (icmp_pack id seq)

  reply-fields :
      id < 65536
      → seq < 65536
      → (word_at 4 reply ≡ id) × (word_at 6 reply ≡ seq) × (8 ≤ length reply)
  unfolding icmp_pack icmp_header count_up
  reply-fields hi hs = (omega arith, omega arith, omega arith)

  -- Behind an IP header of 20 bytes, whose first byte says so, the reply is accepted.
  icmp_unpack-reply :
      (s : PingState)
      → length ip ≡ 20
      → get_or ip 0 0 % 16 ≡ 5
      → id < 65536
      → seq < 32768
      → s.pingpacket ≡ claim_packet seq (empty_table 128)
      → (icmp_unpack id (ip ++ reply) s).0 ≡ true
  icmp_unpack-reply s size version hi hs table =
      let (same_id, same_seq, whole) = reply-fields hi (omega arith) in
      let at = λ (i : ℕ). get_or-append ip reply 20 i size in
      let first : get_or (ip ++ reply) 0 0 % 16 * 4 ≡ 20 =
        omega (arith, get_or-first ip reply (omega arith)) in
      let own_id : word_at 24 (ip ++ reply) ≡ id = omega (arith, at 4, at 5, same_id) in
      let own_seq : word_at 26 (ip ++ reply) ≡ seq = omega (arith, at 6, at 7, same_seq) in
      let long : 28 ≤ length (ip ++ reply) = omega (arith, length-append ip reply) in
      let echo : get_or (ip ++ reply) 20 0 ≡ 0 = at 0 in
      icmp_unpack_lem id seq (ip ++ reply) s table
      ∙ rw (first, own_id, own_seq, echo) (ground arith)

module _ (env : Env) where
  open env use {Sys, has_icmp, getuid, raw_socket, sendto, select, recv}

  icmp_send-sent :
      (pid dest : ℕ) (s : PingState) (sys sys' : Sys)
      → sendto dest (icmp_pack (pid % 65536) s.packet_send) sys ≡ (true, sys')
      → icmp_send env pid dest s sys ≡ (
        true,
        record s {
          pingpacket = claim_packet s.packet_send s.pingpacket;
          packet_send = (s.packet_send + 1) % 65536;
        },
        sys',
      )
  unfolding icmp_send
  icmp_send-sent pid dest s sys sys' e = rw e refl

  icmp_recv-ready :
      (pid : ℕ) (s : PingState) (buf : List ℕ) (sys sys' sys'' : Sys)
      → select sys ≡ (ready, sys')
      → recv sys' ≡ (some buf, sys'')
      → (icmp_recv env pid s sys).0 ≡ (icmp_unpack pid buf s).0
  unfolding icmp_recv
  icmp_recv-ready pid s buf sys sys' sys'' e e' = ground (arith, e, e')

  -- A host that answers the request to it with an echo reply, in time and undisturbed, passes the
  -- test: with a socket and the protocol to be had, a user number below 65536, which serves as the
  -- id, and a counter of requests below 2^15.
  pub ping_test-echo :
      (dest : ℕ) (s : PingState) (sys sys₁ sys₂ sys₃ sys₄ sys₅ : Sys) (ip : List ℕ) (c c' : ℕ)
      → has_icmp sys ≡ (true, sys₁)
      → raw_socket sys₁ ≡ (true, sys₂)
      → sendto dest (icmp_pack (getuid sys₂) s.packet_send) sys₂ ≡ (true, sys₃)
      → select sys₃ ≡ (ready, sys₄)
      → recv sys₄ ≡ (some (ip ++ echo_reply c c' (icmp_pack (getuid sys₂) s.packet_send)), sys₅)
      → length ip ≡ 20
      → get_or ip 0 0 % 16 ≡ 5
      → getuid sys₂ < 65536
      → s.packet_send < 32768
      → (ping_test env dest s sys).0 ≡ true
  unfolding ping_test
  ping_test-echo dest s sys sys₁ sys₂ sys₃ sys₄ sys₅ ip c c' e₁ e₂ e₃ e₄ e₅ size version hi hs =
      let cleared = record s { pingpacket = empty_table 128 } in
      let id = getuid sys₂ in
      let s₁ = record s {
        pingpacket = claim_packet s.packet_send (empty_table 128);
        packet_send = (s.packet_send + 1) % 65536;
      } in
      let same : id % 65536 ≡ id = omega arith in
      let sent : icmp_send env id dest cleared sys₂ ≡ (true, s₁, sys₃) =
        icmp_send-sent id dest cleared sys₂ sys₃ (rw same e₃) in
      let got = icmp_recv-ready id s₁ _ sys₃ sys₄ sys₅ e₄ e₅ in
      rw (e₁, e₂, sent)
        (got ∙ icmp_unpack-reply ip c c' id s.packet_send s₁ size version hi hs refl)
