-- ===== src/Tests/Answers.antt =====
-- Printed answers, times, checksums and a ping that is answered, on concrete data.
use cfg_mgr.Base.{
  ℕ, zero, suc, ◌≡◌, ◌≢◌, refl, true, List, [], ◌∷◌, ◌++◌, some, arith, length, get_or,
}
use cfg_mgr.Base.Text.{codes}
use cfg_mgr.Memory.{zeroed, strncpy}
use cfg_mgr.Message.{Msg, fileupload_response}
use cfg_mgr.Share.Times.{time2format}
use cfg_mgr.Share.Times.RoundTrip.{format2time-time2format}
use cfg_mgr.Env.{Env, ready}
use cfg_mgr.Ping.{PingState, icmp_cksum, icmp_pack, ping_test}
use cfg_mgr.Ping.Reference.{rfc1071, icmp_cksum-rfc1071}
use cfg_mgr.Ping.Echo.{echo_reply, ping_test-echo}
use cfg_mgr.Cgi.{Form, format2time}
use cfg_mgr.Cgi.Answers.Download.{
  download_head, file_up_load_resp2http, file_up_load_resp2http_lossy,
}
use cfg_mgr.Tests.{calm, form_of}

abbrev plain_form : Form
plain_form = form_of "Function_LogLookUp" "" [] "" [] "" []

abbrev numbers : ℕ → List ℕ
numbers zero = []
numbers (suc n) = 5 ∷ numbers n

-- A file of 600 bytes.
abbrev file_form : Form
file_form = record plain_form { file_bytes = λ p. some (numbers 600) }

abbrev file_msg : Msg
file_msg = record { type = fileupload_response; payload = strncpy 0 60 (codes "a.pcap") zeroed }

file_up_load_resp2http_lossy_example :
    (sent : List ℕ) × (file_up_load_resp2http file_form file_msg
      ≡ download_head file_form file_msg ++ sent)
    × (length sent ≡ 1)
    × (get_or sent 0 0 ≡ 5)
    × (sent ≢ numbers 600)
file_up_load_resp2http_lossy_example =
    file_up_load_resp2http_lossy file_form file_msg (numbers 600) 0 refl (λ h. cc)

format2time-time2format_example :
    format2time plain_form (time2format plain_form.localtime 754) ≡ 754
format2time-time2format_example = format2time-time2format plain_form 754 (record {
  year = omega arith;
  mon = omega arith;
  mday = omega arith;
  hour = omega arith;
  min = omega arith;
  sec = omega arith;
})

icmp_cksum-rfc1071_example :
    icmp_cksum (8 ∷ 0 ∷ 0 ∷ 0 ∷ 232 ∷ 3 ∷ 255 ∷ 255 ∷ [])
    ≡ rfc1071 (8 ∷ 0 ∷ 0 ∷ 0 ∷ 232 ∷ 3 ∷ 255 ∷ 255 ∷ [])
icmp_cksum-rfc1071_example =
    icmp_cksum-rfc1071 (8 ∷ 0 ∷ 0 ∷ 0 ∷ 232 ∷ 3 ∷ 255 ∷ 255 ∷ []) (ground arith) refl (omega arith)

abbrev ip_header : List ℕ
ip_header = 69 ∷ 0 ∷ 0 ∷ 84 ∷ 0 ∷ 0 ∷ 0 ∷ 0 ∷ 64 ∷ 1 ∷ 0 ∷ 0 ∷ 10 ∷ 0 ∷ 0 ∷ 2 ∷ 10 ∷ 0 ∷ 0 ∷ 1 ∷ []

-- A world that answers the request with number 3.
abbrev echoing : Env
echoing = record calm {
  select = λ s. (ready, s);
  recv = λ s. (some (ip_header ++ echo_reply 9 9 (icmp_pack 0 3)), s);
}

abbrev third : PingState
third = record { pingpacket = []; packet_send = 3; packet_recv = 0 }

ping_test-echo_example : (ping_test echoing 33554442 third 0).0 ≡ true
ping_test-echo_example =
    ping_test-echo echoing 33554442 third 0 0 0 0 0 0 ip_header 9 9 refl refl refl refl refl refl
      refl (omega arith) (omega arith)
