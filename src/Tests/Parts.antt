-- ===== src/Tests/Parts.antt =====
-- The parts under the handlers: ping, addresses, the log, the network and the configuration file.
use cfg_mgr.Env.{Env}
use cfg_mgr.Net.Laws.{polled, wait_link_ends}
use cfg_mgr.Base.{
  zero, suc, none, List, true, ℕ, true, ◌<◌, ◌≡◌, refl, [], ◌∷◌, some, arith, length, take,
}
use cfg_mgr.Base.Text.{codes, inet_ntoa}
use cfg_mgr.Tests.{calm, some_lan, some_param, some_param-IsValid, some_net-IsNet}
use cfg_mgr.Params.{LanParam, Param, IsValid}
use cfg_mgr.Ping.{PingState, claim_packet, empty_table, icmp_unpack}
use cfg_mgr.Ping.Reply.{icmp_unpack_lem}
use cfg_mgr.Inet.{inet_pton}
use cfg_mgr.Inet.RoundTrip.{inet_pton-inet_ntoa}
use cfg_mgr.Trace.{system, key, insert_sql}
use cfg_mgr.Trace.Laws.{insert_sql-fits}
use cfg_mgr.Net.{wait_link}
use cfg_mgr.Config.{param_doc}
use cfg_mgr.Config.Load.{param_load}
use cfg_mgr.Config.Loaded.{param_load-resaved}
use cfg_mgr.Config.RoundTrip.{HasTexts, param_load-param_doc}

-- A reply to request 3 of process 1000, behind an IP header of 20 bytes.
abbrev reply_packet : List ℕ
reply_packet =
    69 ∷ 0 ∷ 0 ∷ 28 ∷ 0 ∷ 0 ∷ 0 ∷ 0 ∷ 64 ∷ 1 ∷ 0 ∷ 0 ∷ 10 ∷ 0 ∷ 0 ∷ 2 ∷ 10 ∷ 0 ∷ 0 ∷ 1 ∷ 0 ∷ 0 ∷ 0
    ∷ 0 ∷ 232 ∷ 3 ∷ 3 ∷ 0 ∷ []

abbrev sent_state : PingState
sent_state = record {
  pingpacket = claim_packet 3 (empty_table 128);
  packet_send = 4;
  packet_recv = 0;
}

icmp_unpack_lem_example : (icmp_unpack 1000 reply_packet sent_state).0 ≡ true
icmp_unpack_lem_example = icmp_unpack_lem 1000 3 reply_packet sent_state refl

inet_pton-inet_ntoa_example : inet_pton (inet_ntoa 167880896) ≡ some 167880896
inet_pton-inet_ntoa_example = inet_pton-inet_ntoa 167880896 (omega arith)

insert_sql-fits_example :
    length (insert_sql 1570000000 system key (take 59 (codes "msgSend failed !!!"))) < 200
insert_sql-fits_example = insert_sql-fits 1570000000 system key (codes "msgSend failed !!!")

-- Two polls of the concrete world see no link, and the third does.
-- The first two polls of this world see no link, the third one does.
two_down :
    (i : ℕ) → i < 2 → (Env.get_link calm (codes "eth0") (polled calm (codes "eth0") i 0)).0 ≡ some 0
two_down zero h = refl
two_down (suc zero) h = refl
two_down (suc (suc i)) h = absurd (omega (arith, h))

wait_link_ends_example :
    (wait_link calm 9 (codes "eth0") 0 ≡ some 3) × (wait_link calm 2 (codes "eth0") 0 ≡ none)
wait_link_ends_example = wait_link_ends calm (codes "eth0") 2 9 0 two_down (λ h. cc) (omega arith)

admin-HasTexts : HasTexts some_param.admin
admin-HasTexts = record { named = λ h. cc; secret = λ h. cc }

normal-HasTexts : HasTexts some_param.normal
normal-HasTexts = record { named = λ h. cc; secret = λ h. cc }

-- isCapture was 1 and isAutoUpLoad 0; afterwards both are 0.
abbrev lost_lan : LanParam
lost_lan = record some_lan {
  capture = record { is_capture = 0; is_auto_up_load = 0; auto_up_load_path = codes "/srv" };
}

-- Both interfaces upload.
abbrev uploading : Param
uploading = record some_param {
  lan1 = record some_lan { capture = record some_lan.capture { is_auto_up_load = 1 } };
  lan2 = record some_lan { capture = record some_lan.capture { is_auto_up_load = 1 } };
}

uploading-IsValid : IsValid uploading
uploading-IsValid = record {
  admin_valid = some_param-IsValid.admin_valid;
  normal_valid = some_param-IsValid.normal_valid;
}

-- What is read of them: both capture. After the next restart they do not.
abbrev capturing_lan : LanParam
capturing_lan = record lost_lan { capture = record lost_lan.capture { is_capture = 1 } }

param_load-resaved_example :
    param_load 0 (param_doc (record some_param { lan1 = capturing_lan; lan2 = capturing_lan }))
    ≡ some (record some_param { lan1 = lost_lan; lan2 = lost_lan })
param_load-resaved_example =
    param_load-resaved 0 0 (param_doc uploading)
      (record some_param { lan1 = capturing_lan; lan2 = capturing_lan })
      (param_load-param_doc 0 uploading uploading-IsValid admin-HasTexts normal-HasTexts
        some_net-IsNet some_net-IsNet (omega arith) (omega arith))
      (record {
        admin_valid = some_param-IsValid.admin_valid;
        normal_valid = some_param-IsValid.normal_valid;
      })
