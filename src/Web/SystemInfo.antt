-- ===== src/Web/SystemInfo.antt =====
-- doSystemInfo of web.c. Its strncpy calls of 30 bytes into version fields of 11 bytes write over
-- the times behind them, which are stored later.
use cfg_mgr.Base.{ℕ, ◌+◌, ◌^◌, ◌≡◌, ◌<◌, refl, arith}
use cfg_mgr.Base.Text.{codes}
use cfg_mgr.Memory.{Bytes, zeroed, store, load, strncpy, cstr_at}
use cfg_mgr.Message.{cfgmgr_ok, systeminfo_response}
use cfg_mgr.Env.{Env}
use cfg_mgr.Trace.{Daemon, user, debug_info, trace}
use cfg_mgr.Web.Confirm.{Reply}

-- `lanStatus`: link state, speed, and packages received and sent.
unfoldable pub put_lan_status : ℕ → Bytes → Bytes
put_lan_status off d =
    store 4 (off + 12) 100 (store 4 (off + 8) 100 (store 4 off 1 (store 4 (off + 4) 100000000 d)))

-- `systemInfoResponse`: hwVer at 0, sn at 30, cfgMgrVersion at 60, its time at 72, logicVersion at
-- 80, its time at 96, currentTime at 104, runningSec at 112, and the two lanStatus at 116 and 132.
unfoldable pub system_info_payload : ℕ → ℕ → ℕ → Bytes
system_info_payload t₁ t₂ t₃ = put_lan_status 132 (
    put_lan_status 116 (
      store 4 112 3600 (
        store 8 104 t₃ (
          store 8 96 t₂ (
            store 8 72 t₁ (
              strncpy 80 30 (codes "V1.0") (
                strncpy 60 30 (codes "V1.0") (
                  strncpy 30 30 (codes "xxxx-xxxx-xxxx")
                    (strncpy 0 30 (codes "V1.0") zeroed)))))))))

unfoldable pub do_system_info : {env : Env} → Daemon env → Reply env
do_system_info {env} d =
    let started = trace debug_info user (codes "System Info start") d in
    let (t₁, sys₁) = Env.time env started.sys in
    let (t₂, sys₂) = Env.time env sys₁ in
    let (t₃, sys₃) = Env.time env sys₂ in
    record {
      status = cfgmgr_ok;
      out = record { type = systeminfo_response; payload = system_info_payload t₁ t₂ t₃ };
      daemon = trace debug_info user (codes "System Info succ") (record started { sys = sys₃ });
    }

-- Every text and every time of the response reads back as it was put in, though the texts are
-- padded beyond their fields: the three times are stored after them, and the padding of the first
-- version ends in the second, which is written later.
pub system_info_payload-fields :
    (t₁ t₂ t₃ : ℕ)
    → t₁ < 2 ^ 64
    → t₂ < 2 ^ 64
    → t₃ < 2 ^ 64
    → let d = system_info_payload t₁ t₂ t₃ in
      (cstr_at 30 0 d ≡ codes "V1.0")
      × (cstr_at 30 30 d ≡ codes "xxxx-xxxx-xxxx")
      × (cstr_at 11 60 d ≡ codes "V1.0")
      × (cstr_at 11 80 d ≡ codes "V1.0")
      × (load 8 72 d ≡ t₁)
      × (load 8 96 d ≡ t₂)
      × (load 8 104 d ≡ t₃)
unfolding system_info_payload put_lan_status strncpy store cstr_at load
system_info_payload-fields t₁ t₂ t₃ h₁ h₂ h₃ =
    (refl, refl, refl, refl, omega arith, omega arith, omega arith)
