-- ===== src/Web/Info.antt =====
-- The handlers of web.c that keep the configuration and need little of the request: time, version,
-- disk, system and file requests, and those that are not supported or do nothing yet.
use cfg_mgr.Base.{ℕ, none, some, ◌++◌, ◌==◌, if◌then◌else◌}
use cfg_mgr.Base.Text.{codes, fmt_d}
use cfg_mgr.Memory.{zeroed, store, load, read, write, strncpy}
use cfg_mgr.Message.{
  Msg, zero_msg, cfgmgr_ok, not_support, fileupload_response, diskinfo_response,
  systimeget_response, getversion_response, file_name_len_max,
}
use cfg_mgr.Env.{Env, cfgmgr_dumpcap0, cfgmgr_dumpcap1}
use cfg_mgr.Trace.{Daemon, user, system, debug_info, debug_err, trace}
use cfg_mgr.Web.Confirm.{Reply, confirm}

-- `CFGMGR_MAJOR` and `CFGMGR_MINOR` of inc/version.h
abbrev cfgmgr_major : ℕ
cfgmgr_major = 1

abbrev cfgmgr_minor : ℕ
cfgmgr_minor = 5

module _ {env : Env} where
  open env use {time, stime, system as shell, mq_send, mq_receive}

  abbrev reply_ok : Msg → Daemon env → Reply env
  reply_ok out d = record { status = cfgmgr_ok; out = out; daemon = d }

  -- `sysTimeGetResponse`: eight bytes. The rest of the out message keeps what it held.
  unfoldable pub do_sys_time_get : Msg → Daemon env → Reply env
  do_sys_time_get prev d =
      let (now, sys') = time d.sys in
      reply_ok (record { type = systimeget_response; payload = store 8 0 now prev.payload })
        (record d { sys = sys' })

  unfoldable pub do_sys_time_set : Msg → Daemon env → Reply env
  do_sys_time_set m d =
      let started = trace debug_info user (codes "SysTimeSet start") d in
      confirm cfgmgr_ok (
        trace debug_info user (codes "SysTimeSet succ")
          (record started { sys = stime (load 8 0 m.payload) started.sys }))

  -- The name's 60 bytes are copied; the rest of the out message keeps what it held.
  unfoldable pub do_file_up_load : Msg → Msg → Daemon env → Reply env
  do_file_up_load m prev d =
      reply_ok
        (record {
          type = fileupload_response;
          payload = write 0 (read file_name_len_max 0 m.payload) prev.payload;
        })
        (trace debug_info user (codes "File Up Load succ")
          (trace debug_info user (codes "File Up Load start") d))

  -- The two version texts: cfgMgrVersion at 0, logicVersion at 11, of 11 bytes each. The logic
  -- version is the constant 0x1000000.
  unfoldable pub do_version_get : Daemon env → Reply env
  do_version_get d =
      let version = λ (major minor : ℕ). codes "V" ++ (fmt_d major ++ (codes "." ++ fmt_d minor)) in
      reply_ok
        (record {
          type = getversion_response;
          payload =
              strncpy 11 11 (version 1 0) (strncpy 0 11 (version cfgmgr_major cfgmgr_minor) zeroed);
        })
        (trace debug_info user (codes "VersionGet succ")
          (trace debug_info user (codes "VersionGet start") d))

  unfoldable pub do_factory_reset : Daemon env → Reply env
  do_factory_reset d = confirm not_support (
      trace debug_err user (codes "FactoryReset not support !!!")
        (trace debug_info user (codes "FactoryReset start") d))

  unfoldable pub do_reboot : Daemon env → Reply env
  do_reboot d = confirm not_support (
      trace debug_err user (codes "Reboot not support !!!")
        (trace debug_info user (codes "Reboot start") d))

  unfoldable pub do_log_clear_all : Daemon env → Reply env
  do_log_clear_all d =
      let started = trace debug_info user (codes "Log Clear ALL") d in
      confirm cfgmgr_ok
        (record started { sys = shell (codes "rm ../flashdev/cfgmgrLog.db") started.sys })

  -- `diskInfoResponse`: ten texts of 30 bytes each, all constants.
  unfoldable pub do_disk_info : Daemon env → Reply env
  do_disk_info d =
      reply_ok
        (record {
          type = diskinfo_response;
          payload = strncpy 240 30 (codes "500000000000") (
              strncpy 270 30 (codes "500000000000") (
                strncpy 210 30 (codes "1000000000000") (
                  strncpy 180 30 (codes "36") (
                    strncpy 0 30 (codes "3.5 inch") (
                      strncpy 30 30 (codes "7200") (
                        strncpy 60 30 (codes "23652 KBytes") (
                          strncpy 150 30 (codes "MS2OA810") (
                            strncpy 120 30 (codes "48DY7MRMS")
                              (strncpy 90 30 (codes "TOSHIBA DT01ACA100") zeroed)))))))));
        })
        (trace debug_info user (codes "Disk Info succ")
          (trace debug_info user (codes "Disk Info start") d))

  -- `lanStatisticsClear`
  unfoldable pub lan_statistics_clear : ℕ → Daemon env → Daemon env
  lan_statistics_clear n d =
      trace debug_err system (codes "lanStatisticsClear not support !!!")
        (trace debug_info user (codes "lan" ++ (fmt_d n ++ codes "StatisticsClear start")) d)

  unfoldable pub do_lan_statistics_clear : ℕ → Daemon env → Reply env
  unfolding lan_statistics_clear
  do_lan_statistics_clear n d = confirm not_support (
      lan_statistics_clear n
        (trace debug_info user (codes "Lan" ++ (fmt_d n ++ codes " Statistics Clear")) d))

  unfoldable pub do_update_logic_file : Daemon env → Reply env
  do_update_logic_file d = confirm cfgmgr_ok (
      trace debug_info user (codes "UpdateLogicFile succ")
        (trace debug_info user (codes "UpdateLogicFile start") d))

  unfoldable pub do_update_cfg_mgr_file : Daemon env → Reply env
  do_update_cfg_mgr_file d = confirm cfgmgr_ok (
      trace debug_info user (codes "UpdateCfgMgrFile succ")
        (trace debug_info user (codes "UpdateCfgMgrFile start") d))

  unfoldable pub do_update_web : Daemon env → Reply env
  do_update_web d = confirm cfgmgr_ok (
      trace debug_info user (codes "UpdateWeb succ")
        (trace debug_info user (codes "UpdateWebstart") d))

  -- The request goes on to the capture process of its interface (netNumber at 0), whose answer is
  -- the reply. Where sending or receiving fails the out message is all zeros, and the status is
  -- still CFGMGR_OK.
  unfoldable pub do_file_look_up : Msg → Daemon env → Reply env
  do_file_look_up m d =
      let started = trace debug_info user (codes "File Look Up start") d in
      let first = load 4 0 m.payload == 1 in
      let queue = if first then cfgmgr_dumpcap0 else cfgmgr_dumpcap1 in
      let name = if first then codes "/cfgmgrDumpcapMessage0" else codes "/cfgmgrDumpcapMessage1" in
      let (sent, sys₁) = mq_send queue m started.sys in
      let (answer, sys₂) = mq_receive queue sys₁ in
      let received : Reply env = elim answer [
        | none ↦ reply_ok zero_msg (
            trace debug_err system (codes "msgRecv " ++ (name ++ codes " error !!!"))
              (record started { sys = sys₂ }))
        | some out ↦
            reply_ok out
              (trace debug_info user (codes "File Look Up succ") (record started { sys = sys₂ }))
      ] in
      if sent
      then received
      else reply_ok zero_msg
          (trace debug_err system (codes "msgSend failed !!!") (record started { sys = sys₁ }))
