-- ===== src/Cgi/Answers/Times.antt =====
-- sysTimeGetResp2json and systemInfoResp2json of cfgMgrCgi.c.
use cfg_mgr.Base.{ℕ, ◌++◌, Option, none, some, if◌then◌else◌, ltb, length}
use cfg_mgr.Base.Text.{Text, codes, fmt_d}
use cfg_mgr.Memory.{load}
use cfg_mgr.Message.{Msg}
use cfg_mgr.Share.Times.{time2format, time2format2}
use cfg_mgr.Cgi.{Form}
use cfg_mgr.Cgi.Answers.{crlf, field, field_then, last_field, braces, text_at}

-- `sysTimeGetResponse`: the time at 0. `none` where the printed time and its NUL overrun the
-- `char fmt [20]`.
unfoldable pub sys_time_get_resp2json : Form → Msg → Option Text
sys_time_get_resp2json form m =
    let fmt = time2format form.localtime (load 8 0 m.payload) in
    if ltb 19 (length fmt)
    then none
    else some (codes "{" ++ (field "currentTime" fmt ++ (codes "}" ++ crlf)))

-- `systemInfoResponse`: the fields as doSystemInfo puts them.
unfoldable pub system_info_resp2json : Form → Msg → Text
system_info_resp2json form m =
    let time = λ (off : ℕ). time2format2 form.localtime (load 8 off m.payload) in
    let number = λ (off : ℕ). fmt_d (load 4 off m.payload) in
    braces (
      field_then "HwVer" (text_at 0 m.payload) (
        field_then "SN" (text_at 30 m.payload) (
          field_then "CfgMgrVersion" (text_at 60 m.payload) (
            field_then "CfgMgrLastUpdateTime" (time 72) (
              field_then "LogicVersion" (text_at 80 m.payload) (
                field_then "LogicLastUpdateTime" (time 96) (
                  field_then "CurrentTime" (time 104) (
                    field_then "RunningTime" (number 112) (
                      field_then "Lan1LinkStatus" (number 116) (
                        field_then "Lan1LinkSpeed" (number 120) (
                          field_then "Lan1RecvPackages" (number 124) (
                            field_then "Lan1SendPackages" (number 128) (
                              field_then "Lan2LinkStatus" (number 132) (
                                field_then "Lan2LinkSpeed" (number 136) (
                                  field_then "Lan2RecvPackages" (number 140)
                                    (last_field "Lan2SendPackages" (number 144)))))))))))))))))
