-- ===== src/Web/Net.antt =====
-- doLanTest, doNetConfigSave, doNetCapture and doNetFilter of web.c.
pub mod Interfaces
pub mod Written
pub mod Laws
use cfg_mgr.Base.{ℕ, Bool, true, false, ◌++◌, Option, none, some, if◌then◌else◌, ◌==◌, ◌>>=◌}
use cfg_mgr.Base.Text.{Text, codes, fmt_d, fmt_x, inet_ntoa}
use cfg_mgr.Memory.{Bytes, load}
use cfg_mgr.Message.{
  Msg, CfgMgrStatus, cfgmgr_ok, network_unreachable, sizeof_net_param, sizeof_capture_param,
  sizeof_filter_param,
}
use cfg_mgr.Params.{NetParam, LanParam, Param, net_param_at, capture_param_at, filter_param_at}
use cfg_mgr.Ping.{PingState, ping_test}
use cfg_mgr.Env.{Env}
use cfg_mgr.Trace.{Daemon, user, debug_info, debug_err, trace}
use cfg_mgr.Net.{set_net_parameters}
use cfg_mgr.Config.{param_save}
use cfg_mgr.Web.Confirm.{Reply, confirm}

-- "Lan %d test …"
abbrev pub lan_message : ℕ → Text → Text
lan_message n what = codes "Lan " ++ (fmt_d n ++ (codes " test" ++ what))

module _ {env : Env} where
  -- A step whose failure is traced and confirmed at once; `none` while it has not ended.
  abbrev pub or_confirm :
      Option (CfgMgrStatus × Daemon env)
      → Text
      → (Daemon env → Option (Reply env))
      → Option (Reply env)
  or_confirm none message rest = none
  or_confirm (some (cfgmgr_ok, d)) message rest = rest d
  or_confirm (some (status, d)) message rest =
      some (confirm status (trace debug_err user message d))

  -- pingTest, and the trace of its failure. The status is set here too, in a variable that the
  -- next step of doLanTest overwrites.
  unfoldable pub lan_ping : ℕ → ℕ → Daemon env → CfgMgrStatus × Daemon env
  lan_ping n dest_ip d =
      let (answered, ping', sys') = ping_test env dest_ip d.ping d.sys in
      let pinged = record d { ping = ping'; sys = sys' } in
      if answered then (cfgmgr_ok, pinged) else (
        network_unreachable,
        trace debug_err user
            (lan_message n (
              codes " : pingTest failed, destIp "
              ++ (inet_ntoa dest_ip ++ (codes "!!!," ++ fmt_x dest_ip))))
            pinged,
      )

  -- `lanTestRequest`: net at 0, destIp at 24. The parameters of the request are set, the address
  -- is pinged, and the parameters of the configuration are set again.
  unfoldable pub do_lan_test : ℕ → Msg → ℕ → Daemon env → Option (Reply env)
  do_lan_test polls m n d =
      let started = trace debug_info user (lan_message n (codes " start")) d in
      let failed = lan_message n (codes " : setNetParameters failed !!!") in
      or_confirm (set_net_parameters polls (net_param_at 0 m.payload) n started) failed λ set.
        let (status, pinged) = lan_ping n (load 4 sizeof_net_param m.payload) set in
        let origin = if n == 1 then pinged.pa.lan1.net else pinged.pa.lan2.net in
        or_confirm (set_net_parameters polls origin n pinged) failed λ back.
          some (confirm cfgmgr_ok (trace debug_info user (lan_message n (codes " OK")) back))

  -- The second half of doNetConfigSave, and the end of doNetCapture and doNetFilter.
  abbrev pub save_or_confirm : Text → Daemon env → Reply env
  save_or_confirm done d =
      let (status, saved) = param_save d in
      elim status [
        | cfgmgr_ok ↦ confirm cfgmgr_ok (trace debug_info user done saved)
        | failed ↦ confirm failed (trace debug_err user (codes "paramSave failed.") saved)
      ]

  abbrev pub with_net1 : NetParam → Daemon env → Daemon env
  with_net1 net d = record d { pa = record d.pa { lan1 = record d.pa.lan1 { net = net } } }

  abbrev pub with_net2 : NetParam → Daemon env → Daemon env
  with_net2 net d = record d { pa = record d.pa { lan2 = record d.pa.lan2 { net = net } } }

  -- Two `netParam` structures, one behind the other. The first is set and kept before the second
  -- is looked at.
  unfoldable pub do_net_config_save : ℕ → Msg → Daemon env → Option (Reply env)
  do_net_config_save polls m d =
      let net1 = net_param_at 0 m.payload in
      let net2 = net_param_at sizeof_net_param m.payload in
      let started = trace debug_info user (codes "Net config start") d in
      or_confirm (set_net_parameters polls net1 1 started) (codes "net 1 setNetParameters failed.")
        λ d₁.
          or_confirm (set_net_parameters polls net2 2 (with_net1 net1 d₁))
            (codes "net 2 setNetParameters failed.")
            λ d₂. some (save_or_confirm (codes "Net config succ") (with_net2 net2 d₂))

  -- Two `captureParam` structures; nothing but the configuration changes.
  unfoldable pub do_net_capture : Msg → Daemon env → Reply env
  do_net_capture m d =
      let started = trace debug_info user (codes "Net Capture start") d in
      let capture1 = capture_param_at 0 m.payload in
      let capture2 = capture_param_at sizeof_capture_param m.payload in
      save_or_confirm (codes "Net Capture succ") (record started {
        pa = record d.pa {
          lan1 = record d.pa.lan1 { capture = capture1 };
          lan2 = record d.pa.lan2 { capture = capture2 };
        };
      })

  unfoldable pub do_net_filter : Msg → Daemon env → Reply env
  do_net_filter m d =
      let started = trace debug_info user (codes "Net Filter start") d in
      let filter1 = filter_param_at 0 m.payload in
      let filter2 = filter_param_at sizeof_filter_param m.payload in
      save_or_confirm (codes "Net Filter succ") (record started {
        pa = record d.pa {
          lan1 = record d.pa.lan1 { filter = filter1 };
          lan2 = record d.pa.lan2 { filter = filter2 };
        };
      })
