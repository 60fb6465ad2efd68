-- ===== src/EndToEnd/Settings.antt =====
-- The capture and filter settings, from the form to the configuration.
use cfg_mgr.Base.{ℕ, ◌≡◌, refl, ap, ◌∙◌, some, arith}
use cfg_mgr.Base.Text.{codes, IsCstr}
use cfg_mgr.Message.{Msg, MsgType, netcapture_request, netfilter_request}
use cfg_mgr.Params.{CaptureParam, FilterParam, Param, capture_param_at, filter_param_at}
use cfg_mgr.Env.{Env}
use cfg_mgr.Trace.{Daemon, trace}
use cfg_mgr.Config.{param_save}
use cfg_mgr.Web.Confirm.{Reply, confirm}
use cfg_mgr.Web.Net.{do_net_capture, do_net_filter}
use cfg_mgr.Web.Users.Laws.{saved_status}
use cfg_mgr.Web.Dispatch.{arrived, received}
use cfg_mgr.Cgi.{Form}
use cfg_mgr.Cgi.Net.{capture_param_get, filter_param_get}
use cfg_mgr.Cgi.Net.Settings.{net_capture-capture_param_at, net_filter-filter_param_at}
use cfg_mgr.Cgi.Net.Fields.{capture_param_get-IsCapture, filter_param_get-fits}
use cfg_mgr.EndToEnd.Routes.{
  submit, Asks, request_of-net_capture, request_of-net_filter, dispatch-do_net_capture,
  dispatch-do_net_filter,
}

-- The configuration with other capture settings, and with other filter settings.
abbrev pub with_captures : CaptureParam → CaptureParam → Param → Param
with_captures c1 c2 p = record p {
  lan1 = record p.lan1 { capture = c1 };
  lan2 = record p.lan2 { capture = c2 };
}

abbrev pub with_filters : FilterParam → FilterParam → Param → Param
with_filters f1 f2 p = record p {
  lan1 = record p.lan1 { filter = f1 };
  lan2 = record p.lan2 { filter = f2 };
}

module _ {env : Env} (m : Msg) (d : Daemon env) where
  do_net_capture_lem :
      ((do_net_capture m d).status ≡ saved_status (codes "Net Capture start") d)
      × ((do_net_capture m d).daemon.pa
          ≡ with_captures (capture_param_at 0 m.payload) (capture_param_at 264 m.payload) d.pa)
  unfolding do_net_capture param_save confirm trace
  do_net_capture_lem = ground arith

  do_net_filter_lem :
      ((do_net_filter m d).status ≡ saved_status (codes "Net Filter start") d)
      × ((do_net_filter m d).daemon.pa
          ≡ with_filters (filter_param_at 0 m.payload) (filter_param_at 4 m.payload) d.pa)
  unfolding do_net_filter param_save confirm trace
  do_net_filter_lem = ground arith

module _ {env : Env} (temp polls : ℕ) (form : Form) (m prev : Msg) (d : Daemon env) where
  -- The form is handled by doNetCapture, which reads the form's settings from its message.
  pub handled-net_capture :
      (c1 c2 : CaptureParam)
      → Asks "Function_NetCapture" form
      → capture_param_get form 1 ≡ some c1
      → capture_param_get form 2 ≡ some c2
      → IsCstr 254 c1.auto_up_load_path
      → IsCstr 254 c2.auto_up_load_path
      → (q : Msg) × (submit temp polls form m prev d ≡ some (do_net_capture q (arrived q d)))
        × (q.type ≡ netcapture_request)
        × ((do_net_capture q (arrived q d)).daemon.pa ≡ with_captures c1 c2 d.pa)
  unfolding trace
  handled-net_capture c1 c2 asks e1 e2 p1 p2 =
      let v1 = capture_param_get-IsCapture form 1 c1 e1 p1 in
      let v2 = capture_param_get-IsCapture form 2 c2 e2 p2 in
      let (q, sent, kind, at1, at2) = net_capture-capture_param_at form m c1 c2 e1 e2 v1 v2 in
      (
        q,
        rw (request_of-net_capture temp form m asks, sent)
            (dispatch-do_net_capture polls q prev (arrived q d) kind),
        kind,
        (do_net_capture_lem q (arrived q d)).1 ∙ rw (at1, at2) refl,
      )

  -- The form has capture settings for both interfaces, with paths of at most 254 characters. It is
  -- answered with the status of saving the file, and the configuration has the form's settings for
  -- its two interfaces, also when saving fails, and is otherwise unchanged.
  pub submit-net_capture :
      (c1 c2 : CaptureParam)
      → Asks "Function_NetCapture" form
      → capture_param_get form 1 ≡ some c1
      → capture_param_get form 2 ≡ some c2
      → IsCstr 254 c1.auto_up_load_path
      → IsCstr 254 c2.auto_up_load_path
      → (r : Reply env) × (submit temp polls form m prev d ≡ some r)
        × (r.status ≡ saved_status (codes "Net Capture start") (received netcapture_request d))
        × (r.daemon.pa ≡ with_captures c1 c2 d.pa)
  submit-net_capture c1 c2 asks e1 e2 p1 p2 =
      let (q, answered, kind, pa) = handled-net_capture c1 c2 asks e1 e2 p1 p2 in
      let started = codes "Net Capture start" in
      (
        do_net_capture q (arrived q d),
        answered,
        (do_net_capture_lem q (arrived q d)).0
            ∙ ap (λ (k : MsgType). saved_status started (received k d)) kind,
        pa,
      )

  -- The form is handled by doNetFilter, which reads the form's settings from its message.
  pub handled-net_filter :
      (f1 f2 : FilterParam)
      → Asks "Function_NetFilter" form
      → filter_param_get form 1 ≡ some f1
      → filter_param_get form 2 ≡ some f2
      → (q : Msg) × (submit temp polls form m prev d ≡ some (do_net_filter q (arrived q d)))
        × (q.type ≡ netfilter_request)
        × ((do_net_filter q (arrived q d)).daemon.pa ≡ with_filters f1 f2 d.pa)
  unfolding trace
  handled-net_filter f1 f2 asks e1 e2 =
      let flag1 = filter_param_get-fits form 1 f1 e1 in
      let flag2 = filter_param_get-fits form 2 f2 e2 in
      let (q, sent, kind, at1, at2) =
        net_filter-filter_param_at form m f1 f2 e1 e2 (omega (arith, flag1))
          (omega (arith, flag2)) in
      (
        q,
        rw (request_of-net_filter temp form m asks, sent)
            (dispatch-do_net_filter polls q prev (arrived q d) kind),
        kind,
        (do_net_filter_lem q (arrived q d)).1 ∙ rw (at1, at2) refl,
      )

  -- The form has filter settings for both interfaces. It is answered with the status of saving the
  -- file, and the configuration has the form's settings for its two interfaces, also when saving
  -- fails, and is otherwise unchanged.
  pub submit-net_filter :
      (f1 f2 : FilterParam)
      → Asks "Function_NetFilter" form
      → filter_param_get form 1 ≡ some f1
      → filter_param_get form 2 ≡ some f2
      → (r : Reply env) × (submit temp polls form m prev d ≡ some r)
        × (r.status ≡ saved_status (codes "Net Filter start") (received netfilter_request d))
        × (r.daemon.pa ≡ with_filters f1 f2 d.pa)
  submit-net_filter f1 f2 asks e1 e2 =
      let (q, answered, kind, pa) = handled-net_filter f1 f2 asks e1 e2 in
      let started = codes "Net Filter start" in
      (
        do_net_filter q (arrived q d),
        answered,
        (do_net_filter_lem q (arrived q d)).0
            ∙ ap (λ (k : MsgType). saved_status started (received k d)) kind,
        pa,
      )
