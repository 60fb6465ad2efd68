-- ===== src/Cgi/Net/Settings.antt =====
-- The requests of netCapture and netFilter: what the daemon reads from them is what their forms have.
use cfg_mgr.Base.{ℕ, ◌+◌, ◌<◌, ◌≡◌, refl, ◌∙◌, inl, some, arith}
use cfg_mgr.Base.Text.{IsCstr}
use cfg_mgr.Memory.{Bytes, store, load, write, strncpy, le_bytes}
use cfg_mgr.Memory.Strings.{Holds, Holds-frame, strncpy-Holds, load-strncpy_apart, cstr_at-eq}
use cfg_mgr.Memory.Words.{load-frame, load-store32, load-store_apart}
use cfg_mgr.Message.{Msg, netcapture_request, netfilter_request}
use cfg_mgr.Params.{CaptureParam, FilterParam, capture_param_at, filter_param_at}
use cfg_mgr.Cgi.{Form}
use cfg_mgr.Cgi.Net.{
  capture_param_get, put_capture_param, net_capture, filter_param_get, net_filter,
}

-- Flags of 32 bits, and a path whose NUL fits its field.
pub record IsCapture (c : CaptureParam) : Type 0 where
  pub capture_fits : c.is_capture < 4294967296
  pub upload_fits : c.is_auto_up_load < 4294967296
  pub path_fits : IsCstr 254 c.auto_up_load_path

-- The field at `off` has the parameters.
record CaptureHeld (c : CaptureParam) (off : ℕ) (d : Bytes) : Type 0 where
  capture_held : load 4 off d ≡ c.is_capture
  upload_held : load 4 (off + 4) d ≡ c.is_auto_up_load
  path_held : Holds c.auto_up_load_path (off + 8) d

put_capture_param-CaptureHeld :
    (off : ℕ) (c : CaptureParam) (d : Bytes)
    → IsCapture c
    → CaptureHeld c off (put_capture_param off c d)
unfolding put_capture_param
put_capture_param-CaptureHeld off c d v =
    let d₁ = store 4 off c.is_capture d in
    let d₂ = store 4 (off + 4) c.is_auto_up_load d₁ in
    record {
      capture_held =
          load-strncpy_apart 4 off (off + 8) 255 c.auto_up_load_path d₂ (inl (omega arith))
          ∙ load-store_apart 4 off 4 (off + 4) c.is_auto_up_load d₁ (inl (omega arith))
          ∙ load-store32 off c.is_capture d v.capture_fits;
      upload_held =
          load-strncpy_apart 4 (off + 4) (off + 8) 255 c.auto_up_load_path d₂ (inl (omega arith))
          ∙ load-store32 (off + 4) c.is_auto_up_load d₁ v.upload_fits;
      path_held = strncpy-Holds (off + 8) 255 254 c.auto_up_load_path d₂ v.path_fits (omega arith);
    }

-- Another interface's parameters behind them do not touch them.
CaptureHeld-behind :
    (c c' : CaptureParam) (d : Bytes)
    → IsCapture c
    → CaptureHeld c 0 d
    → CaptureHeld c 0 (put_capture_param 264 c' d)
unfolding put_capture_param store write strncpy le_bytes
CaptureHeld-behind c c' d v h =
    let short = v.path_fits.fits in
    let same : (i : ℕ) → i < 264 → put_capture_param 264 c' d i ≡ d i = λ i lt. ground arith in
    record {
      capture_held = load-frame 4 0 d _ (λ i lo hi. same i (omega arith)) ∙ h.capture_held;
      upload_held = load-frame 4 4 d _ (λ i lo hi. same i (omega arith)) ∙ h.upload_held;
      path_held =
          Holds-frame c.auto_up_load_path 8 d _ (λ i lo hi. same i (omega arith)) h.path_held;
    }

capture_param_at-CaptureHeld :
    (off : ℕ) (c : CaptureParam) (d : Bytes)
    → IsCapture c
    → CaptureHeld c off d
    → capture_param_at off d ≡ c
unfolding capture_param_at
capture_param_at-CaptureHeld off c d v h =
    let short = v.path_fits.fits in
    let path = cstr_at-eq c.auto_up_load_path 255 (off + 8) d (omega arith) h.path_held in
    rw (h.capture_held, h.upload_held, path) refl

-- The daemon reads from the message of netCapture the parameters that captureParamGet has found in
-- the form.
pub net_capture-capture_param_at :
    (form : Form) (m : Msg) (c1 c2 : CaptureParam)
    → capture_param_get form 1 ≡ some c1
    → capture_param_get form 2 ≡ some c2
    → IsCapture c1
    → IsCapture c2
    → (q : Msg) × (net_capture form m ≡ some q)
      × (q.type ≡ netcapture_request)
      × (capture_param_at 0 q.payload ≡ c1)
      × (capture_param_at 264 q.payload ≡ c2)
unfolding net_capture
net_capture-capture_param_at form m c1 c2 e1 e2 v1 v2 =
    let first = put_capture_param 0 c1 m.payload in
    let held1 = put_capture_param-CaptureHeld 0 c1 m.payload v1 in
    (
      record { type = netcapture_request; payload = put_capture_param 264 c2 first },
      rw (e1, e2) refl,
      refl,
      capture_param_at-CaptureHeld 0 c1 _ v1 (CaptureHeld-behind c1 c2 first v1 held1),
      capture_param_at-CaptureHeld 264 c2 _ v2 (put_capture_param-CaptureHeld 264 c2 first v2),
    )

-- So does it from the message of netFilter.
pub net_filter-filter_param_at :
    (form : Form) (m : Msg) (f1 f2 : FilterParam)
    → filter_param_get form 1 ≡ some f1
    → filter_param_get form 2 ≡ some f2
    → f1.is_filter < 4294967296
    → f2.is_filter < 4294967296
    → (q : Msg) × (net_filter form m ≡ some q)
      × (q.type ≡ netfilter_request)
      × (filter_param_at 0 q.payload ≡ f1)
      × (filter_param_at 4 q.payload ≡ f2)
unfolding net_filter filter_param_at
net_filter-filter_param_at form m f1 f2 e1 e2 v1 v2 =
    let first = store 4 0 f1.is_filter m.payload in
    let held1 =
      load-store_apart 4 0 4 4 f2.is_filter first (inl (omega arith))
      ∙ load-store32 0 f1.is_filter m.payload v1 in
    let held2 = load-store32 4 f2.is_filter first v2 in
    (
      record { type = netfilter_request; payload = store 4 4 f2.is_filter first },
      rw (e1, e2) refl,
      refl,
      rw held1 refl,
      rw held2 refl,
    )
