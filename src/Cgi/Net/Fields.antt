-- ===== src/Cgi/Net/Fields.antt =====
-- What netParamGet, captureParamGet and filterParamGet take from a form fits the fields of the
-- message.
use Prim.Native.String.{String}
use mathlib.Core.Option.{some-injective}
use mathlib.Core.Path.{subst}
use cfg_mgr.Base.{Option, ℕ, ◌≡◌, ◌≤◌, some, arith, bind-some}
use cfg_mgr.Base.Text.{Text, IsCstr}
use cfg_mgr.Params.{NetParam, CaptureParam, FilterParam}
use cfg_mgr.Config.RoundTrip.{IsNet}
use cfg_mgr.Inet.Bounds.{inet_pton_field-fits}
use cfg_mgr.Share.{mac_string2hex}
use cfg_mgr.Share.Bounds.{mac_string2hex-fits}
use cfg_mgr.Cgi.{Form, required, true_or_false}
use cfg_mgr.Cgi.Net.{lan_field, net_param_get, capture_param_get, filter_param_get}
use cfg_mgr.Cgi.Net.Settings.{IsCapture}

-- The text of an interface's field, which must not be empty.
abbrev given : Form → ℕ → String → String → Option Text
given form n first second = required (form.form_string (lan_field n first second))

true_or_false-fits : (s : Text) (b : ℕ) → true_or_false s ≡ some b → b ≤ 1
unfolding true_or_false
true_or_false-fits s b h = ground arith

-- Addresses of 32 bits and a MAC of six bytes, whatever the texts of the form.
pub net_param_get-IsNet :
    (temp : ℕ) (form : Form) (n : ℕ) (net : NetParam)
    → net_param_get temp form n ≡ some net
    → IsNet net × (net.is_dhcp ≤ 1)
unfolding net_param_get
net_param_get-IsNet temp form n net h =
    let (auto, _, h₁) = bind-some (given form n "Lan1_Auto" "Lan2_Auto") _ _ h in
    let (mac_text, _, h₂) = bind-some (given form n "Lan1_Mac" "Lan2_Mac") _ _ h₁ in
    let (is_dhcp, flag, h₃) = bind-some (true_or_false auto) _ _ h₂ in
    let (ip, _, h₄) = bind-some (given form n "Lan1_IP" "Lan2_IP") _ _ h₃ in
    let (mask, _, h₅) = bind-some (given form n "Lan1_Mask" "Lan2_Mask") _ _ h₄ in
    let (gateway, _, h₆) = bind-some (given form n "Lan1_GateWay" "Lan2_GateWay") _ _ h₅ in
    let (mac, bytes, h₇) = bind-some (mac_string2hex temp mac_text) _ _ h₆ in
    let (six, small) = mac_string2hex-fits temp mac_text mac bytes in
    subst (λ (x : NetParam). IsNet x × (x.is_dhcp ≤ 1)) (some-injective _ _ h₇)
      (
        record {
          ip_fits = inet_pton_field-fits ip;
          mask_fits = inet_pton_field-fits mask;
          gateway_fits = inet_pton_field-fits gateway;
          mac_six = six;
          mac_bytes = small;
        },
        true_or_false-fits auto is_dhcp flag,
      )

pub capture_param_get-fits :
    (form : Form) (n : ℕ) (c : CaptureParam)
    → capture_param_get form n ≡ some c
    → (c.is_capture ≤ 1) × (c.is_auto_up_load ≤ 1)
unfolding capture_param_get
capture_param_get-fits form n c h =
    let (status, _, h₁) =
      bind-some (given form n "Lan1_CaptureServiceStatus" "Lan2_CaptureServiceStatus") _ _ h in
    let (enable, _, h₂) =
      bind-some (given form n "Lan1_AutoUpLoadEnable" "Lan2_AutoUpLoadEnable") _ _ h₁ in
    let (at, _, h₃) = bind-some (given form n "Lan1_AutoUpLoadPath" "Lan2_AutoUpLoadPath") _ _ h₂ in
    let (is_capture, flag₁, h₄) = bind-some (true_or_false status) _ _ h₃ in
    let (is_auto_up_load, flag₂, h₅) = bind-some (true_or_false enable) _ _ h₄ in
    subst (λ (x : CaptureParam). (x.is_capture ≤ 1) × (x.is_auto_up_load ≤ 1))
      (some-injective _ _ h₅)
      (true_or_false-fits status is_capture flag₁, true_or_false-fits enable is_auto_up_load flag₂)

pub capture_param_get-IsCapture :
    (form : Form) (n : ℕ) (c : CaptureParam)
    → capture_param_get form n ≡ some c
    → IsCstr 254 c.auto_up_load_path
    → IsCapture c
capture_param_get-IsCapture form n c h path =
    let (capture, upload) = capture_param_get-fits form n c h in
    record {
      capture_fits = omega (arith, capture);
      upload_fits = omega (arith, upload);
      path_fits = path;
    }

pub filter_param_get-fits :
    (form : Form) (n : ℕ) (f : FilterParam) → filter_param_get form n ≡ some f → f.is_filter ≤ 1
unfolding filter_param_get
filter_param_get-fits form n f h =
    let (status, _, h₁) =
      bind-some (given form n "Lan1_NetFilterServiceStatus" "Lan2_NetFilterServiceStatus") _ _ h in
    let (is_filter, flag, h₂) = bind-some (true_or_false status) _ _ h₁ in
    subst (λ (x : FilterParam). x.is_filter ≤ 1) (some-injective _ _ h₂)
      (true_or_false-fits status is_filter flag)
