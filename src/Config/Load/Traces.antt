-- ===== src/Config/Load/Traces.antt =====
-- What paramLoad of web.c traces of the values that it has read.
use Prim.Native.String.{String}
use cfg_mgr.Base.{ℕ, ◌/◌, ◌≡◌, refl, List, [], ◌∷◌, ◌++◌, Option, none, some, if◌then◌else◌, ◌==◌}
use cfg_mgr.Base.Text.{Text, codes, fmt_02x}
use cfg_mgr.Params.{LanParam, UserParam, Param}
use cfg_mgr.Env.{Env, Doc}
use cfg_mgr.Trace.{Daemon, system, debug_info, trace}
use cfg_mgr.Config.Load.{element_text, flag_of, LanNames, lan1_names, lan2_names}

-- `%08x`
abbrev pub fmt_08x : ℕ → Text
fmt_08x w = fmt_02x (w / 16777216) ++ (fmt_02x (w / 65536) ++ (fmt_02x (w / 256) ++ fmt_02x w))

abbrev true_or_false : ℕ → Text
true_or_false flag = if flag == 0 then codes "false" else codes "true"

-- The text of an element that paramLoad has found.
abbrev found_text : Option Text → Text
found_text none = []
found_text (some t) = t

-- One interface: the MAC address is traced as it stands in the file, isCapture at both its elements,
-- and the filter under the name of the capture element.
unfoldable pub lan_traces : LanNames → Doc → LanParam → List Text
lan_traces n doc p =
    (codes n.lan ++ (codes " dhcp " ++ true_or_false p.net.is_dhcp))
    ∷ (codes n.ip ++ (codes " 0x" ++ fmt_08x p.net.ip))
    ∷ (codes n.mask ++ (codes " 0x" ++ fmt_08x p.net.mask))
    ∷ (codes n.gateway ++ (codes " 0x" ++ fmt_08x p.net.gateway))
    ∷ (codes n.mac ++ (codes " " ++ found_text (element_text n.lan n.mac doc)))
    ∷ (codes n.capture_status
        ++ (codes " "
            ++ true_or_false (flag_of (found_text (element_text n.lan n.capture_status doc)))))
    ∷ (codes n.auto_enable ++ (codes " " ++ true_or_false p.capture.is_capture))
    ∷ (codes n.capture_status ++ (codes " " ++ true_or_false p.filter.is_filter))
    ∷ []

-- A user's name and password, as they are.
unfoldable pub user_traces : String → UserParam → List Text
user_traces parent u =
    (codes parent ++ (codes " UserName " ++ u.user_name))
    ∷ (codes parent ++ (codes " UserPws " ++ u.passwd))
    ∷ []

unfoldable pub load_traces : Doc → Param → List Text
load_traces doc p =
    lan_traces lan1_names doc p.lan1
    ++ (lan_traces lan2_names doc p.lan2
        ++ (user_traces "Administrators" p.admin ++ user_traces "NomalUser" p.normal))

-- The texts are traced one after the other.
unfoldable pub trace_all : {env : Env} → List Text → Daemon env → Daemon env
trace_all [] d = d
trace_all (t ∷ ts) d = trace_all ts (trace debug_info system t d)

pub trace_all-pa : {env : Env} (ts : List Text) (d : Daemon env) → (trace_all ts d).pa ≡ d.pa
unfolding trace_all trace
trace_all-pa [] d = refl
trace_all-pa (t ∷ ts) d = trace_all-pa ts (trace debug_info system t d)
