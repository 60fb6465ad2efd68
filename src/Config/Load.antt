-- ===== src/Config/Load.antt =====
-- paramLoad of web.c: the configuration from the document that Mini-XML has read.
pub mod Traces
use Prim.Native.String.{String}
use text.Mathlib.Text.{◌==◌ as str_eq}
use cfg_mgr.Base.{ℕ, ◌&&◌, List, [], ◌∷◌, Option, none, some, if◌then◌else◌, take, ◌>>=◌}
use cfg_mgr.Base.Text.{Text, codes, strstr}
use cfg_mgr.Inet.{inet_pton_field}
use cfg_mgr.Share.{mac_string2hex}
use cfg_mgr.Params.{CaptureParam, LanParam, UserParam, Param}
use cfg_mgr.Env.{Doc}

-- `mxmlFindElement` below the parent element, and the text of its last child (mxmlGetLastChild and
-- mxmlGetText); none where there is no such element.
unfoldable pub find_element : String → String → Doc → Option Text
find_element parent element [] = none
find_element parent element (e ∷ doc) =
    if str_eq e.parent parent && str_eq e.element element
    then some e.text
    else find_element parent element doc

-- The text of an element that must have one: an element without text has no child node, so that
-- `assert (node)` fails, as `assert` of the element does.
unfoldable pub element_text : String → String → Doc → Option Text
element_text parent element doc = elim (find_element parent element doc) [
  | none ↦ none
  | some t ↦ elim t [ [] ↦ none | c ∷ s ↦ some (c ∷ s) ]
]

-- `strstr (attr_value, "true")` as an `int`.
abbrev pub flag_of : Text → ℕ
flag_of t = if strstr t (codes "true") then 1 else 0

-- A field zeroed before that macString2Hex fills: it stays zero where that returns -1.
unfoldable pub mac_field : ℕ → Text → List ℕ
mac_field temp t = elim (mac_string2hex temp t) [
  | none ↦ 0 ∷ 0 ∷ 0 ∷ 0 ∷ 0 ∷ 0 ∷ []
  | some mac ↦ mac
]

-- The names of the nine elements of an interface.
pub record LanNames : Type 0 where
  pub lan : String
  pub auto : String
  pub ip : String
  pub mask : String
  pub gateway : String
  pub mac : String
  pub capture_status : String
  pub auto_enable : String
  pub auto_path : String
  pub filter_status : String

abbrev pub lan1_names : LanNames
lan1_names = record {
  lan = "Lan1";
  auto = "Lan1_Auto";
  ip = "Lan1_IP";
  mask = "Lan1_Mask";
  gateway = "Lan1_GateWay";
  mac = "Lan1_Mac";
  capture_status = "Lan1_CaptureServiceStatus";
  auto_enable = "Lan1_AutoUpLoadEnable";
  auto_path = "Lan1_AutoUpLoadPath";
  filter_status = "Lan1_NetFilterServiceStatus";
}

abbrev pub lan2_names : LanNames
lan2_names = record {
  lan = "Lan2";
  auto = "Lan2_Auto";
  ip = "Lan2_IP";
  mask = "Lan2_Mask";
  gateway = "Lan2_GateWay";
  mac = "Lan2_Mac";
  capture_status = "Lan2_CaptureServiceStatus";
  auto_enable = "Lan2_AutoUpLoadEnable";
  auto_path = "Lan2_AutoUpLoadPath";
  filter_status = "Lan2_NetFilterServiceStatus";
}

-- One interface. Its isCapture is read from the capture element, and then again from the element of
-- the automatic upload, which has the last word; isAutoUpLoad stays zero.
unfoldable pub load_lan : ℕ → LanNames → Doc → Option LanParam
load_lan temp n doc = do
  auto ← element_text n.lan n.auto doc
  ip ← element_text n.lan n.ip doc
  mask ← element_text n.lan n.mask doc
  gateway ← element_text n.lan n.gateway doc
  mac ← element_text n.lan n.mac doc
  capture_status ← element_text n.lan n.capture_status doc
  auto_enable ← element_text n.lan n.auto_enable doc
  auto_path ← find_element n.lan n.auto_path doc
  filter_status ← element_text n.lan n.filter_status doc
  let first : CaptureParam = record {
    is_capture = flag_of capture_status;
    is_auto_up_load = 0;
    auto_up_load_path = take 255 auto_path;
  }
  some (record {
    net = record {
      is_dhcp = flag_of auto;
      ip = inet_pton_field ip;
      mask = inet_pton_field mask;
      gateway = inet_pton_field gateway;
      mac = mac_field temp mac;
    };
    capture = record first { is_capture = flag_of auto_enable };
    filter = record { is_filter = flag_of filter_status };
  })

-- One user: `strncpy` of 21 bytes each. (A text of 21 characters or more fills its field without a
-- NUL, and what reads it as a C string goes on behind it; the model has the 21 characters, and
-- IsValid leaves such a user out.)
unfoldable pub load_user : String → Doc → Option UserParam
load_user parent doc = do
  name ← element_text parent "UserName" doc
  passwd ← element_text parent "UserPws" doc
  some (record { user_name = take 21 name; passwd = take 21 passwd })

-- `paramLoad` on a file that has opened; `none` is a failed assertion. `temp` is what the variable
-- of macString2Hex holds at first.
unfoldable pub param_load : ℕ → Doc → Option Param
param_load temp doc = do
  lan1 ← load_lan temp lan1_names doc
  lan2 ← load_lan temp lan2_names doc
  admin ← load_user "Administrators" doc
  normal ← load_user "NomalUser" doc
  some (record { lan1 = lan1; lan2 = lan2; admin = admin; normal = normal })
