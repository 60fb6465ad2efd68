-- ===== src/Config/RoundTrip.antt =====
-- The configuration that paramLoad reads from what paramSave has written.
use Prim.Native.String.{String}
use cfg_mgr.Base.{
  ℕ, ◌≤◌, ◌<◌, ◌≡◌, ◌≢◌, refl, ap, sym, ◌∙◌, List, [], ◌∷◌, some, if◌then◌else◌, arith, length, All,
  take-eq_self, ◌==◌,
}
use cfg_mgr.Base.Text.{Text, strstr, inet_ntoa}
use cfg_mgr.Inet.{inet_pton_field, inet_pton, octet}
use cfg_mgr.Inet.RoundTrip.{inet_pton-inet_ntoa}
use cfg_mgr.Share.{mac_string2hex, mac_hex2string}
use cfg_mgr.Share.RoundTrip.{mac_string2hex-mac_hex2string}
use cfg_mgr.Params.{NetParam, LanParam, UserParam, Param, IsUser, IsValid}
use cfg_mgr.Env.{Doc}
use cfg_mgr.Config.{bool_text, save_lan1, save_lan2, save_users, param_doc}
use cfg_mgr.Config.Load.{
  find_element, element_text, flag_of, mac_field, LanNames, lan1_names, lan2_names, load_lan,
  load_user, param_load,
}

-- What a flag is after it has been saved as "true" or "false" and read again.
abbrev pub as_flag : ℕ → ℕ
as_flag n = if n == 0 then 0 else 1

-- A flag of 0 or 1 stays as it is.
pub as_flag-bit : (b : ℕ) → b ≤ 1 → as_flag b ≡ b
as_flag-bit b h = ground arith

flag_of-bool_text : (n : ℕ) → flag_of (bool_text n) ≡ as_flag n
unfolding strstr
flag_of-bool_text n = ground arith

-- The parameters that a saved file can hold: 32-bit addresses and six bytes of a MAC.
pub record IsNet (net : NetParam) : Type 0 where
  pub ip_fits : net.ip < 4294967296
  pub mask_fits : net.mask < 4294967296
  pub gateway_fits : net.gateway < 4294967296
  pub mac_six : length net.mac ≡ 6
  pub mac_bytes : All (λ b. b < 256) net.mac

inet_pton_field-inet_ntoa : (a : ℕ) → a < 4294967296 → inet_pton_field (inet_ntoa a) ≡ a
unfolding inet_pton_field
inet_pton_field-inet_ntoa a h = rw (inet_pton-inet_ntoa a h, inet_pton_field)

mac_field-mac_hex2string :
    (temp : ℕ) (mac : List ℕ)
    → length mac ≡ 6
    → All (λ b. b < 256) mac
    → mac_field temp (mac_hex2string mac) ≡ mac
unfolding mac_field
mac_field-mac_hex2string temp mac six h =
    rw (mac_string2hex-mac_hex2string temp mac six h, mac_field)

-- What loading makes of an interface's parameters that were saved.
abbrev pub reloaded : LanParam → LanParam
reloaded lan = record {
  net = record lan.net { is_dhcp = as_flag lan.net.is_dhcp };
  capture = record {
    is_capture = as_flag lan.capture.is_auto_up_load;
    is_auto_up_load = 0;
    auto_up_load_path = lan.capture.auto_up_load_path;
  };
  filter = record { is_filter = as_flag lan.filter.is_filter };
}

element_text_of :
    (parent element : String) (doc : Doc) (t : Text)
    → find_element parent element doc ≡ some t
    → t ≢ []
    → element_text parent element doc ≡ some t
unfolding element_text
element_text_of parent element doc [] e h = absurd (h refl)
element_text_of parent element doc (c ∷ s) e h = rw (e, element_text)

bool_text-ne-nil : (n : ℕ) → bool_text n ≢ []
bool_text-ne-nil n = ground arith

inet_ntoa-ne-nil : (a : ℕ) → a < 4294967296 → inet_ntoa a ≢ []
unfolding inet_pton octet
inet_ntoa-ne-nil a h e =
    let read = inet_pton-inet_ntoa a h in
    let empty : inet_pton [] ≡ some a = ap inet_pton (sym e) ∙ read in cc

mac_hex2string-ne-nil :
    (mac : List ℕ) → length mac ≡ 6 → All (λ b. b < 256) mac → mac_hex2string mac ≢ []
unfolding mac_string2hex
mac_hex2string-ne-nil mac six h e =
    let read = mac_string2hex-mac_hex2string 0 mac six h in
    let empty : mac_string2hex 0 [] ≡ some mac = ap (mac_string2hex 0) (sym e) ∙ read in cc

-- The texts of an interface's elements in a document, under the names of the interface.
record HasLan (n : LanNames) (lan : LanParam) (doc : Doc) : Type 0 where
  has_auto : find_element n.lan n.auto doc ≡ some (bool_text lan.net.is_dhcp)
  has_ip : find_element n.lan n.ip doc ≡ some (inet_ntoa lan.net.ip)
  has_mask : find_element n.lan n.mask doc ≡ some (inet_ntoa lan.net.mask)
  has_gateway : find_element n.lan n.gateway doc ≡ some (inet_ntoa lan.net.gateway)
  has_mac : find_element n.lan n.mac doc ≡ some (mac_hex2string lan.net.mac)
  has_status : find_element n.lan n.capture_status doc ≡ some (bool_text lan.capture.is_capture)
  has_enable : find_element n.lan n.auto_enable doc ≡ some (bool_text lan.capture.is_auto_up_load)
  has_path : find_element n.lan n.auto_path doc ≡ some lan.capture.auto_up_load_path
  has_filter : find_element n.lan n.filter_status doc ≡ some (bool_text lan.filter.is_filter)

load_saved_lan :
    (temp : ℕ) (n : LanNames) (lan : LanParam) (doc : Doc)
    → HasLan n lan doc
    → IsNet lan.net
    → length lan.capture.auto_up_load_path ≤ 255
    → load_lan temp n doc ≡ some (reloaded lan)
unfolding load_lan
load_saved_lan temp n lan doc h v short =
    let net = lan.net in
    rw
      (
        element_text_of n.lan n.auto doc _ h.has_auto (bool_text-ne-nil net.is_dhcp),
        element_text_of n.lan n.ip doc _ h.has_ip (inet_ntoa-ne-nil net.ip v.ip_fits),
        element_text_of n.lan n.mask doc _ h.has_mask (inet_ntoa-ne-nil net.mask v.mask_fits),
        element_text_of n.lan n.gateway doc _ h.has_gateway
            (inet_ntoa-ne-nil net.gateway v.gateway_fits),
        element_text_of n.lan n.mac doc _ h.has_mac
            (mac_hex2string-ne-nil net.mac v.mac_six v.mac_bytes),
        element_text_of n.lan n.capture_status doc _ h.has_status
            (bool_text-ne-nil lan.capture.is_capture),
        element_text_of n.lan n.auto_enable doc _ h.has_enable
            (bool_text-ne-nil lan.capture.is_auto_up_load),
        h.has_path,
        element_text_of n.lan n.filter_status doc _ h.has_filter
            (bool_text-ne-nil lan.filter.is_filter),
      )
      rw
      (
        flag_of-bool_text net.is_dhcp,
        flag_of-bool_text lan.capture.is_auto_up_load,
        flag_of-bool_text lan.filter.is_filter,
        inet_pton_field-inet_ntoa net.ip v.ip_fits,
        inet_pton_field-inet_ntoa net.mask v.mask_fits,
        inet_pton_field-inet_ntoa net.gateway v.gateway_fits,
        mac_field-mac_hex2string temp net.mac v.mac_six v.mac_bytes,
        take-eq_self 255 lan.capture.auto_up_load_path short,
      )
      refl

load_saved_user :
    (parent : String) (u : UserParam) (doc : Doc)
    → find_element parent "UserName" doc ≡ some u.user_name
    → find_element parent "UserPws" doc ≡ some u.passwd
    → u.user_name ≢ []
    → u.passwd ≢ []
    → IsUser u
    → load_user parent doc ≡ some u
unfolding load_user
load_saved_user parent u doc en ep hn hp v =
    let name_short = v.name_fits.fits in
    let passwd_short = v.passwd_fits.fits in
    rw (
      element_text_of parent "UserName" doc _ en hn,
      element_text_of parent "UserPws" doc _ ep hp,
      take-eq_self 21 u.user_name (omega arith),
      take-eq_self 21 u.passwd (omega arith),
    )

-- No user has an empty name or password, of which the file would have no text.
pub record HasTexts (u : UserParam) : Type 0 where
  pub named : u.user_name ≢ []
  pub secret : u.passwd ≢ []

-- Loading what has been saved gives the configuration back, but for the capture flags: isCapture
-- comes back as the saved isAutoUpLoad, and isAutoUpLoad as 0, in both interfaces. Every other flag
-- comes back as 0 or 1, and addresses, masks, gateways, MACs, paths, names and passwords as they
-- were. The configuration has users with names and passwords of 1 to 20 characters, 32-bit
-- addresses, six bytes of MAC and paths of at most 255 characters.
pub param_load-param_doc :
    (temp : ℕ) (p : Param)
    → IsValid p
    → HasTexts p.admin
    → HasTexts p.normal
    → IsNet p.lan1.net
    → IsNet p.lan2.net
    → length p.lan1.capture.auto_up_load_path ≤ 255
    → length p.lan2.capture.auto_up_load_path ≤ 255
    → param_load temp (param_doc p)
      ≡ some (record p { lan1 = reloaded p.lan1; lan2 = reloaded p.lan2 })
unfolding param_load
param_load-param_doc temp p v ta tn n1 n2 short1 short2 =
    let has1 : HasLan lan1_names p.lan1 (param_doc p) =
      unfold find_element param_doc save_lan1 in
      record {
        has_auto = refl;
        has_ip = refl;
        has_mask = refl;
        has_gateway = refl;
        has_mac = refl;
        has_status = refl;
        has_enable = refl;
        has_path = refl;
        has_filter = refl;
      } in
    let has2 : HasLan lan2_names p.lan2 (param_doc p) =
      unfold find_element param_doc save_lan1 save_lan2 in
      record {
        has_auto = refl;
        has_ip = refl;
        has_mask = refl;
        has_gateway = refl;
        has_mac = refl;
        has_status = refl;
        has_enable = refl;
        has_path = refl;
        has_filter = refl;
      } in
    let admin_name : find_element "Administrators" "UserName" (param_doc p)
        ≡ some p.admin.user_name =
      unfold find_element param_doc save_lan1 save_lan2 save_users in refl in
    let admin_key : find_element "Administrators" "UserPws" (param_doc p) ≡ some p.admin.passwd =
      unfold find_element param_doc save_lan1 save_lan2 save_users in refl in
    let normal_name : find_element "NomalUser" "UserName" (param_doc p) ≡ some p.normal.user_name =
      unfold find_element param_doc save_lan1 save_lan2 save_users in refl in
    let normal_key : find_element "NomalUser" "UserPws" (param_doc p) ≡ some p.normal.passwd =
      unfold find_element param_doc save_lan1 save_lan2 save_users in refl in
    rw
      (
        load_saved_lan temp lan1_names p.lan1 _ has1 n1 short1,
        load_saved_lan temp lan2_names p.lan2 _ has2 n2 short2,
        load_saved_user "Administrators" p.admin _ admin_name admin_key ta.named ta.secret
            v.admin_valid,
        load_saved_user "NomalUser" p.normal _ normal_name normal_key tn.named tn.secret
            v.normal_valid,
      )
      refl
