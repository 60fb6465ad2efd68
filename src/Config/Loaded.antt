-- ===== src/Config/Loaded.antt =====
-- What paramLoad reads can be saved: the configuration of a daemon that has started.
use Prim.Native.String.{String}
use mathlib.Core.Option.{some-injective}
use mathlib.Core.Path.{subst}
use cfg_mgr.Base.{
  length-take, ℕ, ◌≡◌, ◌≢◌, ◌≤◌, ◌<◌, refl, ◌∙◌, [], ◌∷◌, Option, none, some, length, take, All,
  arith, bind-some, Option-cases, inl, inr,
}
use cfg_mgr.Base.Text.{Text, strstr}
use cfg_mgr.Params.{LanParam, UserParam, Param, IsValid}
use cfg_mgr.Env.{Doc}
use cfg_mgr.Inet.Bounds.{inet_pton_field-fits}
use cfg_mgr.Share.{mac_string2hex}
use cfg_mgr.Share.Bounds.{mac_string2hex-fits}
use cfg_mgr.Config.{param_doc}
use cfg_mgr.Config.Load.{
  find_element, element_text, flag_of, mac_field, LanNames, lan1_names, lan2_names, load_lan,
  load_user, param_load,
}
use cfg_mgr.Config.RoundTrip.{IsNet, HasTexts, reloaded, as_flag-bit, param_load-param_doc}

flag_of-bit : (t : Text) → flag_of t ≤ 1
unfolding strstr
flag_of-bit t = ground arith

mac_field-fits :
    (temp : ℕ) (t : Text) → (length (mac_field temp t) ≡ 6) × All (λ b. b < 256) (mac_field temp t)
unfolding mac_field
mac_field-fits temp t = elim (Option-cases (mac_string2hex temp t)) [
  | inl bad ↦ rw (mac_field, bad) (ground arith)
  | inr (mac, good) ↦ rw (mac_field, good) (mac_string2hex-fits temp t mac good)
]

given_text :
    (o : Option Text) (t : Text)
    → (elim o as (λ _. Option Text) [
      | none ↦ none
      | some s ↦ elim s as (λ _. Option Text) [ [] ↦ none | c ∷ s ↦ some (c ∷ s) ]
    ])
      ≡ some t
    → t ≢ []
given_text none t h = cc
given_text (some []) t h = cc
given_text (some (c ∷ s)) t h = let same : c ∷ s ≡ t = cc in λ e. cc

element_text-given :
    (parent element : String) (doc : Doc) (t : Text)
    → element_text parent element doc ≡ some t
    → t ≢ []
unfolding element_text
element_text-given parent element doc t h = given_text (find_element parent element doc) t h

-- An interface that has been read: what fits, flags of 0 or 1, and no upload.
record IsLoaded (lan : LanParam) : Type 0 where
  net_fits : IsNet lan.net
  dhcp_bit : lan.net.is_dhcp ≤ 1
  filter_bit : lan.filter.is_filter ≤ 1
  no_upload : lan.capture.is_auto_up_load ≡ 0
  path_fits : length lan.capture.auto_up_load_path ≤ 255

load_lan-IsLoaded :
    (temp : ℕ) (n : LanNames) (doc : Doc) (lan : LanParam)
    → load_lan temp n doc ≡ some lan
    → IsLoaded lan
unfolding load_lan
load_lan-IsLoaded temp n doc lan h =
    let (auto, _, h₁) = bind-some (element_text n.lan n.auto doc) _ _ h in
    let (ip, _, h₂) = bind-some (element_text n.lan n.ip doc) _ _ h₁ in
    let (mask, _, h₃) = bind-some (element_text n.lan n.mask doc) _ _ h₂ in
    let (gateway, _, h₄) = bind-some (element_text n.lan n.gateway doc) _ _ h₃ in
    let (mac, _, h₅) = bind-some (element_text n.lan n.mac doc) _ _ h₄ in
    let (status, _, h₆) = bind-some (element_text n.lan n.capture_status doc) _ _ h₅ in
    let (enable, _, h₇) = bind-some (element_text n.lan n.auto_enable doc) _ _ h₆ in
    let (path, _, h₈) = bind-some (find_element n.lan n.auto_path doc) _ _ h₇ in
    let (filter, _, h₉) = bind-some (element_text n.lan n.filter_status doc) _ _ h₈ in
    let (six, bytes) = mac_field-fits temp mac in
    subst IsLoaded (some-injective _ _ h₉) (record {
      net_fits = record {
        ip_fits = inet_pton_field-fits ip;
        mask_fits = inet_pton_field-fits mask;
        gateway_fits = inet_pton_field-fits gateway;
        mac_six = six;
        mac_bytes = bytes;
      };
      dhcp_bit = flag_of-bit auto;
      filter_bit = flag_of-bit filter;
      no_upload = refl;
      path_fits = omega (arith, length-take 255 path);
    })

take_given : (t : Text) → t ≢ [] → take 21 t ≢ []
take_given [] h = h
take_given (c ∷ s) h = λ e. cc

load_user-HasTexts :
    (parent : String) (doc : Doc) (u : UserParam) → load_user parent doc ≡ some u → HasTexts u
unfolding load_user
load_user-HasTexts parent doc u h =
    let (name, named, h₁) = bind-some (element_text parent "UserName" doc) _ _ h in
    let (passwd, secret, h₂) = bind-some (element_text parent "UserPws" doc) _ _ h₁ in
    subst HasTexts (some-injective _ _ h₂) (record {
      named = take_given name (element_text-given parent "UserName" doc name named);
      secret = take_given passwd (element_text-given parent "UserPws" doc passwd secret);
    })

-- The interface without its capture.
abbrev pub idle : LanParam → LanParam
idle lan = record lan { capture = record lan.capture { is_capture = 0 } }

reloaded-idle : (lan : LanParam) → IsLoaded lan → reloaded lan ≡ idle lan
reloaded-idle lan v =
    rw
      (
        as_flag-bit lan.net.is_dhcp v.dhcp_bit,
        as_flag-bit lan.filter.is_filter v.filter_bit,
        v.no_upload,
      )
      refl

-- A configuration that paramLoad has read and paramSave has written again is read back as it was,
-- except that no interface captures any more: the names and the passwords have 1 to 20 characters.
pub param_load-resaved :
    (temp temp' : ℕ) (doc : Doc) (p : Param)
    → param_load temp doc ≡ some p
    → IsValid p
    → param_load temp' (param_doc p) ≡ some (record p { lan1 = idle p.lan1; lan2 = idle p.lan2 })
unfolding param_load
param_load-resaved temp temp' doc p h v =
    let (lan1, read1, h₁) = bind-some (load_lan temp lan1_names doc) _ _ h in
    let (lan2, read2, h₂) = bind-some (load_lan temp lan2_names doc) _ _ h₁ in
    let (admin, read_admin, h₃) = bind-some (load_user "Administrators" doc) _ _ h₂ in
    let (normal, read_normal, h₄) = bind-some (load_user "NomalUser" doc) _ _ h₃ in
    let same = some-injective _ _ h₄ in
    let on1 =
      subst (λ (x : Param). IsLoaded x.lan1) same (load_lan-IsLoaded temp _ doc lan1 read1) in
    let on2 =
      subst (λ (x : Param). IsLoaded x.lan2) same (load_lan-IsLoaded temp _ doc lan2 read2) in
    let texts1 =
      subst (λ (x : Param). HasTexts x.admin) same (load_user-HasTexts _ doc admin read_admin) in
    let texts2 =
      subst (λ (x : Param). HasTexts x.normal) same (load_user-HasTexts _ doc normal read_normal) in
    param_load-param_doc temp' p v texts1 texts2 on1.net_fits on2.net_fits on1.path_fits
      on2.path_fits
    ∙ rw (reloaded-idle p.lan1 on1, reloaded-idle p.lan2 on2) refl
