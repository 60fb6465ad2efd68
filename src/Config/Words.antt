-- ===== src/Config/Words.antt =====
-- Which documents paramSave writes without a blank in any text, so that Mini-XML reads them as they
-- are.
use cfg_mgr.Base.{ℕ, zero, suc, ◌+◌, ◌/◌, ◌%◌, ◌<◌, List, [], ◌∷◌, ◌++◌, All, arith}
use cfg_mgr.Base.Text.{Text, inet_ntoa, dec_onto, fmt_02x, hex_digit}
use cfg_mgr.Share.{mac_hex2string}
use cfg_mgr.Params.{LanParam, UserParam, Param}
use cfg_mgr.Env.{Doc, Entry}
use cfg_mgr.Config.{bool_text, save_lan1, save_lan2, save_users, param_doc}

-- Printable ASCII without blanks.
abbrev pub IsWord : Text → Type 0
IsWord s = All (λ c. (32 < c) × (c < 127)) s

abbrev pub Worded : Doc → Type 0
Worded doc = All (λ (e : Entry). IsWord e.text) doc

All-append {ℓ κ} :
    {A : Type ℓ} (P : A → Type κ) (xs ys : List A) → All P xs → All P ys → All P (xs ++ ys)
All-append P [] ys hx hy = hy
All-append P (x ∷ xs) ys hx hy = (hx.0, All-append P xs ys hx.1 hy)

bool_text-IsWord : (n : ℕ) → IsWord (bool_text n)
bool_text-IsWord n = ground arith

dec_onto-IsWord : (fuel n : ℕ) (rest : Text) → IsWord rest → IsWord (dec_onto fuel n rest)
unfolding dec_onto
dec_onto-IsWord zero n rest h = h
dec_onto-IsWord (suc fuel) n rest h =
    let digit : (32 < 48 + n % 10) × (48 + n % 10 < 127) = (omega arith, omega arith) in
    let more = dec_onto-IsWord fuel (n / 10) ((48 + n % 10) ∷ rest) (digit, h) in
    ground (arith, more)

inet_ntoa-IsWord : (a : ℕ) → IsWord (inet_ntoa a)
unfolding inet_ntoa
inet_ntoa-IsWord a =
    let dot : (32 < 46) × (46 < 127) = (omega arith, omega arith) in
    dec_onto-IsWord 3 _ _
      (dot, dec_onto-IsWord 3 _ _ (dot, dec_onto-IsWord 3 _ _ (dot, dec_onto-IsWord 3 _ [] tt)))

fmt_02x-IsWord : (b : ℕ) → IsWord (fmt_02x b)
unfolding fmt_02x hex_digit
fmt_02x-IsWord b = ground arith

mac_hex2string-IsWord : (mac : List ℕ) → IsWord (mac_hex2string mac)
unfolding mac_hex2string
mac_hex2string-IsWord [] = tt
mac_hex2string-IsWord (b ∷ []) = fmt_02x-IsWord b
mac_hex2string-IsWord (b ∷ b' ∷ bs) =
    All-append _ (fmt_02x b) _ (fmt_02x-IsWord b)
      ((omega arith, omega arith), mac_hex2string-IsWord (b' ∷ bs))

save_lan1-Worded : (lan : LanParam) → IsWord lan.capture.auto_up_load_path → Worded (save_lan1 lan)
unfolding save_lan1
save_lan1-Worded lan path = (
  bool_text-IsWord lan.net.is_dhcp,
  (
    inet_ntoa-IsWord lan.net.ip,
    (
      inet_ntoa-IsWord lan.net.mask,
      (
        inet_ntoa-IsWord lan.net.gateway,
        (
          mac_hex2string-IsWord lan.net.mac,
          (
            bool_text-IsWord lan.capture.is_capture,
            (
              bool_text-IsWord lan.capture.is_auto_up_load,
              (path, (bool_text-IsWord lan.filter.is_filter, tt)),
            ),
          ),
        ),
      ),
    ),
  ),
)

save_lan2-Worded : (lan : LanParam) → IsWord lan.capture.auto_up_load_path → Worded (save_lan2 lan)
unfolding save_lan2
save_lan2-Worded lan path = (
  bool_text-IsWord lan.net.is_dhcp,
  (
    inet_ntoa-IsWord lan.net.ip,
    (
      inet_ntoa-IsWord lan.net.mask,
      (
        inet_ntoa-IsWord lan.net.gateway,
        (
          mac_hex2string-IsWord lan.net.mac,
          (
            bool_text-IsWord lan.capture.is_capture,
            (
              bool_text-IsWord lan.capture.is_auto_up_load,
              (path, (bool_text-IsWord lan.filter.is_filter, tt)),
            ),
          ),
        ),
      ),
    ),
  ),
)

-- A user whose name and password are words.
pub record HasWords (u : UserParam) : Type 0 where
  pub name_word : IsWord u.user_name
  pub passwd_word : IsWord u.passwd

pub param_doc-Worded :
    (p : Param)
    → HasWords p.admin
    → HasWords p.normal
    → IsWord p.lan1.capture.auto_up_load_path
    → IsWord p.lan2.capture.auto_up_load_path
    → Worded (param_doc p)
unfolding param_doc save_users
param_doc-Worded p a n path1 path2 =
    All-append _ (save_lan1 p.lan1) _ (save_lan1-Worded p.lan1 path1) (
      All-append _ (save_lan2 p.lan2) _ (save_lan2-Worded p.lan2 path2)
        (a.name_word, (a.passwd_word, (n.name_word, (n.passwd_word, tt)))))
