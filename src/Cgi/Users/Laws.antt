-- ===== src/Cgi/Users/Laws.antt =====
-- What the requests with names and passwords put into their messages.
use cfg_mgr.Base.{ℕ, ◌+◌, ◌≤◌, ◌<◌, ◌≡◌, ◌≢◌, refl, [], ◌∷◌, none, some, arith, length, inl, inr}
use cfg_mgr.Base.Text.{Text, IsCstr}
use cfg_mgr.Memory.{Bytes, strncpy}
use cfg_mgr.Memory.Strings.{Holds, Holds-frame, strncpy-Holds, strncpy_outside}
use cfg_mgr.Message.{
  Msg, login_request, normalusermgr_request, superusermgr_request, adminpasswdcomfirm_request,
}
use cfg_mgr.Cgi.{Form, key_len_chk}
use cfg_mgr.Cgi.Users.{key_text, login, normal_user_mgr, super_user_mgr, admin_passwd_confirm}

-- A name or a password that the requests take: 1 to 20 characters.
pub record IsKey (s : Text) : Type 0 where
  pub given : s ≢ []
  pub cstr : IsCstr 20 s

pub key_text-IsKey : (s : Text) → IsKey s → key_text s ≡ some s
unfolding key_len_chk
key_text-IsKey [] v = absurd (v.given refl)
key_text-IsKey (c ∷ s) v = let short = v.cstr.fits in ground arith

key_text_long : (s : Text) → 20 < length s → key_text s ≡ none
unfolding key_len_chk
key_text_long [] h = absurd (omega arith)
key_text_long (c ∷ s) h = ground arith

-- A text stays where it is under a strncpy in front of it or behind its NUL.
strncpy_before-Holds :
    (off n at : ℕ) (t s : Text) (d : Bytes)
    → off + n ≤ at
    → Holds s at d
    → Holds s at (strncpy off n t d)
strncpy_before-Holds off n at t s d le h =
    Holds-frame s at d _ (λ i lo hi. strncpy_outside off n t d i (inr (omega arith))) h

strncpy_behind-Holds :
    (off n at : ℕ) (t s : Text) (d : Bytes)
    → at + length s < off
    → Holds s at d
    → Holds s at (strncpy off n t d)
strncpy_behind-Holds off n at t s d lt h =
    Holds-frame s at d _ (λ i lo hi. strncpy_outside off n t d i (inl (omega arith))) h

module _ (form : Form) (m : Msg) where
  -- A login form with a name and a password of 1 to 20 characters becomes a login request that
  -- holds both with their NULs, whatever the message variable held.
  pub login-Holds :
      IsKey (form.form_string "UserName")
      → IsKey (form.form_string "Passwd")
      → (r : Msg) × (login form m ≡ some r)
        × (r.type ≡ login_request)
        × Holds (form.form_string "UserName") 0 r.payload
        × Holds (form.form_string "Passwd") 21 r.payload
  unfolding login
  login-Holds vn vp =
      let name = form.form_string "UserName" in
      let passwd = form.form_string "Passwd" in
      let first = strncpy 0 21 name m.payload in
      let short = vn.cstr.fits in
      (
        _,
        rw (key_text-IsKey name vn, key_text-IsKey passwd vp) refl,
        refl,
        strncpy_behind-Holds 21 21 0 passwd name first (omega arith)
            (strncpy-Holds 0 21 20 name m.payload vn.cstr (omega arith)),
        strncpy-Holds 21 21 20 passwd first vp.cstr (omega arith),
      )

  -- The form of a change of the normal user's password, with an old and a new one of 1 to 20
  -- characters, becomes a request that holds both.
  pub normal_user_mgr-Holds :
      IsKey (form.form_string "PrimaryKey")
      → IsKey (form.form_string "NewKey")
      → (r : Msg) × (normal_user_mgr form m ≡ some r)
        × (r.type ≡ normalusermgr_request)
        × Holds (form.form_string "PrimaryKey") 0 r.payload
        × Holds (form.form_string "NewKey") 21 r.payload
  unfolding normal_user_mgr
  normal_user_mgr-Holds vo vn =
      let old = form.form_string "PrimaryKey" in
      let new = form.form_string "NewKey" in
      let first = strncpy 21 21 new m.payload in
      (
        _,
        rw (key_text-IsKey new vn, key_text-IsKey old vo) refl,
        refl,
        strncpy-Holds 0 21 20 old first vo.cstr (omega arith),
        strncpy_before-Holds 0 21 21 old new first (omega arith)
            (strncpy-Holds 21 21 20 new m.payload vn.cstr (omega arith)),
      )

  -- The administrator's form holds the name, the administrator's password and the new one.
  pub super_user_mgr-Holds :
      IsKey (form.form_string "UserName")
      → IsKey (form.form_string "AdminKey")
      → IsKey (form.form_string "NewKey")
      → (r : Msg) × (super_user_mgr form m ≡ some r)
        × (r.type ≡ superusermgr_request)
        × Holds (form.form_string "UserName") 0 r.payload
        × Holds (form.form_string "AdminKey") 21 r.payload
        × Holds (form.form_string "NewKey") 42 r.payload
  unfolding super_user_mgr
  super_user_mgr-Holds vu va vn =
      let name = form.form_string "UserName" in
      let admin = form.form_string "AdminKey" in
      let new = form.form_string "NewKey" in
      let first = strncpy 0 21 name m.payload in
      let second = strncpy 21 21 admin first in
      let short = vu.cstr.fits in
      let short' = va.cstr.fits in
      (
        _,
        rw (key_text-IsKey name vu, key_text-IsKey admin va, key_text-IsKey new vn) refl,
        refl,
        strncpy_behind-Holds 42 21 0 new name second (omega arith) (
            strncpy_behind-Holds 21 21 0 admin name first (omega arith)
              (strncpy-Holds 0 21 20 name m.payload vu.cstr (omega arith))),
        strncpy_behind-Holds 42 21 21 new admin second (omega arith)
            (strncpy-Holds 21 21 20 admin first va.cstr (omega arith)),
        strncpy-Holds 42 21 20 new second vn.cstr (omega arith),
      )

  -- The administrator's password is held with its NUL where it has at most 19 characters.
  pub admin_passwd_confirm-Holds :
      IsKey (form.form_string "AdminPasswd")
      → length (form.form_string "AdminPasswd") ≤ 19
      → (r : Msg) × (admin_passwd_confirm form m ≡ some r)
        × (r.type ≡ adminpasswdcomfirm_request)
        × Holds (form.form_string "AdminPasswd") 0 r.payload
  unfolding admin_passwd_confirm
  admin_passwd_confirm-Holds v short =
      let passwd = form.form_string "AdminPasswd" in
      (
        _,
        rw (key_text-IsKey passwd v) refl,
        refl,
        strncpy-Holds 0 20 19 passwd m.payload (record { fits = short; chars = v.cstr.chars })
            (omega arith),
      )
