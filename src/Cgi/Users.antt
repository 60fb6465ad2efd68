-- ===== src/Cgi/Users.antt =====
-- The requests of cfgMgrCgi.c with names and passwords: login, normalUserMgr, superUserMgr and
-- adminPasswdConfirm.
pub mod Laws
use cfg_mgr.Base.{ℕ, Bool, Option, none, some, ◌>>=◌}
use cfg_mgr.Base.Text.{Text}
use cfg_mgr.Memory.{Bytes, strncpy}
use cfg_mgr.Message.{
  Msg, login_request, normalusermgr_request, superusermgr_request, adminpasswdcomfirm_request,
  usr_key_lne_max,
}
use cfg_mgr.Cgi.{Form, Request, required, key_len_chk}

-- A field that must have a text of at most `USR_KEY_LNE_MAX` characters.
abbrev pub key_text : Text → Option Text
key_text s = do t ← required s; key_len_chk t

unfoldable pub login : Request
login form m = do
  name ← key_text (form.form_string "UserName")
  passwd ← key_text (form.form_string "Passwd")
  some (record {
    type = login_request;
    payload = strncpy 21 21 passwd (strncpy 0 21 name m.payload);
  })

unfoldable pub normal_user_mgr : Request
normal_user_mgr form m = do
  new_key ← key_text (form.form_string "NewKey")
  primary_key ← key_text (form.form_string "PrimaryKey")
  some (record {
    type = normalusermgr_request;
    payload = strncpy 0 21 primary_key (strncpy 21 21 new_key m.payload);
  })

unfoldable pub super_user_mgr : Request
super_user_mgr form m = do
  name ← key_text (form.form_string "UserName")
  admin_key ← key_text (form.form_string "AdminKey")
  new_key ← key_text (form.form_string "NewKey")
  some (record {
    type = superusermgr_request;
    payload = strncpy 42 21 new_key (strncpy 21 21 admin_key (strncpy 0 21 name m.payload));
  })

-- The field of `adminPasswdConfirmRequest` has 20 bytes, so that a password of 20 characters has
-- no NUL in it.
unfoldable pub admin_passwd_confirm : Request
admin_passwd_confirm form m = do
  passwd ← key_text (form.form_string "AdminPasswd")
  some (record {
    type = adminpasswdcomfirm_request;
    payload = strncpy 0 usr_key_lne_max passwd m.payload;
  })
