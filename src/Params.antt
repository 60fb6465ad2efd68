-- ===== src/Params.antt =====
-- inc/parameters.h: the configuration that the daemon keeps (`pa` of web.c), and its structures as
-- they stand in a message's payload.
use cfg_mgr.Base.{ℕ, ◌+◌, List}
use cfg_mgr.Base.Text.{Text, IsCstr}
use cfg_mgr.Memory.{Bytes, load, read, cstr_at}
use cfg_mgr.Message.{usr_key_lne_max}

-- Addresses are 32-bit numbers in network order as the machine reads them; `isDhcp` is an `int`.
pub record NetParam : Type 0 where
  pub is_dhcp : ℕ
  pub ip : ℕ
  pub mask : ℕ
  pub gateway : ℕ
  pub mac : List ℕ

pub record CaptureParam : Type 0 where
  pub is_capture : ℕ
  pub is_auto_up_load : ℕ
  pub auto_up_load_path : Text

pub record FilterParam : Type 0 where
  pub is_filter : ℕ

pub record LanParam : Type 0 where
  pub net : NetParam
  pub capture : CaptureParam
  pub filter : FilterParam

-- `char userName [21]` and `char passwd [21]`, as the text before the NUL.
pub record UserParam : Type 0 where
  pub user_name : Text
  pub passwd : Text

-- `users [0]` is read from the Administrators element, and `users [1]` from NomalUser.
pub record Param : Type 0 where
  pub lan1 : LanParam
  pub lan2 : LanParam
  pub admin : UserParam
  pub normal : UserParam

-- Both fields end in a NUL within their 21 bytes.
pub record IsUser (u : UserParam) : Type 0 where
  pub name_fits : IsCstr usr_key_lne_max u.user_name
  pub passwd_fits : IsCstr usr_key_lne_max u.passwd

-- The configuration is well formed: strcmp on a user's name or password stays in its field.
pub record IsValid (p : Param) : Type 0 where
  pub admin_valid : IsUser p.admin
  pub normal_valid : IsUser p.normal

-- `memcpy (&…net, &data[off], sizeof (netParam))`
unfoldable pub net_param_at : ℕ → Bytes → NetParam
net_param_at off d = record {
  is_dhcp = load 4 off d;
  ip = load 4 (off + 4) d;
  mask = load 4 (off + 8) d;
  gateway = load 4 (off + 12) d;
  mac = read 6 (off + 16) d;
}

-- `memcpy (&…capture, &data[off], sizeof (captureParam))`
unfoldable pub capture_param_at : ℕ → Bytes → CaptureParam
capture_param_at off d = record {
  is_capture = load 4 off d;
  is_auto_up_load = load 4 (off + 4) d;
  auto_up_load_path = cstr_at 255 (off + 8) d;
}

-- `memcpy (&…filter, &data[off], sizeof (filterParam))`
unfoldable pub filter_param_at : ℕ → Bytes → FilterParam
filter_param_at off d = record { is_filter = load 4 off d }
