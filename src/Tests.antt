-- ===== src/Tests.antt =====
-- A concrete world, configuration and forms, on which the tests run.
pub mod EndToEnd
pub mod Web
pub mod Parts
pub mod Sessions
pub mod Interfaces
pub mod Logged
pub mod Settings
pub mod Exchange
pub mod Answers
use Prim.Native.String.{String}
use text.Mathlib.Text.{◌==◌ as str_eq}
use cfg_mgr.Base.{
  ℕ, ◌+◌, ◌*◌, ◌/◌, ◌%◌, Bool, true, false, List, [], ◌∷◌, Option, none, some, if◌then◌else◌, ◌==◌,
  arith,
}
use cfg_mgr.Base.Text.{Text, codes, IsCstr}
use cfg_mgr.Memory.{zeroed, strncpy}
use cfg_mgr.Message.{Msg, zero_msg, normalusermgr_request}
use cfg_mgr.Params.{NetParam, LanParam, UserParam, Param, IsUser, IsValid}
use cfg_mgr.Env.{Env, Select, timeout}
use cfg_mgr.Trace.{Daemon}
use cfg_mgr.Config.RoundTrip.{IsNet, HasTexts}
use cfg_mgr.Cgi.{Form}
use cfg_mgr.Cgi.Users.Laws.{IsKey}

-- The normal user's request for another password.
abbrev pub change_msg : Msg
change_msg = record {
  type = normalusermgr_request;
  payload = strncpy 21 21 (codes "tulip") (strncpy 0 21 (codes "guest") zeroed);
}

-- A world that counts its clock and in which every call succeeds; the first two polls of a link see
-- none, no ping is answered, and the queue always holds the same request.
abbrev pub calm : Env
calm = record {
  Sys = ℕ;
  time = λ s. (s, s + 1);
  stime = λ t s. t;
  sqlite_exec = λ q s. s;
  sqlite_get_table = λ q s. (none, s);
  table_header = λ q s. [];
  system = λ c s. s;
  socket = λ s. (true, s);
  get_flags = λ i s. (some 0, s);
  set_flags = λ i f s. (true, s);
  set_if_addr = λ f i a s. (true, s);
  get_hwaddr = λ i s. (some (0 ∷ 1 ∷ 2 ∷ 3 ∷ 4 ∷ 5 ∷ []), s);
  set_hwaddr = λ i m s. (true, s);
  get_link = λ i s. (if s == 0 then some 0 else if s == 1 then some 0 else some 1, s + 1);
  stack_bytes = λ s. [];
  fopen_config = λ s. (true, s);
  save_file = λ doc s. s;
  load_file = λ s. (none, s);
  fopen_export = λ s. (true, s);
  export_file = λ t s. s;
  localtime = λ t. record {
    tm_year = 119;
    tm_mon = 9;
    tm_mday = 8;
    tm_hour = 0;
    tm_min = t / 60 % 60;
    tm_sec = t % 60;
  };
  has_icmp = λ s. (true, s);
  getuid = λ s. 0;
  raw_socket = λ s. (true, s);
  sendto = λ a p s. (true, s);
  select = λ s. (timeout, s);
  recv = λ s. (none, s);
  mq_unlink = λ q s. s;
  mq_open = λ q s. (true, s);
  mq_send = λ q m s. (true, s);
  mq_receive = λ q s. (some change_msg, s);
}

-- 192.168.1.10 with its mask and gateway.
abbrev pub some_net : NetParam
some_net = record {
  is_dhcp = 0;
  ip = 167880896;
  mask = 16777215;
  gateway = 16885952;
  mac = 0 ∷ 1 ∷ 2 ∷ 3 ∷ 4 ∷ 5 ∷ [];
}

abbrev pub some_lan : LanParam
some_lan = record {
  net = some_net;
  capture = record { is_capture = 1; is_auto_up_load = 0; auto_up_load_path = codes "/srv" };
  filter = record { is_filter = 1 };
}

abbrev pub some_param : Param
some_param = record {
  lan1 = some_lan;
  lan2 = some_lan;
  admin = record { user_name = codes "root"; passwd = codes "abcdefghijklmnopqrst" };
  normal = record { user_name = codes "bob"; passwd = codes "guest" };
}

abbrev pub some_daemon : Daemon calm
some_daemon = record {
  pa = some_param;
  last_cfg_mgr_err = [];
  ping = record { pingpacket = []; packet_send = 0; packet_recv = 0 };
  sys = 0;
}

pub some_param-IsValid : IsValid some_param
some_param-IsValid = ground arith

pub some_net-IsNet : IsNet some_net
some_net-IsNet = ground arith

-- A form with a function and up to three more fields.
abbrev pub form_of : String → String → Text → String → Text → String → Text → Form
form_of func a x b y c z = record {
  form_string = λ name.
      if str_eq name "FunctionName"
      then codes func
      else if str_eq name a
      then x
      else if str_eq name b
      then y
      else if str_eq name c
      then z
      else [];
  remote_addr = codes "10.0.0.2";
  mktime = λ t. t.tm_sec + 60 * t.tm_min;
  localtime = λ t. record {
    tm_year = 119;
    tm_mon = 9;
    tm_mday = 8;
    tm_hour = 0;
    tm_min = t / 60 % 60;
    tm_sec = t % 60;
  };
  file_name = none;
  upload = [];
  file_opens = false;
  path_opens = λ p. false;
  st_size = λ p. 3;
  file_bytes = λ p. some (97 ∷ 98 ∷ 99 ∷ []);
}

-- A form with the two interfaces' parameters.
abbrev pub net_form : String → Form
net_form func = record (form_of func "" [] "" [] "" []) {
  form_string = λ name.
      if str_eq name "FunctionName"
      then codes func
      else if str_eq name "Lan1_Auto"
      then codes "false"
      else if str_eq name "Lan2_Auto"
      then codes "false"
      else if str_eq name "Lan1_Mac"
      then codes "00-01-02-03-04-05"
      else if str_eq name "Lan2_Mac"
      then codes "00-01-02-03-04-05"
      else if str_eq name "Lan1_Mask"
      then codes "255.255.255.0"
      else if str_eq name "Lan2_Mask"
      then codes "255.255.255.0"
      else if str_eq name "Lan1_GateWay"
      then codes "192.168.1.1"
      else if str_eq name "Lan2_GateWay"
      then codes "192.168.1.1"
      else codes "192.168.1.10";
}
