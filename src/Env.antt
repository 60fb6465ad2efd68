-- ===== src/Env.antt =====
-- What surrounds the daemon and is not its source: the kernel's sockets, ioctls and clock, the
-- shell behind system(), SQLite and Mini-XML behind the configuration file. Each call takes the
-- state of that world and returns the new one, with what the caller sees of the result.
use Prim.Native.String.{String}
use cfg_mgr.Base.{ℕ, Bool, List, Option}
use cfg_mgr.Base.Text.{Text}
use cfg_mgr.Message.{Msg}
use cfg_mgr.Share.{Tm}

-- `SIOCSIFADDR` and `SIOCSIFNETMASK`, the two flags that set_addr is called with.
pub data AddrFlag : Type 0 where
  siocsifaddr siocsifnetmask : AddrFlag

-- An element of the configuration file, under the name of its parent element. Its text is, in a
-- document that is saved, that of the one node that mxmlNewText gives it; in a document that has been
-- loaded, that of its last child, which Mini-XML makes of the last word, and empty without a child.
pub record Entry : Type 0 where
  pub parent : String
  pub element : String
  pub text : Text

-- A document of Mini-XML: the elements that have no elements below them, in their order.
abbrev pub Doc : Type 0
Doc = List Entry

-- What select returns: -1, 0, or a descriptor that can be read.
pub data Select : Type 0 where
  select_error timeout ready : Select

-- The three queues of inc/message.h: between the CGI and the daemon, and to the two capture
-- processes.
pub data Queue : Type 0 where
  cgi_cfgmgr cfgmgr_dumpcap0 cfgmgr_dumpcap1 : Queue

pub record Env : Type 1 where
  pub Sys : Type 0
  -- time (NULL) and stime
  pub time : Sys → ℕ × Sys
  pub stime : ℕ → Sys → Sys
  -- sqlite3_open, sqlite3_exec of one statement and sqlite3_close on the log database; that the
  -- database opens, which logWrite asserts, is assumed
  pub sqlite_exec : Text → Sys → Sys
  -- the same for a query, with sqlite3_get_table: the rows behind the header, none for no table
  pub sqlite_get_table : Text → Sys → Option (List (List Text)) × Sys
  -- the first four places of the query's table, where the names of its columns stand
  pub table_header : Text → Sys → List Text
  -- system (cmd)
  pub system : Text → Sys → Sys
  -- socket (AF_INET, SOCK_DGRAM, 0) gave a descriptor
  pub socket : Sys → Bool × Sys
  -- ioctl (SIOCGIFFLAGS) on an interface: its flags, if it succeeds
  pub get_flags : Text → Sys → Option ℕ × Sys
  pub set_flags : Text → ℕ → Sys → Bool × Sys
  -- ioctl (SIOCSIFADDR or SIOCSIFNETMASK) succeeded
  pub set_if_addr : AddrFlag → Text → ℕ → Sys → Bool × Sys
  -- ioctl (SIOCGIFHWADDR) and ioctl (SIOCSIFHWADDR)
  pub get_hwaddr : Text → Sys → Option (List ℕ) × Sys
  pub set_hwaddr : Text → List ℕ → Sys → Bool × Sys
  -- ioctl (SIOCETHTOOL, ETHTOOL_GLINK): the link state, none where the call fails
  pub get_link : Text → Sys → Option ℕ × Sys
  -- the bytes of an automatic buffer that nothing has written
  pub stack_bytes : Sys → List ℕ
  -- fopen (CONFIG_FILE_NAME, "w+") succeeded, and mxmlSaveFile of a document; that Mini-XML's
  -- allocations and mxmlSaveFile succeed, which paramSave asserts, is assumed
  pub fopen_config : Sys → Bool × Sys
  pub save_file : Doc → Sys → Sys
  -- fopen (CONFIG_FILE_NAME, "r") and mxmlLoadFile: the document, none if the file does not open
  pub load_file : Sys → Option Doc × Sys
  -- fopen (LOG_EXPORT_FILE_NAME, "w") succeeded; then fprintf of its text, and fclose
  pub fopen_export : Sys → Bool × Sys
  pub export_file : Text → Sys → Sys
  -- localtime_r
  pub localtime : ℕ → Tm
  -- getprotobyname ("icmp") found it; getuid ()
  pub has_icmp : Sys → Bool × Sys
  pub getuid : Sys → ℕ
  -- socket (AF_INET, SOCK_RAW, …) gave a descriptor
  pub raw_socket : Sys → Bool × Sys
  -- sendto of a packet to an address did not fail
  pub sendto : ℕ → List ℕ → Sys → Bool × Sys
  -- select on the raw socket for five seconds
  pub select : Sys → Select × Sys
  -- recv: the packet, or none where errno is EINTR
  pub recv : Sys → Option (List ℕ) × Sys
  -- mq_unlink of a queue's name; mq_open of it succeeded
  pub mq_unlink : Queue → Sys → Sys
  pub mq_open : Queue → Sys → Bool × Sys
  -- mq_send to a queue succeeded; mq_receive of a message of more than zero bytes, none where it
  -- fails or the message is empty
  pub mq_send : Queue → Msg → Sys → Bool × Sys
  pub mq_receive : Queue → Sys → Option Msg × Sys
