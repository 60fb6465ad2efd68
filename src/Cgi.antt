-- ===== src/Cgi.antt =====
-- cgi-src/cfgMgrCgi.c: the CGI program between the web server and the daemon. It turns a form into
-- a message, sends it, and prints the answer.
pub mod Net
pub mod Logs
pub mod Users
pub mod Files
pub mod Table
pub mod Answers
use Prim.Native.String.{String}
use cfg_mgr.Base.{
  ℕ, ◌+◌, ◌-◌, ◌%◌, Bool, List, [], ◌∷◌, Option, none, some, if◌then◌else◌, ltb, length, drop,
}
use cfg_mgr.Base.Text.{Text, codes, atoi, strstr}
use cfg_mgr.Message.{Msg, usr_key_lne_max}
use cfg_mgr.Share.{Tm}

-- What surrounds the program: cgic with the form of the request, and the C library.
pub record Form : Type 0 where
  -- cgiFormString of a field into a zeroed buffer of 100 bytes: the text in front of its NUL, which
  -- is empty where the form has no such field
  pub form_string : String → Text
  -- cgiRemoteAddr
  pub remote_addr : Text
  -- mktime of the six fields that format2time sets, with tm_isdst as the stack holds it; and
  -- localtime_r
  pub mktime : Tm → ℕ
  pub localtime : ℕ → Tm
  -- cgiFormFileName and cgiFormFileOpen of UpdateFileName, and fopen of a path for writing
  pub file_name : Option Text
  -- the bytes of that file, as cgiFormFileRead gives them
  pub upload : List ℕ
  pub file_opens : Bool
  pub path_opens : Text → Bool
  -- st_size after stat of a path, which is arbitrary where stat fails; the bytes of a file that
  -- fopen opens for reading
  pub st_size : Text → ℕ
  pub file_bytes : Text → Option (List ℕ)

-- A request function: the message that it makes of what the uninitialised variable holds, or none
-- for its -1, after which cgiMain sends nothing.
abbrev pub Request : Type 0
Request = Form → Msg → Option Msg

-- `stringLenZeroChkReturn`
abbrev pub required : Text → Option Text
required [] = none
required (c ∷ s) = some (c ∷ s)

-- The tests of a length against `USR_KEY_LNE_MAX`.
unfoldable pub key_len_chk : Text → Option Text
key_len_chk s = if ltb usr_key_lne_max (length s) then none else some s

-- A text that has "true" in it, or else "false".
unfoldable pub true_or_false : Text → Option ℕ
true_or_false s =
    if strstr s (codes "true") then some 1 else if strstr s (codes "false") then some 0 else none

-- format2time of share.c: "YYYY-MM-DD HH:MM:SS" at fixed places.
unfoldable pub format2time : Form → Text → ℕ
format2time form s = form.mktime (record {
  tm_year = (atoi s + (4294967296 - 1900)) % 4294967296;
  tm_mon = (atoi (drop 5 s) + 4294967295) % 4294967296;
  tm_mday = atoi (drop 8 s);
  tm_hour = atoi (drop 11 s);
  tm_min = atoi (drop 14 s);
  tm_sec = atoi (drop 17 s);
})
