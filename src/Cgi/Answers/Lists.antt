-- ===== src/Cgi/Answers/Lists.antt =====
-- logLookUpResp2json and fileLookUpResp2json of cfgMgrCgi.c: pages of entries as JSON lists.
pub mod Laws
use cfg_mgr.Base.{
  ℕ, zero, suc, ◌+◌, ◌*◌, [], ◌++◌, Bool, ◌&&◌, not, Option, none, some, if◌then◌else◌, ltb, ◌==◌,
}
use cfg_mgr.Base.Text.{Text, codes, fmt_d}
use cfg_mgr.Memory.{Bytes, load, cstr_at}
use cfg_mgr.Message.{Msg, log_element_at}
use cfg_mgr.Share.Times.{time2format}
use cfg_mgr.Web.Logs.{is_negative}
use cfg_mgr.Cgi.{Form}
use cfg_mgr.Cgi.Answers.{crlf, field, field_then, text_at}

-- The loop over the elements from number `i` on, `n` of them left: a comma behind each but the last.
unfoldable pub print_elements : (ℕ → Text) → ℕ → ℕ → Text
print_elements item i zero = []
print_elements item i (suc n) =
    item i ++ ((if n == 0 then [] else codes ",") ++ print_elements item (suc i) n)

-- What stands in front of the list: recordsTotal at 0, twice, and draw at 8.
abbrev pub list_head : Bytes → Text
list_head d =
    codes "{"
    ++ (crlf
        ++ field_then "recordsFiltered" (fmt_d (load 4 0 d)) (
            field_then "draw" (fmt_d (load 4 8 d))
              (field_then "recordsTotal" (fmt_d (load 4 0 d)) (codes "\"data\":[" ++ crlf))))

-- A list of `length` (at 4) elements. `none` where the loop goes beyond the 51 elements of 80 bytes
-- that the message has room for.
unfoldable pub print_list : (ℕ → Text) → Bytes → Option Text
unfolding print_elements
print_list item d =
    let n = load 4 4 d in
    if is_negative n
    then some (list_head d ++ codes "]}")
    else if ltb 51 n
    then none
    else some (list_head d ++ (print_elements item 0 n ++ codes "]}"))

-- `logElement` at `off`: occurTime at 0, typ at 8, sgnfcc at 12, content at 16.
unfoldable pub log_item : Form → ℕ → Bytes → Text
log_item form off d =
    codes "{"
    ++ field_then "LogTime" (time2format form.localtime (load 8 off d)) (
        field_then "LogType" (if load 4 (off + 8) d == 1 then codes "system" else codes "user") (
          field_then "Significance"
            (if load 4 (off + 12) d == 0 then codes "genarl" else codes "key")
            (field "content" (text_at (off + 16) d) ++ (codes "}" ++ crlf))))

unfoldable pub log_look_up_resp2json : Form → Msg → Option Text
log_look_up_resp2json form m =
    print_list (λ i. log_item form (log_element_at i) m.payload) m.payload

-- `fileElement` at `off`: `fileName [61]` at 0, modifyTime at 64, sizeMB at 72, 80 bytes in all. The
-- month is the first six characters of the name.
unfoldable pub file_item : Form → ℕ → Bytes → Text
file_item form off d =
    let name = text_at off d in
    codes "{"
    ++ field_then "fileName" name (
        field_then "modifyTime" (time2format form.localtime (load 8 (off + 64) d)) (
          field_then "sizeMB" (fmt_d (load 4 (off + 72) d)) (
            field_then "url" (codes "/NetFiles/" ++ name)
              (field "month" (cstr_at 6 off d) ++ (codes "}" ++ crlf)))))

unfoldable pub file_look_up_resp2json : Form → Msg → Option Text
file_look_up_resp2json form m = print_list (λ i. file_item form (16 + 80 * i) m.payload) m.payload
