-- ===== src/Cgi/Answers.antt =====
-- How cfgMgrCgi.c prints the responses; here confirm2json, getVersionResp2json, logExportResp2json
-- and diskInfoResp2json. The text is what is written behind cgic's header.
pub mod Times
pub mod Lists
pub mod Download
pub mod Page
use Prim.Native.String.{String}
use cfg_mgr.Base.{ℕ, ◌-◌, ◌≡◌, refl, [], ◌∷◌, ◌++◌, arith}
use cfg_mgr.Base.Text.{Text, codes, fmt_d, IsCstr}
use cfg_mgr.Memory.{Bytes, load, cstr_at}
use cfg_mgr.Memory.Strings.{cstr_at-eq}
use cfg_mgr.Message.{Msg, CfgMgrStatus, status_code, msg_data_len_max}
use cfg_mgr.Web.Confirm.{
  gen_confirm_msg, err_message, confirm_payload-load, confirm_payload-Holds, err_message-length,
}

abbrev pub crlf : Text
crlf = 13 ∷ 10 ∷ []

-- `"name":"value"`
abbrev pub field : String → Text → Text
field name value = 34 ∷ (codes name ++ (34 ∷ 58 ∷ 34 ∷ (value ++ (34 ∷ []))))

-- A field with more behind it, and the last one.
abbrev pub field_then : String → Text → Text → Text
field_then name value rest = field name value ++ (codes "," ++ (crlf ++ rest))

abbrev pub last_field : String → Text → Text
last_field name value = field name value ++ (crlf ++ codes "}")

abbrev pub braces : Text → Text
braces fields = codes "{" ++ (crlf ++ fields)

-- `%s` of the field at `off`: up to the first NUL in the payload.
abbrev pub text_at : ℕ → Bytes → Text
text_at off d = cstr_at (msg_data_len_max - off) off d

-- `confirmResponse`: status at 0, errMessage at 4.
unfoldable pub confirm2json : Msg → Text
confirm2json m =
    braces (
      field_then "status" (fmt_d (load 4 0 m.payload)) (last_field "message" (text_at 4 m.payload)))

-- `versionGetResponse`: cfgMgrVersion at 0, logicVersion at 11.
unfoldable pub get_version_resp2json : Msg → Text
get_version_resp2json m = braces (
    field_then "LogicVersion" (text_at 11 m.payload)
      (last_field "CfgMgrVersion" (text_at 0 m.payload)))

-- `logExportResponse`: recordsTotal at 0, logSearchResult at 4.
unfoldable pub log_export_resp2json : Msg → Text
log_export_resp2json m = braces (
    field_then "recordsFiltered" (fmt_d (load 4 0 m.payload))
      (last_field "url" (text_at 4 m.payload)))

-- `diskInfoResponse`: ten texts of 30 bytes. The third line prints `rate`, as the second does.
unfoldable pub disk_info_resp2json : Msg → Text
disk_info_resp2json m = braces (
    field_then "FormFactor" (text_at 0 m.payload) (
      field_then "NominalMediaRotationRate" (text_at 30 m.payload) (
        field_then "cCacheBufferSize" (text_at 30 m.payload) (
          field_then "ModelNumber" (text_at 90 m.payload) (
            field_then "SerialNumber" (text_at 120 m.payload) (
              field_then "FirmwareRevision" (text_at 150 m.payload) (
                field_then "Temperature" (text_at 180 m.payload) (
                  field_then "Size" (text_at 210 m.payload) (
                    field_then "Used" (text_at 240 m.payload)
                      (last_field "Avail" (text_at 270 m.payload)))))))))))

-- A confirmation is printed with the number of the handler's status, and with the text of the last
-- trace, which is empty for CFGMGR_OK: for every text of at most 59 characters.
pub confirm2json-gen_confirm_msg :
    (status : CfgMgrStatus) (err : Text)
    → IsCstr 59 err
    → confirm2json (gen_confirm_msg status err)
      ≡ braces (
          field_then "status"
            (fmt_d (status_code status))
            (last_field "message" (err_message status err)))
unfolding confirm2json gen_confirm_msg
confirm2json-gen_confirm_msg status err v =
    let short = err_message-length status err v in
    rw
      (
        confirm_payload-load status err,
        cstr_at-eq (err_message status err) 4092 4 _ (omega arith)
            (confirm_payload-Holds status err v),
      )
      refl
