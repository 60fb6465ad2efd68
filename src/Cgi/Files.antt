-- ===== src/Cgi/Files.antt =====
-- fileLookUp, fileUpLoad and the updates of cfgMgrCgi.c.
use cfg_mgr.Base.{
  Bool, true, Option, none, some, ◌++◌, length, ltb, if◌then◌else◌, ◌>>=◌, ℕ, zero, suc, ◌≤◌, ◌≡◌,
  refl, ◌∙◌, ap, ◌&&◌, List, [], ◌∷◌, take, drop, length-drop, take-drop, arith,
}
use cfg_mgr.Base.Text.{Text, codes, atoi}
use cfg_mgr.Memory.{store, strncpy}
use cfg_mgr.Message.{
  MsgType, filelookup_request, fileupload_request, updatelogicfile_request,
  updatecfgmgrfile_request, updateweb_request, file_name_len_max,
}
use cfg_mgr.Cgi.{Form, Request, required, format2time}

-- `fileLookUpRequest`: netNumber at 0, startTime at 8, endTime at 16, start at 24, length at 28
-- and draw at 32.
unfoldable pub file_look_up : Request
file_look_up form m = do
  net_number ← required (form.form_string "NetNumber")
  start_time ← required (form.form_string "StartTime")
  end_time ← required (form.form_string "EndTime")
  start ← required (form.form_string "start")
  length ← required (form.form_string "length")
  draw ← required (form.form_string "draw")
  some (record {
    type = filelookup_request;
    payload = store 4 32 (atoi draw) (
        store 4 28 (atoi length) (
          store 4 24 (atoi start) (
            store 8 16 (format2time form end_time)
              (store 8 8 (format2time form start_time) (store 4 0 (atoi net_number) m.payload)))));
  })

-- `fileNameLenChkReturn`
unfoldable pub file_name_len_chk : Text → Option Text
file_name_len_chk s = if ltb file_name_len_max (length s) then none else some s

-- The field has 60 bytes, so that a name of 60 characters has no NUL in it.
unfoldable pub file_up_load : Request
file_up_load form m = do
  given ← required (form.form_string "FileName")
  name ← file_name_len_chk given
  some (record { type = fileupload_request; payload = strncpy 0 file_name_len_max name m.payload })

-- The loop of updateFile: cgiFormFileRead gives up to 4096 bytes at a time, and fails at the end of
-- the file; fwrite writes them. `rounds` bounds the number of reads.
unfoldable pub copy_upload : ℕ → List ℕ → List ℕ
copy_upload zero bytes = []
copy_upload (suc rounds) [] = []
copy_upload (suc rounds) (b ∷ bytes) =
    take 4096 (b ∷ bytes) ++ copy_upload rounds (drop 4096 (b ∷ bytes))

-- The path that updateFile opens. It is built in a buffer of 50 bytes, which a name of more than 44
-- characters overruns.
abbrev pub upload_path : Text → Text
upload_path name = codes "/tmp/" ++ name

-- What updateFile writes, if it gets that far.
unfoldable pub updated_file : Form → Option (List ℕ)
updated_file form = elim form.file_name [
  | none ↦ none
  | some name ↦
      if form.file_opens && form.path_opens (upload_path name)
      then some (copy_upload (length form.upload) form.upload)
      else none
]

-- `updateFile`: whether it returns 0.
unfoldable pub update_file : Form → Bool
update_file form = elim form.file_name [
  | none ↦ Bool.false
  | some name ↦ if form.file_opens then form.path_opens (upload_path name) else Bool.false
]

-- updateLogicFile, updateCfgMgrFile and updateWeb: the kind, and updateFile.
unfoldable pub update_request : MsgType → Request
update_request kind form m = if update_file form then some (record m { type = kind }) else none

abbrev pub update_logic_file : Request
update_logic_file = update_request updatelogicfile_request

abbrev pub update_cfg_mgr_file : Request
update_cfg_mgr_file = update_request updatecfgmgrfile_request

abbrev pub update_web : Request
update_web = update_request updateweb_request

copy_upload-enough :
    (rounds : ℕ) (bytes : List ℕ) → length bytes ≤ rounds → copy_upload rounds bytes ≡ bytes
unfolding copy_upload
copy_upload-enough zero [] h = refl
copy_upload-enough zero (b ∷ bytes) h = absurd (omega arith)
copy_upload-enough (suc rounds) [] h = refl
copy_upload-enough (suc rounds) (b ∷ bytes) h =
    let shorter : length (drop 4095 bytes) ≤ rounds = omega (arith, length-drop 4095 bytes) in
    ap (λ r. take 4096 (b ∷ bytes) ++ r) (copy_upload-enough rounds (drop 4095 bytes) shorter)
    ∙ take-drop 4096 (b ∷ bytes)

-- An upload is copied whole: whenever updateFile returns 0, the file under /tmp has the bytes that
-- the form's file has.
pub update_file-updated_file :
    (form : Form) → update_file form ≡ true → updated_file form ≡ some form.upload
unfolding update_file updated_file
update_file-updated_file form h =
    let whole = copy_upload-enough (length form.upload) form.upload (omega arith) in
    ground (arith, whole)
