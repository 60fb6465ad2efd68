-- ===== src/Cgi/Answers/Lists/Laws.antt =====
-- The page of log entries: from the table's rows to the JSON list that the browser gets.
use cfg_mgr.Base.{
  ℕ, zero, suc, ◌+◌, ◌-◌, ◌%◌, ◌≤◌, ◌<◌, ◌≡◌, refl, ◌∙◌, ap, ltb, false, List, [], ◌∷◌, ◌++◌, some,
  if◌then◌else◌, arith, ◌==◌, length, get_elem?, map, inl,
}
use mathlib.Core.Path.{ap₂}
use mathlib.Core.List.{append-nil}
use cfg_mgr.Base.Text.{Text, codes, fmt_d, atoi, IsCstr}
use cfg_mgr.Memory.{Bytes, load, zeroed}
use cfg_mgr.Memory.Words.{load-frame, load-store_apart, load-store32, load-store}
use cfg_mgr.Memory.Strings.{Holds, Holds-frame, strncpy-Holds, load-strncpy_apart, cstr_at-eq}
use cfg_mgr.Message.{log_element_at, loglookup_response}
use cfg_mgr.Share.Times.{time2format}
use cfg_mgr.Web.Logs.{put_element, column, atoi_time, is_negative, log_look_up_payload}
use cfg_mgr.Web.Logs.Laws.{IsPage, shown, shown-length, log_look_up_page}
use cfg_mgr.Cgi.Logs.Laws.{atoi-fits}
use cfg_mgr.Cgi.{Form}
use cfg_mgr.Cgi.Answers.{crlf, field, field_then, text_at}
use cfg_mgr.Cgi.Answers.Lists.{print_elements, print_list, log_item, log_look_up_resp2json}

-- Texts with commas between them.
abbrev pub separated : List Text → Text
separated [] = []
separated (x ∷ []) = x
separated (x ∷ y ∷ rest) = x ++ (codes "," ++ separated (y ∷ rest))

-- A row of the log table as a JSON object.
abbrev pub row_json : Form → List Text → Text
row_json form row =
    codes "{"
    ++ field_then "LogTime" (time2format form.localtime (atoi_time (column 0 row))) (
        field_then "LogType" (if atoi (column 1 row) == 1 then codes "system" else codes "user") (
          field_then "Significance"
            (if atoi (column 2 row) == 0 then codes "genarl" else codes "key")
            (field "content" (column 3 row) ++ (codes "}" ++ crlf))))

-- The whole text of a page: the number of all entries, the request's draw, and the rows shown.
abbrev pub page_json : Form → ℕ → ℕ → List (List Text) → Text
page_json form total draw rows =
    codes "{"
    ++ (crlf
        ++ field_then "recordsFiltered" (fmt_d total) (
            field_then "draw" (fmt_d draw)
              (field_then "recordsTotal" (fmt_d total) (codes "\"data\":[" ++ crlf))))
    ++ (separated (map (row_json form) rows) ++ codes "]}")

get_elem?-lt {ℓ} :
    {A : Type ℓ} (xs : List A) (k : ℕ) (x : A) → get_elem? xs k ≡ some x → k < length xs
get_elem?-lt [] k x h = cc
get_elem?-lt (y ∷ ys) zero x h = omega arith
get_elem?-lt (y ∷ ys) (suc k) x h = omega (arith, get_elem?-lt ys k x h)

print_elements-separated :
    (item : ℕ → Text) (entry : List Text → Text) (i : ℕ) (rows : List (List Text))
    → ((k : ℕ) (row : List Text) → get_elem? rows k ≡ some row → item (i + k) ≡ entry row)
    → print_elements item i (length rows) ≡ separated (map entry rows)
unfolding print_elements
print_elements-separated item entry i [] same = refl
print_elements-separated item entry i (row ∷ []) same =
    append-nil (item i) ∙ ap item (let e : i ≡ i + 0 = omega arith in e) ∙ same 0 row refl
print_elements-separated item entry i (row ∷ row' ∷ rows) same =
    let here : item i ≡ entry row =
      ap item (let e : i ≡ i + 0 = omega arith in e) ∙ same 0 row refl in
    let later = print_elements-separated item entry (suc i) (row' ∷ rows) λ k r found.
      ap item (let e : suc i + k ≡ i + suc k = omega arith in e) ∙ same (suc k) r found in
    let more : (suc (length rows) == 0) ≡ false = ground arith in
    rw more (ap₂ (λ a b. a ++ (codes "," ++ b)) here later)

atoi_time-fits : (s : Text) → atoi_time s < 18446744073709551616
atoi_time-fits s = ground (arith, atoi-fits s)

module _ (off : ℕ) (row : List Text) where
  abbrev e : Bytes
  e = put_element off row zeroed

  put_element-time : load 8 off e ≡ atoi_time (column 0 row)
  unfolding put_element
  put_element-time =
      load-strncpy_apart 8 off (off + 16) 60 (column 3 row) _ (inl (omega arith))
      ∙ load-store_apart 8 off 4 (off + 12) (atoi (column 2 row)) _ (inl (omega arith))
      ∙ load-store_apart 8 off 4 (off + 8) (atoi (column 1 row)) _ (inl (omega arith))
      ∙ load-store 8 off (atoi_time (column 0 row)) zeroed (atoi_time-fits (column 0 row))

  put_element-typ : load 4 (off + 8) e ≡ atoi (column 1 row)
  unfolding put_element
  put_element-typ =
      load-strncpy_apart 4 (off + 8) (off + 16) 60 (column 3 row) _ (inl (omega arith))
      ∙ load-store_apart 4 (off + 8) 4 (off + 12) (atoi (column 2 row)) _ (inl (omega arith))
      ∙ load-store32 (off + 8) (atoi (column 1 row)) _ (atoi-fits (column 1 row))

  put_element-sgnfcc : load 4 (off + 12) e ≡ atoi (column 2 row)
  unfolding put_element
  put_element-sgnfcc =
      load-strncpy_apart 4 (off + 12) (off + 16) 60 (column 3 row) _ (inl (omega arith))
      ∙ load-store32 (off + 12) (atoi (column 2 row)) _ (atoi-fits (column 2 row))

  put_element-content : IsCstr 59 (column 3 row) → Holds (column 3 row) (off + 16) e
  unfolding put_element
  put_element-content v = strncpy-Holds (off + 16) 60 59 (column 3 row) _ v (omega arith)

-- An element of the message is printed as the row that it has been filled with.
log_item-row_json :
    (form : Form) (k : ℕ) (row : List Text) (d : Bytes)
    → k < 50
    → IsCstr 59 (column 3 row)
    → ((x : ℕ)
        → log_element_at k ≤ x
        → x < log_element_at k + 76
        → d x ≡ put_element (log_element_at k) row zeroed x)
    → log_item form (log_element_at k) d ≡ row_json form row
unfolding log_item
log_item-row_json form k row d small v same =
    let off = log_element_at k in
    let short = v.fits in
    let time : load 8 off d ≡ atoi_time (column 0 row) =
      load-frame 8 off (e off row) d (λ x lo hi. same x lo (omega arith))
      ∙ put_element-time off row in
    let typ : load 4 (off + 8) d ≡ atoi (column 1 row) =
      load-frame 4 (off + 8) (e off row) d (λ x lo hi. same x (omega arith) (omega arith))
      ∙ put_element-typ off row in
    let sgnfcc : load 4 (off + 12) d ≡ atoi (column 2 row) =
      load-frame 4 (off + 12) (e off row) d (λ x lo hi. same x (omega arith) (omega arith))
      ∙ put_element-sgnfcc off row in
    let content : text_at (off + 16) d ≡ column 3 row =
      cstr_at-eq (column 3 row) (4096 - (off + 16)) (off + 16) d (omega arith) (
        Holds-frame (column 3 row) (off + 16) (e off row) d
          (λ x lo hi. same x (omega arith) (omega arith)) (put_element-content off row v)) in
    rw (time, typ, sgnfcc, content) refl

-- A look-up of a page inside the table, in which no content is longer than the 59 characters that
-- trace keeps, is printed as the list of the page's rows: each with its time, type, significance
-- and content, in the table's order, with the number of all rows found.
pub log_look_up_resp2json-page :
    (form : Form) (rows : List (List Text)) (req : Bytes)
    → (page : IsPage rows req)
    → ((k : ℕ) (row : List Text)
        → get_elem? (shown rows req page) k ≡ some row
        → IsCstr 59 (column 3 row))
    → (d : Bytes) × ((header : List Text) → log_look_up_payload header (some rows) req ≡ some d)
      × (log_look_up_resp2json form (record { type = loglookup_response; payload = d })
          ≡ some (page_json form (length rows) (load 4 32 req % 4294967296) (shown rows req page)))
unfolding log_look_up_resp2json print_list
log_look_up_resp2json-page form rows req page short =
    let (d, made, total, count, draw, same) = log_look_up_page (some rows) req page in
    let n = shown-length rows req page in
    let items =
      print_elements-separated (λ i. log_item form (log_element_at i) d) (row_json form) 0
        (shown rows req page)
        λ k row found.
          let inside = get_elem?-lt (shown rows req page) k row found in
          ap (λ j. log_item form (log_element_at j) d) (let e : 0 + k ≡ k = omega arith in e)
          ∙ log_item-row_json form k row d (omega arith) (short k row found)
              (λ x lo hi. same k x row found lo hi) in
    let small : is_negative (length (shown rows req page)) ≡ false = ground (arith, n) in
    let fits : ltb 51 (length (shown rows req page)) ≡ false = ground (arith, n) in
    (d, made, rw (total, count, draw, small, fits, items) refl)
