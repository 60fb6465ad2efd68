-- ===== src/Web/Logs/Laws.antt =====
-- The page of log entries that a look-up answers with.
use cfg_mgr.Base.{
  take, ℕ, zero, suc, ◌+◌, ◌-◌, ◌%◌, ◌≤◌, ◌<◌, ◌≡◌, refl, ap, sym, ltb, true, Option, none, ◌∙◌,
  false, List, [], ◌∷◌, some, ◌⊎◌, inl, inr, arith, min, length, drop, get_elem?, length-take,
  length-drop,
}
use mathlib.Core.Path.{ap₂}
use cfg_mgr.Base.Text.{Text}
use cfg_mgr.Memory.{Bytes, zeroed, store, load, strncpy, write, le_bytes}
use cfg_mgr.Message.{page_records_max, log_element_at}
use cfg_mgr.Web.Logs.{
  signed_min, put_element, put_elements, visited, rows_met, table_rows, log_look_up_payload,
  is_negative,
}

-- On numbers that are not negative the macro is the minimum.
signed_min_lem : (x y : ℕ) → x < 2147483648 → y < 2147483648 → signed_min x y ≡ min x y
unfolding signed_min
signed_min_lem x y hx hy = ground arith

-- The page holds min (length, total - start, 50) entries.
visited-length :
    (start len : ℕ) (rows : List (List Text))
    → len < 2147483648
    → length (visited start (signed_min page_records_max len) rows)
      ≡ min len (min (length rows - start) page_records_max)
unfolding visited
visited-length start len rows h =
    let small : is_negative (min page_records_max len) ≡ false = ground arith in
    rw (signed_min_lem page_records_max len (omega arith) h, small)
      (omega
        (arith, length-take (min page_records_max len) (drop start rows), length-drop start rows))

visited-nil : (start element_max : ℕ) → visited start element_max [] ≡ []
unfolding visited
visited-nil zero zero = ground arith
visited-nil zero (suc n) = ground arith
visited-nil (suc s) zero = ground arith
visited-nil (suc s) (suc n) = ground arith

-- From a start inside the table, the loop meets the table's rows.
rows_met-visited :
    (header : List Text) (table : Option (List (List Text))) (start element_max : ℕ)
    → start < 2147483647
    → rows_met header table start element_max ≡ some (visited start element_max (table_rows table))
unfolding rows_met
rows_met-visited header none start element_max h = ap some (sym (visited-nil start element_max))
rows_met-visited header (some rows) start element_max h =
    let inside : ltb start 2147483647 ≡ true = ground arith in rw inside refl

-- An element's 76 bytes are written, and nothing else.
put_element_outside :
    (off : ℕ) (row : List Text) (d : Bytes) (x : ℕ)
    → (x < off) ⊎ (off + 76 ≤ x)
    → put_element off row d x ≡ d x
unfolding put_element store strncpy
put_element_outside off row d x (inl h) = ground arith
put_element_outside off row d x (inr h) = ground arith

-- Elements from number `i` on leave everything in front of them and behind the last of them alone.
put_elements_outside :
    (i : ℕ) (rows : List (List Text)) (d : Bytes) (x : ℕ)
    → (x < log_element_at i) ⊎ (log_element_at (i + length rows) ≤ x)
    → put_elements i rows d x ≡ d x
unfolding put_elements
put_elements_outside i [] d x h = refl
put_elements_outside i (row ∷ rows) d x (inl h) =
    put_elements_outside (suc i) rows _ x (inl (omega arith))
    ∙ put_element_outside (log_element_at i) row d x (inl h)
put_elements_outside i (row ∷ rows) d x (inr h) =
    put_elements_outside (suc i) rows _ x (inr (omega arith))
    ∙ put_element_outside (log_element_at i) row d x (inr (omega arith))

put_element_inside :
    (off : ℕ) (row : List Text) (d e : Bytes) (x : ℕ)
    → off ≤ x
    → x < off + 76
    → put_element off row d x ≡ put_element off row e x
unfolding put_element store strncpy write le_bytes
put_element_inside off row d e x lo hi = ground arith

-- Element `k` of the array is the row that the loop meets in its round `k`.
put_elements_at :
    (i k j : ℕ) (rows : List (List Text)) (row : List Text) (d : Bytes) (x : ℕ)
    → i + k ≡ j
    → get_elem? rows k ≡ some row
    → log_element_at j ≤ x
    → x < log_element_at j + 76
    → put_elements i rows d x ≡ put_element (log_element_at j) row zeroed x
unfolding put_elements
put_elements_at i k j [] row d x sum e lo hi = cc
put_elements_at i zero j (r ∷ rows) row d x sum e lo hi =
    let here : i ≡ j = omega arith in
    let same : r ≡ row = cc in
    put_elements_outside (suc i) rows _ x (inl (omega arith))
    ∙ put_element_inside (log_element_at i) r d zeroed x (omega arith) (omega arith)
    ∙ ap₂ (λ n q. put_element (log_element_at n) q zeroed x) here same
put_elements_at i (suc k) j (r ∷ rows) row d x sum e lo hi =
    put_elements_at (suc i) k j rows row _ x (omega arith) e lo hi

-- The three numbers in front of the elements.
module _ (n draw total : ℕ) (body : Bytes) where
  abbrev with_counts : Bytes
  with_counts = store 4 4 n (store 4 8 draw (store 4 0 total body))

  load-total : total < 4294967296 → load 4 0 with_counts ≡ total
  unfolding load store
  load-total h = omega arith

  load-length : n < 4294967296 → load 4 4 with_counts ≡ n
  unfolding load store
  load-length h = omega arith

  load-draw : load 4 8 with_counts ≡ draw % 4294967296
  unfolding load store
  load-draw = omega arith

  with_counts_behind : (x : ℕ) → 16 ≤ x → with_counts x ≡ body x
  unfolding store
  with_counts_behind x h = ground arith

-- The request asks for a page inside the table: its start is not behind the last row, and neither
-- its length nor the number of rows is negative as an `int`.
pub record IsPage (rows : List (List Text)) (req : Bytes) : Type 0 where
  pub start_fits : load 4 24 req ≤ length rows
  pub rows_fit : length rows < 2147483647
  pub length_fits : load 4 28 req < 2147483648

module _ (rows : List (List Text)) (req : Bytes) (page : IsPage rows req) where
  abbrev pub start : ℕ
  start = load 4 24 req

  abbrev pub len : ℕ
  len = load 4 28 req

  -- The entries that fit the page.
  abbrev pub shown : List (List Text)
  shown = visited start (signed_min page_records_max len) rows

  -- The bytes of the answer.
  abbrev filled : Bytes
  filled = with_counts (length shown) (load 4 32 req) (length rows) (put_elements 0 shown zeroed)

  pub shown-take : shown ≡ take (min len page_records_max) (drop start rows)
  unfolding visited
  shown-take =
      let fits = page.length_fits in
      let least : min page_records_max len ≡ min len page_records_max = omega arith in
      let small : is_negative (min len page_records_max) ≡ false = ground arith in
      rw (signed_min_lem page_records_max len (omega arith) fits, least, small) refl

  pub shown-length : length shown ≡ min len (min (length rows - start) page_records_max)
  shown-length = let fits = page.length_fits in visited-length start len rows fits

  count-shown :
      signed_min len (signed_min ((length rows + 4294967296 - start) % 4294967296) page_records_max)
      ≡ length shown
  count-shown =
      let fits = page.start_fits in
      let small = page.rows_fit in
      let left : (length rows + 4294967296 - start) % 4294967296 ≡ length rows - start =
        omega arith in
      let inner =
        signed_min_lem (length rows - start) page_records_max (omega arith) (omega arith) in
      let outer =
        signed_min_lem len (min (length rows - start) page_records_max) page.length_fits
          (omega arith) in
      ap (λ k. signed_min len (signed_min k page_records_max)) left
      ∙ ap (signed_min len) inner
      ∙ outer
      ∙ sym shown-length

-- A look-up whose page lies inside the rows that SQLite has found, of which there are none if it has
-- given no table.
module _ (table : Option (List (List Text))) (req : Bytes)
    (page : IsPage (table_rows table) req) where
  abbrev rows : List (List Text)
  rows = table_rows table

  abbrev entries : List (List Text)
  entries = shown rows req page

  entries-met :
      (header : List Text)
      → rows_met header table (load 4 24 req) (signed_min page_records_max (load 4 28 req))
        ≡ some entries
  entries-met header =
      let fits = page.start_fits in
      let few = page.rows_fit in rows_met-visited header table (load 4 24 req) _ (omega arith)

  payload-filled :
      (header : List Text) → log_look_up_payload header table req ≡ some (filled rows req page)
  unfolding log_look_up_payload
  payload-filled header =
      rw (log_look_up_payload, entries-met header, count-shown rows req page) refl

  -- A look-up of a page inside the table is answered, with the number of all entries found as
  -- recordsTotal, and as length the number of those shown: the least of the requested length, the
  -- entries left behind the start, and 50. The 16 bytes in front and 80 for each of 50 elements
  -- are all that is written of the payload's 4096.
  pub log_look_up_counts :
      (header : List Text) (x : ℕ)
      → 4016 ≤ x
      → (d : Bytes) × (log_look_up_payload header table req ≡ some d)
        × (load 4 0 d ≡ length rows)
        × (load 4 4 d ≡ min (load 4 28 req) (min (length rows - load 4 24 req) page_records_max))
        × (d x ≡ 0)
  log_look_up_counts header x far =
      let small = page.rows_fit in
      let count = shown-length rows req page in
      let body = put_elements 0 entries zeroed in
      let behind =
        with_counts_behind (length entries) (load 4 32 req) (length rows) body x (omega arith) in
      (
        filled rows req page,
        payload-filled header,
        load-total (length entries) (load 4 32 req) (length rows) body (omega arith),
        load-length (length entries) (load 4 32 req) (length rows) body (omega arith) ∙ count,
        behind ∙ put_elements_outside 0 entries zeroed x (inr (omega arith)),
      )

  -- Element `k` of the answer is row `start + k` of the table, byte by byte: the time, the type and
  -- the significance are the numbers of its columns, and the content is its text, cut to 60 bytes.
  pub log_look_up_element :
      (header : List Text) (k x : ℕ) (row : List Text)
      → get_elem? entries k ≡ some row
      → log_element_at k ≤ x
      → x < log_element_at k + 76
      → (d : Bytes) × (log_look_up_payload header table req ≡ some d)
        × (d x ≡ put_element (log_element_at k) row zeroed x)
  log_look_up_element header k x row e lo hi =
      let body = put_elements 0 entries zeroed in
      let behind =
        with_counts_behind (length entries) (load 4 32 req) (length rows) body x (omega arith) in
      (
        filled rows req page,
        payload-filled header,
        behind ∙ put_elements_at 0 k k entries row zeroed x (omega arith) e lo hi,
      )

  -- The whole answer to a look-up of a page inside the table: the counts, the low 32 bits of the
  -- request's `draw`, and the elements, of which number `k` is row `start + k` of the table.
  pub log_look_up_page :
      (d : Bytes) × ((header : List Text) → log_look_up_payload header table req ≡ some d)
      × (load 4 0 d ≡ length rows)
      × (load 4 4 d ≡ length entries)
      × (load 4 8 d ≡ load 4 32 req % 4294967296)
      × ((k x : ℕ) (row : List Text)
          → get_elem? entries k ≡ some row
          → log_element_at k ≤ x
          → x < log_element_at k + 76
          → d x ≡ put_element (log_element_at k) row zeroed x)
  log_look_up_page =
      let small = page.rows_fit in
      let count = shown-length rows req page in
      let n = length entries in
      let draw = load 4 32 req in
      let body = put_elements 0 entries zeroed in
      (
        filled rows req page,
        payload-filled,
        load-total n draw (length rows) body (omega arith),
        load-length n draw (length rows) body (omega arith),
        load-draw n draw (length rows) body,
        λ k x row e lo hi.
            with_counts_behind n draw (length rows) body x (omega arith)
            ∙ put_elements_at 0 k k entries row zeroed x (omega arith) e lo hi,
      )
