-- ===== src/Cgi/Answers/Download.antt =====
-- fileUpLoadResp2http of cfgMgrCgi.c: a file that is sent to the browser.
use cfg_mgr.Base.{
  ◌≤◌, ltb, if◌then◌else◌, Bool-cases, inl, inr, ℕ, zero, suc, ◌+◌, ◌*◌, ◌/◌, ◌%◌, ◌<◌, ◌≡◌, ◌≢◌,
  refl, ap, sym, ◌∙◌, List, [], ◌∷◌, ◌++◌, Option, none, some, arith, length, take, drop, get_or,
}
use cfg_mgr.Base.Text.{Text, codes, fmt_d}
use cfg_mgr.Message.{Msg}
use cfg_mgr.Cgi.{Form}
use cfg_mgr.Cgi.Answers.{text_at}

-- The loop: fread of one item of 512 bytes returns 1 for each whole block, and then 0; fwrite writes
-- as many bytes of the block as fread returned.
unfoldable pub copied : ℕ → List ℕ → List ℕ
copied zero bytes = []
copied (suc blocks) bytes = get_or bytes 0 0 ∷ copied blocks (drop 512 bytes)

-- What is sent of a file that may not open.
abbrev pub download : Option (List ℕ) → List ℕ
download none = []
download (some bytes) = copied (length bytes / 512) bytes

-- The name is cut at 49 characters by snprintf.
abbrev pub net_file_path : Msg → Text
net_file_path m = take 49 (codes "../NetFiles/" ++ text_at 0 m.payload)

-- The lines on the file's name and length. They stand behind the header, which
-- cgiHeaderContentType has ended.
abbrev pub download_head : Form → Msg → Text
download_head form m =
    codes "Content-Disposition:filename=\""
    ++ (text_at 0 m.payload
        ++ (codes "\"Content-Length:" ++ fmt_d (form.st_size (net_file_path m) % 4294967296)))

unfoldable pub file_up_load_resp2http : Form → Msg → Text
file_up_load_resp2http form m = download_head form m ++ download (form.file_bytes (net_file_path m))

copied-length : (blocks : ℕ) (bytes : List ℕ) → length (copied blocks bytes) ≡ blocks
unfolding copied
copied-length zero bytes = refl
copied-length (suc blocks) bytes = ap suc (copied-length blocks (drop 512 bytes))

get_or-drop : (n k : ℕ) (xs : List ℕ) → get_or (drop n xs) k 0 ≡ get_or xs (n + k) 0
get_or-drop zero k xs = let e : 0 + k ≡ k = omega arith in rw e
get_or-drop (suc n) k [] = refl
get_or-drop (suc n) k (x ∷ xs) =
    let e : suc n + k ≡ suc (n + k) = omega arith in rw e (get_or-drop n k xs)

get_or-behind : (xs : List ℕ) (k : ℕ) → length xs ≤ k → get_or xs k 0 ≡ 0
get_or-behind [] k h = refl
get_or-behind (x ∷ xs) zero h = absurd (omega (arith, h))
get_or-behind (x ∷ xs) (suc k) h = get_or-behind xs k (omega (arith, h))

copied-get_or :
    (blocks k : ℕ) (bytes : List ℕ)
    → k < blocks
    → get_or (copied blocks bytes) k 0 ≡ get_or bytes (512 * k) 0
unfolding copied
copied-get_or zero k bytes h = absurd (omega arith)
copied-get_or (suc blocks) zero bytes h = refl
copied-get_or (suc blocks) (suc k) bytes h =
    let e : 512 + 512 * k ≡ 512 * suc k = omega arith in
    copied-get_or blocks k (drop 512 bytes) (omega arith)
    ∙ get_or-drop 512 (512 * k) bytes
    ∙ ap (λ i. get_or bytes i 0) e

copied-not_all : (bytes : List ℕ) → bytes ≢ [] → copied (length bytes / 512) bytes ≢ bytes
copied-not_all [] given same = given refl
copied-not_all (b ∷ bytes) given same =
    let n = length (b ∷ bytes) in
    let count : n / 512 ≡ n = sym (copied-length (n / 512) (b ∷ bytes)) ∙ ap length same in
    omega (arith, count)

copied_at :
    (blocks k : ℕ) (bytes : List ℕ)
    → get_or (copied blocks bytes) k 0 ≡ (if ltb k blocks then get_or bytes (512 * k) 0 else 0)
copied_at blocks k bytes = elim (Bool-cases (ltb k blocks)) [
  | inl inside ↦ rw inside (copied-get_or blocks k bytes (ground (arith, inside)))
  | inr behind ↦
      let size = copied-length blocks bytes in
      rw behind (get_or-behind (copied blocks bytes) k (ground (arith, behind, size)))
]

-- Of a file that opens and is not empty, one byte of each whole block of 512 is sent, the first, and
-- nothing of the rest: behind the two lines stand `n / 512` bytes for a file of `n`, none at all for
-- a file of fewer than 512 bytes, and byte `k` of them is byte `512 * k` of the file. No such file
-- arrives as it is.
pub file_up_load_resp2http_lossy :
    (form : Form) (m : Msg) (bytes : List ℕ) (k : ℕ)
    → form.file_bytes (net_file_path m) ≡ some bytes
    → bytes ≢ []
    → (sent : List ℕ) × (file_up_load_resp2http form m ≡ download_head form m ++ sent)
      × (length sent ≡ length bytes / 512)
      × (get_or sent k 0 ≡ (if ltb k (length bytes / 512) then get_or bytes (512 * k) 0 else 0))
      × (sent ≢ bytes)
unfolding file_up_load_resp2http
file_up_load_resp2http_lossy form m bytes k found given = (
  copied (length bytes / 512) bytes,
  rw found refl,
  copied-length (length bytes / 512) bytes,
  copied_at (length bytes / 512) k bytes,
  copied-not_all bytes given,
)
