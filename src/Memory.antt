-- ===== src/Memory.antt =====
-- The bytes of a message's payload (`char data[MSG_DATA_LEN_MAX]` of inc/message.h), on which the
-- program lays its request and response structures by casts. Numbers are little endian, as on the
-- mips64el and x86-64 targets of config.mk.
pub mod Strings
pub mod Words
use cfg_mgr.Base.{
  ℕ, zero, suc, ◌+◌, ◌-◌, ◌*◌, ◌/◌, ◌%◌, Bool, ◌&&◌, List, [], ◌∷◌, leb, ltb, ◌==◌, if◌then◌else◌,
  length, get_or,
}
use cfg_mgr.Base.Text.{Text}

-- A byte at each offset. What nothing has written is arbitrary.
abbrev pub Bytes : Type 0
Bytes = ℕ → ℕ

-- `memset (d, 0, …)`
abbrev pub zeroed : Bytes
zeroed i = 0

-- Whether offset `i` lies in the `n` bytes from `off` on.
abbrev pub within : ℕ → ℕ → ℕ → Bool
within off n i = leb off i && ltb i (off + n)

-- `memcpy (&d[off], bs, length bs)`
unfoldable pub write : ℕ → List ℕ → Bytes → Bytes
write off bs d i = if within off (length bs) i then get_or bs (i - off) 0 else d i

-- `strncpy (&d[off], s, n)`: the text, cut at `n` bytes or padded to `n` bytes by NULs.
unfoldable pub strncpy : ℕ → ℕ → Text → Bytes → Bytes
strncpy off n s d i = if within off n i then get_or s (i - off) 0 else d i

-- The `w` bytes of a number, the lowest first.
unfoldable pub le_bytes : ℕ → ℕ → List ℕ
le_bytes zero v = []
le_bytes (suc w) v = v % 256 ∷ le_bytes w (v / 256)

-- A store of `w` bytes; the value is cut to `8 * w` bits.
unfoldable pub store : ℕ → ℕ → ℕ → Bytes → Bytes
unfolding write le_bytes
store w off v = write off (le_bytes w v)

unfoldable pub load : ℕ → ℕ → Bytes → ℕ
load zero off d = 0
load (suc w) off d = d off + 256 * load w (off + 1) d

-- The `n` bytes from `off` on.
unfoldable pub read : ℕ → ℕ → Bytes → List ℕ
read zero off d = []
read (suc n) off d = d off ∷ read n (off + 1) d

-- The C string in the `char [n]` at `off`: the bytes before the first NUL.
unfoldable pub cstr_at : ℕ → ℕ → Bytes → Text
cstr_at zero off d = []
cstr_at (suc n) off d = let rest = cstr_at n (off + 1) d in if d off == 0 then [] else d off ∷ rest

-- `strcmp (s, &d[off]) == 0`: it reads the bytes at `off` up to the first difference or the NUL.
unfoldable pub strcmp_at : Text → ℕ → Bytes → Bool
strcmp_at [] off d = d off == 0
strcmp_at (c ∷ s) off d = d off == c && strcmp_at s (off + 1) d
