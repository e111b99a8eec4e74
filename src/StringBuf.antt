-- ===== src/StringBuf.antt =====
-- src/stringbuf.c, include/stringbuf.h: the text buffer that descriptors and paths are formatted in.
-- `text` is the C string in `data`, the bytes before the first NUL, and it is empty where `data` is
-- NULL; `calloc` clears a new array, so the byte after the text is a NUL. `malloc n` says whether a
-- request for n bytes is granted. The `int` differences of the code are compared by sums: the
-- difference `size - length - 1` is -1 for a new buffer.
pub mod Laws
pub mod Format
mod Tests
use koala_lang_pre.Prelude.{
  ltb, leb, ◌==◌, if◌then◌else◌, length, ℕ, zero, suc, ◌+◌, Bool, false, Option, none, some, List,
  [], ◌∷◌, ◌++◌,
}

pub record StringBuf : Type 0 where
  pub length : ℕ
  pub size : ℕ
  pub text : List ℕ

-- `DeclareStringBuf`
abbrev pub empty : StringBuf
empty = record { length = 0; size = 0; text = [] }

-- The loop `while (size > bufsize) bufsize += EXPAND_SIZE`, in at most `fuel` rounds.
unfoldable pub round_up : ℕ → ℕ → ℕ → ℕ
round_up zero need bufsize = bufsize
round_up (suc fuel) need bufsize =
    let more = round_up fuel need (bufsize + 32) in if ltb bufsize need then more else bufsize

unfoldable pub expand : (ℕ → Bool) → StringBuf → ℕ → Option StringBuf
expand malloc buf least =
    let need = buf.length + least + 1 in
    let bufsize = round_up need need buf.size in
    if malloc bufsize then some (record buf { size = bufsize }) else none

-- The buffer after `available`, and whether what it returns is above nought.
unfoldable pub available : (ℕ → Bool) → StringBuf → ℕ → StringBuf × Bool
available malloc buf least =
    if ltb buf.size (buf.length + 1 + least)
    then elim (expand malloc buf least) [
      | none ↦ (buf, false)
      | some buf' ↦ (buf', ltb (buf'.length + 1 + least) buf'.size)
    ]
    else (buf, ltb (buf.length + 1 + least) buf.size)

-- `__StringBuf_Append`; a NULL string has length nought.
unfoldable pub append : (ℕ → Bool) → StringBuf → List ℕ → StringBuf
append malloc buf s =
    let len = length s in
    if leb len 0
    then buf
    else let r = available malloc buf len in
      if r.1 then record r.0 { length = r.0.length + len; text = r.0.text ++ s } else r.0

-- `__StringBuf_Append_Char`
unfoldable pub append_char : (ℕ → Bool) → StringBuf → ℕ → StringBuf
append_char malloc buf ch =
    let r = available malloc buf 1 in
    if r.1 then record r.0 { length = r.0.length + 1; text = r.0.text ++ ch ∷ [] } else r.0

-- `__StringBuf_Format`: a `#` takes the next argument. The callers pass one for each `#`.
unfoldable pub format : (ℕ → Bool) → StringBuf → List ℕ → List (List ℕ) → StringBuf
format malloc buf [] args = buf
format malloc buf (ch ∷ fmt) [] =
    format malloc (if ch == b'#' then append malloc buf [] else append_char malloc buf ch) fmt []
format malloc buf (ch ∷ fmt) (s ∷ args) =
    format malloc (if ch == b'#' then append malloc buf s else append_char malloc buf ch) fmt
      (if ch == b'#' then args else s ∷ args)
