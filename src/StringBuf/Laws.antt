-- ===== src/StringBuf/Laws.antt =====
-- When an append takes place, and what a format builds.
use koala_lang_pre.Prelude.{
  ltb, ◌==◌, if◌then◌else◌, length, length-append, ℕ, zero, suc, ◌+◌, ◌*◌, ◌/◌, ◌%◌, ◌≤◌, ◌<◌, ◌≡◌,
  refl, ◌⊎◌, inl, Bool, true, List, [], ◌∷◌, ◌++◌, arith,
}
use koala_lang_pre.StringBuf.{StringBuf, empty, round_up, expand, available, append, append_char}

-- The loop ends by its test: the size is enough, and the least one on the way up.
pub round_up_bounds :
    (fuel need bufsize : ℕ)
    → need ≤ bufsize + 32 * fuel
    → (need ≤ round_up fuel need bufsize)
      × (bufsize ≤ round_up fuel need bufsize)
      × ((round_up fuel need bufsize ≡ bufsize) ⊎ (round_up fuel need bufsize < need + 32))
      × (round_up fuel need bufsize % 32 ≡ bufsize % 32)
unfolding round_up
round_up_bounds zero need bufsize h = (omega arith, omega arith, inl refl, refl)
round_up_bounds (suc fuel) need bufsize h = ground (arith, round_up_bounds fuel need (bufsize + 32))

-- From a multiple of 32 that is too small, the loop goes up to the least that is enough.
round_up-least :
    (need bufsize : ℕ)
    → bufsize % 32 ≡ 0
    → bufsize < need
    → round_up need need bufsize ≡ (need + 31) / 32 * 32
round_up-least need bufsize blocks small =
    let (enough, more, ends, kept) = round_up_bounds need need bufsize (omega arith) in
    ground (arith, enough, more, ends, kept)

-- The recorded length is that of the text, a NUL fits behind it, and the size is a multiple of 32.
pub record IsValid (buf : StringBuf) : Type 0 where
  pub counted : buf.length ≡ length buf.text
  pub fits : (buf.size ≡ 0) × (buf.length ≡ 0) ⊎ (buf.length < buf.size)
  pub blocks : buf.size % 32 ≡ 0

-- The size of an array with room for `n` bytes more and a NUL: that of the old one if they fit, and
-- otherwise the least multiple of 32 in which they do.
abbrev pub room : StringBuf → ℕ → ℕ
room buf n =
    let need = buf.length + n + 1 in if ltb buf.size need then (need + 31) / 32 * 32 else buf.size

module _ (malloc : ℕ → Bool) (granted : (n : ℕ) → malloc n ≡ true) where
  -- With memory granted an append of a text that is not empty, to a buffer whose size is a multiple of 32,
  -- leaves the size if the text and a NUL fit and otherwise raises it to the least multiple of 32 in which
  -- they do; it then drops the text if that would fill the array up to the NUL, and writes it after what is
  -- there if not.
  pub append_lem :
      (buf : StringBuf) (s : List ℕ)
      → 0 < length s
      → buf.size % 32 ≡ 0
      → append malloc buf s ≡ (
          if buf.length + length s + 1 == room buf (length s)
          then record buf { size = room buf (length s) }
          else record {
            length = buf.length + length s;
            size = room buf (length s);
            text = buf.text ++ s;
          })
  unfolding append available expand
  append_lem buf s h blocks =
      let need = buf.length + length s + 1 in
      let same = round_up-least need buf.size blocks in
      ground
        (arith, granted (round_up need need buf.size), same, round_up_bounds need need buf.size)

  pub append_char-eq-append :
      (buf : StringBuf) (ch : ℕ) → append_char malloc buf ch ≡ append malloc buf (ch ∷ [])
  unfolding append append_char
  append_char-eq-append buf ch = refl

  -- With memory granted an append keeps the buffer well formed.
  pub append-IsValid : (buf : StringBuf) (s : List ℕ) → IsValid buf → IsValid (append malloc buf s)
  unfolding append available expand
  append-IsValid buf s v =
      let need = buf.length + length s + 1 in
      ground (
        arith,
        granted (round_up need need buf.size),
        round_up_bounds need need buf.size,
        length-append {0} buf.text s,
      )

  -- With memory granted, a text that would fill the first array up to its NUL, one whose length is 31
  -- modulo 32, is dropped: the buffer stays empty.
  pub append-dropped :
      (s : List ℕ) → 0 < length s → (length s + 1) % 32 ≡ 0 → (append malloc empty s).text ≡ []
  append-dropped s h full =
      let n = length s + 1 in
      let e = append_lem empty s h refl in
      ground (arith, e, round_up_bounds (0 + length s + 1) (0 + length s + 1) 0)
