-- ===== src/StringBuf/Format.antt =====
-- A format whose whole text is at most 30 bytes is written in full: no append meets the end of the
-- first array.
use koala_lang_pre.Prelude.{
  ◌==◌, if◌then◌else◌, Bool-cases, length, length-append, ℕ, suc, ◌+◌, ◌%◌, ◌≤◌, ◌≡◌, refl, sym, ap,
  ◌∙◌, ◌⊎◌, inl, inr, Bool, true, List, [], ◌∷◌, ◌++◌, append_assoc, append-nil, arith,
}
use koala_lang_pre.StringBuf.{StringBuf, empty, append, append_char, format}
use koala_lang_pre.StringBuf.Laws.{round_up_bounds, append_lem, append_char-eq-append}

-- The text that a format and its arguments stand for.
unfoldable pub substitute : List ℕ → List (List ℕ) → List ℕ
substitute [] args = []
substitute (ch ∷ fmt) [] = let rest = substitute fmt [] in if ch == b'#' then rest else ch ∷ rest
substitute (ch ∷ fmt) (s ∷ args) =
    let taken = substitute fmt args in
    let rest = substitute fmt (s ∷ args) in if ch == b'#' then s ++ taken else ch ∷ rest

pub record IsSmall (buf : StringBuf) : Type 0 where
  pub counted : buf.length ≡ length buf.text
  pub first : (buf.size ≡ 0) × (buf.length ≡ 0) ⊎ (buf.size ≡ 32)

pub empty-IsSmall : IsSmall empty
empty-IsSmall = record { counted = refl; first = inl (refl, refl) }

-- From `buf` to `r` the text `s` was added, still in the first array.
pub record Appends (buf r : StringBuf) (s : List ℕ) : Type 0 where
  pub text : r.text ≡ buf.text ++ s
  pub length : r.length ≡ buf.length + length s
  pub small : IsSmall r

pub Appends-nil : (buf : StringBuf) → IsSmall buf → Appends buf buf []
Appends-nil buf m = record { text = sym (append-nil buf.text); length = omega arith; small = m }

pub Appends-append :
    (a b c : StringBuf) (s t : List ℕ) → Appends a b s → Appends b c t → Appends a c (s ++ t)
Appends-append a b c s t p q = record {
  text = q.text ∙ ap (λ (u : List ℕ). u ++ t) p.text ∙ append_assoc a.text s t;
  length = omega (arith, p.length, q.length, length-append {0} s t);
  small = q.small;
}

module _ (malloc : ℕ → Bool) (granted : (n : ℕ) → malloc n ≡ true) where
  pub append_small :
      (buf : StringBuf) (s : List ℕ)
      → IsSmall buf
      → buf.length + length s ≤ 30
      → Appends buf (append malloc buf s) s
  unfolding append
  append_small buf [] m h = Appends-nil buf m
  append_small buf (c ∷ s) m h =
      let n = buf.length + length (c ∷ s) + 1 in
      let blocks : buf.size % 32 ≡ 0 = ground (arith, m.first) in
      let e = append_lem malloc granted buf (c ∷ s) (omega arith) blocks in
      ground (arith, e, round_up_bounds n n buf.size, length-append {0} buf.text (c ∷ s))

  pub append_char_small :
      (buf : StringBuf) (ch : ℕ)
      → IsSmall buf
      → buf.length + 1 ≤ 30
      → Appends buf (append_char malloc buf ch) (ch ∷ [])
  append_char_small buf ch m h =
      rw (append_char-eq-append malloc granted buf ch) (append_small buf (ch ∷ []) m h)

  -- With memory granted a format into a buffer that is within its first array adds the whole text that
  -- the format and its arguments stand for, if at most 30 bytes are in the buffer then.
  pub format_small :
      (buf : StringBuf) (fmt : List ℕ) (args : List (List ℕ))
      → IsSmall buf
      → buf.length + length (substitute fmt args) ≤ 30
      → Appends buf (format malloc buf fmt args) (substitute fmt args)
  unfolding format substitute
  format_small buf [] args m h = Appends-nil buf m
  format_small buf (ch ∷ fmt) [] m h = elim (Bool-cases (ch == b'#')) [
    | inl t ↦
        let p = append_small buf [] m (omega arith) in
        let room : buf.length + length (substitute fmt []) ≤ 30 = rw t at h in
        rw t (
          Appends-append buf (append malloc buf []) _ [] (substitute fmt []) p
            (format_small (append malloc buf []) fmt [] p.small (omega (arith, p.length))))
    | inr f ↦
        let room : buf.length + suc (length (substitute fmt [])) ≤ 30 = rw f at h in
        let p = append_char_small buf ch m (omega arith) in
        rw f (
          Appends-append buf (append_char malloc buf ch) _ (ch ∷ []) (substitute fmt []) p
            (format_small (append_char malloc buf ch) fmt [] p.small (omega (arith, p.length))))
  ]
  format_small buf (ch ∷ fmt) (s ∷ args) m h = elim (Bool-cases (ch == b'#')) [
    | inl t ↦
        let rest = substitute fmt args in
        let all : buf.length + length (s ++ rest) ≤ 30 = rw t at h in
        let room : buf.length + (length s + length rest) ≤ 30 = rw (length-append s rest) at all in
        let p = append_small buf s m (omega arith) in
        rw t (
          Appends-append buf (append malloc buf s) _ s rest p
            (format_small (append malloc buf s) fmt args p.small (omega (arith, p.length))))
    | inr f ↦
        let rest = substitute fmt (s ∷ args) in
        let room : buf.length + suc (length rest) ≤ 30 = rw f at h in
        let p = append_char_small buf ch m (omega arith) in
        rw f (
          Appends-append buf (append_char malloc buf ch) _ (ch ∷ []) rest p (
            format_small (append_char malloc buf ch) fmt (s ∷ args) p.small
              (omega (arith, p.length))))
  ]
