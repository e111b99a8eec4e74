-- ===== src/Image/Format/RoundTrip.antt =====
-- The bytes of an item read back, and their number.
use koala_lang_pre.Prelude.{
  ◌==◌, length, length-append, length-map, ℕ, ◌+◌, ◌*◌, ◌^◌, ◌<◌, ◌≡◌, refl, sym, ap, ◌∙◌, subst,
  false, some, List, [], ◌∷◌, ◌++◌, map, arith,
}
use koala_lang_pre.Image.{item_string, item_typelist, item_code}
use koala_lang_pre.Image.Items.{Ref, Item}
use koala_lang_pre.Image.Key.{word}
use koala_lang_pre.Image.Format.{
  word_bytes, words_bytes, const_words, item_words, item_bytes, item_length, read_word, as_ref,
  as_item, item_size, read_item,
}
use koala_lang_pre.Image.Format.Fits.{
  AllFit, HasNoNul, Fits, AllSmall, word-lt, as_ref-word, words-AllSmall, map-as_ref,
  c_string-append, read_bytes-append, Fixed, read_item-Fixed, join_bytes, read_words-words_bytes,
}
use koala_lang_pre.Image.Format.Structs.{refs2, refs3, type-Fixed, length-const_words, const-Fixed}

string-read :
    (s rest : List ℕ)
    → HasNoNul s
    → length s + 1 < 2 ^ 32
    → read_item item_string (item_bytes (Item.string s) ++ rest) ≡ some (Item.string s, rest)
unfolding read_item item_bytes word_bytes read_word
string-read s rest h lt =
    let e : length (s ++ 0 ∷ []) ≡ length s + 1 = length-append s (0 ∷ []) in
    let r = read_bytes-append (s ++ 0 ∷ []) rest (omega (arith, e)) in
    rw (join_bytes (length s + 1) lt, sym e, r, c_string-append s h) refl

code-read :
    (codes rest : List ℕ)
    → 0 < length codes
    → length codes < 2 ^ 32
    → read_item item_code (item_bytes (Item.code codes) ++ rest) ≡ some (Item.code codes, rest)
unfolding read_item item_bytes word_bytes read_word
code-read codes rest h lt = rw (join_bytes (length codes) lt, read_bytes-append codes rest h) refl

typelist-read :
    (rs : List Ref) (rest : List ℕ)
    → AllFit rs
    → 0 < length rs
    → length rs < 2 ^ 32
    → read_item item_typelist (item_bytes (Item.typelist rs) ++ rest)
      ≡ some (Item.typelist rs, rest)
unfolding read_item item_bytes word_bytes read_word
typelist-read rs rest h pos_length lt =
    let e : (length rs == 0) ≡ false = ground arith in
    let r = read_words-words_bytes (map word rs) rest (words-AllSmall rs h) in
    rw
      (
        join_bytes (length rs) lt,
        sym (length-map word rs),
        r,
        length-map word rs,
        e,
        map-as_ref rs h,
      )
      refl

refs4 :
    (r p q o : Ref) {A : Type 0} (f : Ref → Ref → Ref → Ref → A)
    → AllFit (r ∷ p ∷ q ∷ o ∷ [])
    → f (as_ref (word r)) (as_ref (word p)) (as_ref (word q)) (as_ref (word o)) ≡ f r p q o
refs4 r p q o f (h, rest) = rw (as_ref-word r h) (refs3 p q o (f r) rest)

-- The structs that hold references only, by the number of those.
Fixed-refs :
    (type : ℕ) (d : Item) (rs : List Ref)
    → AllFit rs
    → item_words d ≡ map word rs
    → length rs ≡ item_size type
    → as_item type (map word rs) ≡ some d
    → item_bytes d ≡ words_bytes (item_words d)
    → ((type == item_string) ≡ false)
      × ((type == item_typelist) ≡ false)
      × ((type == item_code) ≡ false)
    → Fixed type d
Fixed-refs type d rs h e n back written plain = record {
  small = subst AllSmall (sym e) (words-AllSmall rs h);
  sized = ap length e ∙ length-map word rs ∙ n;
  back = ap (as_item type) e ∙ back;
  written = written;
  plain = plain;
}

at_type :
    (d : Item) (type type' : ℕ) (rest : List ℕ)
    → type ≡ type'
    → read_item type' (item_bytes d ++ rest) ≡ some (d, rest)
    → read_item type (item_bytes d ++ rest) ≡ some (d, rest)
at_type d type type' rest e h = ap (λ (n : ℕ). read_item n (item_bytes d ++ rest)) e ∙ h

-- The bytes of an item that fits are read back as the item, and what follows them is left.
pub read_item-item_bytes :
    (type : ℕ) (d : Item) (rest : List ℕ)
    → Fits type d
    → read_item type (item_bytes d ++ rest) ≡ some (d, rest)
unfolding item_words item_bytes item_size as_item
read_item-item_bytes type (Item.string s) rest (e, h, lt) =
    at_type _ _ _ rest e (string-read s rest h lt)
read_item-item_bytes type (Item.type a) rest (e, h) =
    at_type _ _ _ rest e (read_item-Fixed _ _ rest (type-Fixed a h))
read_item-item_bytes type (Item.typelist rs) rest (e, h, lo, hi) =
    at_type _ _ _ rest e (typelist-read rs rest h lo hi)
read_item-item_bytes type (Item.const c) rest (e, h) =
    at_type _ _ _ rest e (read_item-Fixed _ _ rest (const-Fixed c h))
read_item-item_bytes type (Item.code codes) rest (e, lo, hi) =
    at_type _ _ _ rest e (code-read codes rest lo hi)
read_item-item_bytes type (Item.locvar n t p i) rest (e, h, pl, il) = at_type _ _ _ rest e (
    read_item-Fixed _ _ rest (record {
      small = (word-lt n h.0, (word-lt t h.1.0, (pl, (il, tt))));
      sized = refl;
      back = refs2 n t (λ a b. some (Item.locvar a b p i)) h;
      written = refl;
      plain = (refl, refl, refl);
    }))
read_item-item_bytes type (Item.var n t k) rest (e, h, kl) = at_type _ _ _ rest e (
    read_item-Fixed _ _ rest (record {
      small = (word-lt n h.0, (word-lt t h.1.0, (kl, tt)));
      sized = refl;
      back = refs2 n t (λ a b. some (Item.var a b k)) h;
      written = refl;
      plain = (refl, refl, refl);
    }))
read_item-item_bytes type (Item.proto r p) rest (e, h) =
    let back = refs2 r p (λ u v. some (Item.proto u v)) h in
    at_type _ _ _ rest e (
      read_item-Fixed _ _ rest
        (Fixed-refs _ _ (r ∷ p ∷ []) h refl refl back refl (refl, refl, refl)))
read_item-item_bytes type (Item.func n p c) rest (e, h) =
    let back = refs3 n p c (λ u v w. some (Item.func u v w)) h in
    at_type _ _ _ rest e (
      read_item-Fixed _ _ rest
        (Fixed-refs _ _ (n ∷ p ∷ c ∷ []) h refl refl back refl (refl, refl, refl)))
read_item-item_bytes type (Item.class c s) rest (e, h) =
    let back = refs2 c s (λ u v. some (Item.class u v)) h in
    at_type _ _ _ rest e (
      read_item-Fixed _ _ rest
        (Fixed-refs _ _ (c ∷ s ∷ []) h refl refl back refl (refl, refl, refl)))
read_item-item_bytes type (Item.field c n t) rest (e, h) =
    let back = refs3 c n t (λ u v w. some (Item.field u v w)) h in
    at_type _ _ _ rest e (
      read_item-Fixed _ _ rest
        (Fixed-refs _ _ (c ∷ n ∷ t ∷ []) h refl refl back refl (refl, refl, refl)))
read_item-item_bytes type (Item.method c n p d) rest (e, h) =
    let back = refs4 c n p d (λ u v w x. some (Item.method u v w x)) h in
    at_type _ _ _ rest e (
      read_item-Fixed _ _ rest
        (Fixed-refs _ _ (c ∷ n ∷ p ∷ d ∷ []) h refl refl back refl (refl, refl, refl)))
read_item-item_bytes type (Item.trait c t) rest (e, h) =
    let back = refs2 c t (λ u v. some (Item.trait u v)) h in
    at_type _ _ _ rest e (
      read_item-Fixed _ _ rest
        (Fixed-refs _ _ (c ∷ t ∷ []) h refl refl back refl (refl, refl, refl)))
read_item-item_bytes type (Item.nfunc c n p) rest (e, h) =
    let back = refs3 c n p (λ u v w. some (Item.nfunc u v w)) h in
    at_type _ _ _ rest e (
      read_item-Fixed _ _ rest
        (Fixed-refs _ _ (c ∷ n ∷ p ∷ []) h refl refl back refl (refl, refl, refl)))
read_item-item_bytes type (Item.imeth c n p) rest (e, h) =
    let back = refs3 c n p (λ u v w. some (Item.imeth u v w)) h in
    at_type _ _ _ rest e (
      read_item-Fixed _ _ rest
        (Fixed-refs _ _ (c ∷ n ∷ p ∷ []) h refl refl back refl (refl, refl, refl)))
read_item-item_bytes type (Item.map t o s) rest h = absurd h

pub length-words_bytes : (ws : List ℕ) → length (words_bytes ws) ≡ length ws * 4
unfolding words_bytes word_bytes
length-words_bytes [] = refl
length-words_bytes (w ∷ ws) = omega (arith, length-words_bytes ws)

-- The column `length` of `item_func` is the number of bytes that the column `write` writes.
pub length-item_bytes : (d : Item) → length (item_bytes d) ≡ item_length d
unfolding item_bytes item_length words_bytes word_bytes item_words
length-item_bytes (Item.string s) = omega (arith, length-append s (0 ∷ []))
length-item_bytes (Item.typelist rs) =
    omega (arith, length-words_bytes (map word rs), length-map word rs)
length-item_bytes (Item.code codes) = omega arith
length-item_bytes (Item.const c) =
    length-words_bytes (const_words c) ∙ ap (λ (n : ℕ). n * 4) (length-const_words c)
length-item_bytes (Item.map t o s) = refl
length-item_bytes (Item.type a) = refl
length-item_bytes (Item.locvar n t p i) = refl
length-item_bytes (Item.var n t k) = refl
length-item_bytes (Item.proto r p) = refl
length-item_bytes (Item.func n p c) = refl
length-item_bytes (Item.class c s) = refl
length-item_bytes (Item.field c n t) = refl
length-item_bytes (Item.method c n p d) = refl
length-item_bytes (Item.trait c t) = refl
length-item_bytes (Item.nfunc c n p) = refl
length-item_bytes (Item.imeth c n p) = refl
