-- ===== src/Image/Format/Fits.antt =====
-- The items that the file format holds, and their bytes read back.
use koala_lang_pre.Prelude.{
  ltb, ◌==◌, length, length-append, take-append, drop-length, ℤ, pos, negsuc, ℕ, ◌+◌, ◌-◌, ◌*◌, ◌/◌,
  ◌%◌, ◌^◌, ◌<◌, ◌≡◌, refl, sym, ap, ap₂, ◌≢◌, false, none, some, List, [], ◌∷◌, ◌++◌, map, arith,
}
use koala_lang_pre.Image.{
  item_string, item_type, item_typelist, item_proto, item_const, item_locvar, item_var, item_func,
  item_code, item_class, item_field, item_method, item_trait, item_nfunc, item_imeth,
}
use koala_lang_pre.Image.Items.{Ref, TypeItem, ConstItem, Item}
use koala_lang_pre.Image.Key.{word}
use koala_lang_pre.Image.Format.{
  word_bytes, words_bytes, item_words, item_bytes, read_word, read_words, read_bytes, c_string,
  as_ref, as_int, as_item, item_size, read_item,
}

-- An index that is not the word of -1.
abbrev pub RefFits : Ref → Type 0
RefFits none = Unit {0}
RefFits (some i) = i < 2 ^ 32 - 1

abbrev pub AllFit : List Ref → Type 0
AllFit [] = Unit {0}
AllFit (r ∷ rs) = RefFits r × AllFit rs

abbrev pub HasNoNul : List ℕ → Type 0
HasNoNul [] = Unit {0}
HasNoNul (c ∷ cs) = (c ≢ 0) × HasNoNul cs

abbrev pub IntFits : ℤ → Type 0
IntFits (pos n) = n < 2 ^ 63
IntFits (negsuc n) = n < 2 ^ 63

abbrev pub TypeFits : TypeItem → Type 0
TypeFits (TypeItem.primitive c) = c < 2 ^ 32 - 1
TypeFits (TypeItem.klass p n) = RefFits p × RefFits n
TypeFits (TypeItem.proto r) = RefFits r
TypeFits (TypeItem.array n r) = (n < 2 ^ 32 - 1) × RefFits r
TypeFits (TypeItem.varg r) = RefFits r

abbrev pub ConstFits : ConstItem → Type 0
ConstFits (ConstItem.int n) = IntFits n
ConstFits (ConstItem.string i) = i < 2 ^ 32
ConstFits (ConstItem.uchar c) = c < 2 ^ 32

-- The item is of the type and its numbers fit the words that they are written to; a list of types and the
-- code of a function are not empty.
abbrev pub Fits : ℕ → Item → Type 0
Fits type (Item.string s) = (type ≡ item_string) × HasNoNul s × (length s + 1 < 2 ^ 32)
Fits type (Item.type a) = (type ≡ item_type) × TypeFits a
Fits type (Item.typelist rs) =
    (type ≡ item_typelist) × AllFit rs × (0 < length rs) × (length rs < 2 ^ 32)
Fits type (Item.proto r p) = (type ≡ item_proto) × AllFit (r ∷ p ∷ [])
Fits type (Item.const c) = (type ≡ item_const) × ConstFits c
Fits type (Item.locvar n t p i) =
    (type ≡ item_locvar) × AllFit (n ∷ t ∷ []) × (p < 2 ^ 32) × (i < 2 ^ 32)
Fits type (Item.var n t k) = (type ≡ item_var) × AllFit (n ∷ t ∷ []) × (k < 2 ^ 32)
Fits type (Item.func n p c) = (type ≡ item_func) × AllFit (n ∷ p ∷ c ∷ [])
Fits type (Item.code codes) = (type ≡ item_code) × (0 < length codes) × (length codes < 2 ^ 32)
Fits type (Item.class c s) = (type ≡ item_class) × AllFit (c ∷ s ∷ [])
Fits type (Item.field c n t) = (type ≡ item_field) × AllFit (c ∷ n ∷ t ∷ [])
Fits type (Item.method c n p d) = (type ≡ item_method) × AllFit (c ∷ n ∷ p ∷ d ∷ [])
Fits type (Item.trait c t) = (type ≡ item_trait) × AllFit (c ∷ t ∷ [])
Fits type (Item.nfunc c n p) = (type ≡ item_nfunc) × AllFit (c ∷ n ∷ p ∷ [])
Fits type (Item.imeth c n p) = (type ≡ item_imeth) × AllFit (c ∷ n ∷ p ∷ [])
Fits type (Item.map t o s) = ⊥

abbrev pub AllSmall : List ℕ → Type 0
AllSmall [] = Unit {0}
AllSmall (w ∷ ws) = (w < 2 ^ 32) × AllSmall ws

pub join_bytes :
    (w : ℕ)
    → w < 2 ^ 32
    → w % 256 + w / 256 % 256 * 256 + w / 65536 % 256 * 65536 + w / 16777216 % 256 * 16777216 ≡ w
join_bytes w h = omega arith

pub read_word-word_bytes :
    (w : ℕ) (rest : List ℕ) → w < 2 ^ 32 → read_word (word_bytes w ++ rest) ≡ some (w, rest)
unfolding read_word word_bytes
read_word-word_bytes w rest h = ap (λ (n : ℕ). some (n, rest)) (join_bytes w h)

pub read_words-words_bytes :
    (ws rest : List ℕ)
    → AllSmall ws
    → read_words (length ws) (words_bytes ws ++ rest) ≡ some (ws, rest)
unfolding read_words words_bytes
read_words-words_bytes [] rest h = refl
read_words-words_bytes (w ∷ ws) rest (lt, h) =
    rw (read_words-words_bytes ws rest h) (ap (λ (v : ℕ). some (v ∷ ws, rest)) (join_bytes w lt))

pub word-lt : (r : Ref) → RefFits r → word r < 2 ^ 32
word-lt none h = omega arith
word-lt (some i) h = omega arith

pub as_ref-word : (r : Ref) → RefFits r → as_ref (word r) ≡ r
as_ref-word none h = refl
as_ref-word (some i) h = ground arith

pub words-AllSmall : (rs : List Ref) → AllFit rs → AllSmall (map word rs)
words-AllSmall [] h = tt
words-AllSmall (r ∷ rs) (h, hs) = (word-lt r h, words-AllSmall rs hs)

pub map-as_ref : (rs : List Ref) → AllFit rs → map as_ref (map word rs) ≡ rs
map-as_ref [] h = refl
map-as_ref (r ∷ rs) (h, hs) =
    ap₂ (λ (q : Ref) (qs : List Ref). q ∷ qs) (as_ref-word r h) (map-as_ref rs hs)

pub as_int-pos : (n : ℕ) → n < 2 ^ 63 → as_int (n % 2 ^ 32) (n / 2 ^ 32 % 2 ^ 32) ≡ pos n
as_int-pos n h = ground arith

pub as_int-negsuc :
    (n : ℕ)
    → n < 2 ^ 63
    → as_int (2 ^ 32 - 1 - n % 2 ^ 32) (2 ^ 32 - 1 - n / 2 ^ 32 % 2 ^ 32) ≡ negsuc n
as_int-negsuc n h = ground arith

pub c_string-append : (s : List ℕ) → HasNoNul s → c_string (s ++ 0 ∷ []) ≡ some s
unfolding c_string
c_string-append [] h = refl
c_string-append (c ∷ cs) (ne, h) =
    let e : (c == 0) ≡ false = ground arith in rw (e, c_string-append cs h) refl

pub read_bytes-append :
    (xs rest : List ℕ) → 0 < length xs → read_bytes (length xs) (xs ++ rest) ≡ some (xs, rest)
unfolding read_bytes
read_bytes-append xs rest h =
    let e : (length xs == 0) ≡ false = ground arith in
    let l : ltb (length (xs ++ rest)) (length xs) ≡ false = ground (arith, length-append xs rest) in
    rw (e, l, take-append xs rest (length xs) refl, drop-length xs rest) refl

-- The struct of an item of a fixed size.
pub record Fixed (type : ℕ) (d : Item) : Type 0 where
  pub small : AllSmall (item_words d)
  pub sized : length (item_words d) ≡ item_size type
  pub back : as_item type (item_words d) ≡ some d
  pub written : item_bytes d ≡ words_bytes (item_words d)
  pub plain :
      ((type == item_string) ≡ false)
      × ((type == item_typelist) ≡ false)
      × ((type == item_code) ≡ false)

pub read_item-Fixed :
    (type : ℕ) (d : Item) (rest : List ℕ)
    → Fixed type d
    → read_item type (item_bytes d ++ rest) ≡ some (d, rest)
unfolding read_item
read_item-Fixed type d rest x =
    let r = read_words-words_bytes (item_words d) rest x.small in
    rw (x.plain.0, x.plain.1, x.plain.2, x.written, sym x.sized, r, x.back) refl
