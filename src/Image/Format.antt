-- ===== src/Image/Format.antt =====
-- src/image.c, include/image.h: the items of an image as the bytes of its file.
-- The code writes each struct as it lies in memory: words of 32 bits with their low byte first. The last
-- word of a constant's union is nought where an `int64` does not fill it. `none` is a failed assertion, or
-- bytes that are no item of the model: a float, a truth value, a string with a NUL before its end.
pub mod Fits
pub mod Structs
pub mod RoundTrip
use koala_lang_pre.Prelude.{
  ltb, ◌==◌, if◌then◌else◌, length, take, drop, ℤ, pos, negsuc, ℕ, zero, suc, ◌+◌, ◌-◌, ◌*◌, ◌/◌,
  ◌%◌, ◌^◌, ◌||◌, Option, none, some, List, [], ◌∷◌, ◌++◌, map,
}
use koala_lang_pre.Image.{
  ◌>>=◌, item_string, item_type, item_typelist, item_proto, item_const, item_locvar, item_var,
  item_func, item_code, item_class, item_field, item_method, item_trait, item_nfunc, item_imeth,
}
use koala_lang_pre.Image.Items.{Ref, TypeItem, ConstItem, Item, type_kind, type_words}
use koala_lang_pre.Image.Key.{word}

-- The four bytes of a word.
unfoldable pub word_bytes : ℕ → List ℕ
word_bytes w = w % 256 ∷ w / 256 % 256 ∷ w / 65536 % 256 ∷ w / 16777216 % 256 ∷ []

unfoldable pub words_bytes : List ℕ → List ℕ
unfolding word_bytes
words_bytes [] = []
words_bytes (w ∷ ws) = word_bytes w ++ words_bytes ws

-- The two words of an `int64`.
abbrev pub int_words : ℤ → List ℕ
int_words (pos n) = (n % 2 ^ 32) ∷ (n / 2 ^ 32 % 2 ^ 32) ∷ []
int_words (negsuc n) = (2 ^ 32 - 1 - n % 2 ^ 32) ∷ (2 ^ 32 - 1 - n / 2 ^ 32 % 2 ^ 32) ∷ []

abbrev pub const_words : ConstItem → List ℕ
const_words (ConstItem.int n) = 1 ∷ 0 ∷ int_words n
const_words (ConstItem.string i) = 4 ∷ 0 ∷ i ∷ 0 ∷ []
const_words (ConstItem.uchar c) = 5 ∷ 0 ∷ c ∷ 0 ∷ []

-- The words of the structs of a fixed size. The type of a map item is a `uint16` before 16 bits unused.
unfoldable pub item_words : Item → List ℕ
item_words (Item.map type offset size) = type % 2 ^ 16 ∷ offset ∷ size ∷ []
item_words (Item.type a) = type_kind a ∷ word (type_words a).0 ∷ word (type_words a).1 ∷ []
item_words (Item.proto r p) = word r ∷ word p ∷ []
item_words (Item.const c) = const_words c
item_words (Item.locvar name type place owner) = word name ∷ word type ∷ place ∷ owner ∷ []
item_words (Item.var name type konst) = word name ∷ word type ∷ konst ∷ []
item_words (Item.func name proto code) = word name ∷ word proto ∷ word code ∷ []
item_words (Item.class c super) = word c ∷ word super ∷ []
item_words (Item.field c name type) = word c ∷ word name ∷ word type ∷ []
item_words (Item.method c name proto code) = word c ∷ word name ∷ word proto ∷ word code ∷ []
item_words (Item.trait c traits) = word c ∷ word traits ∷ []
item_words (Item.nfunc c name proto) = word c ∷ word name ∷ word proto ∷ []
item_words (Item.imeth c name proto) = word c ∷ word name ∷ word proto ∷ []
item_words d = []

-- The column `write` of `item_func`.
unfoldable pub item_bytes : Item → List ℕ
unfolding word_bytes words_bytes item_words
item_bytes (Item.string s) = word_bytes (length s + 1) ++ s ++ 0 ∷ []
item_bytes (Item.typelist rs) = word_bytes (length rs) ++ words_bytes (map word rs)
item_bytes (Item.code codes) = word_bytes (length codes) ++ codes
item_bytes d = words_bytes (item_words d)

-- The column `length` of `item_func`.
unfoldable pub item_length : Item → ℕ
item_length (Item.map type offset size) = 12
item_length (Item.string s) = 4 + (length s + 1)
item_length (Item.type a) = 12
item_length (Item.typelist rs) = 4 + length rs * 4
item_length (Item.proto r p) = 8
item_length (Item.const c) = 16
item_length (Item.locvar name type place owner) = 16
item_length (Item.var name type konst) = 12
item_length (Item.func name proto code) = 12
item_length (Item.code codes) = 4 + length codes
item_length (Item.class c super) = 8
item_length (Item.field c name type) = 12
item_length (Item.method c name proto code) = 16
item_length (Item.trait c traits) = 8
item_length (Item.nfunc c name proto) = 12
item_length (Item.imeth c name proto) = 12

-- `fread` of a word.
unfoldable pub read_word : List ℕ → Option (ℕ × List ℕ)
read_word (a ∷ b ∷ c ∷ d ∷ bytes) = some (a + b * 256 + c * 65536 + d * 16777216, bytes)
read_word bytes = none

unfoldable pub read_words : ℕ → List ℕ → Option (List ℕ × List ℕ)
unfolding read_word
read_words zero bytes = some ([], bytes)
read_words (suc n) bytes = do
  (w, bytes) ← read_word bytes
  (ws, bytes) ← read_words n bytes
  some (w ∷ ws, bytes)

-- `fread` of one object of `n` bytes: `assert(sz == 1)` fails where the bytes run out, and where `n` is 0.
unfoldable pub read_bytes : ℕ → List ℕ → Option (List ℕ × List ℕ)
read_bytes n bytes =
    if n == 0 || ltb (length bytes) n then none else some (take n bytes, drop n bytes)

-- The string in the bytes up to a NUL that is the last.
unfoldable pub c_string : List ℕ → Option (List ℕ)
c_string [] = none
c_string (c ∷ cs) =
    let rest = c_string cs in
    if c == 0
    then elim cs [ [] ↦ some [] | _ ∷ _ ↦ none ]
    else elim rest [ none ↦ none | some s ↦ some (c ∷ s) ]

-- An index that is -1 is `none`.
abbrev pub as_ref : ℕ → Ref
as_ref w = if w == 2 ^ 32 - 1 then none else some w

-- The number whose two words are `lo` and `hi`.
abbrev pub as_int : ℕ → ℕ → ℤ
as_int lo hi =
    if ltb hi (2 ^ 31)
    then pos (lo + hi * 2 ^ 32)
    else negsuc (2 ^ 32 - 1 - lo + (2 ^ 32 - 1 - hi) * 2 ^ 32)

unfoldable pub as_type_item : ℕ → ℕ → ℕ → Option Item
as_type_item kind a b =
    if kind == 1
    then some (Item.type (TypeItem.primitive a))
    else if kind == 2
    then some (Item.type (TypeItem.klass (as_ref a) (as_ref b)))
    else if kind == 3
    then some (Item.type (TypeItem.proto (as_ref a)))
    else if kind == 4
    then some (Item.type (TypeItem.array a (as_ref b)))
    else if kind == 7
    then some (Item.type (TypeItem.varg (as_ref a)))
    else none

unfoldable pub as_const_item : ℕ → ℕ → ℕ → Option Item
as_const_item type lo hi =
    if type == 1
    then some (Item.const (ConstItem.int (as_int lo hi)))
    else if type == 4
    then some (Item.const (ConstItem.string lo))
    else if type == 5
    then some (Item.const (ConstItem.uchar lo))
    else none

-- The item of a type in the words of its struct, for the types whose items have a fixed size.
unfoldable pub as_item : ℕ → List ℕ → Option Item
unfolding as_type_item as_const_item
as_item type (a ∷ b ∷ []) =
    if type == item_proto
    then some (Item.proto (as_ref a) (as_ref b))
    else if type == item_class
    then some (Item.class (as_ref a) (as_ref b))
    else if type == item_trait
    then some (Item.trait (as_ref a) (as_ref b))
    else none
as_item type (a ∷ b ∷ c ∷ []) =
    if type == item_type
    then as_type_item a b c
    else if type == item_var
    then some (Item.var (as_ref a) (as_ref b) c)
    else if type == item_func
    then some (Item.func (as_ref a) (as_ref b) (as_ref c))
    else if type == item_field
    then some (Item.field (as_ref a) (as_ref b) (as_ref c))
    else if type == item_nfunc
    then some (Item.nfunc (as_ref a) (as_ref b) (as_ref c))
    else if type == item_imeth
    then some (Item.imeth (as_ref a) (as_ref b) (as_ref c))
    else none
as_item type (a ∷ b ∷ c ∷ d ∷ []) =
    if type == item_const
    then as_const_item a c d
    else if type == item_locvar
    then some (Item.locvar (as_ref a) (as_ref b) c d)
    else if type == item_method
    then some (Item.method (as_ref a) (as_ref b) (as_ref c) (as_ref d))
    else none
as_item type words = none

-- The number of those words.
unfoldable pub item_size : ℕ → ℕ
item_size type =
    if type == item_proto || type == item_class || type == item_trait
    then 2
    else if type == item_const || type == item_locvar || type == item_method
    then 4
    else 3

abbrev read_string : List ℕ → Option (Item × List ℕ)
unfolding read_word read_bytes
read_string bytes = do
  (len, bytes) ← read_word bytes
  (text, bytes) ← read_bytes len bytes
  s ← c_string text
  some (Item.string s, bytes)

abbrev read_typelist : List ℕ → Option (Item × List ℕ)
read_typelist bytes = do
  (len, bytes) ← read_word bytes
  (ws, bytes) ← read_words len bytes
  if len == 0 then none else some (Item.typelist (map as_ref ws), bytes)

abbrev read_code : List ℕ → Option (Item × List ℕ)
read_code bytes = do
  (len, bytes) ← read_word bytes
  (codes, bytes) ← read_bytes len bytes
  some (Item.code codes, bytes)

abbrev read_fixed : ℕ → List ℕ → Option (Item × List ℕ)
read_fixed type bytes = do
  (ws, bytes) ← read_words (item_size type) bytes
  item ← as_item type ws
  some (item, bytes)

-- The read of one item in the cases of `KImage_Read_File`. The code reads the items of a fixed size as one
-- array; either way a file that is short ends the program.
unfoldable pub read_item : ℕ → List ℕ → Option (Item × List ℕ)
unfolding read_word read_words read_bytes as_item item_size c_string
read_item type bytes =
    if type == item_string
    then read_string bytes
    else if type == item_typelist
    then read_typelist bytes
    else if type == item_code
    then read_code bytes
    else read_fixed type bytes
