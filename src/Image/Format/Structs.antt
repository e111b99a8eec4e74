-- ===== src/Image/Format/Structs.antt =====
-- The structs of a fixed size as words, and back.
use koala_lang_pre.Prelude.{
  length, ℤ, pos, negsuc, ◌^◌, ◌<◌, ◌≡◌, refl, ap, ap₂, some, [], ◌∷◌, arith,
}
use koala_lang_pre.Image.{item_type, item_const}
use koala_lang_pre.Image.Items.{Ref, TypeItem, ConstItem, Item, type_kind, type_words}
use koala_lang_pre.Image.Key.{word}
use koala_lang_pre.Image.Format.{
  const_words, item_words, item_bytes, as_ref, as_type_item, as_const_item, as_item, item_size,
}
use koala_lang_pre.Image.Format.Fits.{
  AllFit, TypeFits, ConstFits, AllSmall, word-lt, as_ref-word, as_int-pos, as_int-negsuc, Fixed,
}

-- The words of two, three and four references, as a struct holds them.
pub refs2 :
    (r p : Ref) {A : Type 0} (f : Ref → Ref → A)
    → AllFit (r ∷ p ∷ [])
    → f (as_ref (word r)) (as_ref (word p)) ≡ f r p
refs2 r p f (h, (k, _)) = ap₂ f (as_ref-word r h) (as_ref-word p k)

pub refs3 :
    (r p q : Ref) {A : Type 0} (f : Ref → Ref → Ref → A)
    → AllFit (r ∷ p ∷ q ∷ [])
    → f (as_ref (word r)) (as_ref (word p)) (as_ref (word q)) ≡ f r p q
refs3 r p q f (h, rest) = rw (as_ref-word r h) (refs2 p q (f r) rest)

type_word_lt :
    (a : TypeItem)
    → TypeFits a
    → (word (type_words a).0 < 2 ^ 32) × (word (type_words a).1 < 2 ^ 32)
type_word_lt (TypeItem.primitive c) h = (omega arith, omega arith)
type_word_lt (TypeItem.klass p n) h = (word-lt p h.0, word-lt n h.1)
type_word_lt (TypeItem.proto r) h = (word-lt r h, omega arith)
type_word_lt (TypeItem.array n r) h = (omega (arith, h.0), word-lt r h.1)
type_word_lt (TypeItem.varg r) h = (word-lt r h, omega arith)

type-back :
    (a : TypeItem)
    → TypeFits a
    → as_type_item (type_kind a) (word (type_words a).0) (word (type_words a).1)
      ≡ some (Item.type a)
unfolding as_type_item
type-back (TypeItem.primitive c) h = refl
type-back (TypeItem.klass p n) (h, k) =
    refs2 p n (λ a b. some (Item.type (TypeItem.klass a b))) (h, (k, tt))
type-back (TypeItem.proto r) h = rw (as_ref-word r h) refl
type-back (TypeItem.array n r) h = rw (as_ref-word r h.1) refl
type-back (TypeItem.varg r) h = rw (as_ref-word r h) refl

pub type-Fixed : (a : TypeItem) → TypeFits a → Fixed item_type (Item.type a)
unfolding item_words item_bytes item_size as_item
type-Fixed a h = record {
  small = (kind_lt a, ((type_word_lt a h).0, ((type_word_lt a h).1, tt)));
  sized = refl;
  back = type-back a h;
  written = refl;
  plain = (refl, refl, refl);
}
  where
    kind_lt : (a : TypeItem) → type_kind a < 2 ^ 32
    kind_lt (TypeItem.primitive c) = omega arith
    kind_lt (TypeItem.klass p n) = omega arith
    kind_lt (TypeItem.proto r) = omega arith
    kind_lt (TypeItem.array n r) = omega arith
    kind_lt (TypeItem.varg r) = omega arith

const_small : (c : ConstItem) → ConstFits c → AllSmall (const_words c)
const_small (ConstItem.int (pos n)) h =
    (omega arith, (omega arith, (omega arith, (omega arith, tt))))
const_small (ConstItem.int (negsuc n)) h =
    (omega arith, (omega arith, (omega arith, (omega arith, tt))))
const_small (ConstItem.string i) h = (omega arith, (omega arith, (h, (omega arith, tt))))
const_small (ConstItem.uchar c) h = (omega arith, (omega arith, (h, (omega arith, tt))))

pub length-const_words : (c : ConstItem) → length (const_words c) ≡ 4
length-const_words (ConstItem.int (pos n)) = refl
length-const_words (ConstItem.int (negsuc n)) = refl
length-const_words (ConstItem.string i) = refl
length-const_words (ConstItem.uchar c) = refl

const-back :
    (c : ConstItem) → ConstFits c → as_item item_const (const_words c) ≡ some (Item.const c)
unfolding as_item as_const_item
const-back (ConstItem.int (pos n)) h =
    ap (λ (n : ℤ). some (Item.const (ConstItem.int n))) (as_int-pos n h)
const-back (ConstItem.int (negsuc n)) h =
    ap (λ (n : ℤ). some (Item.const (ConstItem.int n))) (as_int-negsuc n h)
const-back (ConstItem.string i) h = refl
const-back (ConstItem.uchar c) h = refl

pub const-Fixed : (c : ConstItem) → ConstFits c → Fixed item_const (Item.const c)
unfolding item_words item_bytes item_size
const-Fixed c h = record {
  small = const_small c h;
  sized = length-const_words c;
  back = const-back c h;
  written = refl;
  plain = (refl, refl, refl);
}
