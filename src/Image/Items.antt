-- ===== src/Image/Items.antt =====
-- src/image.c, include/image.h: the structs of items, and the functions that compare them.
use native.Mathlib.Decide.{ℕ_discrete}
use koala_lang_pre.Prelude.{
  ◌==◌, ℤ, pos, negsuc, ℕ, Bool, true, false, ◌&&◌, Option, none, some, List, [], ◌∷◌,
}

-- An `int32` that is an index; `none` is -1.
abbrev pub Ref : Type 0
Ref = Option ℕ

-- The union is two words; `type_words` says which.
pub data TypeItem : Type 0 where
  primitive : ℕ → TypeItem
  klass : Ref → Ref → TypeItem
  proto : Ref → TypeItem
  array : ℕ → Ref → TypeItem
  varg : Ref → TypeItem

pub data ConstItem : Type 0 where
  int : ℤ → ConstItem
  string : ℕ → ConstItem
  uchar : ℕ → ConstItem

pub data Item : Type 0 where
  string : List ℕ → Item
  type : TypeItem → Item
  typelist : List Ref → Item
  proto : Ref → Ref → Item
  const : ConstItem → Item
  locvar : Ref → Ref → ℕ → ℕ → Item
  var : Ref → Ref → ℕ → Item
  func : Ref → Ref → Ref → Item
  code : List ℕ → Item
  class : Ref → Ref → Item
  field : Ref → Ref → Ref → Item
  method : Ref → Ref → Ref → Ref → Item
  trait : Ref → Ref → Item
  nfunc : Ref → Ref → Ref → Item
  imeth : Ref → Ref → Ref → Item
  map : ℕ → ℕ → ℕ → Item

abbrev pub ref_eq : Ref → Ref → Bool
ref_eq none none = true
ref_eq (some i) (some j) = i == j
ref_eq _ _ = false

-- `item->kind`
abbrev pub type_kind : TypeItem → ℕ
type_kind (primitive c) = 1
type_kind (klass p n) = 2
type_kind (proto r) = 3
type_kind (array n r) = 4
type_kind (varg r) = 7

-- The words that `pathindex` and `typeindex` name, whatever the kind.
abbrev pub type_words : TypeItem → Ref × Ref
type_words (primitive c) = (some c, some 0)
type_words (klass p n) = (p, n)
type_words (proto r) = (r, some 0)
type_words (array n r) = (some n, r)
type_words (varg r) = (r, some 0)

-- `typeitem_equal`
unfoldable pub typeitem_equal : TypeItem → TypeItem → Bool
typeitem_equal a b =
    type_kind a == type_kind b
    && ref_eq (type_words a).0 (type_words b).0
    && ref_eq (type_words a).1 (type_words b).1

-- `typelistitem_equal`
unfoldable pub typelistitem_equal : List Ref → List Ref → Bool
typelistitem_equal [] [] = true
typelistitem_equal (r ∷ rs) (q ∷ qs) = ref_eq r q && typelistitem_equal rs qs
typelistitem_equal _ _ = false

abbrev pub int_eq : ℤ → ℤ → Bool
int_eq (pos m) (pos n) = m == n
int_eq (negsuc m) (negsuc n) = m == n
int_eq _ _ = false

-- `constitem_equal`
unfoldable pub constitem_equal : ConstItem → ConstItem → Bool
constitem_equal (int m) (int n) = int_eq m n
constitem_equal (string i) (string j) = i == j
constitem_equal (uchar c) (uchar d) = c == d
constitem_equal _ _ = false

pub Item-discrete : Discrete Item
Item-discrete = hlevel (ℕ_discrete)
