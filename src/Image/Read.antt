-- ===== src/Image/Read.antt =====
-- src/image.c: descriptors read back from the items of an image, and the calls that hand out its constants,
-- variables and functions.
-- `none` is a read through NULL or a failed assertion. An index leads to an item that may hold an index, so
-- the descriptors are read on fuel.
use koala_lang_pre.Prelude.{ℕ, zero, suc, Option, none, some, List, [], ◌∷◌}
use koala_lang_pre.TypeDesc.{TypeDesc, TypeList, get_basic}
use koala_lang_pre.AtomTable.{get}
use koala_lang_pre.Image.Items.{Ref, TypeItem, Item}
use koala_lang_pre.Image.{Table, ◌>>=◌, item_string, item_type, item_typelist, item_proto}

-- `AtomTable_Get` at an index that may be -1.
unfoldable pub get_item : Table → ℕ → Ref → Option Item
get_item t type none = none
get_item t type (some i) = get t type i

-- The casts of what it returns.
abbrev pub as_string : Item → Option (List ℕ)
as_string (Item.string s) = some s
as_string d = none

abbrev pub as_type : Item → Option TypeItem
as_type (Item.type a) = some a
as_type d = none

abbrev pub as_typelist : Item → Option (List Ref)
as_typelist (Item.typelist rs) = some rs
as_typelist d = none

abbrev pub as_proto : Item → Option (Ref × Ref)
as_proto (Item.proto r p) = some (r, p)
as_proto d = none

abbrev pub get_string : Table → Ref → Option (List ℕ)
get_string t r = get_item t item_string r >>= as_string

abbrev pub get_type : Table → Ref → Option TypeItem
get_type t r = get_item t item_type r >>= as_type

-- A list of types is NULL where its index is -1, and then empty.
unfoldable pub get_typelist : Table → Ref → Option (List Ref)
get_typelist t none = some []
get_typelist t (some i) = get_item t item_typelist (some i) >>= as_typelist

-- `TypeDesc_Get_Base`
unfoldable pub base_desc : ℕ → Option TypeDesc
base_desc kind = elim (get_basic kind) [ none ↦ none | some b ↦ some (TypeDesc.base b) ]

-- The path of a class; NULL where its index is -1.
unfoldable pub get_path : Table → Ref → Option (List ℕ)
get_path t none = some []
get_path t (some i) = get_string t (some i)

-- The loop of `TypeListItem_To_Vector`, with the call for a type as its argument.
unfoldable pub to_vector : (Ref → Option TypeDesc) → List Ref → Option TypeList
to_vector read [] = some TypeList.nil
to_vector read (r ∷ rs) = do desc ← read r; more ← to_vector read rs; some (TypeList.cons desc more)

-- `ProtoItem_To_TypeDesc`, likewise.
unfoldable pub proto_to_typedesc : (Ref → Option TypeDesc) → Table → Ref → Ref → Option TypeDesc
unfolding to_vector get_typelist
proto_to_typedesc read t rindex pindex = do
  rs ← get_typelist t rindex
  rets ← to_vector read rs
  ps ← get_typelist t pindex
  args ← to_vector read ps
  some (TypeDesc.proto args rets)

-- The switch of `TypeItem_To_TypeDesc`, with the call for a part as its argument.
unfoldable pub item_to_typedesc : (Ref → Option TypeDesc) → Table → TypeItem → Option TypeDesc
unfolding proto_to_typedesc
item_to_typedesc read t (TypeItem.primitive c) = base_desc c
item_to_typedesc read t (TypeItem.klass p n) = do
  path ← get_path t p
  name ← get_string t n
  some (TypeDesc.klass path name)
item_to_typedesc read t (TypeItem.proto q) = do
  d ← get_item t item_proto q
  q' ← as_proto d
  proto_to_typedesc read t q'.0 q'.1
item_to_typedesc read t (TypeItem.array dims q) = do elem ← read q; some (TypeDesc.array dims elem)
item_to_typedesc read t (TypeItem.varg q) = do elem ← read q; some (TypeDesc.varg elem)

-- `TypeItem_To_TypeDesc` of the item at an index.
unfoldable pub to_typedesc : ℕ → Table → Ref → Option TypeDesc
to_typedesc zero t r = none
to_typedesc (suc f) t r = elim (get_type t r) [
  | none ↦ none
  | some item ↦ item_to_typedesc (to_typedesc f t) t item
]

-- `ProtoItem_To_TypeDesc` of the item at an index.
unfoldable pub get_proto : ℕ → Table → Ref → Option TypeDesc
unfolding proto_to_typedesc
get_proto f t r = do
  d ← get_item t item_proto r
  q ← as_proto d
  proto_to_typedesc (to_typedesc f t) t q.0 q.1
