-- ===== src/Image/Module.antt =====
-- src/image.c: what the compiler adds to an image (`KImage_Add_*`) and what the loader gets from it
-- (`KImage_Get_*`).
-- The callbacks of the loader are given the values of a list, in its order. Positions and flags that are
-- `int` are natural numbers.
pub mod Growth
pub mod Vars
pub mod Funcs
use koala_lang_pre.Prelude.{ℤ, ℕ, Bool, false, Option, none, some, List, [], ◌∷◌}
use koala_lang_pre.TypeDesc.{TypeDesc, TypeList}
use koala_lang_pre.AtomTable.{get, vector, append}
use koala_lang_pre.Image.Items.{Ref, ConstItem, Item}
use koala_lang_pre.Image.Key.{entry_key}
use koala_lang_pre.Image.{
  Table, ◌>>=◌, item_string, item_const, item_locvar, item_var, item_func, item_code, item_class,
  item_field, item_method, item_trait, item_nfunc, item_imeth, item_proto, set_unique,
  stringitem_set, typeitem_set, typelistitem_set, protoitem_set,
}
use koala_lang_pre.Image.Read.{get_item, get_string, to_typedesc, get_proto}

-- An item that is not unique: `AtomTable_Append` with 0.
abbrev pub append_plain : (ℕ → Bool) → Table → ℕ → Item → Option (Table × ℕ)
append_plain malloc t type d = append malloc t type d false

module _ (malloc : ℕ → Bool) where
  unfoldable pub add_integer : Table → ℤ → Option (Table × ℕ)
  unfolding set_unique
  add_integer t val = set_unique malloc t item_const (Item.const (ConstItem.int val))

  unfoldable pub add_string : Table → List ℕ → Option (Table × ℕ)
  unfolding set_unique stringitem_set
  add_string t val = do
    idx ← stringitem_set malloc t val
    set_unique malloc idx.0 item_const (Item.const (ConstItem.string idx.1))

  unfoldable pub add_uchar : Table → ℕ → Option (Table × ℕ)
  unfolding set_unique
  add_uchar t val = set_unique malloc t item_const (Item.const (ConstItem.uchar val))

  unfoldable pub add_var : Table → List ℕ → TypeDesc → ℕ → Option (Table × ℕ)
  unfolding typeitem_set stringitem_set
  add_var t name desc konst = do
    type ← typeitem_set malloc desc t
    id ← stringitem_set malloc type.0 name
    append_plain malloc id.0 item_var (Item.var (some id.1) (some type.1) konst)

  unfoldable pub add_locvar : Table → List ℕ → TypeDesc → ℕ → ℕ → Option (Table × ℕ)
  unfolding typeitem_set stringitem_set
  add_locvar t name desc place owner = do
    type ← typeitem_set malloc desc t
    id ← stringitem_set malloc type.0 name
    append_plain malloc id.0 item_locvar (Item.locvar (some id.1) (some type.1) place owner)

  -- `codeitem_set`
  unfoldable pub codeitem_set : Table → List ℕ → Option (Table × ℕ)
  codeitem_set t codes = append_plain malloc t item_code (Item.code codes)

  unfoldable pub add_func : Table → List ℕ → TypeList → TypeList → List ℕ → Option (Table × ℕ)
  unfolding stringitem_set protoitem_set codeitem_set
  add_func t name args rets codes = do
    id ← stringitem_set malloc t name
    proto ← protoitem_set malloc id.0 args rets
    code ← codeitem_set proto.0 codes
    append_plain malloc code.0 item_func (Item.func (some id.1) (some proto.1) (some code.1))

  -- The class itself, a descriptor with a NULL path.
  unfoldable pub classitem_set : Table → List ℕ → Option (Table × ℕ)
  unfolding typeitem_set
  classitem_set t name = typeitem_set malloc (TypeDesc.klass [] name) t

  unfoldable pub add_class : Table → List ℕ → TypeList → Option (Table × ℕ)
  unfolding classitem_set typelistitem_set
  add_class t name supers = do
    class ← classitem_set t name
    super ← typelistitem_set malloc supers class.0
    append_plain malloc super.0 item_class (Item.class (some class.1) super.1)

  unfoldable pub add_field : Table → List ℕ → List ℕ → TypeDesc → Option (Table × ℕ)
  unfolding classitem_set stringitem_set typeitem_set
  add_field t klass name desc = do
    class ← classitem_set t klass
    id ← stringitem_set malloc class.0 name
    type ← typeitem_set malloc desc id.0
    append_plain malloc type.0 item_field (Item.field (some class.1) (some id.1) (some type.1))

  unfoldable pub add_method :
      Table → List ℕ → List ℕ → TypeList → TypeList → List ℕ → Option (Table × ℕ)
  unfolding classitem_set stringitem_set protoitem_set codeitem_set
  add_method t klass name args rets codes = do
    class ← classitem_set t klass
    id ← stringitem_set malloc class.0 name
    proto ← protoitem_set malloc id.0 args rets
    code ← codeitem_set proto.0 codes
    append_plain malloc code.0 item_method
        (Item.method (some class.1) (some id.1) (some proto.1) (some code.1))

  unfoldable pub add_trait : Table → List ℕ → TypeList → Option (Table × ℕ)
  unfolding classitem_set typelistitem_set
  add_trait t name traits = do
    class ← classitem_set t name
    list ← typelistitem_set malloc traits class.0
    append_plain malloc list.0 item_trait (Item.trait (some class.1) list.1)

  -- The class of a native function, which may be NULL.
  unfoldable pub owner_set : Table → Option (List ℕ) → Option (Table × Ref)
  unfolding classitem_set
  owner_set t none = some (t, none)
  owner_set t (some klass) = do class ← classitem_set t klass; some (class.0, some class.1)

  unfoldable pub add_nfunc :
      Table → Option (List ℕ) → List ℕ → TypeList → TypeList → Option (Table × ℕ)
  unfolding owner_set stringitem_set protoitem_set
  add_nfunc t klass name args rets = do
    class ← owner_set t klass
    id ← stringitem_set malloc class.0 name
    proto ← protoitem_set malloc id.0 args rets
    append_plain malloc proto.0 item_nfunc (Item.nfunc class.1 (some id.1) (some proto.1))

  unfoldable pub add_imeth : Table → List ℕ → List ℕ → TypeList → TypeList → Option (Table × ℕ)
  unfolding classitem_set stringitem_set protoitem_set
  add_imeth t trait name args rets = do
    class ← classitem_set t trait
    id ← stringitem_set malloc class.0 name
    proto ← protoitem_set malloc id.0 args rets
    append_plain malloc proto.0 item_imeth (Item.imeth (some class.1) (some id.1) (some proto.1))

-- The loop of the `KImage_Get_*` over the vector of a type.
unfoldable pub read_all : {B : Type 0} → (Item → Option B) → List Item → Option (List B)
read_all read [] = some []
read_all read (d ∷ ds) = do b ← read d; bs ← read_all read ds; some (b ∷ bs)

unfoldable pub read_var : ℕ → Table → Item → Option (List ℕ × TypeDesc × ℕ)
read_var f t (Item.var name type konst) = do
  id ← get_string t name
  desc ← to_typedesc f t type
  some (id, desc, konst)
read_var f t d = none

-- `KImage_Get_Vars`
unfoldable pub get_vars : ℕ → Table → Option (List (List ℕ × TypeDesc × ℕ))
unfolding read_all
get_vars f t = read_all (read_var f t) (vector t item_var)

unfoldable pub read_locvar : ℕ → Table → Item → Option (List ℕ × TypeDesc × ℕ × ℕ)
read_locvar f t (Item.locvar name type place owner) = do
  id ← get_string t name
  desc ← to_typedesc f t type
  some (id, desc, place, owner)
read_locvar f t d = none

-- `KImage_Get_LocVars`
unfoldable pub get_locvars : ℕ → Table → Option (List (List ℕ × TypeDesc × ℕ × ℕ))
unfolding read_all
get_locvars f t = read_all (read_locvar f t) (vector t item_locvar)

-- The bytes of a function; NULL, which is empty, where there are none.
abbrev pub codes_of : Option Item → List ℕ
codes_of (some (Item.code codes)) = codes
codes_of _ = []

unfoldable pub read_func : ℕ → Table → Item → Option (List ℕ × TypeDesc × List ℕ)
unfolding get_proto
read_func f t (Item.func name proto code) = do
  id ← get_string t name
  desc ← get_proto f t proto
  some (id, desc, codes_of (get_item t item_code code))
read_func f t d = none

-- `KImage_Get_Funcs`
unfoldable pub get_funcs : ℕ → Table → Option (List (List ℕ × TypeDesc × List ℕ))
unfolding read_all
get_funcs f t = read_all (read_func f t) (vector t item_func)

unfoldable pub read_nfunc : ℕ → Table → Item → Option (List ℕ × TypeDesc)
unfolding get_proto
read_nfunc f t (Item.nfunc class name proto) = do
  id ← get_string t name
  desc ← get_proto f t proto
  some (id, desc)
read_nfunc f t d = none

-- `KImage_Get_NFuncs`
unfoldable pub get_nfuncs : ℕ → Table → Option (List (List ℕ × TypeDesc))
unfolding read_all
get_nfuncs f t = read_all (read_nfunc f t) (vector t item_nfunc)
