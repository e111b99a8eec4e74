-- ===== src/TypeDesc.antt =====
-- src/typedesc.c, include/typedesc.h: type descriptors, the strings that stand for them, and their
-- readable form.
-- A descriptor is a tree; a NULL vector of types and an empty one are the same list, and so are a NULL
-- path and an empty one. A string is the list of its bytes before the NUL. `malloc n` says whether a
-- request for n bytes is granted. Table has the table in which a descriptor is shared by its string.
-- Reference counts are not modelled.
pub mod Parse
pub mod Table
pub mod Print
pub mod Pieces
mod Steps
pub mod RoundTrip
pub mod Total
pub mod Sound
pub mod Interning
pub mod Equal
mod Tests
use koala_lang_pre.Prelude.{
  ltb, ◌==◌, if◌then◌else◌, length, bytes_eq, ℕ, zero, suc, Bool, true, false, not, ◌||◌, Option,
  none, some, List, [], ◌∷◌, ◌++◌,
}
use koala_lang_pre.StringBuf.{StringBuf, empty, append, append_char, format}

pub data Base : Type 0 where
  byte char int float bool string error any : Base

mutual
  pub data TypeDesc : Type 0 where
    base : Base → TypeDesc
    klass : List ℕ → List ℕ → TypeDesc
    proto : TypeList → TypeList → TypeDesc
    array : ℕ → TypeDesc → TypeDesc
    map : TypeDesc → TypeDesc → TypeDesc
    set : TypeDesc → TypeDesc
    varg : TypeDesc → TypeDesc

  pub data TypeList : Type 0 where
    nil : TypeList
    cons : TypeDesc → TypeList → TypeList

-- The column `kind` of `basic_types`
abbrev pub base_kind : Base → ℕ
base_kind byte = b'b'
base_kind char = b'c'
base_kind int = b'i'
base_kind float = b'f'
base_kind bool = b'z'
base_kind string = b's'
base_kind error = b'e'
base_kind any = b'A'

-- The rows of `basic_types`, in order.
abbrev pub basic_types : List Base
basic_types = byte ∷ char ∷ int ∷ float ∷ bool ∷ string ∷ error ∷ any ∷ []

unfoldable pub find_kind : ℕ → List Base → Option Base
find_kind kind [] = none
find_kind kind (b ∷ bs) = if kind == base_kind b then some b else find_kind kind bs

unfoldable pub get_basic : ℕ → Option Base
unfolding find_kind
get_basic kind = find_kind kind basic_types

abbrev pub klass_format : List ℕ
klass_format = b'L' ∷ b'#' ∷ b'.' ∷ b'#' ∷ b';' ∷ []

abbrev pub proto_format : List ℕ
proto_format = b'P' ∷ b'#' ∷ b':' ∷ b'#' ∷ b';' ∷ []

abbrev pub map_format : List ℕ
map_format = b'M' ∷ b'#' ∷ b':' ∷ b'#' ∷ []

abbrev pub set_format : List ℕ
set_format = b'S' ∷ b'#' ∷ []

abbrev pub varg_format : List ℕ
varg_format = b'.' ∷ b'.' ∷ b'.' ∷ b'#' ∷ []

-- The loop of `TypeDesc_Get_Array` over the dimensions.
unfoldable pub append_dims : (ℕ → Bool) → ℕ → StringBuf → StringBuf
append_dims malloc zero buf = buf
append_dims malloc (suc dims) buf = append_dims malloc dims (append_char malloc buf b'[')

-- The field `desc`: what the `TypeDesc_Get_…` function of the kind formats.
unfoldable mutual
  pub desc : (ℕ → Bool) → TypeDesc → List ℕ
  desc malloc (base b) = base_kind b ∷ []
  desc malloc (klass path type) = (format malloc empty klass_format (path ∷ type ∷ [])).text
  desc malloc (proto args rets) =
      (format malloc empty proto_format
        ((desc_list malloc args empty).text ∷ (desc_list malloc rets empty).text ∷ [])).text
  desc malloc (array dims b) = (append malloc (append_dims malloc dims empty) (desc malloc b)).text
  desc malloc (map key val) =
      (format malloc empty map_format (desc malloc key ∷ desc malloc val ∷ [])).text
  desc malloc (set b) = (format malloc empty set_format (desc malloc b ∷ [])).text
  desc malloc (varg b) = (format malloc empty varg_format (desc malloc b ∷ [])).text

  -- The loop of `TypeList_ToString`; a list with no type has the text of the new buffer.
  pub desc_list : (ℕ → Bool) → TypeList → StringBuf → StringBuf
  desc_list malloc nil buf = buf
  desc_list malloc (cons t ts) buf = desc_list malloc ts (append malloc buf (desc malloc t))

-- The column `str` of `basic_types`
abbrev pub base_name : Base → List ℕ
base_name byte = b'b' ∷ b'y' ∷ b't' ∷ b'e' ∷ []
base_name char = b'c' ∷ b'h' ∷ b'a' ∷ b'r' ∷ []
base_name int = b'i' ∷ b'n' ∷ b't' ∷ []
base_name float = b'f' ∷ b'l' ∷ b'o' ∷ b'a' ∷ b't' ∷ []
base_name bool = b'b' ∷ b'o' ∷ b'o' ∷ b'l' ∷ []
base_name string = b's' ∷ b't' ∷ b'r' ∷ b'i' ∷ b'n' ∷ b'g' ∷ []
base_name error = b'e' ∷ b'r' ∷ b'r' ∷ b'o' ∷ b'r' ∷ []
base_name any = b'a' ∷ b'n' ∷ b'y' ∷ []

-- `strcpy(buf, "[]")`, and one more pair for each dimension after the first.
abbrev pub brackets : ℕ → List ℕ
brackets zero = b'[' ∷ b']' ∷ []
brackets (suc zero) = b'[' ∷ b']' ∷ []
brackets (suc (suc dims)) = b'[' ∷ b']' ∷ brackets (suc dims)

-- `Vector_Size` of a vector of types
abbrev pub type_count : TypeList → ℕ
type_count nil = 0
type_count (cons t ts) = suc (type_count ts)

-- `TypeDesc_ToString`: what is written to the buffer. The second argument of `types_to_string` says
-- whether the type is the first of its vector.
unfoldable mutual
  pub to_string : TypeDesc → List ℕ
  to_string (base b) = base_name b
  to_string (klass path type) = if ltb 0 (length path) then path ++ b'.' ∷ type else type
  to_string (proto args rets) =
      let ret = types_to_string rets true in
      (b'f' ∷ b'u' ∷ b'n' ∷ b'c' ∷ b'(' ∷ [])
      ++ (types_to_string args true
          ++ ((b')' ∷ b' ' ∷ [])
              ++ (if ltb 1 (type_count rets) then b'(' ∷ (ret ++ b')' ∷ []) else ret)))
  to_string (array dims b) = brackets dims ++ to_string b
  to_string (map key val) =
      (b'm' ∷ b'a' ∷ b'p' ∷ b'[' ∷ []) ++ (to_string key ++ b']' ∷ to_string val)
  to_string (set b) = (b's' ∷ b'e' ∷ b't' ∷ b'[' ∷ []) ++ (to_string b ++ b']' ∷ [])
  to_string (varg b) = (b'.' ∷ b'.' ∷ b'.' ∷ []) ++ to_string b

  pub types_to_string : TypeList → Bool → List ℕ
  types_to_string nil first = []
  types_to_string (cons t ts) first =
      (if first then [] else b',' ∷ b' ' ∷ []) ++ (to_string t ++ types_to_string ts false)

-- `TypeDesc_Equal` for two descriptors that are interned, where the same pointer means the same `desc`.
-- The code compares the kinds before it looks for `any`.
abbrev pub desc_kind : TypeDesc → ℕ
desc_kind (base b) = 1
desc_kind (klass path type) = 2
desc_kind (proto args rets) = 3
desc_kind (array dims b) = 4
desc_kind (map key val) = 5
desc_kind (set b) = 6
desc_kind (varg b) = 7

abbrev pub is_any : TypeDesc → Bool
is_any (base any) = true
is_any _ = false

unfoldable pub type_equal : (ℕ → Bool) → TypeDesc → TypeDesc → Bool
type_equal malloc t u =
    if not (desc_kind t == desc_kind u)
    then false
    else if is_any t || is_any u
    then true
    else bytes_eq (desc malloc t) (desc malloc u)
