-- ===== src/Properties.antt =====
-- src/properties.c, include/properties.h: the properties of the virtual machine, a hash table from a key to
-- the vector of its values.
-- A string is the list of its bytes before the NUL, as AtomString_New gives it back; a vector is the list of
-- its values, as Vector shows. An entry is a node of the heap, `vecs` the vector that lies in it, and `fresh`
-- the address that the allocator hands out for a new one.
pub mod Puts
pub mod Laws
mod Tests
use koala_lang_pre.Prelude.{
  ◌==◌, if◌then◌else◌, get_elem?, ℕ, ◌+◌, Bool, Option, none, some, List, [], ◌∷◌, ◌++◌,
}
use koala_lang_pre.HashFunc.{hash_string}
use koala_lang_pre.HashTable.{HashKey, Heap, HashTable, init, update, find, insert, fini}
use koala_lang_pre.HashTable.Fresh.{new_node}
use koala_lang_pre.AtomString.Interning.{string_key}

-- `pe_hash` and `pe_equal`
instance abbrev pub entry_key : HashKey (List ℕ)
entry_key = string_key hash_string

pub record Properties : Type 0 where
  pub table : HashTable
  pub heap : Heap (List ℕ)
  pub vecs : ℕ → List (List ℕ)

-- `Properties_Init` in a memory that holds no entry.
unfoldable pub properties_init : (ℕ → Bool) → Heap (List ℕ) → Option Properties
properties_init malloc heap = elim (init malloc) [
  | none ↦ none
  | some t ↦ some (record { table = t; heap = heap; vecs = λ a. [] })
]

-- `Vector_Append` to the vector of an entry.
unfoldable pub add_value : Properties → ℕ → List ℕ → Properties
add_value p a val = record p { vecs = λ b. if a == b then p.vecs a ++ val ∷ [] else p.vecs b }

-- The new entry of `Properties_Put`, with an empty vector; what `HashTable_Insert` returns is not read.
unfoldable pub add_entry : (ℕ → Bool) → Properties → ℕ → List ℕ → Properties
add_entry malloc p fresh key =
    let r = insert malloc p.table (update p.heap fresh (new_node key)) fresh in
    record { table = r.0; heap = r.1; vecs = λ b. if fresh == b then [] else p.vecs b }

-- `Properties_Put`
unfoldable pub put : (ℕ → Bool) → Properties → ℕ → List ℕ → List ℕ → Properties
unfolding add_value add_entry
put malloc p fresh key val = elim (find p.table p.heap key) [
  | none ↦ add_value (add_entry malloc p fresh key) fresh val
  | some a ↦ add_value p a val
]

-- `Properties_Get`; `none` is NULL.
unfoldable pub get : Properties → List ℕ → Option (List (List ℕ))
get p key = elim (find p.table p.heap key) [ none ↦ none | some a ↦ some (p.vecs a) ]

-- `Properties_GetOne`
unfoldable pub get_one : Properties → List ℕ → Option (List ℕ)
get_one p key = elim (find p.table p.heap key) [ none ↦ none | some a ↦ get_elem? (p.vecs a) 0 ]

-- `Properties_Fini`: the entries that are freed, in order.
unfoldable pub properties_fini : Properties → List ℕ
properties_fini p = (fini p.table p.heap).2

-- Calls of `Properties_Put` one after the other, whose entries lie at increasing addresses.
unfoldable pub put_all : (ℕ → Bool) → Properties → ℕ → List (List ℕ × List ℕ) → Properties
unfolding put
put_all malloc p fresh [] = p
put_all malloc p fresh ((key, val) ∷ pairs) =
    put_all malloc (put malloc p fresh key val) (fresh + 1) pairs
