-- ===== src/AtomTable.antt =====
-- src/atomtable.c, include/atomtable.h: the table of a module's items, a vector for each type of item and
-- a hash table over the items that are unique.
-- A vector is the list of its items, as Vector shows; the heap holds the entries, which the allocator
-- hands out at increasing addresses from `next` on. An index that is found to be -1 is `none`. A type out
-- of the table's range is a read past its vectors in the code and `none` here. `malloc n` says whether the
-- hash table's requests are granted; the requests for vectors and entries are.
pub mod Laws
pub mod Append
mod Tests
use koala_lang_pre.Prelude.{
  leb, if◌then◌else◌, length, get_elem?, get_or, set, replicate, ℕ, suc, ◌+◌, ◌-◌, Bool, Option,
  none, some, List, [], ◌∷◌, ◌++◌, map,
}
use koala_lang_pre.HashTable.{HashKey, Heap, HashTable, init, update, find, insert, fini}
use koala_lang_pre.HashTable.Fresh.{new_node}

pub record AtomEntry (D : Type 0) : Type 0 where
  pub type : ℕ
  pub index : ℕ
  pub content : D

pub record AtomTable (D : Type 0) : Type 0 where
  pub table : HashTable
  pub heap : Heap (AtomEntry D)
  pub next : ℕ
  pub items : List (List D)

module _ {D : Type 0} where
  -- `atomentry_new`
  abbrev pub entry_new : ℕ → ℕ → D → AtomEntry D
  entry_new type index d = record { type = type; index = index; content = d }

  -- `AtomTable_New` in a memory whose addresses from `next` on are free.
  unfoldable pub new : (ℕ → Bool) → Heap (AtomEntry D) → ℕ → ℕ → Option (AtomTable D)
  new malloc heap next size = elim (init malloc) [
    | none ↦ none
    | some t ↦ some (record { table = t; heap = heap; next = next; items = replicate size [] })
  ]

  -- The vector of a type.
  unfoldable pub vector : AtomTable D → ℕ → List D
  vector t type = get_or t.items type []

  -- `AtomTable_Get`
  unfoldable pub get : AtomTable D → ℕ → ℕ → Option D
  unfolding vector
  get t type i = get_elem? (vector t type) i

  -- `AtomTable_Size`
  unfoldable pub size : AtomTable D → ℕ → ℕ
  unfolding vector
  size t type = length (vector t type)

  -- `Vector_Append` to the vector of a type.
  unfoldable pub push : AtomTable D → ℕ → D → AtomTable D
  unfolding vector
  push t type d = record t { items = set t.items type (vector t type ++ d ∷ []) }

  -- What `AtomTable_Free` visits in the vectors from `type` on, in order.
  unfoldable pub visits : ℕ → List (List D) → List (ℕ × D)
  visits type [] = []
  visits type (items ∷ more) = map (λ d. (type, d)) items ++ visits (suc type) more

  -- `AtomTable_Free`: the visits to items, and the entries that are freed.
  unfoldable pub free : AtomTable D → List (ℕ × D) × List ℕ
  unfolding visits
  free t = (visits 0 t.items, (fini t.table t.heap).2)

module _ {D : Type 0} ⦃hk : HashKey (AtomEntry D)⦄ where
  -- The part of `AtomTable_Append` for a unique item; `none` where `assert(!res)` fails.
  unfoldable pub push_entry : (ℕ → Bool) → AtomTable D → ℕ → D → ℕ → Option (AtomTable D × ℕ)
  push_entry malloc t type d index =
      let r =
        insert malloc t.table (update t.heap t.next (new_node (entry_new type index d))) t.next in
      if r.2 then some (record t { table = r.0; heap = r.1; next = t.next + 1 }, index) else none

  -- `AtomTable_Append`
  unfoldable pub append : (ℕ → Bool) → AtomTable D → ℕ → D → Bool → Option (AtomTable D × ℕ)
  unfolding push size push_entry
  append malloc t type d unique =
      let t' = push t type d in
      let index = size t' type - 1 in
      if leb (length t.items) type
      then none
      else if unique
      then push_entry malloc t' type d index
      else some (t', index)

  -- `AtomTable_Index`
  unfoldable pub index : AtomTable D → ℕ → D → Option ℕ
  index t type d = elim (find t.table t.heap (entry_new type 0 d)) [
    | none ↦ none
    | some a ↦ some (t.heap a).key.index
  ]
