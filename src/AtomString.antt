-- ===== src/AtomString.antt =====
-- src/atomstring.c: the pool of strings, a table in which every string stands once.
-- A string is the list of its bytes before the NUL. The pool is a hash table whose nodes' keys are the
-- strings; a `String` is the address of its node, since its characters lie in the node. `hash_string`
-- is any function of the string; src/hashfunc.c has the one that is used. `malloc n` says whether a
-- request for n bytes is granted; `fresh` is the address that the allocator hands out.
pub mod Interning
mod Tests
use koala_lang_pre.Prelude.{ℕ, Bool, Option, none, some, List}
use koala_lang_pre.HashTable.Fresh.{new_node}
use koala_lang_pre.HashTable.{HashKey, HashNode, Heap, HashTable, update, find, insert}

pub record Pool : Type 0 where
  pub table : HashTable
  pub heap : Heap (List ℕ)

-- `strentry_new`, with the node that `Init_HashNode` clears.
abbrev pub strentry_new : List ℕ → HashNode (List ℕ)
strentry_new str = new_node str

module _ ⦃hk : HashKey (List ℕ)⦄ where
  -- `AtomString_Find`
  unfoldable pub find_string : Pool → List ℕ → Option ℕ
  find_string p str = find p.table p.heap str

  -- The branch of `AtomString_New` for a string that is not in the pool.
  unfoldable pub add_string : (ℕ → Bool) → Pool → ℕ → List ℕ → Pool × ℕ
  add_string malloc p fresh str =
      let r = insert malloc p.table (update p.heap fresh (strentry_new str)) fresh in
      (record { table = r.0; heap = r.1 }, fresh)

  unfoldable pub found_or : Option ℕ → Pool → Pool × ℕ → Pool × ℕ
  found_or none p r = r
  found_or (some a) p r = (p, a)

  -- `AtomString_New`
  unfoldable pub new_string : (ℕ → Bool) → Pool → ℕ → List ℕ → Pool × ℕ
  unfolding found_or find_string add_string
  new_string malloc p fresh str = found_or (find_string p str) p (add_string malloc p fresh str)
