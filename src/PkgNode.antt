-- ===== src/PkgNode.antt =====
-- src/pkgnode.c, include/pkgnode.h: the tree of packages by path.
-- The root is the node 0, and the nodes of the hash table are 1, 2 and so on in the order in which they
-- entered it; HashTable shows that a lookup gives the node with the key, here the name and the parent, and
-- that one at most has it. The children of a node are those whose parent it is, in this order, which is
-- that of its vector. A path is the list of its bytes before the NUL; allocations are granted.
pub mod Paths
mod Tests
use koala_lang_pre.Prelude.{
  ◌==◌, if◌then◌else◌, length, get_elem?, bytes_eq, ℕ, zero, suc, ◌+◌, Bool, true, false, ◌&&◌,
  Option, none, some, List, [], ◌∷◌, ◌++◌,
}

pub record PkgNode (D : Type 0) : Type 0 where
  pub name : List ℕ
  pub parent : ℕ
  pub leaf : Option D

-- The name that a path begins with: `do ch = *++path; while (ch && ch != '/')` skips its first byte
-- unseen. The rest begins at the slash.
unfoldable pub name_of : List ℕ → List ℕ × List ℕ
name_of [] = ([], [])
name_of (c ∷ path) = if c == b'/' then ([], c ∷ path) else (c ∷ (name_of path).0, (name_of path).1)

-- `while (*path == '/') path++`
unfoldable pub skip_slashes : List ℕ → List ℕ
skip_slashes [] = []
skip_slashes (c ∷ path) = if c == b'/' then skip_slashes path else c ∷ path

-- The names that the loops of `Add_PkgNode` and `Find_PkgNode` cut a path into, in at most `fuel`
-- rounds; `none` where the path is empty and the code reads past its NUL.
unfoldable pub names : ℕ → List ℕ → Option (List (List ℕ))
names zero path = none
names (suc f) [] = none
names (suc f) (c ∷ path) =
    let r = name_of path in
    let name = c ∷ r.0 in
    let rest = names f (skip_slashes r.1) in
    elim (skip_slashes r.1) [
      | [] ↦ some (name ∷ [])
      | d ∷ more ↦ elim rest [ none ↦ none | some ns ↦ some (name ∷ ns) ]
    ]

-- What `Add_PkgNode` comes to; `failed` is an assertion that does not hold.
pub data Added (D : Type 0) : Type 0 where
  added : List (PkgNode D) → ℕ → Added D
  exists_already failed : Added D

module _ {D : Type 0} where
  abbrev pub has_key : PkgNode D → List ℕ → ℕ → Bool
  has_key node name parent = node.parent == parent && bytes_eq node.name name

  -- The table from the node `i` on.
  unfoldable pub find_from : ℕ → List (PkgNode D) → List ℕ → ℕ → Option ℕ
  find_from i [] name parent = none
  find_from i (node ∷ nodes) name parent =
      let rest = find_from (suc i) nodes name parent in
      if has_key node name parent then some i else rest

  -- `find_node`
  unfoldable pub find_node : List (PkgNode D) → List ℕ → ℕ → Option ℕ
  find_node nodes name parent = find_from 1 nodes name parent

  -- `parent->leaf`; the root is none.
  unfoldable pub is_leaf : List (PkgNode D) → ℕ → Bool
  is_leaf nodes zero = false
  is_leaf nodes (suc i) = elim (get_elem? nodes i) [
    | none ↦ false
    | some node ↦ elim node.leaf [ none ↦ false | some d ↦ true ]
  ]

  -- `Add_PkgNode` for the names of a path below `parent`.
  unfoldable pub add_names : List (PkgNode D) → ℕ → List (List ℕ) → D → Added D
  add_names nodes parent [] d = exists_already
  add_names nodes parent (name ∷ []) d = elim (find_node nodes name parent) [
    | some a ↦ exists_already
    | none ↦
        if is_leaf nodes parent
        then failed
        else added (nodes ++ record { name = name; parent = parent; leaf = some d } ∷ [])
            (length nodes + 1)
  ]
  add_names nodes parent (name ∷ next ∷ more) d =
      let new = length nodes + 1 in
      let with_new = nodes ++ record { name = name; parent = parent; leaf = none } ∷ [] in
      let rest = add_names with_new new (next ∷ more) d in
      elim (find_node nodes name parent) [
        | some a ↦ add_names nodes a (next ∷ more) d
        | none ↦ if is_leaf nodes parent then failed else rest
      ]

  -- `Find_PkgNode` for the names of a path below `parent`.
  unfoldable pub find_names : List (PkgNode D) → ℕ → List (List ℕ) → Option ℕ
  find_names nodes parent [] = none
  find_names nodes parent (name ∷ []) = find_node nodes name parent
  find_names nodes parent (name ∷ next ∷ more) = elim (find_node nodes name parent) [
    | none ↦ none
    | some a ↦ find_names nodes a (next ∷ more)
  ]

  -- `Add_PkgNode`; `failed` also for the empty path.
  unfoldable pub add_pkgnode : List (PkgNode D) → List ℕ → D → Added D
  add_pkgnode nodes path d = elim (names (length path) path) [
    | none ↦ failed
    | some ns ↦ add_names nodes 0 ns d
  ]

  -- `Find_PkgNode`
  unfoldable pub find_pkgnode : List (PkgNode D) → List ℕ → Option ℕ
  find_pkgnode nodes path = elim (names (length path) path) [
    | none ↦ none
    | some ns ↦ find_names nodes 0 ns
  ]
