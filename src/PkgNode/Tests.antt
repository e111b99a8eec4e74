-- ===== src/PkgNode/Tests.antt =====
-- Runs.
use koala_lang_pre.Prelude.{bytes_eq, ℕ, ◌≡◌, refl, none, some, List, [], ◌∷◌, ◌++◌}
use koala_lang_pre.PkgNode.{
  PkgNode, added, exists_already, name_of, skip_slashes, names, find_from, find_node, is_leaf,
  add_names, add_pkgnode, find_pkgnode,
}
use koala_lang_pre.PkgNode.Paths.{Extends, add_pkgnode-find}

-- "lang/io"
abbrev lang_io : List ℕ
lang_io = b'l' ∷ b'a' ∷ b'/' ∷ b'i' ∷ []

-- "la//x/"
abbrev lang_x : List ℕ
lang_x = b'l' ∷ b'a' ∷ b'/' ∷ b'/' ∷ b'x' ∷ b'/' ∷ []

abbrev with_io : List (PkgNode ℕ)
with_io =
    record { name = b'l' ∷ b'a' ∷ []; parent = 0; leaf = none }
    ∷ record { name = b'i' ∷ []; parent = 1; leaf = some 7 }
    ∷ []

first_path : add_pkgnode [] lang_io 7 ≡ added with_io 2
unfolding add_pkgnode names skip_slashes name_of add_names find_node find_from is_leaf
first_path = refl

same_path : add_pkgnode with_io lang_io 8 ≡ exists_already
unfolding add_pkgnode names skip_slashes name_of add_names find_node find_from is_leaf
    koala_lang_pre.Prelude.bytes_eq
same_path = refl

abbrev with_x : List (PkgNode ℕ)
with_x = with_io ++ record { name = b'x' ∷ []; parent = 1; leaf = some 9 } ∷ []

second_path : add_pkgnode with_io lang_x 9 ≡ added with_x 3
unfolding add_pkgnode names skip_slashes name_of add_names find_node find_from is_leaf
    koala_lang_pre.Prelude.bytes_eq
second_path = refl

add_pkgnode-find_example : (find_pkgnode with_x lang_x ≡ some 3) × Extends with_io with_x
add_pkgnode-find_example = add_pkgnode-find with_io with_x lang_x 9 3 second_path
