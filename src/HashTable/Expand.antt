-- ===== src/HashTable/Expand.antt =====
-- Moving the nodes of all chains to a new vector of chains.
use koala_lang_pre.Prelude.{
  ◌==◌, if◌then◌else◌, length, ℕ, ◌+◌, ◌%◌, ◌<◌, ◌≡◌, refl, ◌∙◌, List, [], ◌∷◌, arith,
}
use koala_lang_pre.HashTable.{Heap, hlist_add, move_chain, move_all}
use koala_lang_pre.HashTable.Chain.{count, chain_at, count_all, length-hlist_add, count-hlist_add}

module _ {K : Type 0} (heap : Heap K) (n : ℕ) where
  length-move_chain :
      (chain : List ℕ) (entries : List (List ℕ))
      → length (move_chain heap n chain entries) ≡ length entries
  unfolding move_chain
  length-move_chain [] entries = refl
  length-move_chain (a ∷ chain) entries =
      length-move_chain chain _ ∙ length-hlist_add a ((heap a).hash % n) entries

  pub length-move_all :
      (chains entries : List (List ℕ)) → length (move_all heap n chains entries) ≡ length entries
  unfolding move_all
  length-move_all [] entries = refl
  length-move_all (c ∷ chains) entries = length-move_all chains _ ∙ length-move_chain c entries

  count-move_chain :
      (a i : ℕ) (chain : List ℕ) (entries : List (List ℕ))
      → 0 < n
      → length entries ≡ n
      → count a (chain_at (move_chain heap n chain entries) i)
        ≡ count a (chain_at entries i) + (if (heap a).hash % n == i then count a chain else 0)
  unfolding move_chain
  count-move_chain a i [] entries p w = ground arith
  count-move_chain a i (b ∷ chain) entries p w =
      let j = (heap b).hash % n in
      let next = hlist_add b j entries in
      let step = count-hlist_add a b j i entries (omega arith) in
      let rest = count-move_chain a i chain next p (length-hlist_add b j entries ∙ w) in
      ground (arith, step, rest)

  -- Each address moves to the chain of its hash, as often as it stood in the old chains.
  pub count-move_all :
      (a i : ℕ) (chains entries : List (List ℕ))
      → 0 < n
      → length entries ≡ n
      → count a (chain_at (move_all heap n chains entries) i)
        ≡ count a (chain_at entries i) + (if (heap a).hash % n == i then count_all a chains else 0)
  unfolding move_all count_all
  count-move_all a i [] entries p w = ground arith
  count-move_all a i (c ∷ chains) entries p w =
      let step = count-move_chain a i c entries p w in
      let rest =
        count-move_all a i chains (move_chain heap n c entries) p
          (length-move_chain c entries ∙ w) in
      ground (arith, step, rest)
