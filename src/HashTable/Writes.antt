-- ===== src/HashTable/Writes.antt =====
-- Initialising the table, linking a node and unlinking one keep the layout.
use koala_lang_pre.Prelude.{
  length, replicate, length-append, length-replicate, length-map, get_or-replicate, ℕ, ◌*◌, ◌%◌,
  ◌≡◌, refl, ap, ◌∙◌, Bool, true, false, some, List, [], ◌∷◌, arith,
}
use koala_lang_pre.HashTable.{
  Heap, HashTable, get_prime, new_entries, init, unlink, link, unlink_node,
}
use koala_lang_pre.HashTable.Chain.{
  count, chain_at, count-snoc, count-unlink, length-unlink, chain_at-unlink, length-hlist_add,
  count-hlist_add,
}
use koala_lang_pre.HashTable.Invariant.{IsPlaced, entries_pos}

module _ {K : Type 0} where
  -- With memory granted `init` gives a table with no node.
  pub init-IsPlaced :
      (malloc : ℕ → Bool) (heap : Heap K)
      → ((n : ℕ) → malloc n ≡ true)
      → ((a : ℕ) → (heap a).hashed ≡ false)
      → (t : HashTable) × (init malloc ≡ some t) × IsPlaced t heap × (t.head ≡ [])
  unfolding init new_entries
  init-IsPlaced malloc heap g clean =
      let n = get_prime 0 in
      (
        record { prime_index = 0; nr_nodes = 0; entries = replicate n []; head = [] },
        ground (arith, g (n * 8)),
        record {
          small = omega arith;
          width = length-replicate n [];
          chained = λ a i lt.
              ground (arith, clean a, ap (count a) (get_or-replicate {A = List ℕ} [] n i));
          listed = λ a. ground (arith, clean a);
          counted = refl;
        },
        refl,
      )

  pub link-IsPlaced :
      (t : HashTable) (heap : Heap K) (a : ℕ)
      → IsPlaced t heap
      → (heap a).hashed ≡ false
      → IsPlaced (link t heap a).0 (link t heap a).1
  unfolding link
  link-IsPlaced t heap a p off =
      let pos = entries_pos p in
      let j = (heap a).hash % get_prime t.prime_index in
      let n = length t.entries in
      let w = length-hlist_add a j t.entries in
      record {
        small = p.small;
        width = w ∙ p.width;
        chained = λ b i lt.
            rw w (ground (arith, p.width, pos, count-hlist_add b a j i t.entries, p.chained b i));
        listed = λ b. ground (arith, count-snoc b a t.head, p.listed b);
        counted = omega (arith, p.counted, length-append {0} t.head (a ∷ []));
      }

  pub unlink_node-IsPlaced :
      (t : HashTable) (heap : Heap K) (a : ℕ)
      → IsPlaced t heap
      → (heap a).hashed ≡ true
      → IsPlaced (unlink_node t heap a).0 (unlink_node t heap a).1
  unfolding unlink_node
  unlink_node-IsPlaced t heap a p on =
      let w = length-map (unlink a) t.entries in
      record {
        small = p.small;
        width = w ∙ p.width;
        chained = λ b i lt.
            rw (w, chain_at-unlink a t.entries i)
              (ground (arith, w, count-unlink b a (chain_at t.entries i), p.chained b i));
        listed = λ b. ground (arith, count-unlink b a t.head, p.listed b);
        counted = ground (arith, p.counted, length-unlink a t.head, p.listed a);
      }
