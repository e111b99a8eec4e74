-- ===== src/HashTable/Find.antt =====
-- What a lookup returns in a valid table.
use koala_lang_pre.Prelude.{
  Bool-cases, Option-cases, ℕ, ◌%◌, ◌<◌, ◌≡◌, refl, ◌↔◌, inl, inr, true, false, Option, none, some,
  List, [], ◌∷◌, arith,
}
use koala_lang_pre.HashTable.{HashKey, Heap, HashTable, get_prime, find_in, find_hash, find}
use koala_lang_pre.HashTable.Chain.{count, chain_at}
use koala_lang_pre.HashTable.Invariant.{IsPlaced, entries_pos}

module _ {K : Type 0} ⦃hk : HashKey K⦄ where
  -- The layout, the stored hashes, and one node at most for a key.
  pub record IsValid (t : HashTable) (heap : Heap K) : Type 0 where
    pub placed : IsPlaced t heap
    pub hash_stored : (a : ℕ) → (heap a).hashed ≡ true → (heap a).hash ≡ hk.hash (heap a).key
    pub unique :
        (a b : ℕ)
        → (heap a).hashed ≡ true
        → (heap b).hashed ≡ true
        → hk.equal (heap a).key (heap b).key ≡ true
        → a ≡ b

  find_in-some :
      (heap : Heap K) (k : K) (a : ℕ) (c : List ℕ)
      → find_in heap k c ≡ some a
      → (0 < count a c) × (hk.equal (heap a).key k ≡ true)
  unfolding find_in
  find_in-some heap k a [] h = cc
  find_in-some heap k a (b ∷ c) h = ground (arith, find_in-some heap k a c)

  find_in-none :
      (heap : Heap K) (k : K) (a : ℕ) (c : List ℕ)
      → find_in heap k c ≡ none
      → 0 < count a c
      → hk.equal (heap a).key k ≡ false
  unfolding find_in
  find_in-none heap k a [] h lt = absurd (omega arith)
  find_in-none heap k a (b ∷ c) h lt = ground (arith, find_in-none heap k a c)

  -- `r` is a node of the table with the key `k`, if there is one.
  pub record Finds (heap : Heap K) (k : K) (r : Option ℕ) : Type 0 where
    pub found : (a : ℕ) → r ≡ some a → ((heap a).hashed ≡ true) × (hk.equal (heap a).key k ≡ true)
    pub missed : r ≡ none → (a : ℕ) → (heap a).hashed ≡ true → hk.equal (heap a).key k ≡ false

  pub find_hash-Finds :
      (t : HashTable) (heap : Heap K) (h : ℕ) (k : K)
      → IsValid t heap
      → h ≡ hk.hash k
      → Finds heap k (find_hash t heap h k)
  unfolding find_hash
  find_hash-Finds t heap h k v e =
      let p = v.placed in
      let pos = entries_pos p in
      let i = h % get_prime t.prime_index in
      let c = chain_at t.entries i in
      record {
        found = λ a r. ground (arith, find_in-some heap k a c r, p.chained a i, p.width, pos);
        missed = λ r a on. elim (Bool-cases (hk.equal (heap a).key k)) [
          | inr differs ↦ differs
          | inl same ↦ ground (
            arith,
            find_in-none heap k a c r,
            p.chained a i,
            p.width,
            pos,
            v.hash_stored a on,
            hk.compatible (heap a).key k same,
          )
        ];
      }

  -- In a valid table a lookup gives a node exactly when it is in the table under that key.
  pub find_iff :
      (t : HashTable) (heap : Heap K) (k : K) (a : ℕ)
      → IsValid t heap
      → (find t heap k ≡ some a) ↔ (((heap a).hashed ≡ true) × (hk.equal (heap a).key k ≡ true))
  unfolding find
  find_iff t heap k a v =
      let f = find_hash-Finds t heap (hk.hash k) k v refl in
      (
        f.found a,
        λ q. elim (Option-cases (find_hash t heap (hk.hash k) k)) [
          | inl e ↦ cc (f.missed e a q.0)
          | inr (b, e) ↦
              let (on, same) = f.found b e in
              let one =
                v.unique b a on q.0 (hk.transitive _ k _ same (hk.symmetric (heap a).key k q.1)) in
              cc
        ],
      )
