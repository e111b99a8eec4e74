-- ===== src/HashTable/Fresh.antt =====
-- A new node, whose key a lookup misses, goes into the table: the use that the pool of strings and the
-- tables of items make of `HashTable_Insert`.
use koala_lang_pre.Prelude.{
  ◌==◌, Bool-cases, ℕ, ◌≡◌, refl, ◌∙◌, ◌≢◌, inl, inr, Bool, true, false, none, arith,
}
use koala_lang_pre.HashTable.{HashKey, HashNode, Heap, HashTable, update, find, insert}
use koala_lang_pre.HashTable.Find.{IsValid, find_iff}
use koala_lang_pre.HashTable.Methods.{insert-Inserts}

module _ {K : Type 0} where
  -- The node that `Init_HashNode` clears, with its key.
  abbrev pub new_node : K → HashNode K
  new_node k = record { key = k; hash = 0; hashed = false }

module _ {K : Type 0} ⦃hk : HashKey K⦄ where
  -- A node that is not in the table may be written.
  pub update-IsValid :
      (t : HashTable) (heap : Heap K) (a : ℕ) (k : K)
      → IsValid t heap
      → (heap a).hashed ≡ false
      → IsValid t (update heap a (new_node k))
  update-IsValid t heap a k v off = record {
    placed = record {
      small = v.placed.small;
      width = v.placed.width;
      chained = λ b i lt. ground (arith, v.placed.chained b i);
      listed = λ b. ground (arith, v.placed.listed b);
      counted = v.placed.counted;
    };
    hash_stored = λ b on. ground (arith, v.hash_stored b);
    unique = λ b c on on' same. ground (arith, v.unique b c);
  }

  -- A key that a lookup misses is the key of no node of the table.
  pub absent :
      (t : HashTable) (heap : Heap K) (k : K) (a : ℕ)
      → IsValid t heap
      → find t heap k ≡ none
      → (heap a).hashed ≡ true
      → hk.equal (heap a).key k ≡ false
  absent t heap k a v e on = elim (Bool-cases (hk.equal (heap a).key k)) [
    | inr f ↦ f
    | inl same ↦ let found = (find_iff t heap k a v).1 (on, same) in absurd (ground arith)
  ]

  -- What the table is after the node at `a` with the key `k` went into it.
  pub record Gains (heap : Heap K) (a : ℕ) (k : K) (r : HashTable × Heap K × Bool) : Type 0 where
    pub valid : IsValid r.0 r.1
    pub done : r.2 ≡ true
    pub new_on : (r.1 a).hashed ≡ true
    pub new_key : (r.1 a).key ≡ k
    pub old_on : (b : ℕ) → a ≢ b → (r.1 b).hashed ≡ (heap b).hashed
    pub old_key : (b : ℕ) → a ≢ b → (r.1 b).key ≡ (heap b).key

  pub insert-Gains :
      (malloc : ℕ → Bool) (t : HashTable) (heap : Heap K) (a : ℕ) (k : K)
      → IsValid t heap
      → (heap a).hashed ≡ false
      → find t heap k ≡ none
      → Gains heap a k (insert malloc t (update heap a (new_node k)) a)
  insert-Gains malloc t heap a k v off e =
      let heap' = update heap a (new_node k) in
      let s = insert-Inserts malloc t heap' a (update-IsValid t heap a k v off) in
      let same : (a == a) ≡ true = ground arith in
      let in_table : (insert malloc t heap' a).2 ≡ true =
        elim (Bool-cases (insert malloc t heap' a).2) [
          | inl yes_in ↦ yes_in
          | inr refused ↦ elim (s.refused refused) [
            | inl on ↦ absurd (ground arith)
            | inr (b, on, equal) ↦ absurd (ground (arith, absent t heap k b v e))
          ]
        ] in
      record {
        valid = s.valid;
        done = in_table;
        new_on = ground (arith, s.nodes a);
        new_key = s.keys a ∙ rw same refl;
        old_on = λ b ne. ground (arith, s.nodes b);
        old_key = λ b ne. ground (arith, s.keys b);
      }
