-- ===== src/HashTable/Removal.antt =====
-- `HashTable_Remove`, and what a lookup gives after an insertion or a removal.
use koala_lang_pre.Prelude.{
  ◌==◌, if◌then◌else◌, Bool-cases, Option-cases, Option-ext, ℕ, ◌≡◌, refl, sym, inl, inr, Bool,
  true, false, not, ◌&&◌, ◌||◌, none, some, arith,
}
use koala_lang_pre.HashTable.{
  HashKey, Heap, HashTable, find_hash, find, insert, unlink_node, unlink, remove,
}
use koala_lang_pre.HashTable.Writes.{unlink_node-IsPlaced}
use koala_lang_pre.HashTable.Find.{IsValid, find_hash-Finds, find_iff}
use koala_lang_pre.HashTable.Methods.{insert-Inserts}

module _ {K : Type 0} ⦃hk : HashKey K⦄ where
  -- The outcome of `remove` at the address `a`: it succeeds exactly for a node of the table.
  pub record Removes (t : HashTable) (heap : Heap K) (a : ℕ) (r : HashTable × Heap K × Bool)
      : Type 0 where
    pub valid : IsValid r.0 r.1
    pub flag : r.2 ≡ (heap a).hashed
    pub kept : r.2 ≡ false → (r.0 ≡ t) × (r.1 ≡ heap)
    pub dropped : r.2 ≡ true → r.0.head ≡ unlink a t.head
    pub keys : (b : ℕ) → (r.1 b).key ≡ (heap b).key
    pub nodes : (b : ℕ) → (r.1 b).hashed ≡ ((heap b).hashed && not (a == b))

  unlink_node-Removes :
      (t : HashTable) (heap : Heap K) (a : ℕ)
      → IsValid t heap
      → (heap a).hashed ≡ true
      → Removes t heap a ((unlink_node t heap a).0, (unlink_node t heap a).1, true)
  unfolding unlink_node
  unlink_node-Removes t heap a v on = record {
    valid = record {
      placed = unlink_node-IsPlaced t heap a v.placed on;
      hash_stored = λ b p. ground (arith, v.hash_stored b);
      unique = λ b c p q same. ground (arith, v.unique b c);
    };
    flag = sym on;
    kept = λ p. cc;
    dropped = λ _. refl;
    keys = λ b. ground arith;
    nodes = λ b. ground arith;
  }

  -- The node itself is what the lookup under its key finds.
  find_self :
      (t : HashTable) (heap : Heap K) (a : ℕ)
      → IsValid t heap
      → (heap a).hashed ≡ true
      → find_hash t heap (heap a).hash (heap a).key ≡ some a
  find_self t heap a v on =
      let f = find_hash-Finds t heap (heap a).hash (heap a).key v (v.hash_stored a on) in
      elim (Option-cases (find_hash t heap (heap a).hash (heap a).key)) [
        | inl e ↦ cc (f.missed e a on, hk.reflexive (heap a).key)
        | inr (b, e) ↦ cc (v.unique b a (f.found b e).0 on (f.found b e).1)
      ]

  -- On a valid table, `remove` leaves a valid table. It returns 0 exactly for a node that is hashed, which
  -- it takes out of the order and unlinks, and -1 with nothing changed otherwise. No key changes, and no
  -- other node is linked or unlinked.
  pub remove-Removes :
      (t : HashTable) (heap : Heap K) (a : ℕ) → IsValid t heap → Removes t heap a (remove t heap a)
  unfolding remove
  remove-Removes t heap a v = elim (Bool-cases (heap a).hashed) [
    | inl on ↦
        let same : (a == a) ≡ true = ground arith in
        rw (on, find_self t heap a v on, same) (unlink_node-Removes t heap a v on)
    | inr off ↦ rw off (record {
      valid = v;
      flag = sym off;
      kept = λ _. (refl, refl);
      dropped = λ p. cc;
      keys = λ b. refl;
      nodes = λ b. ground arith;
    })
  ]

  module _ (t t' : HashTable) (heap heap' : Heap K) (a : ℕ) (k : K) (v : IsValid t heap)
      (v' : IsValid t' heap') (keys : (b : ℕ) → (heap' b).key ≡ (heap b).key) where
    lookup_added :
        ((b : ℕ) → (heap' b).hashed ≡ ((heap b).hashed || a == b))
        → ((b : ℕ) → (heap b).hashed ≡ true → hk.equal (heap b).key (heap a).key ≡ false)
        → find t' heap' k ≡ (if hk.equal (heap a).key k then some a else find t heap k)
    lookup_added nodes fresh =
        Option-ext _ _
          (λ b e.
            let (on, same) = (find_iff t' heap' k b v').0 e in
            ground (
              arith,
              nodes b,
              keys b,
              fresh b,
              (find_iff t heap k b v).1,
              hk.symmetric (heap a).key k,
              hk.transitive (heap b).key k (heap a).key,
            ))
          (λ b e.
            ground
              (arith, nodes b, keys b, (find_iff t heap k b v).0, (find_iff t' heap' k b v').1))

    lookup_removed :
        ((b : ℕ) → (heap' b).hashed ≡ ((heap b).hashed && not (a == b)))
        → (heap a).hashed ≡ true
        → find t' heap' k ≡ (if hk.equal (heap a).key k then none else find t heap k)
    lookup_removed nodes on =
        Option-ext _ _
          (λ b e.
            let (on', same) = (find_iff t' heap' k b v').0 e in
            ground (
              arith,
              nodes b,
              keys b,
              v.unique a b,
              (find_iff t heap k b v).1,
              hk.symmetric (heap b).key k,
              hk.transitive (heap a).key k (heap b).key,
            ))
          (λ b e.
            ground
              (arith, nodes b, keys b, (find_iff t heap k b v).0, (find_iff t' heap' k b v').1))

  -- On a valid table, after a successful insertion its key, and no other, leads to the new node.
  pub find-insert :
      (malloc : ℕ → Bool) (t : HashTable) (heap : Heap K) (a : ℕ) (k : K)
      → IsValid t heap
      → (insert malloc t heap a).2 ≡ true
      → let r = insert malloc t heap a in
        find r.0 r.1 k ≡ (if hk.equal (heap a).key k then some a else find t heap k)
  find-insert malloc t heap a k v done =
      let r = insert malloc t heap a in
      let s = insert-Inserts malloc t heap a v in
      lookup_added t r.0 heap r.1 a k v s.valid s.keys (λ b. ground (arith, s.nodes b))
        (s.fresh done).1

  -- On a valid table, after the removal of a node of it its key leads nowhere, and every other key where it led before.
  pub find-remove :
      (t : HashTable) (heap : Heap K) (a : ℕ) (k : K)
      → IsValid t heap
      → (heap a).hashed ≡ true
      → let r = remove t heap a in
        find r.0 r.1 k ≡ (if hk.equal (heap a).key k then none else find t heap k)
  find-remove t heap a k v on =
      let r = remove t heap a in
      let s = remove-Removes t heap a v in
      lookup_removed t r.0 heap r.1 a k v s.valid s.keys s.nodes on
