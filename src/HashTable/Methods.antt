-- ===== src/HashTable/Methods.antt =====
-- `HashTable_Insert` and `HashTable_Remove`: what they return, what they keep, and what a lookup gives
-- afterwards.
use koala_lang_pre.Prelude.{
  ◌==◌, Option-cases, if_ind, ℕ, ◌≡◌, refl, ap, ◌⊎◌, inl, inr, Bool, true, false, ◌&&◌, ◌||◌,
  Option, some, List, [], ◌∷◌, ◌++◌, arith,
}
use koala_lang_pre.HashTable.{
  HashKey, Heap, HashTable, init, htable_maybe_expand, find_hash, store_hash, link, insert,
}
use koala_lang_pre.HashTable.Invariant.{IsPlaced, maybe_expand-IsPlaced}
use koala_lang_pre.HashTable.Writes.{init-IsPlaced, link-IsPlaced}
use koala_lang_pre.HashTable.Find.{IsValid, Finds, find_hash-Finds}

module _ {K : Type 0} ⦃hk : HashKey K⦄ where
  store_hash-IsPlaced :
      (t : HashTable) (heap : Heap K) (a : ℕ)
      → IsPlaced t heap
      → (heap a).hashed ≡ false
      → IsPlaced t (store_hash heap a)
  unfolding store_hash
  store_hash-IsPlaced t heap a p off = record {
    small = p.small;
    width = p.width;
    chained = λ b i lt. ground (arith, p.chained b i);
    listed = λ b. ground (arith, p.listed b);
    counted = p.counted;
  }

  store_hash-IsValid :
      (t : HashTable) (heap : Heap K) (a : ℕ)
      → IsValid t heap
      → (heap a).hashed ≡ false
      → IsValid t (store_hash heap a)
  unfolding store_hash
  store_hash-IsValid t heap a v off = record {
    placed = store_hash-IsPlaced t heap a v.placed off;
    hash_stored = λ b on. ground (arith, v.hash_stored b);
    unique = λ b c on on' same. ground (arith, v.unique b c);
  }

  -- The node `a` enters a table that has no node with its key.
  link-IsValid :
      (t : HashTable) (heap : Heap K) (a : ℕ)
      → IsValid t heap
      → (heap a).hashed ≡ false
      → (heap a).hash ≡ hk.hash (heap a).key
      → ((b : ℕ) → (heap b).hashed ≡ true → hk.equal (heap b).key (heap a).key ≡ false)
      → IsValid (link t heap a).0 (link t heap a).1
  unfolding link
  link-IsValid t heap a v off own fresh = record {
    placed = link-IsPlaced t heap a v.placed off;
    hash_stored = λ b on. ground (arith, v.hash_stored b);
    unique = λ b c on on' same.
        ground (arith, v.unique b c, fresh b, fresh c, hk.symmetric (heap b).key (heap c).key);
  }

  maybe_expand-IsValid :
      (malloc : ℕ → Bool) (t : HashTable) (heap : Heap K)
      → IsValid t heap
      → IsValid (htable_maybe_expand malloc heap t) heap
  maybe_expand-IsValid malloc t heap v = record {
    placed = (maybe_expand-IsPlaced malloc heap t v.placed).0;
    hash_stored = v.hash_stored;
    unique = v.unique;
  }

  -- The outcome of `insert` at the address `a`.
  pub record Inserts (t : HashTable) (heap : Heap K) (a : ℕ) (r : HashTable × Heap K × Bool)
      : Type 0 where
    pub valid : IsValid r.0 r.1
    pub kept : r.2 ≡ false → r.0 ≡ t
    pub appended : r.2 ≡ true → r.0.head ≡ t.head ++ a ∷ []
    pub refused :
        r.2 ≡ false
        → ((heap a).hashed ≡ true)
          ⊎ ((b : ℕ) × ((heap b).hashed ≡ true) × (hk.equal (heap b).key (heap a).key ≡ true))
    pub fresh :
        r.2 ≡ true
        → ((heap a).hashed ≡ false)
          × ((b : ℕ) → (heap b).hashed ≡ true → hk.equal (heap b).key (heap a).key ≡ false)
    pub keys : (b : ℕ) → (r.1 b).key ≡ (heap b).key
    pub nodes : (b : ℕ) → (r.1 b).hashed ≡ ((heap b).hashed || (r.2 && a == b))

  insert-link :
      (malloc : ℕ → Bool) (t : HashTable) (heap : Heap K) (a : ℕ)
      → IsValid t heap
      → (heap a).hashed ≡ false
      → ((b : ℕ) → (heap b).hashed ≡ true → hk.equal (heap b).key (heap a).key ≡ false)
      → let heap' = store_hash heap a in
        let r = link (htable_maybe_expand malloc heap' t) heap' a in
        Inserts t heap a (r.0, r.1, true)
  unfolding store_hash link
  insert-link malloc t heap a v off fresh =
      let heap' = store_hash heap a in
      let t' = htable_maybe_expand malloc heap' t in
      let v' = maybe_expand-IsValid malloc t heap' (store_hash-IsValid t heap a v off) in
      record {
        valid =
            link-IsValid t' heap' a v' (ground arith) (ground arith)
              (λ b on. ground (arith, fresh b));
        kept = λ p. cc;
        appended = λ _.
            ap (λ (h : List ℕ). h ++ a ∷ [])
              (maybe_expand-IsPlaced malloc heap' t
                (store_hash-IsPlaced t heap a v.placed off)).1.same_head;
        refused = λ p. cc;
        fresh = λ _. (off, fresh);
        keys = λ b. ground arith;
        nodes = λ b. ground arith;
      }

  own_hash :
      (heap : Heap K) (a : ℕ) → (store_hash heap a a).hash ≡ hk.hash (store_hash heap a a).key
  unfolding store_hash
  own_hash heap a = ground arith

  -- A lookup reads the keys and the marks of the nodes, which `store_hash` leaves alone.
  Finds-store_hash :
      (heap : Heap K) (a : ℕ) (r : Option ℕ)
      → Finds (store_hash heap a) (store_hash heap a a).key r
      → Finds heap (heap a).key r
  unfolding store_hash
  Finds-store_hash heap a r f = record {
    found = λ b e. ground (arith, f.found b e);
    missed = λ e b on. ground (arith, f.missed e b);
  }

  insert-refused :
      (t : HashTable) (heap : Heap K) (a b : ℕ)
      → IsValid t heap
      → (heap a).hashed ≡ false
      → ((heap b).hashed ≡ true) × (hk.equal (heap b).key (heap a).key ≡ true)
      → Inserts t heap a (t, store_hash heap a, false)
  unfolding store_hash
  insert-refused t heap a b v off f = record {
    valid = store_hash-IsValid t heap a v off;
    kept = λ _. refl;
    appended = λ p. cc;
    refused = λ _. inr (b, f.0, f.1);
    fresh = λ p. cc;
    keys = λ c. ground arith;
    nodes = λ c. ground arith;
  }

  -- On a valid table, `insert` leaves a valid table. It returns -1 with the table unchanged, and only if
  -- the node is in a table or a node of the table has an equal key; or it returns 0, where neither is so,
  -- and the node stands at the end of the order. No key changes, and no other node is linked or unlinked.
  pub insert-Inserts :
      (malloc : ℕ → Bool) (t : HashTable) (heap : Heap K) (a : ℕ)
      → IsValid t heap
      → Inserts t heap a (insert malloc t heap a)
  unfolding insert
  insert-Inserts malloc t heap a v =
      if_ind (Inserts t heap a) (heap a).hashed
        (λ on. record {
          valid = v;
          kept = λ _. refl;
          appended = λ p. cc;
          refused = λ _. inl on;
          fresh = λ p. cc;
          keys = λ b. refl;
          nodes = λ b. ground arith;
        })
        (λ off.
          let heap' = store_hash heap a in
          let found =
            find_hash-Finds t heap' (heap' a).hash (heap' a).key (store_hash-IsValid t heap a v off)
              (own_hash heap a) in
          elim (Option-cases (find_hash t heap' (heap' a).hash (heap' a).key)) [
            | inl e ↦
                rw e
                  (insert-link malloc t heap a v off ((Finds-store_hash heap a _ found).missed e))
            | inr (b, e) ↦
                rw e (insert-refused t heap a b v off ((Finds-store_hash heap a _ found).found b e))
          ])

module _ {K : Type 0} ⦃hk : HashKey K⦄ where
  -- With memory granted, over nodes that are in no table, `init` gives a valid empty table.
  pub init-IsValid :
      (malloc : ℕ → Bool) (heap : Heap K)
      → ((n : ℕ) → malloc n ≡ true)
      → ((a : ℕ) → (heap a).hashed ≡ false)
      → (t : HashTable) × (init malloc ≡ some t) × IsValid t heap × (t.head ≡ [])
  init-IsValid malloc heap g clean =
      let (t, e, p, h) = init-IsPlaced malloc heap g clean in
      (
        t,
        e,
        record {
          placed = p;
          hash_stored = λ a on. cc (clean a);
          unique = λ a b on _ _. cc (clean a);
        },
        h,
      )
