-- ===== src/HashTable/Load.antt =====
-- How full the table gets, and what its end leaves behind.
use koala_lang_pre.Prelude.{
  ◌==◌, if◌then◌else◌, ℕ, zero, suc, ◌+◌, ◌-◌, ◌*◌, ◌≤◌, ◌<◌, ◌≡◌, refl, ◌⊎◌, inr, Bool, true,
  false, List, [], ◌∷◌, arith,
}
use koala_lang_pre.HashTable.{
  HashKey, Heap, HashTable, nr_primes, get_prime, is_below_load, proper_from,
  get_proper_prime_index, new_entries, htable_expand, htable_maybe_expand, link, store_hash, insert,
  update, unhash_all, fini,
}
use koala_lang_pre.HashTable.Chain.{count}
use koala_lang_pre.HashTable.Invariant.{IsPlaced}

proper_from-load :
    (left index nr : ℕ)
    → (is_below_load nr (get_prime (proper_from left index nr)) ≡ true)
      ⊎ (proper_from left index nr ≡ index + left)
unfolding proper_from
proper_from-load zero index nr = inr (omega arith)
proper_from-load (suc left) index nr = ground (arith, proper_from-load left (index + 1) nr)

proper_from-ge : (left index nr : ℕ) → index ≤ proper_from left index nr
unfolding proper_from
proper_from-ge zero index nr = omega arith
proper_from-ge (suc left) index nr = ground (arith, proper_from-ge left (index + 1) nr)

proper-ge : (t : HashTable) → t.prime_index < nr_primes → t.prime_index ≤ get_proper_prime_index t
unfolding get_proper_prime_index
proper-ge t h = ground (arith, proper_from-ge (nr_primes - t.prime_index) t.prime_index t.nr_nodes)

-- The load test passes at the index that is chosen, unless it is the last one.
abbrev pub IsRoomy : HashTable → ℕ → Type 0
IsRoomy t nr = (nr * 100 < get_prime t.prime_index * 65) ⊎ (t.prime_index ≡ nr_primes - 1)

proper-load :
    (t : HashTable)
    → t.prime_index < nr_primes
    → (is_below_load t.nr_nodes (get_prime (get_proper_prime_index t)) ≡ true)
      ⊎ (get_proper_prime_index t ≡ nr_primes - 1)
unfolding get_proper_prime_index
proper-load t h =
    ground (arith, proper_from-load (nr_primes - t.prime_index) t.prime_index t.nr_nodes)

module _ {K : Type 0} (malloc : ℕ → Bool) (granted : (n : ℕ) → malloc n ≡ true) where
  maybe_expand-IsRoomy :
      (heap : Heap K) (t : HashTable)
      → t.prime_index < nr_primes
      → IsRoomy (htable_maybe_expand malloc heap t) t.nr_nodes
  unfolding htable_maybe_expand htable_expand new_entries
  maybe_expand-IsRoomy heap t h =
      ground
        (arith, proper-load t h, proper-ge t h, granted (get_prime (get_proper_prime_index t) * 8))

module _ {K : Type 0} where
  unhash_all-hashed :
      (nodes : List ℕ) (heap : Heap K) (a : ℕ)
      → (unhash_all nodes heap a).hashed ≡ (if count a nodes == 0 then (heap a).hashed else false)
  unfolding unhash_all
  unhash_all-hashed [] heap a = refl
  unhash_all-hashed (b ∷ nodes) heap a =
      ground (arith, unhash_all-hashed nodes (update heap b (record (heap b) { hashed = false })) a)

  -- On a table laid out as it should be, `fini` visits the nodes in the order of insertion, leaves an
  -- empty order and a count of zero, and leaves no node hashed.
  pub fini_lem :
      (t : HashTable) (heap : Heap K)
      → IsPlaced t heap
      → ((fini t heap).2 ≡ t.head)
        × ((fini t heap).0.head ≡ [])
        × ((fini t heap).0.nr_nodes ≡ 0)
        × ((a : ℕ) → ((fini t heap).1 a).hashed ≡ false)
  unfolding fini
  fini_lem t heap p =
      (refl, refl, refl, λ a. ground (arith, unhash_all-hashed t.head heap a, p.listed a))

module _ {K : Type 0} ⦃hk : HashKey K⦄ where
  -- With memory granted a successful insertion leaves the load below 0.65 before the node is counted,
  -- unless the last prime is reached.
  pub insert-IsRoomy :
      (malloc : ℕ → Bool) (t : HashTable) (heap : Heap K) (a : ℕ)
      → ((n : ℕ) → malloc n ≡ true)
      → IsPlaced t heap
      → (insert malloc t heap a).2 ≡ true
      → IsRoomy (insert malloc t heap a).0 t.nr_nodes
  unfolding insert link
  insert-IsRoomy malloc t heap a g p done =
      ground (arith, maybe_expand-IsRoomy malloc g (store_hash heap a) t p.small)
