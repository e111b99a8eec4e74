-- ===== src/HashTable/Invariant.antt =====
-- The invariant of the table and its heap, for the writes that the operations are made of.
use koala_lang_pre.Prelude.{
  ltb, leb, ◌==◌, if◌then◌else◌, to_nat, Bool-cases, if_ind, length, get_or, replicate,
  length-replicate, get_or-replicate, ℕ, zero, suc, ◌+◌, ◌*◌, ◌%◌, ◌≤◌, ◌<◌, ◌≡◌, refl, ap, ◌∙◌,
  inl, inr, Bool, true, ◌&&◌, List, [], ◌∷◌, arith,
}
use koala_lang_pre.HashTable.{
  Heap, HashTable, good_primes, nr_primes, get_prime, is_below_load, proper_from,
  get_proper_prime_index, new_entries, move_all, htable_expand, htable_maybe_expand,
}
use koala_lang_pre.HashTable.Chain.{count, chain_at, count_all, count_all-only}
use koala_lang_pre.HashTable.Expand.{length-move_all, count-move_all}

all_pos : List ℕ → Bool
all_pos [] = true
all_pos (p ∷ ps) = ltb 0 p && all_pos ps

all_pos_sound : (ps : List ℕ) (i : ℕ) → all_pos ps ≡ true → i < length ps → 0 < get_or ps i 0
unfolding all_pos
all_pos_sound [] i h lt = absurd (omega arith)
all_pos_sound (p ∷ ps) zero h lt = ground arith
all_pos_sound (p ∷ ps) (suc i) h lt = ground (arith, all_pos_sound ps i)

pub get_prime_pos : (i : ℕ) → i < nr_primes → 0 < get_prime i
unfolding get_prime good_primes all_pos
get_prime_pos i h = all_pos_sound good_primes i refl h

proper_from-le : (left index nr : ℕ) → proper_from left index nr ≤ index + left
unfolding proper_from
proper_from-le zero index nr = omega arith
proper_from-le (suc left) index nr = ground (arith, proper_from-le left (index + 1) nr)

get_proper_prime_index-lt : (t : HashTable) → get_proper_prime_index t < nr_primes
unfolding get_proper_prime_index
get_proper_prime_index-lt t = ground arith

-- What a change of the chains leaves alone: the nodes and their order.
pub record Regrouped (t r : HashTable) : Type 0 where
  pub same_head : r.head ≡ t.head
  pub same_nodes : r.nr_nodes ≡ t.nr_nodes
  pub grown : t.prime_index ≤ r.prime_index

module _ {K : Type 0} where
  -- A node that is hashed stands once in the list and once in the chain of its hash, and no other
  -- address stands anywhere.
  pub record IsPlaced (t : HashTable) (heap : Heap K) : Type 0 where
    pub small : t.prime_index < nr_primes
    pub width : length t.entries ≡ get_prime t.prime_index
    pub chained :
        (a i : ℕ)
        → i < length t.entries
        → count a (chain_at t.entries i)
          ≡ (if (heap a).hash % length t.entries == i then to_nat (heap a).hashed else 0)
    pub listed : (a : ℕ) → count a t.head ≡ to_nat (heap a).hashed
    pub counted : t.nr_nodes ≡ length t.head

  pub entries_pos : {t : HashTable} {heap : Heap K} → IsPlaced t heap → 0 < length t.entries
  entries_pos {t} p = omega (arith, p.width, get_prime_pos t.prime_index p.small)

  count_all-entries :
      {t : HashTable} {heap : Heap K} (a : ℕ)
      → IsPlaced t heap
      → count_all a t.entries ≡ to_nat (heap a).hashed
  count_all-entries {t} {heap} a p =
      let pos = entries_pos p in
      count_all-only a ((heap a).hash % length t.entries) (to_nat (heap a).hashed) t.entries
        (omega arith) (p.chained a)

  expand-IsPlaced :
      (malloc : ℕ → Bool) (heap : Heap K) (t : HashTable) (index : ℕ)
      → IsPlaced t heap
      → index < nr_primes
      → t.prime_index ≤ index
      → IsPlaced (htable_expand malloc heap t index) heap
        × Regrouped t (htable_expand malloc heap t index)
  unfolding htable_expand new_entries
  expand-IsPlaced malloc heap t index p small up =
      elim (Bool-cases (malloc (get_prime index * 8))) [
        | inr f ↦
            rw (f, htable_expand)
              (p, record { same_head = refl; same_nodes = refl; grown = omega arith })
        | inl g ↦
            let n = get_prime index in
            let pos = get_prime_pos index small in
            let fresh : List (List ℕ) = replicate n [] in
            let wide : length fresh ≡ n = length-replicate n [] in
            let w : length (move_all heap n t.entries fresh) ≡ n =
              length-move_all heap n t.entries fresh ∙ wide in
            rw (g, htable_expand)
              (
                record {
                  small = small;
                  width = w;
                  chained = λ a i lt.
                      let empty : count a (chain_at fresh i) ≡ 0 =
                        ap (count a) (get_or-replicate {A = List ℕ} [] n i) in
                      rw w (
                        ground (
                          arith,
                          count-move_all heap n a i t.entries fresh pos wide,
                          empty,
                          count_all-entries a p,
                        ));
                  listed = p.listed;
                  counted = p.counted;
                },
                record { same_head = refl; same_nodes = refl; grown = up },
              )
      ]

  pub maybe_expand-IsPlaced :
      (malloc : ℕ → Bool) (heap : Heap K) (t : HashTable)
      → IsPlaced t heap
      → IsPlaced (htable_maybe_expand malloc heap t) heap
        × Regrouped t (htable_maybe_expand malloc heap t)
  unfolding htable_maybe_expand
  maybe_expand-IsPlaced malloc heap t p =
      let P = λ (r : HashTable). IsPlaced r heap × Regrouped t r in
      let stays : P t = (p, record { same_head = refl; same_nodes = refl; grown = omega arith }) in
      if_ind P (leb nr_primes t.prime_index) (λ _. stays)
        λ _.
          if_ind P (is_below_load t.nr_nodes (get_prime t.prime_index)) (λ _. stays)
            λ _.
              if_ind P (leb (get_proper_prime_index t) t.prime_index) (λ _. stays)
                λ up.
                  expand-IsPlaced malloc heap t (get_proper_prime_index t) p
                    (get_proper_prime_index-lt t) (ground arith)
