-- ===== src/AtomTable/Tests.antt =====
-- Runs: a table of numbers, which are items of two types.
use koala_lang_pre.Prelude.{
  ◌==◌, replicate, ℕ, ◌≡◌, refl, subst, ◌↔◌, Bool, true, ◌&&◌, Option, none, some, [], ◌∷◌, arith,
}
use koala_lang_pre.HashTable.{
  HashKey, Heap, good_primes, get_prime, proper_from, get_proper_prime_index, new_entries, init,
  hlist_add, move_chain, move_all, htable_expand, htable_maybe_expand, link, find_in, find_hash,
  find, store_hash, insert, unhash_all, fini,
}
use koala_lang_pre.HashTable.Fresh.{new_node}
use koala_lang_pre.AtomTable.{
  AtomEntry, AtomTable, entry_new, new, vector, get, size, push, visits, free, push_entry, append,
  index,
}
use koala_lang_pre.AtomTable.Laws.{IsValid}
use koala_lang_pre.AtomTable.Append.{Appends, append-Appends, new-IsValid}

program : Unit {0}
unfolding good_primes get_prime proper_from get_proper_prime_index new_entries init hlist_add
    move_chain move_all htable_expand htable_maybe_expand link find_in find_hash find store_hash
    insert unhash_all fini new vector get size push visits free push_entry append index
program = tt

abbrev same_entry : AtomEntry ℕ → AtomEntry ℕ → Bool
same_entry k l = k.type == l.type && k.content == l.content

same_entry_iff :
    (k l : AtomEntry ℕ) → (same_entry k l ≡ true) ↔ ((k.type ≡ l.type) × (k.content ≡ l.content))
same_entry_iff k l = ground arith

instance abbrev number_key : HashKey (AtomEntry ℕ)
number_key = record {
  hash = λ k. k.content;
  equal = same_entry;
  compatible = λ k l e. ((same_entry_iff k l).0 e).1;
  transitive = λ k l m d e. ground arith;
  symmetric = λ k l e. ground arith;
  reflexive = λ k. ground arith;
}

abbrev plenty : ℕ → Bool
plenty n = true

abbrev memory : Heap (AtomEntry ℕ)
memory a = new_node (entry_new 0 0 0)

abbrev empty : AtomTable ℕ
empty = record {
  table = record { prime_index = 0; nr_nodes = 0; entries = replicate 19 []; head = [] };
  heap = memory;
  next = 100;
  items = [] ∷ [] ∷ [];
}

empty_runs : new plenty memory 100 2 ≡ some empty
unfolding program
empty_runs = refl

empty-IsValid : IsValid same_entry_iff empty
empty-IsValid =
    let (t, e, v, wide, nothing, none_there) =
      new-IsValid same_entry_iff plenty memory 100 2 (λ k. refl) (λ a. refl) in
    let same : t ≡ empty = ground (arith, empty_runs) in subst (IsValid same_entry_iff) same v

abbrev or_empty : Option (AtomTable ℕ × ℕ) → AtomTable ℕ
or_empty none = empty
or_empty (some (t, i)) = t

abbrev two : AtomTable ℕ
two = or_empty (append plenty (or_empty (append plenty empty 1 7 true)) 1 8 true)

two_runs : index two 1 8 ≡ some 1
unfolding program
two_runs = refl

other_type : index two 0 8 ≡ none
unfolding program
other_type = refl

freed : (free two).0 ≡ (1, 7) ∷ (1, 8) ∷ []
unfolding program
freed = refl

-- The assertion of a second insertion fails.
twice : append plenty two 1 7 true ≡ none
unfolding program
twice = refl

missed : index empty 1 7 ≡ none
unfolding program
missed = refl

append-Appends_example :
    (t' : AtomTable ℕ) × (append plenty empty 1 7 true ≡ some (t', size empty 1))
    × Appends same_entry_iff empty 1 7 t'
append-Appends_example =
    append-Appends same_entry_iff plenty empty 1 7 (omega arith) empty-IsValid missed
