-- ===== src/Properties/Tests.antt =====
-- Runs: properties with two keys.
use koala_lang_pre.Prelude.{
  replicate, bytes_eq, ℕ, ◌≡◌, refl, Bool, true, none, some, List, [], ◌∷◌,
}
use koala_lang_pre.HashTable.{
  Heap, good_primes, get_prime, proper_from, get_proper_prime_index, new_entries, init, hlist_add,
  move_chain, move_all, htable_expand, htable_maybe_expand, find_in, find_hash, find, link,
  store_hash, insert,
}
use koala_lang_pre.HashTable.Fresh.{new_node}
use koala_lang_pre.HashFunc.{hash_uint32, hash_string, hash_from}
use koala_lang_pre.Properties.{
  entry_key, Properties, properties_init, add_value, add_entry, put, get, get_one, put_all,
}
use koala_lang_pre.Properties.Laws.{first, values, get-put_all}

program : Unit {0}
unfolding good_primes get_prime proper_from get_proper_prime_index new_entries init hlist_add
    move_chain move_all htable_expand htable_maybe_expand find_in find_hash find link store_hash
    insert bytes_eq hash_uint32 hash_string hash_from properties_init add_value add_entry put get
    get_one put_all values
program = tt

abbrev plenty : ℕ → Bool
plenty n = true

abbrev memory : Heap (List ℕ)
memory a = new_node []

abbrev path : List ℕ
path = b'p' ∷ []

abbrev calls : List (List ℕ × List ℕ)
calls = (path, b'a' ∷ []) ∷ (b'q' ∷ [], b'b' ∷ []) ∷ (path, b'c' ∷ []) ∷ []

abbrev empty : Properties
empty = record {
  table = record { prime_index = 0; nr_nodes = 0; entries = replicate 19 []; head = [] };
  heap = memory;
  vecs = λ a. [];
}

path_runs : get (put_all plenty empty 10 calls) path ≡ some ((b'a' ∷ []) ∷ (b'c' ∷ []) ∷ [])
unfolding program
path_runs = refl

one_runs : get_one (put_all plenty empty 10 calls) (b'q' ∷ []) ≡ some (b'b' ∷ [])
unfolding program
one_runs = refl

missing_runs : get (put_all plenty empty 10 calls) [] ≡ none
unfolding program
missing_runs = refl

get-put_all_example :
    (p : Properties) × (properties_init plenty memory ≡ some p)
    × (get (put_all plenty p 10 calls) path ≡ values path none calls)
    × (get_one (put_all plenty p 10 calls) path ≡ first (values path none calls))
get-put_all_example = get-put_all plenty memory 10 calls path (λ k. refl) (λ a. refl)
