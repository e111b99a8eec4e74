-- ===== src/AtomString/Tests.antt =====
-- A pool that hashes a string by its length.
use koala_lang_pre.Prelude.{
  length, replicate, bytes_eq, bytes_eq_sound, ℕ, ◌≡◌, refl, subst, Bool, true, false, some, List,
  [], ◌∷◌,
}
use koala_lang_pre.HashTable.{
  HashKey, HashTable, good_primes, get_prime, proper_from, get_proper_prime_index, new_entries,
  init, hlist_add, move_chain, move_all, htable_expand, htable_maybe_expand, find_in, find_hash,
  find, link, store_hash, insert,
}
use koala_lang_pre.HashTable.Find.{IsValid}
use koala_lang_pre.HashTable.Methods.{init-IsValid}
use koala_lang_pre.AtomString.{Pool, find_string, add_string, found_or, new_string}
use koala_lang_pre.AtomString.Interning.{string_key, Interns, new_string-Interns}

program : Unit {0}
unfolding good_primes get_prime proper_from get_proper_prime_index new_entries init hlist_add
    move_chain move_all htable_expand htable_maybe_expand find_in find_hash find link store_hash
    insert bytes_eq find_string add_string found_or new_string
program = tt

abbrev plenty : ℕ → Bool
plenty n = true

instance abbrev by_length : HashKey (List ℕ)
by_length = string_key (λ s. length s)

abbrev empty : Pool
empty = record {
  table = record { prime_index = 0; nr_nodes = 0; entries = replicate 19 []; head = [] };
  heap = λ a. record { key = []; hash = 0; hashed = false };
}

abbrev word : List ℕ
word = b'o' ∷ b'k' ∷ []

new_string_runs : (new_string plenty (new_string plenty empty 3 word).0 4 (b'n' ∷ b'o' ∷ [])).1 ≡ 4
unfolding program
new_string_runs = refl

init_runs : init plenty ≡ some empty.table
unfolding program
init_runs = refl

empty-IsValid : IsValid empty.table empty.heap
empty-IsValid =
    let (t, e, v, h) = init-IsValid plenty empty.heap (λ n. refl) (λ a. refl) in
    let same : t ≡ empty.table = cc (e, init_runs) in
    subst (λ (r : HashTable). IsValid r empty.heap) same v

new_string-Interns_example : Interns bytes_eq_sound empty word (new_string plenty empty 3 word)
new_string-Interns_example =
    new_string-Interns bytes_eq_sound plenty empty 3 word empty-IsValid refl
