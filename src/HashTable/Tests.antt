-- ===== src/HashTable/Tests.antt =====
-- A table of nodes whose keys are numbers, equal when they agree in the last digit.
use koala_lang_pre.Prelude.{
  ◌==◌, if◌then◌else◌, ==_iff, replicate, ℕ, zero, suc, ◌%◌, ◌≡◌, refl, subst, ◌↔◌, Bool, true,
  false, some, [], ◌∷◌, arith,
}
use koala_lang_pre.HashTable.{
  HashKey, Heap, HashTable, good_primes, get_prime, proper_from, get_proper_prime_index,
  new_entries, init, hlist_add, unlink, move_chain, move_all, htable_expand, htable_maybe_expand,
  find_in, find_hash, find, link, store_hash, insert, unlink_node, remove, unhash_all, fini, visit,
}
use koala_lang_pre.HashTable.Find.{IsValid, find_iff}
use koala_lang_pre.HashTable.Load.{IsRoomy, insert-IsRoomy}
use koala_lang_pre.HashTable.Methods.{Inserts, insert-Inserts, init-IsValid}
use koala_lang_pre.HashTable.Removal.{Removes, remove-Removes, find-insert}

program : Unit {0}
unfolding good_primes get_prime proper_from get_proper_prime_index new_entries init hlist_add unlink
    move_chain move_all htable_expand htable_maybe_expand find_in find_hash find link store_hash
    insert unlink_node remove unhash_all fini visit
program = tt

eqb_refl : (a : ℕ) → (a == a) ≡ true
eqb_refl a = ground arith

eqb_symm : (a b : ℕ) → (a == b) ≡ true → (b == a) ≡ true
eqb_symm a b h = ground arith

eqb_trans : (a b c : ℕ) → (a == b) ≡ true → (b == c) ≡ true → (a == c) ≡ true
eqb_trans a b c h k = ground arith

-- Keys are hashed and compared by a number.
abbrev by_number : (ℕ → ℕ) → HashKey ℕ
by_number f = record {
  hash = f;
  equal = λ a b. f a == f b;
  reflexive = λ a. eqb_refl (f a);
  symmetric = λ a b. eqb_symm (f a) (f b);
  transitive = λ a b c. eqb_trans (f a) (f b) (f c);
  compatible = λ a b. (==_iff (f a) (f b)).0;
}

instance abbrev digit_key : HashKey ℕ
digit_key = by_number (λ a. a % 10)

abbrev plenty : ℕ → Bool
plenty n = true

abbrev nodes : Heap ℕ
nodes a = record { key = a; hash = 0; hashed = false }

abbrev empty : HashTable
empty = record { prime_index = 0; nr_nodes = 0; entries = replicate 19 []; head = [] }

init_runs : init plenty ≡ some empty
unfolding program
init_runs = refl

empty-IsValid : IsValid empty nodes
empty-IsValid =
    let (t, e, v, h) = init-IsValid plenty nodes (λ n. refl) (λ a. refl) in
    let same : t ≡ empty = cc (e, init_runs) in subst (λ (r : HashTable). IsValid r nodes) same v

insert-Inserts_example : Inserts empty nodes 5 (insert plenty empty nodes 5)
insert-Inserts_example = insert-Inserts plenty empty nodes 5 empty-IsValid

abbrev one : HashTable × Heap ℕ × Bool
one = insert plenty empty nodes 5

abbrev two : HashTable × Heap ℕ × Bool
two = insert plenty one.0 one.1 7

one-IsValid : IsValid one.0 one.1
one-IsValid = (insert-Inserts plenty empty nodes 5 empty-IsValid).valid

two-IsValid : IsValid two.0 two.1
two-IsValid = (insert-Inserts plenty one.0 one.1 7 one-IsValid).valid

find_iff_example :
    (find one.0 one.1 15 ≡ some 5)
    ↔ (((one.1 5).hashed ≡ true) × (digit_key.equal (one.1 5).key 15 ≡ true))
find_iff_example = find_iff one.0 one.1 15 5 one-IsValid

find-insert_example :
    find two.0 two.1 17 ≡ (if digit_key.equal (one.1 7).key 17 then some 7 else find one.0 one.1 17)
find-insert_example = find-insert plenty one.0 one.1 7 17 one-IsValid (unfold program in refl)

remove-Removes_example : Removes two.0 two.1 5 (remove two.0 two.1 5)
remove-Removes_example = remove-Removes two.0 two.1 5 two-IsValid

insert-IsRoomy_example : IsRoomy two.0 one.0.nr_nodes
insert-IsRoomy_example =
    insert-IsRoomy plenty one.0 one.1 7 (λ n. refl) one-IsValid.placed (unfold program in refl)

-- A second node with an equal key is refused, and the order is the order of insertion.
insert-refused : (insert plenty two.0 two.1 15).2 ≡ false
unfolding program
insert-refused = refl

visit_order : visit two.0 ≡ 5 ∷ 7 ∷ []
unfolding program
visit_order = refl

fill : ℕ → HashTable → Heap ℕ → HashTable
fill zero t heap = t
fill (suc n) t heap = let r = insert ⦃hk = by_number (λ a. a)⦄ plenty t heap n in fill n r.0 r.1

-- The fourteenth node moves the table to the next prime.
fill_grows : ((fill 13 empty nodes).prime_index ≡ 0) × ((fill 14 empty nodes).prime_index ≡ 1)
unfolding program fill
fill_grows = (refl, refl)
