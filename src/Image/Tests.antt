-- ===== src/Image/Tests.antt =====
-- Runs: images that a few items are put into.
use koala_lang_pre.Prelude.{
  replicate, bytes_eq, ℕ, ◌≡◌, refl, subst, Bool, true, Option, none, some, List, [], ◌∷◌, arith,
}
use koala_lang_pre.HashTable.{
  Heap, good_primes, get_prime, proper_from, get_proper_prime_index, new_entries, init, hlist_add,
  move_chain, move_all, htable_expand, htable_maybe_expand, link, find_in, find_hash, find,
  store_hash, insert,
}
use koala_lang_pre.HashTable.Fresh.{new_node}
use koala_lang_pre.HashFunc.{hash_uint32, hash_string, hash_from}
use koala_lang_pre.TypeDesc.{int, string, TypeDesc, TypeList, get_basic, find_kind}
use koala_lang_pre.AtomTable.{
  AtomEntry, entry_new, new, vector, get, size, push, push_entry, append, index,
}
use koala_lang_pre.Image.Items.{Item, typeitem_equal, typelistitem_equal, constitem_equal}
use koala_lang_pre.Image.Key.{
  entry_key, item_hash, item_equal, entry_equal, is_same, sum_words, constitem_hash,
}
use koala_lang_pre.Image.{
  Table, image_new, path_get, klass_get, typeitem_get, typeitems_get, typelistitem_get, set_unique,
  stringitem_set, path_set, typeitem_set, typelistitem_set, typeitems_set, protoitem_set,
}
use koala_lang_pre.Image.Read.{
  get_item, get_typelist, base_desc, get_path, to_vector, proto_to_typedesc, item_to_typedesc,
  to_typedesc, get_proto,
}
use koala_lang_pre.Image.Ready.{IsReady}
use koala_lang_pre.Image.Laws.{image_new-IsReady, typeitem_set-confused}
use koala_lang_pre.Image.Module.{
  codeitem_set, add_var, add_locvar, add_func, read_all, read_var, read_locvar, read_func, get_vars,
  get_locvars, get_funcs,
}

unfoldable pub program : Unit {0}
unfolding good_primes get_prime proper_from get_proper_prime_index new_entries init hlist_add
    move_chain move_all htable_expand htable_maybe_expand link find_in find_hash find store_hash
    insert hash_uint32 hash_string hash_from get_basic find_kind new vector get size push push_entry
    append index typeitem_equal typelistitem_equal constitem_equal item_hash item_equal entry_equal
    is_same sum_words constitem_hash image_new path_get klass_get typeitem_get typeitems_get
    typelistitem_get set_unique stringitem_set path_set typeitem_set typelistitem_set typeitems_set
    protoitem_set get_item get_typelist base_desc get_path to_vector proto_to_typedesc
    item_to_typedesc to_typedesc get_proto codeitem_set add_var add_locvar add_func read_all
    read_var read_locvar read_func get_vars get_locvars get_funcs koala_lang_pre.Prelude.bytes_eq
program = tt

abbrev pub plenty : ℕ → Bool
plenty n = true

abbrev pub memory : Heap (AtomEntry Item)
memory a = new_node (entry_new 0 0 (Item.string []))

abbrev pub empty : Table
empty = record {
  table = record { prime_index = 0; nr_nodes = 0; entries = replicate 19 []; head = [] };
  heap = memory;
  next = 100;
  items = replicate 16 [];
}

empty_runs : image_new plenty memory 100 ≡ some empty
unfolding program
empty_runs = refl

pub empty-IsReady : IsReady empty
empty-IsReady =
    let (t, e, v, nothing) = image_new-IsReady plenty memory 100 (λ k. refl) (λ a. refl) in
    let same : t ≡ empty = ground (arith, empty_runs) in subst IsReady same v

abbrev pub or_empty : Option (Table × ℕ) → Table
or_empty none = empty
or_empty (some (t, i)) = t

-- [[io.File;
abbrev files : TypeDesc
files = TypeDesc.array 2 (TypeDesc.klass (b'i' ∷ b'o' ∷ []) (b'F' ∷ []))

files_run : to_typedesc 2 (or_empty (typeitem_set plenty files empty)) (some 1) ≡ some files
unfolding program
files_run = refl

abbrev pub ints : TypeList
ints = TypeList.cons (TypeDesc.base int) TypeList.nil

abbrev pub strings : TypeList
strings = TypeList.cons (TypeDesc.base string) TypeList.nil

-- An image with the type of functions from an integer to nothing.
abbrev with_action : Table
with_action = or_empty (typeitem_set plenty (TypeDesc.proto ints TypeList.nil) empty)

no_strings : typeitems_get with_action strings ≡ some none
unfolding program
no_strings = refl

action_at : typeitem_get with_action (TypeDesc.proto ints TypeList.nil) ≡ some (some 1)
unfolding program
action_at = refl

typeitem_set-confused_example :
    typeitem_set plenty (TypeDesc.proto ints strings) with_action ≡ some (with_action, 1)
typeitem_set-confused_example =
    typeitem_set-confused plenty with_action ints strings 1 no_strings action_at

-- main
abbrev pub main : List ℕ
main = b'm' ∷ b'a' ∷ b'i' ∷ b'n' ∷ []

no_vars : get_vars 2 empty ≡ some []
unfolding program
no_vars = refl

pub no_funcs : get_funcs 1 empty ≡ some []
unfolding program
no_funcs = refl
