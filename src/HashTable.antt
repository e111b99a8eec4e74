-- ===== src/HashTable.antt =====
-- src/hashtable.c, include/hashtable.h and the chains of include/list.h: the chained hash table with
-- the list of its nodes in the order of insertion.
-- A node is an address, and the heap gives its fields; `hashed` says that `hlink.pprev` is set. A
-- chain is the list of its addresses from `first` on, and `head` those from `head.next` on. Links that
-- join two addresses stand for the order in these lists. `malloc n` says whether a request for n bytes
-- is granted; a chain's head takes 8 bytes. A node is linked into one table at most.
-- The load test of the code compares doubles; no prime is a multiple of 20, so the product with 0.65 is
-- no whole number and lies far enough from one for the exact test below to agree.
mod Chain
mod Expand
pub mod Invariant
pub mod Writes
pub mod Find
pub mod Methods
pub mod Removal
pub mod Load
pub mod Fresh
mod Tests
use koala_lang_pre.Prelude.{
  ltb, leb, ◌==◌, if◌then◌else◌, get_or, set, replicate, ℕ, zero, suc, ◌+◌, ◌-◌, ◌*◌, ◌%◌, ◌≡◌,
  Bool, true, false, not, Option, none, some, List, [], ◌∷◌, ◌++◌, map,
}

pub record HashKey (K : Type 0) : Type 0 where
  pub hash : K → ℕ
  pub equal : K → K → Bool
  pub compatible : (k l : K) → equal k l ≡ true → hash k ≡ hash l
  pub transitive : (k l m : K) → equal k l ≡ true → equal l m ≡ true → equal k m ≡ true
  pub symmetric : (k l : K) → equal k l ≡ true → equal l k ≡ true
  pub reflexive : (k : K) → equal k k ≡ true

pub record HashNode (K : Type 0) : Type 0 where
  pub key : K
  pub hash : ℕ
  pub hashed : Bool

abbrev pub Heap : Type 0 → Type 0
Heap K = ℕ → HashNode K

pub record HashTable : Type 0 where
  pub prime_index : ℕ
  pub nr_nodes : ℕ
  pub entries : List (List ℕ)
  pub head : List ℕ

unfoldable pub good_primes : List ℕ
good_primes =
    19 ∷ 31 ∷ 53 ∷ 97 ∷ 193 ∷ 389 ∷ 769 ∷ 1543 ∷ 3079 ∷ 6151 ∷ 12289 ∷ 24593 ∷ 49157 ∷ 98317
    ∷ 196613 ∷ 393241 ∷ 786433 ∷ 1572869 ∷ 3145739 ∷ 6291469 ∷ 12582917 ∷ 25165843 ∷ 50331653
    ∷ 100663319 ∷ 201326611 ∷ 402653189 ∷ 805306457 ∷ 1610612741 ∷ []

-- `nr_elts(good_primes)`
abbrev pub nr_primes : ℕ
nr_primes = 28

unfoldable pub get_prime : ℕ → ℕ
unfolding good_primes
get_prime index = get_or good_primes index 0

-- `nr_nodes < prime * LOAD_FACTOR`
abbrev pub is_below_load : ℕ → ℕ → Bool
is_below_load nr_nodes prime = ltb (nr_nodes * 100) (prime * 65)

-- The `while` loop, with the rounds that are left until the index reaches `nr_primes`.
unfoldable pub proper_from : ℕ → ℕ → ℕ → ℕ
proper_from zero index nr_nodes = index
proper_from (suc left) index nr_nodes =
    let later = proper_from left (index + 1) nr_nodes in
    if is_below_load nr_nodes (get_prime index) then index else later

unfoldable pub get_proper_prime_index : HashTable → ℕ
get_proper_prime_index t =
    let index = proper_from (nr_primes - t.prime_index) t.prime_index t.nr_nodes in
    if leb nr_primes index then nr_primes - 1 else index

unfoldable pub new_entries : (ℕ → Bool) → ℕ → Option (List (List ℕ))
new_entries malloc nr_entries =
    if malloc (nr_entries * 8) then some (replicate nr_entries []) else none

-- The table after `HashTable_Init`; `none` where the code returns -1.
unfoldable pub init : (ℕ → Bool) → Option HashTable
init malloc = elim (new_entries malloc (get_prime 0)) [
  | none ↦ none
  | some entries ↦ some (record { prime_index = 0; nr_nodes = 0; entries = entries; head = [] })
]

-- `hlist_add` at one of the heads
unfoldable pub hlist_add : ℕ → ℕ → List (List ℕ) → List (List ℕ)
hlist_add a index entries = set entries index (a ∷ get_or entries index [])

-- Unlinking an address from a list.
unfoldable pub unlink : ℕ → List ℕ → List ℕ
unlink a [] = []
unlink a (b ∷ c) = if b == a then c else b ∷ unlink a c

-- `HashTable_Visit`: the nodes in the order in which `visit` is called on them.
unfoldable pub visit : HashTable → List ℕ
visit t = t.head

module _ {K : Type 0} where
  -- A write to the node at `a`.
  abbrev pub update : Heap K → ℕ → HashNode K → Heap K
  update heap a n b = if a == b then n else heap b

  -- The inner loop of `htable_expand`, over one chain.
  unfoldable pub move_chain : Heap K → ℕ → List ℕ → List (List ℕ) → List (List ℕ)
  move_chain heap n [] entries = entries
  move_chain heap n (a ∷ chain) entries =
      move_chain heap n chain (hlist_add a ((heap a).hash % n) entries)

  -- Its outer loop.
  unfoldable pub move_all : Heap K → ℕ → List (List ℕ) → List (List ℕ) → List (List ℕ)
  move_all heap n [] entries = entries
  move_all heap n (chain ∷ chains) entries =
      move_all heap n chains (move_chain heap n chain entries)

  unfoldable pub htable_expand : (ℕ → Bool) → Heap K → HashTable → ℕ → HashTable
  htable_expand malloc heap t index = elim (new_entries malloc (get_prime index)) [
    | none ↦ t
    | some fresh ↦ record t {
      prime_index = index;
      entries = move_all heap (get_prime index) t.entries fresh;
    }
  ]

  unfoldable pub htable_maybe_expand : (ℕ → Bool) → Heap K → HashTable → HashTable
  htable_maybe_expand malloc heap t =
      if leb nr_primes t.prime_index
      then t
      else if is_below_load t.nr_nodes (get_prime t.prime_index)
      then t
      else if leb (get_proper_prime_index t) t.prime_index
      then t
      else htable_expand malloc heap t (get_proper_prime_index t)

  unfoldable pub unhash_all : List ℕ → Heap K → Heap K
  unhash_all [] heap = heap
  unhash_all (a ∷ nodes) heap =
      unhash_all nodes (update heap a (record (heap a) { hashed = false }))

  -- `HashTable_Fini`: the table, the heap, and the nodes that `visit` is called on.
  unfoldable pub fini : HashTable → Heap K → HashTable × Heap K × List ℕ
  fini t heap = (
    record { prime_index = 0; nr_nodes = 0; entries = []; head = [] },
    unhash_all t.head heap,
    t.head,
  )

  -- The last lines of `HashTable_Insert`.
  unfoldable pub link : HashTable → Heap K → ℕ → HashTable × Heap K
  link t heap a = (
    record t {
      nr_nodes = t.nr_nodes + 1;
      entries = hlist_add a ((heap a).hash % get_prime t.prime_index) t.entries;
      head = t.head ++ a ∷ [];
    },
    update heap a (record (heap a) { hashed = true }),
  )

  unfoldable pub unlink_node : HashTable → Heap K → ℕ → HashTable × Heap K
  unlink_node t heap a = (
    record t {
      nr_nodes = t.nr_nodes - 1;
      entries = map (unlink a) t.entries;
      head = unlink a t.head;
    },
    update heap a (record (heap a) { hashed = false }),
  )

  -- `return 0`
  abbrev pub succeed : HashTable × Heap K → HashTable × Heap K × Bool
  succeed r = (r.0, r.1, true)

module _ {K : Type 0} ⦃hk : HashKey K⦄ where
  unfoldable pub find_in : Heap K → K → List ℕ → Option ℕ
  find_in heap key [] = none
  find_in heap key (a ∷ chain) =
      if hk.equal (heap a).key key then some a else find_in heap key chain

  -- `__HashTable_Find`
  unfoldable pub find_hash : HashTable → Heap K → ℕ → K → Option ℕ
  find_hash t heap hash key =
      find_in heap key (get_or t.entries (hash % get_prime t.prime_index) [])

  -- `HashTable_Find`
  unfoldable pub find : HashTable → Heap K → K → Option ℕ
  find t heap key = find_hash t heap (hk.hash key) key

  -- The write of the hash to the node.
  unfoldable pub store_hash : Heap K → ℕ → Heap K
  store_hash heap a = update heap a (record (heap a) { hash = hk.hash (heap a).key })

  -- The flag is `true` where the code returns 0, and `false` where it returns -1.
  unfoldable pub insert : (ℕ → Bool) → HashTable → Heap K → ℕ → HashTable × Heap K × Bool
  insert malloc t heap a =
      if (heap a).hashed
      then (t, heap, false)
      else let heap' = store_hash heap a in
        elim (find_hash t heap' (heap' a).hash (heap' a).key) [
          | some b ↦ (t, heap', false)
          | none ↦ succeed (link (htable_maybe_expand malloc heap' t) heap' a)
        ]

  unfoldable pub remove : HashTable → Heap K → ℕ → HashTable × Heap K × Bool
  remove t heap a =
      if not (heap a).hashed
      then (t, heap, false)
      else elim (find_hash t heap (heap a).hash (heap a).key) [
        | none ↦ (t, heap, false)
        | some b ↦ if b == a then succeed (unlink_node t heap a) else (t, heap, false)
      ]
