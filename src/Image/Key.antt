-- ===== src/Image/Key.antt =====
-- src/image.c: `Item_Hash` and `Item_Equal`, by which the table of an image finds its items.
-- The functions of an item's type are chosen by the type in the entry, and a table holds under each type
-- items of that type only.
use koala_lang_pre.Prelude.{
  ◌==◌, ℤ, bytes_eq, bytes_eq_iff, pos, negsuc, ℕ, ◌+◌, ◌-◌, ◌%◌, ◌^◌, ◌≡◌, refl, sym, ap, ◌∙◌, ◌↔◌,
  Bool, true, false, ◌&&◌, none, some, List, [], ◌∷◌, arith,
}
use koala_lang_pre.HashFunc.{hash_uint32, hash_string}
use koala_lang_pre.HashTable.{HashKey}
use koala_lang_pre.AtomTable.{AtomEntry}
use koala_lang_pre.Image.Items.{
  Ref, TypeItem, ConstItem, Item, ref_eq, type_words, typeitem_equal, typelistitem_equal,
  constitem_equal, Item-discrete,
}

-- An `int32` as the `uint32` that its sum is taken in.
abbrev pub word : Ref → ℕ
word none = 2 ^ 32 - 1
word (some i) = i

unfoldable pub sum_words : List Ref → ℕ
sum_words [] = 0
sum_words (r ∷ rs) = (word r + sum_words rs) % 2 ^ 32

-- The low 32 bits of an integer.
abbrev pub low_word : ℤ → ℕ
low_word (pos n) = n % 2 ^ 32
low_word (negsuc n) = 2 ^ 32 - 1 - n % 2 ^ 32

-- `constitem_hash`
unfoldable pub constitem_hash : ConstItem → ℕ
constitem_hash (ConstItem.int n) = hash_uint32 (low_word n) 32
constitem_hash (ConstItem.string i) = hash_uint32 i 32
constitem_hash (ConstItem.uchar c) = hash_uint32 c 32

-- The column `hash` of `item_func`; the types that are not unique have none.
unfoldable pub item_hash : Item → ℕ
unfolding constitem_hash sum_words
item_hash (Item.string s) = hash_string s
item_hash (Item.type t) = hash_uint32 ((word (type_words t).0 + word (type_words t).1) % 2 ^ 32) 32
item_hash (Item.typelist rs) = hash_uint32 (sum_words rs) 32
item_hash (Item.proto r p) = hash_uint32 ((word r + word p) % 2 ^ 32) 32
item_hash (Item.const c) = constitem_hash c
item_hash d = 0

unfoldable pub is_same : Item → Item → Bool
is_same d e = elim (Item-discrete d e) [ yes p ↦ true | no p ↦ false ]

-- The column `equal` of `item_func`; items of the types that have none are never compared, nor are items
-- of two types.
unfoldable pub item_equal : Item → Item → Bool
unfolding is_same
item_equal (Item.string s) (Item.string t) = bytes_eq s t
item_equal (Item.type s) (Item.type t) = typeitem_equal s t
item_equal (Item.typelist rs) (Item.typelist qs) = typelistitem_equal rs qs
item_equal (Item.proto r p) (Item.proto q o) = ref_eq r q && ref_eq p o
item_equal (Item.const c) (Item.const d) = constitem_equal c d
item_equal d e = is_same d e

-- `Item_Equal`
unfoldable pub entry_equal : AtomEntry Item → AtomEntry Item → Bool
unfolding item_equal
entry_equal k l = k.type == l.type && item_equal k.content l.content

ref_eq_iff : (r q : Ref) → (ref_eq r q ≡ true) ↔ (r ≡ q)
ref_eq_iff none none = ground arith
ref_eq_iff none (some j) = ground arith
ref_eq_iff (some i) none = ground arith
ref_eq_iff (some i) (some j) = ground arith

typeitem_equal_iff : (a b : TypeItem) → (typeitem_equal a b ≡ true) ↔ (a ≡ b)
unfolding typeitem_equal
typeitem_equal_iff (TypeItem.primitive c) (TypeItem.primitive d) = ground arith
typeitem_equal_iff (TypeItem.klass p n) (TypeItem.klass q m) =
    ground (arith, ref_eq_iff p q, ref_eq_iff n m)
typeitem_equal_iff (TypeItem.proto r) (TypeItem.proto q) = ground (arith, ref_eq_iff r q)
typeitem_equal_iff (TypeItem.array n r) (TypeItem.array m q) = ground (arith, ref_eq_iff r q)
typeitem_equal_iff (TypeItem.varg r) (TypeItem.varg q) = ground (arith, ref_eq_iff r q)
typeitem_equal_iff a b = ground arith

typelistitem_equal_iff : (rs qs : List Ref) → (typelistitem_equal rs qs ≡ true) ↔ (rs ≡ qs)
unfolding typelistitem_equal
typelistitem_equal_iff [] [] = ground arith
typelistitem_equal_iff [] (q ∷ qs) = ground arith
typelistitem_equal_iff (r ∷ rs) [] = ground arith
typelistitem_equal_iff (r ∷ rs) (q ∷ qs) =
    let ih = typelistitem_equal_iff rs qs in let h = ref_eq_iff r q in ground arith

constitem_equal_iff : (c d : ConstItem) → (constitem_equal c d ≡ true) ↔ (c ≡ d)
unfolding constitem_equal
constitem_equal_iff (ConstItem.int (pos m)) (ConstItem.int (pos n)) = ground arith
constitem_equal_iff c d = ground arith

is_same_iff : (d e : Item) → (is_same d e ≡ true) ↔ (d ≡ e)
unfolding is_same
is_same_iff d e =
    elim (Item-discrete d e)
      as (λ x. (elim x as (λ _. Bool) [ yes p ↦ true | no p ↦ false ] ≡ true) ↔ (d ≡ e)) [
        | yes p ↦ (λ _. p, λ _. refl)
        | no p ↦ (λ h. absurd (ground arith), λ h. absurd (p h))
      ]

item_equal_iff : (d e : Item) → (item_equal d e ≡ true) ↔ (d ≡ e)
unfolding item_equal
item_equal_iff (Item.string s) (Item.string t) = ground (arith, bytes_eq_iff s t)
item_equal_iff (Item.type s) (Item.type t) = ground (arith, typeitem_equal_iff s t)
item_equal_iff (Item.typelist rs) (Item.typelist qs) = ground (arith, typelistitem_equal_iff rs qs)
item_equal_iff (Item.proto r p) (Item.proto q o) = ground (arith, ref_eq_iff r q, ref_eq_iff p o)
item_equal_iff (Item.const c) (Item.const d) = ground (arith, constitem_equal_iff c d)
item_equal_iff d e = is_same_iff d e

-- Two entries are equal for the table exactly if they have the type and the item in common.
pub entry_equal_iff :
    (k l : AtomEntry Item)
    → (entry_equal k l ≡ true) ↔ ((k.type ≡ l.type) × (k.content ≡ l.content))
unfolding entry_equal
entry_equal_iff k l =
    let h = item_equal_iff k.content l.content in
    (λ e. (ground arith, h.0 (ground arith)), λ e. ground (arith, h.1 e.1))

-- The functions that `KImage_New` gives to the table.
instance abbrev pub entry_key : HashKey (AtomEntry Item)
entry_key = record {
  hash = λ k. item_hash k.content;
  equal = entry_equal;
  compatible = λ k l e. ap item_hash ((entry_equal_iff k l).0 e).1;
  transitive = λ k l m d e.
      let a = (entry_equal_iff k l).0 d in
      let b = (entry_equal_iff l m).0 e in (entry_equal_iff k m).1 (a.0 ∙ b.0, a.1 ∙ b.1);
  symmetric =
      λ k l e. let a = (entry_equal_iff k l).0 e in (entry_equal_iff l k).1 (sym a.0, sym a.1);
  reflexive = λ k. (entry_equal_iff k k).1 (refl, refl);
}
