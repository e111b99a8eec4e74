-- ===== src/Image/Ready.antt =====
-- The invariant of an image's table: what an item refers to stands in the table, a type's parts before it,
-- and a unique item is found where it stands.
use koala_lang_pre.Prelude.{length, ℕ, ◌≤◌, ◌<◌, ◌≡◌, none, some, List, [], ◌∷◌, arith}
use koala_lang_pre.AtomTable.{get, size, index}
use koala_lang_pre.AtomTable.Laws.{IsValid}
use koala_lang_pre.Image.Items.{Ref, TypeItem, ConstItem, Item}
use koala_lang_pre.Image.Key.{entry_key, entry_equal_iff}
use koala_lang_pre.Image.{
  Table, item_string, item_type, item_typelist, item_proto, item_code, item_max, item_const,
}

abbrev pub Below : ℕ → Ref → Type 0
Below n none = ⊥
Below n (some i) = i < n

abbrev pub BelowOrNull : ℕ → Ref → Type 0
BelowOrNull n none = Unit {0}
BelowOrNull n (some i) = i < n

abbrev pub AllBelow : ℕ → List Ref → Type 0
AllBelow n [] = Unit {0}
AllBelow n (r ∷ rs) = Below n r × AllBelow n rs

-- What an item at the index `i` refers to, in tables of the sizes that `n` gives.
abbrev pub Refers : (ℕ → ℕ) → ℕ → Item → Type 0
Refers n i (Item.type (TypeItem.klass p q)) =
    BelowOrNull (n item_string) p × Below (n item_string) q
Refers n i (Item.type (TypeItem.proto r)) = Below (n item_proto) r
Refers n i (Item.type (TypeItem.array dims r)) = Below i r
Refers n i (Item.type (TypeItem.varg r)) = Below i r
Refers n i (Item.typelist rs) = AllBelow (n item_type) rs
Refers n i (Item.proto r p) = BelowOrNull (n item_typelist) r × BelowOrNull (n item_typelist) p
Refers n i (Item.const (ConstItem.string s)) = s < n item_string
Refers n i (Item.locvar name type place owner) =
    Below (n item_string) name × Below (n item_type) type
Refers n i (Item.var name type konst) = Below (n item_string) name × Below (n item_type) type
Refers n i (Item.func name proto code) =
    Below (n item_string) name × Below (n item_proto) proto × Below (n item_code) code
Refers n i (Item.class c super) = Below (n item_type) c × BelowOrNull (n item_typelist) super
Refers n i (Item.field c name type) =
    Below (n item_type) c × Below (n item_string) name × Below (n item_type) type
Refers n i (Item.method c name proto code) =
    Below (n item_type) c
    × Below (n item_string) name
    × Below (n item_proto) proto
    × Below (n item_code) code
Refers n i (Item.trait c traits) = Below (n item_type) c × BelowOrNull (n item_typelist) traits
Refers n i (Item.nfunc c name proto) =
    BelowOrNull (n item_type) c × Below (n item_string) name × Below (n item_proto) proto
Refers n i (Item.imeth c name proto) =
    Below (n item_type) c × Below (n item_string) name × Below (n item_proto) proto
Refers n i d = Unit {0}

pub record IsReady (t : Table) : Type 0 where
  pub valid : IsValid entry_equal_iff t
  pub wide : length t.items ≡ item_max
  pub refers : (type i : ℕ) (d : Item) → get t type i ≡ some d → Refers (size t) i d
  pub entered :
      (type i : ℕ) (d : Item)
      → 0 < type
      → type ≤ item_const
      → get t type i ≡ some d
      → index t type d ≡ some i

-- The table `t'` has what `t` has, and more behind it.
pub record Grows (t t' : Table) : Type 0 where
  pub gets : (type i : ℕ) (d : Item) → get t type i ≡ some d → get t' type i ≡ some d
  pub finds : (type i : ℕ) (d : Item) → index t type d ≡ some i → index t' type d ≡ some i
  pub sizes : (type : ℕ) → size t type ≤ size t' type
  pub back :
      (type i : ℕ) (d : Item) → index t' type d ≡ some i → i < size t type → index t type d ≡ some i

pub Grows-refl : (t : Table) → Grows t t
Grows-refl t = record {
  gets = λ type i d h. h;
  finds = λ type i d h. h;
  sizes = λ type. omega arith;
  back = λ type i d h lt. h;
}

pub Grows-trans : (t u v : Table) → Grows t u → Grows u v → Grows t v
Grows-trans t u v g h = record {
  gets = λ type i d e. h.gets type i d (g.gets type i d e);
  finds = λ type i d e. h.finds type i d (g.finds type i d e);
  sizes = λ type. omega (arith, g.sizes type, h.sizes type);
  back = λ type i d e lt. g.back type i d (h.back type i d e (omega (arith, g.sizes type))) lt;
}

Below-mono : (m n : ℕ) (r : Ref) → m ≤ n → Below m r → Below n r
Below-mono m n none le b = b
Below-mono m n (some i) le b = omega arith

pub BelowOrNull-mono : (m n : ℕ) (r : Ref) → m ≤ n → BelowOrNull m r → BelowOrNull n r
BelowOrNull-mono m n none le b = tt
BelowOrNull-mono m n (some i) le b = omega arith

pub AllBelow-mono : (m n : ℕ) (rs : List Ref) → m ≤ n → AllBelow m rs → AllBelow n rs
AllBelow-mono m n [] le b = tt
AllBelow-mono m n (r ∷ rs) le (b, bs) = (Below-mono m n r le b, AllBelow-mono m n rs le bs)

pub Refers-mono :
    (m n : ℕ → ℕ) (i : ℕ) (d : Item) → ((type : ℕ) → m type ≤ n type) → Refers m i d → Refers n i d
Refers-mono m n i (Item.type (TypeItem.primitive c)) le h = tt
Refers-mono m n i (Item.type (TypeItem.klass p q)) le h =
    (BelowOrNull-mono _ _ p (le item_string) h.0, Below-mono _ _ q (le item_string) h.1)
Refers-mono m n i (Item.type (TypeItem.proto r)) le h = Below-mono _ _ r (le item_proto) h
Refers-mono m n i (Item.type (TypeItem.array dims r)) le h = h
Refers-mono m n i (Item.type (TypeItem.varg r)) le h = h
Refers-mono m n i (Item.typelist rs) le h = AllBelow-mono _ _ rs (le item_type) h
Refers-mono m n i (Item.proto r p) le h =
    (BelowOrNull-mono _ _ r (le item_typelist) h.0, BelowOrNull-mono _ _ p (le item_typelist) h.1)
Refers-mono m n i (Item.const (ConstItem.string s)) le h = omega (arith, h, le item_string)
Refers-mono m n i (Item.locvar a b place owner) le h =
    (Below-mono _ _ a (le item_string) h.0, Below-mono _ _ b (le item_type) h.1)
Refers-mono m n i (Item.var a b konst) le h =
    (Below-mono _ _ a (le item_string) h.0, Below-mono _ _ b (le item_type) h.1)
Refers-mono m n i (Item.func a b c) le h = (
  Below-mono _ _ a (le item_string) h.0,
  Below-mono _ _ b (le item_proto) h.1,
  Below-mono _ _ c (le item_code) h.2,
)
Refers-mono m n i (Item.class a b) le h =
    (Below-mono _ _ a (le item_type) h.0, BelowOrNull-mono _ _ b (le item_typelist) h.1)
Refers-mono m n i (Item.field a b c) le h = (
  Below-mono _ _ a (le item_type) h.0,
  Below-mono _ _ b (le item_string) h.1,
  Below-mono _ _ c (le item_type) h.2,
)
Refers-mono m n i (Item.method a b c d) le h = (
  Below-mono _ _ a (le item_type) h.0,
  Below-mono _ _ b (le item_string) h.1,
  Below-mono _ _ c (le item_proto) h.2,
  Below-mono _ _ d (le item_code) h.3,
)
Refers-mono m n i (Item.trait a b) le h =
    (Below-mono _ _ a (le item_type) h.0, BelowOrNull-mono _ _ b (le item_typelist) h.1)
Refers-mono m n i (Item.nfunc a b c) le h = (
  BelowOrNull-mono _ _ a (le item_type) h.0,
  Below-mono _ _ b (le item_string) h.1,
  Below-mono _ _ c (le item_proto) h.2,
)
Refers-mono m n i (Item.imeth a b c) le h = (
  Below-mono _ _ a (le item_type) h.0,
  Below-mono _ _ b (le item_string) h.1,
  Below-mono _ _ c (le item_proto) h.2,
)
Refers-mono m n i d le h = tt
