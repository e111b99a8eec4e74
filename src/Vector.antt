-- ===== src/Vector.antt =====
-- src/vector.c, include/vector.h: the growing array of pointers.
-- A pointer is an `Option A`, `none` for NULL; the array that `items` points to is the list of its
-- cells, all NULL when `calloc` hands it out. `malloc n` says whether a request for n bytes is
-- granted. A `void *` takes 8 bytes. The two vectors of a `concat` are different objects.
pub mod Laws
pub mod Methods
mod Tests
use koala_lang_pre.Prelude.{
  ltb, leb, ◌==◌, if◌then◌else◌, get_or, set as set_cell, take, replicate, ℤ, pos, negsuc, ℕ, zero,
  suc, ◌+◌, ◌-◌, ◌*◌, Bool, true, false, Option, none, some, List, [], ◌∷◌, ◌++◌,
}

pub record Vector (A : Type 0) : Type 0 where
  pub size : ℕ
  pub capacity : ℕ
  pub items : Option (List (Option A))

abbrev pub default_capacity : ℕ
default_capacity = 8

module _ {A : Type 0} where
  -- The cells behind `items`; NULL has none.
  abbrev pub cells : Option (List (Option A)) → List (Option A)
  cells none = []
  cells (some cs) = cs

  unfoldable pub init : Vector A
  init = record { size = 0; capacity = 0; items = none }

  unfoldable pub new : (ℕ → Bool) → Option (Vector A)
  new malloc = if malloc 16 then some init else none

  -- `memcpy` of the old cells into the new array, if there is an old one.
  unfoldable pub copy_items : ℕ → ℕ → Option (List (Option A)) → List (Option A)
  copy_items size new_allocated none = replicate new_allocated none
  copy_items size new_allocated (some cs) = take size cs ++ replicate (new_allocated - size) none

  unfoldable pub expand : (ℕ → Bool) → Vector A → ℕ → Option (Vector A)
  expand malloc v newsize =
      if leb newsize v.capacity
      then some v
      else let new_allocated = if v.capacity == 0 then default_capacity else v.capacity * 2 in
        if malloc (new_allocated * 8)
        then some (record v {
          capacity = new_allocated;
          items = some (copy_items v.size new_allocated v.items);
        })
        else none

  -- The write after a successful `expand`.
  unfoldable pub store : Vector A → ℕ → Option A → Vector A
  store v index item = record v {
    size = if ltb index v.size then v.size else index + 1;
    items = some (set_cell (cells v.items) index item);
  }

  unfoldable pub set_at : (ℕ → Bool) → Vector A → ℕ → Option A → Vector A × Bool
  set_at malloc v index item =
      if ltb v.size index then (v, false) else elim (expand malloc v (index + 1)) [
        | none ↦ (v, false)
        | some v' ↦ (store v' index item, true)
      ]

  -- The flag is `true` where the code returns 0, and `false` where it returns -1.
  unfoldable pub set : (ℕ → Bool) → Vector A → ℤ → Option A → Vector A × Bool
  set malloc v (pos index) item = set_at malloc v index item
  set malloc v (negsuc n) item = (v, false)

  unfoldable pub append : (ℕ → Bool) → Vector A → Option A → Vector A × Bool
  append malloc v item = set malloc v (pos v.size) item

  unfoldable pub get : Vector A → ℤ → Option A
  get v (negsuc n) = none
  get v (pos index) = elim v.items [
    | none ↦ none
    | some cs ↦ if ltb index v.size then get_or cs index none else none
  ]

  -- `Vector_Size(vec) - 1` is -1 for an empty vector.
  unfoldable pub get_last : Vector A → Option A
  get_last v = get v (elim v.size [ zero ↦ negsuc 0 | suc n ↦ pos n ])

  -- `Vector_ForEach` over the cells from `i` on, `n` of them left.
  unfoldable pub concat_from : (ℕ → Bool) → ℕ → ℕ → Vector A → List (Option A) → Vector A
  concat_from malloc zero i dest src = dest
  concat_from malloc (suc n) i dest src =
      concat_from malloc n (i + 1) (append malloc dest (get_or src i none)).0 src

  unfoldable pub concat : (ℕ → Bool) → Vector A → Option (Vector A) → Vector A
  concat malloc dest none = dest
  concat malloc dest (some src) = concat_from malloc src.size 0 dest (cells src.items)

  -- The items from `i` on, `n` of them left, in the order in which `fini` is called on them.
  unfoldable pub visit_from : ℕ → ℕ → List (Option A) → List (Option A)
  visit_from zero i cs = []
  visit_from (suc n) i cs = get_or cs i none ∷ visit_from n (i + 1) cs

  -- The vector that is left, and the calls of `fini`.
  unfoldable pub fini : Vector A → Vector A × List (Option A)
  fini v = elim v.items [ none ↦ (v, []) | some cs ↦ (init, visit_from v.size 0 cs) ]
