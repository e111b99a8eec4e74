-- ===== src/Vector/Laws.antt =====
-- The vector refines a list of pointers.
use koala_lang_pre.Prelude.{
  ltb, lt→ltb, length, set as set_cell, take, replicate, length-append, length-set,
  length-replicate, take-append, take-set-suc, take-set, ℕ, zero, suc, ◌+◌, ◌-◌, ◌*◌, ◌≤◌, ◌<◌, ◌≡◌,
  refl, sym, ap, ◌∙◌, Bool, false, Option, none, some, List, [], ◌∷◌, ◌++◌, arith,
}
use koala_lang_pre.Vector.{Vector, cells, init, copy_items, expand, store}

module _ {A : Type 0} where
  -- `v` is laid out as a vector and holds the items `xs`.
  pub record Models (v : Vector A) (xs : List (Option A)) : Type 0 where
    pub sized : v.size ≡ length xs
    pub room : length (cells v.items) ≡ v.capacity
    pub fits : v.size ≤ v.capacity
    pub reads : take v.size (cells v.items) ≡ xs

  pub init-Models : Models init []
  unfolding init
  init-Models = record { sized = refl; room = refl; fits = omega arith; reads = refl }

  copy_items-cells :
      (items : Option (List (Option A))) (size n : ℕ) {xs : List (Option A)}
      → size ≡ length xs
      → take size (cells items) ≡ xs
      → copy_items size n items ≡ xs ++ replicate (n - size) none
  unfolding copy_items
  copy_items-cells none zero n h e = let same : n - 0 ≡ n = omega arith in rw (← e, same)
  copy_items-cells none (suc size) n h e = absurd (omega (arith, ap length e))
  copy_items-cells (some cs) size n h e = rw (← e)

  -- A larger array with the old items in front.
  grow : Vector A → ℕ → Vector A
  grow v n = record v { capacity = n; items = some (copy_items v.size n v.items) }

  grow-Models :
      (v : Vector A) {xs : List (Option A)} (n : ℕ)
      → Models v xs
      → v.size ≤ n
      → Models (grow v n) xs
  unfolding grow
  grow-Models v {xs} n m h =
      let e = copy_items-cells v.items v.size n m.sized m.reads in
      record {
        sized = m.sized;
        room =
            ap length e
            ∙ length-append xs _
            ∙ omega (arith, length-replicate {A = Option A} (n - v.size) none);
        fits = h;
        reads = ap (take v.size) e ∙ take-append xs _ v.size m.sized;
      }

  -- Growing changes the room only, and gives enough of it.
  pub expand-Models :
      (malloc : ℕ → Bool) (v w : Vector A) {xs : List (Option A)} (n : ℕ)
      → Models v xs
      → n ≤ v.size + 1
      → expand malloc v n ≡ some w
      → Models w xs × (n ≤ w.capacity) × (w.size ≡ v.size)
  unfolding expand grow
  expand-Models malloc v w n m h e =
      ground (arith, grow-Models v 8 m, grow-Models v (v.capacity * 2) m)

  -- Writing within the size replaces the item, and writing at the size appends it.
  pub store-Models :
      (v : Vector A) {xs : List (Option A)} (i : ℕ) (x : Option A)
      → Models v xs
      → i < v.size
      → Models (store v i x) (set_cell xs i x)
  unfolding store
  store-Models v {xs} i x m h = rw (lt→ltb i v.size h) (record {
    sized = m.sized ∙ sym (length-set xs i x);
    room = length-set (cells v.items) i x ∙ m.room;
    fits = m.fits;
    reads = take-set (cells v.items) v.size i x h ∙ ap (λ ys. set_cell ys i x) m.reads;
  })

  pub store-Models_end :
      (v : Vector A) {xs : List (Option A)} (x : Option A)
      → Models v xs
      → v.size < v.capacity
      → Models (store v v.size x) (xs ++ x ∷ [])
  unfolding store
  store-Models_end v {xs} x m h =
      let test : ltb v.size v.size ≡ false = ground arith in
      let next : v.size + 1 ≡ suc v.size = omega arith in
      rw (test, next)
        (record {
          sized = omega (arith, m.sized, length-append xs (x ∷ []));
          room = length-set (cells v.items) v.size x ∙ m.room;
          fits = h;
          reads =
              take-set-suc (cells v.items) v.size x (omega (arith, m.room))
              ∙ ap (λ ys. ys ++ x ∷ []) m.reads;
        })
