-- ===== src/Vector/Methods.antt =====
-- What each operation of the vector does to the list of pointers that it holds.
use koala_lang_pre.Prelude.{
  ltb, ◌==◌, if◌then◌else◌, Bool-cases, Option-cases, length, get_or, set as set_cell, take, drop,
  length-append, get_or-set, get_or-snoc, get_or-past, get_or-take, drop-step, drop_all, eq_nil, ℤ,
  pos, negsuc, ℕ, zero, suc, ◌+◌, ◌*◌, ◌≤◌, ◌<◌, ◌≡◌, refl, sym, ap, ◌∙◌, ◌⊎◌, inl, inr, Bool, true,
  false, Option, none, some, List, [], ◌∷◌, ◌++◌, append_assoc, append-nil, arith,
}
use mathlib.Core.Path.{ap₂}
use koala_lang_pre.Vector.{
  Vector, cells, init, expand, store, set_at, set, append, get, get_last, concat_from, concat,
  visit_from, fini,
}
use koala_lang_pre.Vector.Laws.{Models, expand-Models, store-Models, store-Models_end}

module _ {A : Type 0} where
  -- The list after a write at `i`, which is at most its length.
  abbrev pub written : List (Option A) → ℕ → Option A → List (Option A)
  written xs i x = if ltb i (length xs) then set_cell xs i x else xs ++ x ∷ []

  -- The bytes of the array that a full vector asks for: eight cells, or twice those that it has.
  abbrev pub wanted : Vector A → ℕ
  wanted v = (if v.capacity == 0 then 8 else 2 * v.capacity) * 8

  -- A failed call leaves the vector alone, and it is an index past the end or a refused request of a full
  -- vector that makes it fail; a call succeeds within the bounds only.
  pub record Sets (malloc : ℕ → Bool) (v : Vector A) (xs : List (Option A)) (i : ℕ) (x : Option A)
      (r : Vector A × Bool) : Type 0 where
    pub kept : r.1 ≡ false → r.0 ≡ v
    pub refused :
        r.1 ≡ false
        → (length xs < i)
          ⊎ ((i ≡ length xs) × (v.capacity ≡ length xs) × (malloc (wanted v) ≡ false))
    pub bounded : r.1 ≡ true → i ≤ length xs
    pub done : r.1 ≡ true → Models r.0 (written xs i x)

  store-written :
      (v w : Vector A) {xs : List (Option A)} (i : ℕ) (x : Option A)
      → Models v xs
      → Models w xs
      → i ≤ v.size
      → i + 1 ≤ w.capacity
      → w.size ≡ v.size
      → Models (store w i x) (written xs i x)
  store-written v w {xs} i x m n h room same = elim (Bool-cases (ltb i (length xs))) [
    | inl t ↦ rw t (store-Models w i x n (ground arith))
    | inr f ↦ let e : i ≡ w.size = ground arith in rw (f, e) (store-Models_end w x n (omega arith))
  ]

  -- Only a full vector asks for more, and only for its end.
  expand-refused :
      (malloc : ℕ → Bool) (v : Vector A) {xs : List (Option A)} (i : ℕ)
      → Models v xs
      → i ≤ v.size
      → expand malloc v (i + 1) ≡ none
      → (i ≡ length xs) × (v.capacity ≡ length xs) × (malloc (wanted v) ≡ false)
  unfolding expand
  expand-refused malloc v {xs} i m h e =
      let twice : v.capacity * 2 ≡ 2 * v.capacity = omega arith in
      let asked : malloc (wanted v) ≡ false =
        ground (arith, ap (λ (n : ℕ). malloc (n * 8)) twice) in
      let full : v.capacity < i + 1 = ground arith in
      (omega (arith, m.sized, m.fits), omega (arith, m.sized, m.fits), asked)

  set_at-Sets :
      (malloc : ℕ → Bool) (v : Vector A) {xs : List (Option A)} (i : ℕ) (x : Option A)
      → Models v xs
      → Sets malloc v xs i x (set_at malloc v i x)
  unfolding set_at
  set_at-Sets malloc v {xs} i x m = elim (Bool-cases (ltb v.size i)) [
    | inl t ↦
        let past : length xs < i = ground (arith, m.sized) in
        rw t
          (record { kept = λ _. refl; refused = λ _. inl past; bounded = λ p. cc; done = λ p. cc })
    | inr f ↦ rw f (elim (Option-cases (expand malloc v (i + 1))) [
      | inl e ↦
          let full = expand-refused malloc v i m (ground arith) e in
          rw e (record {
            kept = λ _. refl;
            refused = λ _. inr full;
            bounded = λ p. cc;
            done = λ p. cc;
          })
      | inr (w, e) ↦
          let (n, room, same) = expand-Models malloc v w (i + 1) m (ground arith) e in
          rw e (record {
            kept = λ p. cc;
            refused = λ p. cc;
            bounded = λ _. ground arith;
            done = λ _. store-written v w i x m n (ground arith) room same;
          })
    ])
  ]

  set_at_granted :
      (malloc : ℕ → Bool) (v : Vector A) (i : ℕ) (x : Option A)
      → ((n : ℕ) → malloc n ≡ true)
      → i ≤ v.size
      → (set_at malloc v i x).1 ≡ true
  unfolding set_at expand
  set_at_granted malloc v i x g h = ground (arith, g 64, g (v.capacity * 2 * 8))

  -- The item at an index, NULL outside the list.
  abbrev pub item_at : List (Option A) → ℤ → Option A
  item_at xs (pos i) = get_or xs i none
  item_at xs (negsuc n) = none

  -- On a vector that holds the list, `get` returns the item at the index, and NULL outside the list.
  pub get-item_at :
      (v : Vector A) {xs : List (Option A)} (index : ℤ)
      → Models v xs
      → get v index ≡ item_at xs index
  unfolding get
  get-item_at v (negsuc n) m = refl
  get-item_at v {xs} (pos i) m = ground (
    arith,
    get_or-past {A = Option A} none xs i,
    get_or-take {A = Option A} none (cells v.items) v.size i,
    ap (λ (ys : List (Option A)). get_or ys i none) m.reads,
  )

  -- On a vector that holds the list, `set` at an index from zero on returns 0 or -1. If it returns -1, it
  -- changes nothing, and either the index is past the size, or it is the size, the array is full, and the
  -- request for an array of eight cells or of twice the cells is refused. If it returns 0, the index is at
  -- most the size, and the list has the item there, at its end if the index is the size.
  pub set-Sets :
      (malloc : ℕ → Bool) (v : Vector A) {xs : List (Option A)} (i : ℕ) (x : Option A)
      → Models v xs
      → Sets malloc v xs i x (set malloc v (pos i) x)
  unfolding set
  set-Sets = set_at-Sets

  -- With memory granted an append returns 0 and puts the item at the end of the list.
  pub append-Models :
      (malloc : ℕ → Bool) (v : Vector A) {xs : List (Option A)} (x : Option A)
      → ((n : ℕ) → malloc n ≡ true)
      → Models v xs
      → ((append malloc v x).1 ≡ true) × Models (append malloc v x).0 (xs ++ x ∷ [])
  unfolding append set
  append-Models malloc v {xs} x g m =
      let t = set_at_granted malloc v v.size x g (omega arith) in
      let s = set_at-Sets malloc v v.size x m in
      let test : ltb v.size (length xs) ≡ false = ground arith in (t, rw test at (s.done t))

  -- On a vector that holds a list, a read after a successful write gives the item written, and what was there elsewhere.
  pub get-set :
      (malloc : ℕ → Bool) (v : Vector A) {xs : List (Option A)} (i j : ℕ) (x : Option A)
      → Models v xs
      → (set malloc v (pos i) x).1 ≡ true
      → get (set malloc v (pos i) x).0 (pos j) ≡ (if i == j then x else get v (pos j))
  get-set malloc v {xs} i j x m t =
      let s = set-Sets malloc v i x m in
      rw (get-item_at (set malloc v (pos i) x).0 (pos j) (s.done t), get-item_at v (pos j) m)
        (ground (
          arith,
          get_or-set {A = Option A} none xs i j x,
          get_or-snoc {A = Option A} none xs j x,
          s.bounded t,
        ))

  -- On a vector whose list ends with an item, `get_last` returns that item.
  pub get_last-Models :
      (v : Vector A) (xs : List (Option A)) (x : Option A)
      → Models v (xs ++ x ∷ [])
      → get_last v ≡ x
  unfolding get_last
  get_last-Models v xs x m =
      let n = length-append {0} xs (x ∷ []) in
      ground (
        arith,
        m.sized,
        n,
        get-item_at v (pos (length xs)) m,
        get_or-snoc {A = Option A} none xs (length xs) x,
      )

  -- The loop over the indices runs through the items that the cells begin with.
  visit_from-drop :
      (n i : ℕ) (cs ys : List (Option A))
      → i + n ≡ length ys
      → take (length ys) cs ≡ ys
      → visit_from n i cs ≡ drop i ys
  unfolding visit_from
  visit_from-drop zero i cs ys h e = sym (drop_all ys i (omega arith))
  visit_from-drop (suc n) i cs ys h e =
      let here : get_or ys i none ≡ get_or cs i none =
        ap (λ zs. get_or zs i none) (sym e)
        ∙ get_or-take {A = Option A} none cs (length ys) i (omega arith) in
      let next : i + 1 ≡ suc i = omega arith in
      let rest : visit_from n (i + 1) cs ≡ drop (suc i) ys =
        rw next (visit_from-drop n (suc i) cs ys (omega arith) e) in
      ap₂ (λ a as'. a ∷ as') (sym here) rest
      ∙ sym (drop-step {A = Option A} none ys i (omega arith))

  concat_from-Models :
      (malloc : ℕ → Bool) (n i : ℕ) (dest : Vector A) {xs : List (Option A)} (src : List (Option A))
      → ((b : ℕ) → malloc b ≡ true)
      → Models dest xs
      → Models (concat_from malloc n i dest src) (xs ++ visit_from n i src)
  unfolding concat_from visit_from
  concat_from-Models malloc zero i dest {xs} src g m = rw (append-nil xs) m
  concat_from-Models malloc (suc n) i dest {xs} src g m =
      let step = append-Models malloc dest (get_or src i none) g m in
      rw append_assoc at (
        concat_from-Models malloc n (i + 1) (append malloc dest (get_or src i none)).0 src g step.1)

  all_items :
      (v : Vector A) {xs : List (Option A)} → Models v xs → visit_from v.size 0 (cells v.items) ≡ xs
  all_items v {xs} m =
      visit_from-drop v.size 0 (cells v.items) xs (omega (arith, m.sized)) (rw m.sized at m.reads)

  -- With memory granted, after `concat` the target holds its own list followed by the source's.
  pub concat-Models :
      (malloc : ℕ → Bool) (dest src : Vector A) {xs ys : List (Option A)}
      → ((n : ℕ) → malloc n ≡ true)
      → Models dest xs
      → Models src ys
      → Models (concat malloc dest (some src)) (xs ++ ys)
  unfolding concat
  concat-Models malloc dest src g m n =
      rw (all_items src n) at (concat_from-Models malloc src.size 0 dest (cells src.items) g m)

  -- `fini` calls the function on the items of the list once each, in order, and leaves an empty vector.
  fini-Models :
      (v : Vector A) {xs : List (Option A)} → Models v xs → Models (fini v).0 [] × ((fini v).1 ≡ xs)
  unfolding fini init
  fini-Models v {xs} m = ground (arith, all_items v m, eq_nil {0} xs)
