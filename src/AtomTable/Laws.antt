-- ===== src/AtomTable/Laws.antt =====
-- The two views of the table, its vectors and its hash table, agree: an item that is found has the index
-- at which it stands in its vector.
use koala_lang_pre.Prelude.{
  ◌==◌, if◌then◌else◌, Bool-cases, Option-cases, if_ind, length, get_elem?, length-append,
  get_or-set, ℕ, zero, suc, ◌+◌, ◌≤◌, ◌<◌, ◌≡◌, refl, sym, ap, ap₂, ◌∙◌, subst, ◌≢◌, ◌↔◌, ◌⊎◌, inl,
  inr, true, false, some, List, [], ◌∷◌, ◌++◌, arith,
}
use koala_lang_pre.HashTable.{HashKey, find}
use koala_lang_pre.HashTable.Find
use koala_lang_pre.HashTable.Find.{find_iff}
use koala_lang_pre.AtomTable.{AtomEntry, AtomTable, entry_new, vector, get, size, push, index}

module _ {A : Type 0} where
  pub get_elem?-append :
      (xs ys : List A) (i : ℕ) {x : A} → get_elem? xs i ≡ some x → get_elem? (xs ++ ys) i ≡ some x
  get_elem?-append [] ys i h = cc
  get_elem?-append (y ∷ xs) ys zero h = h
  get_elem?-append (y ∷ xs) ys (suc i) h = get_elem?-append xs ys i h

  get_elem?-snoc : (xs : List A) (x : A) → get_elem? (xs ++ x ∷ []) (length xs) ≡ some x
  get_elem?-snoc [] x = refl
  get_elem?-snoc (y ∷ xs) x = get_elem?-snoc xs x

  get_elem?-lt : (xs : List A) (i : ℕ) {x : A} → get_elem? xs i ≡ some x → i < length xs
  get_elem?-lt [] i h = cc
  get_elem?-lt (y ∷ xs) zero h = omega arith
  get_elem?-lt (y ∷ xs) (suc i) h = omega (arith, get_elem?-lt xs i h)

  get_elem?-some : (xs : List A) (i : ℕ) → i < length xs → (x : A) × (get_elem? xs i ≡ some x)
  get_elem?-some [] i h = absurd (omega arith)
  get_elem?-some (y ∷ xs) zero h = (y, refl)
  get_elem?-some (y ∷ xs) (suc i) h = get_elem?-some xs i (omega arith)

  get_elem?-snoc_back :
      (xs : List A) (y : A) (i : ℕ) {x : A}
      → get_elem? (xs ++ y ∷ []) i ≡ some x
      → (get_elem? xs i ≡ some x) ⊎ ((i ≡ length xs) × (y ≡ x))
  get_elem?-snoc_back [] y zero h = inr (refl, cc)
  get_elem?-snoc_back [] y (suc i) h = cc
  get_elem?-snoc_back (z ∷ xs) y zero h = inl h
  get_elem?-snoc_back (z ∷ xs) y (suc i) h = elim (get_elem?-snoc_back xs y i h) [
    | inl e ↦ inl e
    | inr (e, f) ↦ inr (ap suc e, f)
  ]

module _ {D : Type 0} where
  pub vector-push :
      (t : AtomTable D) (type : ℕ) (d : D) (type' : ℕ)
      → type < length t.items
      → vector (push t type d) type'
        ≡ (if type == type' then vector t type ++ d ∷ [] else vector t type')
  unfolding vector push
  vector-push t type d type' h = get_or-set [] t.items type type' _ h

  pub get-push :
      (t : AtomTable D) (type : ℕ) (d : D) (type' i : ℕ) {x : D}
      → type < length t.items
      → get t type' i ≡ some x
      → get (push t type d) type' i ≡ some x
  unfolding get
  get-push t type d type' i {x} h e = rw (vector-push t type d type' h) (
      if_ind (λ v. get_elem? v i ≡ some x) (type == type')
        (λ same.
          let eq : type' ≡ type = ground arith in
          get_elem?-append (vector t type) (d ∷ []) i
            (ap (λ (n : ℕ). get_elem? (vector t n) i) (sym eq) ∙ e))
        (λ _. e))

  pub get-push_new :
      (t : AtomTable D) (type : ℕ) (d : D)
      → type < length t.items
      → get (push t type d) type (size t type) ≡ some d
  unfolding get size
  get-push_new t type d h =
      let same : (type == type) ≡ true = ground arith in
      rw (vector-push t type d type h, same) (get_elem?-snoc (vector t type) d)

  pub size-push :
      (t : AtomTable D) (type : ℕ) (d : D)
      → type < length t.items
      → size (push t type d) type ≡ size t type + 1
  unfolding size
  size-push t type d h =
      let same : (type == type) ≡ true = ground arith in
      rw (vector-push t type d type h, same) (length-append (vector t type) (d ∷ []))

  -- What stands in a table after a push stood there before, or is what was pushed.
  pub get-push_back :
      (t : AtomTable D) (type : ℕ) (d : D) (type' i : ℕ) {x : D}
      → type < length t.items
      → get (push t type d) type' i ≡ some x
      → (get t type' i ≡ some x) ⊎ ((type ≡ type') × (i ≡ size t type) × (d ≡ x))
  unfolding get size
  get-push_back t type d type' i {x} h e = elim (Bool-cases (type == type')) [
    | inl same ↦
        let eq : type ≡ type' = ground arith in
        let e' : get_elem? (vector t type ++ d ∷ []) i ≡ some x =
          ap (λ v. get_elem? v i) (sym (vector-push t type d type' h ∙ rw same refl)) ∙ e in
        elim (get_elem?-snoc_back (vector t type) d i e') [
          | inl old ↦ inl (ap (λ (n : ℕ). get_elem? (vector t n) i) (sym eq) ∙ old)
          | inr (at, it) ↦ inr (eq, at, it)
        ]
    | inr differ ↦
        inl (ap (λ v. get_elem? v i) (sym (vector-push t type d type' h ∙ rw differ refl)) ∙ e)
  ]

  pub get-lt : (t : AtomTable D) (type i : ℕ) {x : D} → get t type i ≡ some x → i < size t type
  unfolding get size
  get-lt t type i h = get_elem?-lt (vector t type) i h

  pub get-some :
      (t : AtomTable D) (type i : ℕ) → i < size t type → (x : D) × (get t type i ≡ some x)
  unfolding get size
  get-some t type i h = get_elem?-some (vector t type) i h

  pub size-push_other :
      (t : AtomTable D) (type : ℕ) (d : D) (type' : ℕ)
      → type < length t.items
      → type ≢ type'
      → size (push t type d) type' ≡ size t type'
  unfolding size
  size-push_other t type d type' h ne =
      let differ : (type == type') ≡ false = ground arith in
      ap length (vector-push t type d type' h ∙ rw differ refl)

  pub size-push_le :
      (t : AtomTable D) (type : ℕ) (d : D) (type' : ℕ)
      → type < length t.items
      → size t type' ≤ size (push t type d) type'
  size-push_le t type d type' h = elim (Bool-cases (type == type')) [
    | inl same ↦
        let eq : type ≡ type' = ground arith in
        subst (λ (n : ℕ). size t n ≤ size (push t type d) n) eq
          (omega (arith, size-push t type d h))
    | inr differ ↦ omega (arith, size-push_other t type d type' h (ground arith))
  ]

module _ {D : Type 0} ⦃hk : HashKey (AtomEntry D)⦄
    (same : (k l : AtomEntry D)
      → (hk.equal k l ≡ true) ↔ ((k.type ≡ l.type) × (k.content ≡ l.content))) where
  -- The hash table is valid, its entries are below the addresses to come, and each holds the item that
  -- stands at its index in the vector of its type.
  pub record IsValid (t : AtomTable D) : Type 0 where
    pub table_valid : Find.IsValid t.table t.heap
    pub below : (a : ℕ) → (t.heap a).hashed ≡ true → a < t.next
    pub indexed :
        (a : ℕ)
        → (t.heap a).hashed ≡ true
        → get t (t.heap a).key.type (t.heap a).key.index ≡ some (t.heap a).key.content

  -- What it is that `AtomTable_Index` finds.
  pub record Entered (t : AtomTable D) (type : ℕ) (d : D) (i : ℕ) : Type 0 where
    pub place : ℕ
    pub on : (t.heap place).hashed ≡ true
    pub has_type : (t.heap place).key.type ≡ type
    pub has_content : (t.heap place).key.content ≡ d
    pub has_index : (t.heap place).key.index ≡ i

  pub index-Entered :
      (t : AtomTable D) (type : ℕ) (d : D) (i : ℕ)
      → IsValid t
      → index t type d ≡ some i
      → Entered t type d i
  unfolding index
  index-Entered t type d i v h = elim (Option-cases (find t.table t.heap (entry_new type 0 d))) [
    | inl e ↦ absurd (ground arith)
    | inr (a, e) ↦
        let (on, equal) = (find_iff t.table t.heap (entry_new type 0 d) a v.table_valid).0 e in
        let (ty, content) = (same (t.heap a).key (entry_new type 0 d)).0 equal in
        record {
          place = a;
          on = on;
          has_type = ty;
          has_content = content;
          has_index = ground arith;
        }
  ]

  pub Entered-index :
      (t : AtomTable D) (type : ℕ) (d : D) (i : ℕ)
      → IsValid t
      → Entered t type d i
      → index t type d ≡ some i
  unfolding index
  Entered-index t type d i v r =
      let equal = (same (t.heap r.place).key (entry_new type 0 d)).1 (r.has_type, r.has_content) in
      let e =
        (find_iff t.table t.heap (entry_new type 0 d) r.place v.table_valid).1 (r.on, equal) in
      rw (index, e) (ap (λ (n : ℕ). some n) r.has_index)

  -- An item that is found stands at its index.
  pub get-index :
      (t : AtomTable D) (type : ℕ) (d : D) (i : ℕ)
      → IsValid t
      → index t type d ≡ some i
      → get t type i ≡ some d
  get-index t type d i v h =
      let r = index-Entered t type d i v h in
      ap₂ (get t) (sym r.has_type) (sym r.has_index)
      ∙ v.indexed r.place r.on
      ∙ ap (λ (x : D). some x) r.has_content

  pub push-IsValid :
      (t : AtomTable D) (type : ℕ) (d : D)
      → type < length t.items
      → IsValid t
      → IsValid (push t type d)
  unfolding push
  push-IsValid t type d h v = record {
    table_valid = v.table_valid;
    below = v.below;
    indexed = λ a on. get-push t type d _ _ h (v.indexed a on);
  }
