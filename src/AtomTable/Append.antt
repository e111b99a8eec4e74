-- ===== src/AtomTable/Append.antt =====
-- `AtomTable_Append`: what is found and what stands where after an item is appended.
use koala_lang_pre.Prelude.{
  leb, ◌==◌, Bool-cases, Option-cases, length, replicate, length-replicate, get_or-replicate, ℕ,
  ◌+◌, ◌-◌, ◌<◌, ◌≡◌, refl, sym, ap, ◌∙◌, subst, ◌≢◌, ◌↔◌, ◌⊎◌, inl, inr, Bool, true, false, none,
  some, List, [], arith,
}
use koala_lang_pre.HashTable.{HashKey, Heap, HashTable, find, update, insert}
use koala_lang_pre.HashTable.Find.{find_iff}
use koala_lang_pre.HashTable.Methods.{init-IsValid}
use koala_lang_pre.HashTable.Fresh.{Gains, insert-Gains, new_node}
use koala_lang_pre.AtomTable.{
  AtomEntry, AtomTable, entry_new, new, vector, get, size, push, push_entry, append, index,
}
use koala_lang_pre.AtomTable.Laws.{
  get-push, get-push_new, size-push, IsValid, Entered, index-Entered, Entered-index,
}

module _ {D : Type 0} ⦃hk : HashKey (AtomEntry D)⦄
    (same : (k l : AtomEntry D)
      → (hk.equal k l ≡ true) ↔ ((k.type ≡ l.type) × (k.content ≡ l.content))) where
  -- The table `t'` is `t` with the unique item `d` appended.
  pub record Appends (t : AtomTable D) (type : ℕ) (d : D) (t' : AtomTable D) : Type 0 where
    pub valid : IsValid same t'
    pub pushed : t'.items ≡ (push t type d).items
    pub found_new : index t' type d ≡ some (size t type)
    pub found_old : (type' i : ℕ) (d' : D) → index t type' d' ≡ some i → index t' type' d' ≡ some i
    pub found_back :
        (type' i : ℕ) (d' : D)
        → index t' type' d' ≡ some i
        → (index t type' d' ≡ some i) ⊎ ((type ≡ type') × (d ≡ d') × (i ≡ size t type))

  -- The table with the entry of the item that was pushed.
  abbrev with_entry : AtomTable D → HashTable × Heap (AtomEntry D) × Bool → AtomTable D
  with_entry t r = record t { table = r.0; heap = r.1; next = t.next + 1 }

  module _ (t : AtomTable D) (type : ℕ) (d : D) (r : HashTable × Heap (AtomEntry D) × Bool)
      (lt : type < length t.items) (v : IsValid same t)
      (g : Gains t.heap t.next (entry_new type (size t type) d) r) where
    old :
        (a : ℕ)
        → (t.heap a).hashed ≡ true
        → ((r.1 a).hashed ≡ true) × ((r.1 a).key ≡ (t.heap a).key)
    old a on =
        let ne : t.next ≢ a = λ e. absurd (omega (arith, e, v.below a on)) in
        (g.old_on a ne ∙ on, g.old_key a ne)

    -- A node of the table is the new one or was there before.
    back :
        (a : ℕ)
        → (r.1 a).hashed ≡ true
        → (t.next ≡ a) ⊎ (((t.heap a).hashed ≡ true) × ((r.1 a).key ≡ (t.heap a).key))
    back a on = elim (Bool-cases (t.next == a)) [
      | inl e ↦ inl (ground arith)
      | inr ne ↦
          let differ : t.next ≢ a = ground arith in
          inr (sym (g.old_on a differ) ∙ on, g.old_key a differ)
    ]

    abbrev after : AtomTable D
    after = with_entry (push t type d) r

    with_entry-IsValid : IsValid same after
    unfolding push get vector
    with_entry-IsValid = record {
      table_valid = g.valid;
      below = λ a on. elim (back a on) [
        | inl e ↦ omega (arith, e)
        | inr (on', k) ↦ omega (arith, v.below a on')
      ];
      indexed = λ a on. elim (back a on) [
        | inl e ↦
            let k : (r.1 a).key ≡ entry_new type (size t type) d =
              ap (λ (x : ℕ). (r.1 x).key) (sym e) ∙ g.new_key in
            subst (λ (k : AtomEntry D). get after k.type k.index ≡ some k.content) (sym k)
              (get-push_new t type d lt)
        | inr (on', k) ↦
            subst (λ (k : AtomEntry D). get after k.type k.index ≡ some k.content) (sym k)
              (get-push t type d _ _ lt (v.indexed a on'))
      ];
    }

    new-Entered : Entered same after type d (size t type)
    new-Entered = record {
      place = t.next;
      on = g.new_on;
      has_type = ap (λ (k : AtomEntry D). k.type) g.new_key;
      has_content = ap (λ (k : AtomEntry D). k.content) g.new_key;
      has_index = ap (λ (k : AtomEntry D). k.index) g.new_key;
    }

    old-Entered : (type' i : ℕ) (d' : D) → Entered same t type' d' i → Entered same after type' d' i
    old-Entered type' i d' e =
        let (on, k) = old e.place e.on in
        record {
          place = e.place;
          on = on;
          has_type = ap (λ (k : AtomEntry D). k.type) k ∙ e.has_type;
          has_content = ap (λ (k : AtomEntry D). k.content) k ∙ e.has_content;
          has_index = ap (λ (k : AtomEntry D). k.index) k ∙ e.has_index;
        }

    back-Entered :
        (type' i : ℕ) (d' : D)
        → Entered same after type' d' i
        → Entered same t type' d' i ⊎ ((type ≡ type') × (d ≡ d') × (i ≡ size t type))
    back-Entered type' i d' e = elim (back e.place e.on) [
      | inl same_place ↦
          let k : (r.1 e.place).key ≡ entry_new type (size t type) d =
            ap (λ (x : ℕ). (r.1 x).key) (sym same_place) ∙ g.new_key in
          inr (
            sym (ap (λ (k : AtomEntry D). k.type) k) ∙ e.has_type,
            sym (ap (λ (k : AtomEntry D). k.content) k) ∙ e.has_content,
            sym e.has_index ∙ ap (λ (k : AtomEntry D). k.index) k,
          )
      | inr (on, k) ↦ inl (record {
        place = e.place;
        on = on;
        has_type = sym (ap (λ (k : AtomEntry D). k.type) k) ∙ e.has_type;
        has_content = sym (ap (λ (k : AtomEntry D). k.content) k) ∙ e.has_content;
        has_index = sym (ap (λ (k : AtomEntry D). k.index) k) ∙ e.has_index;
      })
    ]

    with_entry-Appends : Appends t type d after
    with_entry-Appends =
        let v' = with_entry-IsValid in
        record {
          valid = v';
          pushed = refl;
          found_new = Entered-index same after type d (size t type) v' new-Entered;
          found_old = λ type' i d' h.
              Entered-index same after type' d' i v'
                (old-Entered type' i d' (index-Entered same t type' d' i v h));
          found_back = λ type' i d' h.
              elim (back-Entered type' i d' (index-Entered same after type' d' i v' h)) [
                | inl e ↦ inl (Entered-index same t type' d' i v e)
                | inr q ↦ inr q
              ];
        }

  -- An item that is missed is missed whatever index is looked for.
  missed_anywhere :
      (t : AtomTable D) (type i : ℕ) (d : D)
      → IsValid same t
      → index t type d ≡ none
      → find t.table t.heap (entry_new type i d) ≡ none
  missed_anywhere t type i d v h = elim (Option-cases (find t.table t.heap (entry_new type i d))) [
    | inl e ↦ e
    | inr (a, e) ↦
        let (on, equal) = (find_iff t.table t.heap (entry_new type i d) a v.table_valid).0 e in
        let (ty, content) = (same (t.heap a).key (entry_new type i d)).0 equal in
        let r : Entered same t type d (t.heap a).key.index = record {
          place = a;
          on = on;
          has_type = ty;
          has_content = content;
          has_index = refl;
        } in
        absurd (ground (arith, Entered-index same t type d _ v r))
  ]

  next_free : (t : AtomTable D) → IsValid same t → (t.heap t.next).hashed ≡ false
  next_free t v = elim (Bool-cases (t.heap t.next).hashed) [
    | inr off ↦ off
    | inl on ↦ absurd (omega (arith, v.below t.next on))
  ]

  -- An item that `AtomTable_Index` misses is appended by `AtomTable_Append` as a unique one: its assertion
  -- holds, the index is the former size, and from then on the item, and no other that was not, is found.
  pub append-Appends :
      (malloc : ℕ → Bool) (t : AtomTable D) (type : ℕ) (d : D)
      → type < length t.items
      → IsValid same t
      → index t type d ≡ none
      → (t' : AtomTable D) × (append malloc t type d true ≡ some (t', size t type))
        × Appends t type d t'
  unfolding append push_entry push
  append-Appends malloc t type d lt v missed =
      let k = entry_new type (size t type) d in
      let r = insert malloc t.table (update t.heap t.next (new_node k)) t.next in
      let g =
        insert-Gains malloc t.table t.heap t.next k v.table_valid (next_free t v)
          (missed_anywhere t type (size t type) d v missed) in
      let in_range : leb (length t.items) type ≡ false = ground arith in
      let place : size (push t type d) type - 1 ≡ size t type =
        omega (arith, size-push t type d lt) in
      (
        with_entry (push t type d) r,
        rw (in_range, place, g.done) refl,
        with_entry-Appends t type d r lt v g,
      )

  -- An item that is not unique is appended to its vector only.
  pub append-push :
      (malloc : ℕ → Bool) (t : AtomTable D) (type : ℕ) (d : D)
      → type < length t.items
      → append malloc t type d false ≡ some (push t type d, size t type)
  unfolding append
  append-push malloc t type d lt =
      let in_range : leb (length t.items) type ≡ false = ground arith in
      let place : size (push t type d) type - 1 ≡ size t type =
        omega (arith, size-push t type d lt) in
      rw (in_range, place) refl

  -- With memory granted, `AtomTable_New` gives a valid table in which nothing is found.
  pub new-IsValid :
      (malloc : ℕ → Bool) (heap : Heap (AtomEntry D)) (next n : ℕ)
      → ((k : ℕ) → malloc k ≡ true)
      → ((a : ℕ) → (heap a).hashed ≡ false)
      → (t : AtomTable D) × (new malloc heap next n ≡ some t)
        × IsValid same t
        × (length t.items ≡ n)
        × ((type : ℕ) (d : D) → index t type d ≡ none)
        × ((type i : ℕ) → get t type i ≡ none)
  unfolding new index get vector
  new-IsValid malloc heap next n g clean =
      let (table, e, v, empty) = init-IsValid malloc heap g clean in
      let t : AtomTable D = record {
        table = table;
        heap = heap;
        next = next;
        items = replicate n [];
      } in
      (
        t,
        rw (new, e) refl,
        record { table_valid = v; below = λ a on. cc (clean a); indexed = λ a on. cc (clean a) },
        length-replicate n [],
        λ type d. elim (Option-cases (find table heap (entry_new type 0 d))) [
          | inl none_there ↦ rw (index, none_there) refl
          | inr (a, there) ↦
              let on = ((find_iff table heap (entry_new type 0 d) a v).0 there).0 in
              absurd (ground (arith, clean a))
        ],
        λ type i. rw (get_or-replicate {A = List D} [] n type) refl,
      )
