-- ===== src/Image/Appends.antt =====
-- An item that is appended to the table of an image keeps the table ready.
use koala_lang_pre.Prelude.{
  Option-cases, length, get_elem?, get_or, length-set, ℕ, ◌+◌, ◌≤◌, ◌<◌, ◌≡◌, refl, sym, ap, ◌∙◌,
  subst, ◌≢◌, ◌⊎◌, inl, inr, Bool, true, Option, none, some, List, [], arith,
}
use koala_lang_pre.AtomTable.{get, size, push, vector, append, index}
use koala_lang_pre.AtomTable.Laws.{
  IsValid, get-push, get-push_back, size-push, size-push_le, size-push_other, push-IsValid,
}
use koala_lang_pre.AtomTable.Append.{append-Appends, Appends}
use koala_lang_pre.Image.Items.{Item}
use koala_lang_pre.Image.Key.{entry_key, entry_equal_iff}
use koala_lang_pre.Image.{Table, item_const, item_max, set_unique}
use koala_lang_pre.Image.Ready.{Refers, Refers-mono, IsReady, Grows, Grows-refl}

-- Tables with the same vectors.
pub get-items : (t u : Table) (type i : ℕ) → t.items ≡ u.items → get t type i ≡ get u type i
unfolding get vector
get-items t u type i e = ap (λ (items : List (List Item)). get_elem? (get_or items type []) i) e

size-items : (t u : Table) (type : ℕ) → t.items ≡ u.items → size t type ≡ size u type
unfolding size vector
size-items t u type e = ap (λ (items : List (List Item)). length (get_or items type [])) e

pub length-push : (t : Table) (type : ℕ) (d : Item) → length (push t type d).items ≡ length t.items
unfolding push
length-push t type d = length-set t.items type _

-- The unique items of a table are found where they stand.
abbrev pub IsEntered : Table → Type 0
IsEntered t =
    (type i : ℕ) (d : Item)
    → 0 < type
    → type ≤ item_const
    → get t type i ≡ some d
    → index t type d ≡ some i

-- They are so after a unique item is appended.
pub appended-IsEntered :
    (t : Table) (type : ℕ) (d : Item) (t' : Table)
    → type < length t.items
    → Appends entry_equal_iff t type d t'
    → IsEntered t
    → (type' i : ℕ) (x : Item) → 0 < type'
    → type' ≤ item_const
    → get (push t type d) type' i ≡ some x
    → index t' type' x ≡ some i
appended-IsEntered t type d t' lt s entered type' i x lo hi g =
    elim (get-push_back t type d type' i lt g) [
      | inl old ↦ s.found_old type' i x (entered type' i x lo hi old)
      | inr (same, at, it) ↦
          subst (λ (n : ℕ). index t' n x ≡ some i) same
            (ap (index t' type) (sym it) ∙ s.found_new ∙ ap (λ (n : ℕ). some n) (sym at))
    ]

-- So they are after another item.
pub pushed-IsEntered :
    (t : Table) (type : ℕ) (d : Item)
    → type < length t.items
    → (type ≡ 0) ⊎ (item_const < type)
    → IsEntered t
    → IsEntered (push t type d)
unfolding push index
pushed-IsEntered t type d lt plain entered type' i x lo hi h =
    elim (get-push_back t type d type' i lt h) [
      | inl old ↦ entered type' i x lo hi old
      | inr (same, at, it) ↦ elim plain [
        | inl none_there ↦ absurd (omega (arith, same, none_there))
        | inr above ↦ absurd (omega (arith, same))
      ]
    ]

module _ (t : Table) (type : ℕ) (d : Item) (v : IsReady t) (lt : type < item_max)
    (ok : Refers (size t) (size t type) d) where
  in_range : type < length t.items
  in_range = omega (arith, v.wide)

  push-Refers :
      (type' i : ℕ) (e : Item)
      → get (push t type d) type' i ≡ some e
      → Refers (size (push t type d)) i e
  push-Refers type' i e h = elim (get-push_back t type d type' i in_range h) [
    | inl old ↦
        Refers-mono (size t) (size (push t type d)) i e (λ n. size-push_le t type d n in_range)
          (v.refers type' i e old)
    | inr (same, at, it) ↦
        Refers-mono (size t) (size (push t type d)) i e (λ n. size-push_le t type d n in_range)
          (subst (λ (x : Item). Refers (size t) i x) it
            (subst (λ (n : ℕ). Refers (size t) n d) (sym at) ok))
  ]

  -- The table with the vectors of the push is ready if its hash table is valid.
  pushed-IsReady :
      (t' : Table)
      → IsValid entry_equal_iff t'
      → t'.items ≡ (push t type d).items
      → ((type' i : ℕ) (x : Item)
          → 0 < type'
          → type' ≤ item_const
          → get (push t type d) type' i ≡ some x
          → index t' type' x ≡ some i)
      → IsReady t'
  pushed-IsReady t' valid e entered = record {
    valid = valid;
    wide = ap length e ∙ length-push t type d ∙ v.wide;
    entered = λ type' i x lo hi h.
        entered type' i x lo hi (sym (get-items t' (push t type d) type' i e) ∙ h);
    refers = λ type' i x h.
        Refers-mono (size (push t type d)) (size t') i x
          (λ n. omega (arith, size-items t' (push t type d) n e))
          (push-Refers type' i x (sym (get-items t' (push t type d) type' i e) ∙ h));
  }

  -- An item that is not unique.
  pub push-IsReady : (type ≡ 0) ⊎ (item_const < type) → IsReady (push t type d)
  unfolding push index
  push-IsReady plain =
      pushed-IsReady (push t type d) (push-IsValid entry_equal_iff t type d in_range v.valid) refl
        (pushed-IsEntered t type d in_range plain v.entered)

  pub push-Grows : Grows t (push t type d)
  unfolding push index
  push-Grows = record {
    gets = λ type' i x h. get-push t type d type' i in_range h;
    finds = λ type' i x h. h;
    sizes = λ n. size-push_le t type d n in_range;
    back = λ type' i x h below. h;
  }

-- The item `d` has the index `i` in the table `t'`, which `t` has become.
pub record Sets (t : Table) (type : ℕ) (d : Item) (t' : Table) (i : ℕ) : Type 0 where
  pub ready : IsReady t'
  pub grows : Grows t t'
  pub found : index t' type d ≡ some i
  pub others : (type' : ℕ) → type ≢ type' → size t' type' ≡ size t type'
  pub last : ((t' ≡ t) × (index t type d ≡ some i)) ⊎ (i + 1 ≡ size t' type)

abbrev pub Outcome : Table → ℕ → Item → Option (Table × ℕ) → Type 0
Outcome t type d o = (t' : Table) × (i : ℕ) × (o ≡ some (t', i)) × Sets t type d t' i

module _ (malloc : ℕ → Bool) (t : Table) (type : ℕ) (d : Item) (v : IsReady t)
    (lt : type < item_max) (ok : Refers (size t) (size t type) d) where
  -- An item that is missed and refers to what is there is appended.
  pub append-Sets : index t type d ≡ none → Outcome t type d (append malloc t type d true)
  append-Sets missed =
      let h = in_range t type d v lt ok in
      let (t', e, s) = append-Appends entry_equal_iff malloc t type d h v.valid missed in
      let sized = λ (n : ℕ). size-items t' (push t type d) n s.pushed in
      (
        t',
        size t type,
        e,
        record {
          ready =
              pushed-IsReady t type d v lt ok t' s.valid s.pushed
                (appended-IsEntered t type d t' h s v.entered);
          grows = record {
            gets = λ type' i x g.
                get-items t' (push t type d) type' i s.pushed ∙ get-push t type d type' i h g;
            finds = λ type' i x g. s.found_old type' i x g;
            sizes = λ n. omega (arith, sized n, size-push_le t type d n h);
            back = λ type' i x g below. elim (s.found_back type' i x g) [
              | inl old ↦ old
              | inr (same, _, at) ↦
                  absurd (omega (arith, at, subst (λ (n : ℕ). i < size t n) (sym same) below))
            ];
          };
          found = s.found_new;
          others = λ type' ne. sized type' ∙ size-push_other t type d type' h ne;
          last = inr (sym (sized type ∙ size-push t type d h));
        },
      )

  pub set_unique-Sets : Outcome t type d (set_unique malloc t type d)
  unfolding set_unique
  set_unique-Sets = elim (Option-cases (index t type d)) [
    | inl missed ↦ rw (set_unique, missed) (append-Sets missed)
    | inr (i, e) ↦ (
      t,
      i,
      rw (set_unique, e) refl,
      record {
        ready = v;
        grows = Grows-refl t;
        found = e;
        others = λ type' ne. refl;
        last = inl (refl, e);
      },
    )
  ]
