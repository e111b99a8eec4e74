-- ===== src/Image/File/Load.antt =====
-- `KImage_Read_File`: the loop that reads the items of one type into the table of the new image.
use koala_lang_pre.Prelude.{
  leb, ◌==◌, Bool-cases, Option-cases, length, get_elem?, get_or, ℕ, ◌≤◌, ◌<◌, ◌≡◌, refl, sym, ap,
  ◌∙◌, subst, ◌≢◌, inl, inr, Bool, true, false, none, some, List, [], ◌∷◌, ◌++◌, append_assoc,
  append-nil, arith,
}
use koala_lang_pre.AtomTable.{get, size, push, vector, append, index}
use koala_lang_pre.AtomTable.Laws.{
  IsValid, vector-push, get-index, push-IsValid, get-lt, get_elem?-append,
}
use koala_lang_pre.AtomTable.Append.{append-Appends, append-push}
use koala_lang_pre.Image.{Table, item_max, item_const}
use koala_lang_pre.Image.Items.{Item}
use koala_lang_pre.Image.Key.{entry_key, entry_equal_iff}
use koala_lang_pre.Image.Appends.{
  get-items, length-push, IsEntered, appended-IsEntered, pushed-IsEntered,
}
use koala_lang_pre.Image.Format.{item_bytes}
use koala_lang_pre.Image.Format.Fits.{Fits}
use koala_lang_pre.Image.Format.RoundTrip.{read_item-item_bytes}
use koala_lang_pre.Image.File.{items_bytes}
use koala_lang_pre.Image.File.Input.{load_items}

-- A table in the making: its items may refer to what is not there yet.
pub record IsStored (t : Table) : Type 0 where
  pub valid : IsValid entry_equal_iff t
  pub wide : length t.items ≡ item_max
  pub entered : IsEntered t

-- The table `u'` is `u` with these items behind those of the type.
pub record Loads (u : Table) (type : ℕ) (ds : List Item) (u' : Table) : Type 0 where
  pub stored : IsStored u'
  pub own : vector u' type ≡ vector u type ++ ds
  pub others : (k : ℕ) → type ≢ k → vector u' k ≡ vector u k

abbrev pub AllFitType : ℕ → List Item → Type 0
AllFitType type [] = Unit {0}
AllFitType type (d ∷ ds) = Fits type d × AllFitType type ds

-- No item stands at two places.
abbrev pub NoRepeat : List Item → Type 0
NoRepeat ds = (i j : ℕ) (d : Item) → get_elem? ds i ≡ some d → get_elem? ds j ≡ some d → i ≡ j

vector-items : (t u : Table) (k : ℕ) → t.items ≡ u.items → vector t k ≡ vector u k
unfolding vector
vector-items t u k e = ap (λ (items : List (List Item)). get_or items k []) e

-- A table with the vectors of a push loads the item.
pushed-Loads :
    (u : Table) (type : ℕ) (d : Item) (u' : Table)
    → length u.items ≡ item_max
    → type < item_max
    → u'.items ≡ (push u type d).items
    → IsStored u'
    → Loads u type (d ∷ []) u'
pushed-Loads u type d u' wide lt e stored =
    let h : type < length u.items = omega (arith, wide) in
    let itself : (type == type) ≡ true = ground arith in
    record {
      stored = stored;
      own = vector-items u' (push u type d) type e ∙ vector-push u type d type h ∙ rw itself refl;
      others = λ k ne.
          let differ : (type == k) ≡ false = ground arith in
          vector-items u' (push u type d) k e ∙ vector-push u type d k h ∙ rw differ refl;
    }

module _ (malloc : ℕ → Bool) (type : ℕ) (lo : 0 < type) (lt : type < item_max) where
  pub append-Loads :
      (u : Table) (d : Item)
      → IsStored u
      → (type ≤ item_const → index u type d ≡ none)
      → (u' : Table) × (i : ℕ) × (append malloc u type d (leb type item_const) ≡ some (u', i))
        × Loads u type (d ∷ []) u'
  append-Loads u d v missed =
      let h : type < length u.items = omega (arith, v.wide) in
      elim (Bool-cases (leb type item_const)) [
        | inl unique ↦
            let (u', e, s) =
              append-Appends entry_equal_iff malloc u type d h v.valid (missed (ground arith)) in
            let stored : IsStored u' = record {
              valid = s.valid;
              wide = ap length s.pushed ∙ length-push u type d ∙ v.wide;
              entered = λ type' i x lo' hi g.
                  appended-IsEntered u type d u' h s v.entered type' i x lo' hi
                    (sym (get-items u' (push u type d) type' i s.pushed) ∙ g);
            } in
            (u', size u type, rw unique e, pushed-Loads u type d u' v.wide lt s.pushed stored)
        | inr plain ↦
            let above : item_const < type = ground arith in
            let stored : IsStored (push u type d) = record {
              valid = push-IsValid entry_equal_iff u type d h v.valid;
              wide = length-push u type d ∙ v.wide;
              entered = pushed-IsEntered u type d h (inr above) v.entered;
            } in
            (
              push u type d,
              size u type,
              rw plain (append-push entry_equal_iff malloc u type d h),
              pushed-Loads u type d (push u type d) v.wide lt refl stored,
            )
      ]

  get_elem?-middle :
      (xs : List Item) (d : Item) (ds : List Item) → get_elem? (xs ++ d ∷ ds) (length xs) ≡ some d
  get_elem?-middle [] d ds = refl
  get_elem?-middle (x ∷ xs) d ds = get_elem?-middle xs d ds

  -- An item that would repeat is not there.
  missed_first :
      (u : Table) (d : Item) (ds : List Item)
      → IsStored u
      → NoRepeat (vector u type ++ d ∷ ds)
      → index u type d ≡ none
  unfolding get size
  missed_first u d ds v once = elim (Option-cases (index u type d)) [
    | inl e ↦ e
    | inr (j, e) ↦
        let there = get-index entry_equal_iff u type d j v.valid e in
        let below : j < length (vector u type) = get-lt u type j there in
        let at = get_elem?-append (vector u type) (d ∷ ds) j there in
        absurd (
          omega
            (arith, once j (length (vector u type)) d at (get_elem?-middle (vector u type) d ds)))
  ]

  -- A type's items that fit, read from a file at their place.
  pub load_items-Loads :
      (ds : List Item) (rest : List ℕ) (u : Table)
      → IsStored u
      → AllFitType type ds
      → (type ≤ item_const → NoRepeat (vector u type ++ ds))
      → (u' : Table) × (load_items malloc type (length ds) (items_bytes ds ++ rest) u ≡ some u')
        × Loads u type ds u'
  unfolding load_items items_bytes
  load_items-Loads [] rest u v fit once =
      (u, refl, record { stored = v; own = sym (append-nil _); others = λ k ne. refl })
  load_items-Loads (d ∷ ds) rest u v (fit, fits) once =
      let (u1, i, e, s) = append-Loads u d v (λ unique. missed_first u d ds v (once unique)) in
      let moved : vector u1 type ++ ds ≡ vector u type ++ d ∷ ds =
        ap (λ (xs : List Item). xs ++ ds) s.own ∙ append_assoc (vector u type) (d ∷ []) ds in
      let (u', e', s') =
        load_items-Loads ds rest u1 s.stored fits
          (λ unique. subst NoRepeat (sym moved) (once unique)) in
      let r = read_item-item_bytes type d (items_bytes ds ++ rest) fit in
      (
        u',
        rw (append_assoc (item_bytes d) (items_bytes ds) rest, r, e) e',
        record {
          stored = s'.stored;
          own = s'.own ∙ moved;
          others = λ k ne. s'.others k ne ∙ s.others k ne;
        },
      )
