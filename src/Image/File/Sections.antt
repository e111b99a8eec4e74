-- ===== src/Image/File/Sections.antt =====
-- `KImage_Read_File`: the loop over the map items, in a file whose items lie where these say.
use koala_lang_pre.Prelude.{
  leb, ◌==◌, if◌then◌else◌, Bool-cases, if_ind, length, get_elem?, drop, length-append, eq_nil,
  drop-length, ℕ, zero, suc, ◌+◌, ◌≤◌, ◌<◌, ◌≡◌, refl, sym, ap, ap₂, ◌∙◌, subst, inl, inr, Bool,
  true, false, ◌||◌, some, List, [], ◌∷◌, ◌++◌, append_assoc, append-nil, arith,
}
use koala_lang_pre.AtomTable.{get, size, vector}
use koala_lang_pre.Image.{Table, item_max, item_const}
use koala_lang_pre.Image.Items.{Item}
use koala_lang_pre.Image.Key.{entry_key}
use koala_lang_pre.Image.Ready.{IsReady}
use koala_lang_pre.Image.Format.Fits.{Fits}
use koala_lang_pre.Image.File.{items_bytes, image_bytes, lengths}
use koala_lang_pre.Image.File.Input.{MapItem, load, load_type, load_types}
use koala_lang_pre.Image.File.Layout.{
  maps_at, maps_at-empty, maps_at-full, image_bytes-empty, image_bytes-full, length-items_bytes,
  AllTypes,
}
use koala_lang_pre.Image.File.Load.{IsStored, Loads, AllFitType, NoRepeat, load_items-Loads}

-- The numbers from `n` on, `c` of them.
abbrev pub types_from : ℕ → ℕ → List ℕ
types_from zero n = []
types_from (suc c) n = n ∷ types_from c (n + 1)

pub types_from-AllTypes : (c n : ℕ) → 0 < n → n + c ≤ item_max → AllTypes (types_from c n)
types_from-AllTypes zero n lo hi = tt
types_from-AllTypes (suc c) n lo hi =
    (lo, omega arith, types_from-AllTypes c (n + 1) (omega arith) (omega arith))

-- What is read of a type.
unfoldable pub kept : Table → ℕ → ℕ → List Item
kept t unload type = if load unload type then vector t type else []

items-AllFitType :
    (type : ℕ) (ds : List Item)
    → ((i : ℕ) (d : Item) → get_elem? ds i ≡ some d → Fits type d)
    → AllFitType type ds
items-AllFitType type [] h = tt
items-AllFitType type (d ∷ ds) h = (h zero d refl, items-AllFitType type ds λ i e g. h (suc i) e g)

-- The numbers of every item fit the file format.
abbrev pub ItemsFit : Table → Type 0
ItemsFit t = (type i : ℕ) (d : Item) → 0 < type → get t type i ≡ some d → Fits type d

module _ (malloc : ℕ → Bool) (unload : ℕ) (t : Table) (v : IsReady t) (fit : ItemsFit t) where
  vector-NoRepeat : (type : ℕ) → 0 < type → type ≤ item_const → NoRepeat (vector t type)
  unfolding get
  vector-NoRepeat type lo unique i j d at at' =
      some_inj (sym (v.entered type i d lo unique at) ∙ v.entered type j d lo unique at')
    where
      some_inj : some i ≡ some j → i ≡ j
      some_inj e = cc

  -- One type, whose items lie at the offset in its map item.
  load_type-Loads :
      (type p : ℕ) (bytes rest : List ℕ) (u : Table)
      → 0 < type
      → type < item_max
      → drop p bytes ≡ items_bytes (vector t type) ++ rest
      → IsStored u
      → vector u type ≡ []
      → (u' : Table) × (load_type malloc unload bytes (type, p, size t type) u ≡ some u')
        × Loads u type (kept t unload type) u'
  unfolding load_type kept size get
  load_type-Loads type p bytes rest u lo hi at stored empty =
      let in_range : (type == 0 || leb item_max type) ≡ false = ground arith in
      elim (Bool-cases (load unload type)) [
        | inl on ↦
            let fits = items-AllFitType type (vector t type) λ i d h. fit type i d lo h in
            let once : type ≤ item_const → NoRepeat (vector u type ++ vector t type) = λ unique.
              subst (λ (xs : List Item). NoRepeat (xs ++ vector t type)) (sym empty)
                (vector-NoRepeat type lo unique) in
            let (u', e, s) =
              load_items-Loads malloc type lo hi (vector t type) rest u stored fits once in
            (u', rw (in_range, on, at) e, rw on s)
        | inr off ↦ (
          u,
          rw (in_range, off) refl,
          rw off (record { stored = stored; own = sym (append-nil _); others = λ k ne. refl }),
        )
      ]

  -- The table `u'` is `u` with what is kept of the `c` types from `n` on.
  pub record LoadsAll (u : Table) (c n : ℕ) (u' : Table) : Type 0 where
    pub stored : IsStored u'
    pub own : (k : ℕ) → n ≤ k → k < n + c → vector u' k ≡ kept t unload k
    pub others : (k : ℕ) → k < n → vector u' k ≡ vector u k

  kept-empty : (type : ℕ) → (size t type == 0) ≡ true → kept t unload type ≡ []
  unfolding kept size
  kept-empty type e =
      let none_there : vector t type ≡ [] = eq_nil (vector t type) (ground arith) in
      if_ind (λ ds. ds ≡ []) (load unload type) (λ _. none_there) (λ _. refl)

  load_types-cons :
      (bytes : List ℕ) (item : MapItem) (maps : List MapItem) (u u1 : Table)
      → load_type malloc unload bytes item u ≡ some u1
      → load_types malloc unload bytes (item ∷ maps) u ≡ load_types malloc unload bytes maps u1
  unfolding load_types
  load_types-cons bytes item maps u u1 e = rw e refl

  -- A type without items before the rest.
  LoadsAll-empty :
      (u : Table) (c n : ℕ) (u' : Table)
      → (size t n == 0) ≡ true
      → vector u n ≡ []
      → LoadsAll u c (n + 1) u'
      → LoadsAll u (suc c) n u'
  LoadsAll-empty u c n u' e empty s = record {
    stored = s.stored;
    own = λ k ge lt. elim (Bool-cases (n == k)) [
      | inl same ↦
          let at : n ≡ k = ground arith in
          subst (λ (k : ℕ). vector u' k ≡ kept t unload k) at
            (s.others n (omega arith) ∙ empty ∙ sym (kept-empty n e))
      | inr differ ↦ s.own k (ground arith) (omega arith)
    ];
    others = λ k lt. s.others k (omega arith);
  }

  -- A type that was loaded before the rest.
  LoadsAll-full :
      (u u1 : Table) (c n : ℕ) (u' : Table)
      → vector u n ≡ []
      → Loads u n (kept t unload n) u1
      → LoadsAll u1 c (n + 1) u'
      → LoadsAll u (suc c) n u'
  LoadsAll-full u u1 c n u' empty s1 s = record {
    stored = s.stored;
    own = λ k ge lt. elim (Bool-cases (n == k)) [
      | inl same ↦
          let at : n ≡ k = ground arith in
          subst (λ (k : ℕ). vector u' k ≡ kept t unload k) at
            (s.others n (omega arith)
              ∙ s1.own
              ∙ ap (λ (ds : List Item). ds ++ kept t unload n) empty)
      | inr differ ↦ s.own k (ground arith) (omega arith)
    ];
    others = λ k lt. s.others k (omega arith) ∙ s1.others k (λ e. absurd (omega (arith, e)));
  }

  -- All of them.
  pub load_types-LoadsAll :
      (c n : ℕ) (pre : List ℕ) (u : Table)
      → 0 < n
      → n + c ≤ item_max
      → IsStored u
      → ((k : ℕ) → n ≤ k → vector u k ≡ [])
      → (u' : Table) × (load_types malloc unload
            (pre ++ image_bytes t (types_from c n))
            (maps_at t (types_from c n) (length pre))
            u
          ≡ some u')
        × LoadsAll u c n u'
  unfolding load_types maps_at image_bytes
  load_types-LoadsAll zero n pre u lo hi stored empty = (
    u,
    refl,
    record { stored = stored; own = λ k ge lt. absurd (omega arith); others = λ k lt. refl },
  )
  load_types-LoadsAll (suc c) n pre u lo hi stored empty = elim (Bool-cases (size t n == 0)) [
    | inl e ↦
        let rest = types_from c (n + 1) in
        let (u', e', s) =
          load_types-LoadsAll c (n + 1) pre u (omega arith) (omega arith) stored
            (λ k ge. empty k (omega arith)) in
        (
          u',
          ap₂ (λ bytes maps. load_types malloc unload (pre ++ bytes) maps u)
                (image_bytes-empty t n rest e) (maps_at-empty t n rest e (length pre))
              ∙ e',
          LoadsAll-empty u c n u' e (empty n (omega arith)) s,
        )
    | inr e ↦
        let rest = types_from c (n + 1) in
        let own = items_bytes (vector t n) in
        let bytes = pre ++ (own ++ image_bytes t rest) in
        let (u1, e1, s1) =
          load_type-Loads n (length pre) bytes (image_bytes t rest) u lo (omega arith)
            (drop-length pre (own ++ image_bytes t rest)) stored (empty n (omega arith)) in
        let (u', e', s) =
          load_types-LoadsAll c (n + 1) (pre ++ own) u1 (omega arith) (omega arith) s1.stored
            (λ k ge. s1.others k (λ same. absurd (omega (arith, same))) ∙ empty k (omega arith)) in
        let after : length (pre ++ own) ≡ length pre + lengths (vector t n) =
          length-append pre own
          ∙ ap (λ (m : ℕ). length pre + m) (length-items_bytes (vector t n)) in
        (
          u',
          ap₂ (λ bytes maps. load_types malloc unload (pre ++ bytes) maps u)
                (image_bytes-full t n rest e) (maps_at-full t n rest e (length pre))
              ∙ load_types-cons bytes (n, length pre, size t n)
                  (maps_at t rest (length pre + lengths (vector t n))) u u1 e1
              ∙ ap₂ (λ bytes p. load_types malloc unload bytes (maps_at t rest p) u1)
                  (sym (append_assoc pre own (image_bytes t rest))) (sym after)
              ∙ e',
          LoadsAll-full u u1 c n u' (empty n (omega arith)) s1 s,
        )
  ]
