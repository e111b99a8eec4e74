-- ===== src/Image/Sets.antt =====
-- `TypeItem_Set` on the simple descriptors, which hold no function type, map or set: no assertion fails,
-- and the type is found at the index that is returned.
use koala_lang_pre.Prelude.{
  Option-cases, ℕ, ◌+◌, ◌<◌, ◌≡◌, refl, ap, ◌∙◌, ◌≢◌, ◌⊎◌, inl, inr, Bool, Option, none, some, List,
  [], ◌∷◌, arith,
}
use koala_lang_pre.TypeDesc.{TypeDesc, base_kind}
use koala_lang_pre.AtomTable.{size}
use koala_lang_pre.AtomTable.Laws.{get-index}
use koala_lang_pre.Image.Items.{Ref, TypeItem, Item}
use koala_lang_pre.Image.Key.{entry_key, entry_equal_iff}
use koala_lang_pre.Image.{
  Table, item_string, item_type, stringitem_get, path_get, find_type, klass_get, typeitem_get,
  stringitem_set, path_set, or_add, append_type, typeitem_set,
}
use koala_lang_pre.Image.Ready.{
  BelowOrNull, BelowOrNull-mono, Refers, IsReady, Grows, Grows-refl, Grows-trans,
}
use koala_lang_pre.Image.Appends.{Outcome, append-Sets, set_unique-Sets}
use koala_lang_pre.Image.Parts.{
  typeitem_get_total, typeitem_get-lt, index-lt, base-found, base-missed, klass-none, klass-found,
  array-get, array-none, varg-get, varg-none,
}
use koala_lang_pre.Image.Types.{
  IsSimple, Finds-klass_get, path_get-Grows, path_get-back, typeitem_get-Grows,
}

-- The descriptor has the index `i` in the table `t'`, which `t` has become.
pub record SetsType (t : Table) (desc : TypeDesc) (t' : Table) (i : ℕ) : Type 0 where
  pub ready : IsReady t'
  pub grows : Grows t t'
  pub found : typeitem_get t' desc ≡ some (some i)
  pub below : i < size t' item_type
  pub others : (type : ℕ) → item_type < type → size t' type ≡ size t type
  pub last : ((t' ≡ t) × (typeitem_get t desc ≡ some (some i))) ⊎ (i + 1 ≡ size t' item_type)

abbrev pub TypeOutcome : Table → TypeDesc → Option (Table × ℕ) → Type 0
TypeOutcome t desc o = (t' : Table) × (i : ℕ) × (o ≡ some (t', i)) × SetsType t desc t' i

module _ (malloc : ℕ → Bool) where
  -- The end of `TypeItem_Set`, for a type whose parts were set.
  added :
      (t t1 : Table) (desc : TypeDesc) (item : TypeItem)
      → IsReady t1
      → Grows t t1
      → ((type : ℕ) → item_type < type → size t1 type ≡ size t type)
      → Refers (size t1) (size t1 item_type) (Item.type item)
      → find_type t1 item ≡ none
      → ((t2 : Table) → Grows t1 t2 → typeitem_get t2 desc ≡ some (find_type t2 item))
      → TypeOutcome t desc (append_type malloc t1 item)
  added t t1 desc item v g others ok missed found =
      let (t2, i, e, s) =
        append-Sets malloc t1 item_type (Item.type item) v (omega arith) ok missed in
      (
        t2,
        i,
        e,
        record {
          ready = s.ready;
          grows = Grows-trans t t1 t2 g s.grows;
          found = found t2 s.grows ∙ ap (λ (r : Ref). some r) s.found;
          below = index-lt t2 item_type i _ s.ready s.found;
          others = λ n lt. s.others n (λ same. absurd (omega (arith, same))) ∙ others n lt;
          last = elim s.last [ inl (same, at) ↦ absurd (ground arith) | inr at ↦ inr at ];
        },
      )

  -- The two branches of `TypeItem_Set`.
  or_add-Outcome :
      (t : Table) (desc : TypeDesc) (r : Option Ref) (add : Option (Table × ℕ))
      → IsReady t
      → IsSimple desc
      → typeitem_get t desc ≡ r
      → (typeitem_get t desc ≡ some none → TypeOutcome t desc add)
      → TypeOutcome t desc (or_add malloc t r add)
  or_add-Outcome t desc none add v s e h =
      let (r, e') = typeitem_get_total t desc s in absurd (ground arith)
  or_add-Outcome t desc (some none) add v s e h = h e
  or_add-Outcome t desc (some (some i)) add v s e h = (
    t,
    i,
    refl,
    record {
      ready = v;
      grows = Grows-refl t;
      found = e;
      below = typeitem_get-lt t desc i v s e;
      others = λ n lt. refl;
      last = inl (refl, e);
    },
  )

  -- The path of a class, in the table that the path was put into.
  record SetsPath (t : Table) (path : List ℕ) (t' : Table) (p : Ref) : Type 0 where
    ready : IsReady t'
    grows : Grows t t'
    found : path_get t' path ≡ some p
    below : BelowOrNull (size t' item_string) p
    others : (type : ℕ) → item_string ≢ type → size t' type ≡ size t type

  pub stringitem_set-Sets :
      (t : Table) (str : List ℕ)
      → IsReady t
      → Outcome t item_string (Item.string str) (stringitem_set malloc t str)
  unfolding stringitem_set
  stringitem_set-Sets t str v =
      set_unique-Sets malloc t item_string (Item.string str) v (omega arith) tt

  path_set-Sets :
      (t : Table) (path : List ℕ)
      → IsReady t
      → (t' : Table) × (p : Ref) × (path_set malloc t path ≡ some (t', p)) × SetsPath t path t' p
  unfolding path_set path_get
  path_set-Sets t [] v = (
    t,
    none,
    refl,
    record { ready = v; grows = Grows-refl t; found = refl; below = tt; others = λ n ne. refl },
  )
  path_set-Sets t (c ∷ path) v =
      let (t', i, e, s) = stringitem_set-Sets t (c ∷ path) v in
      (
        t',
        some i,
        rw e refl,
        record {
          ready = s.ready;
          grows = s.grows;
          found = rw (path_get, s.found) refl;
          below = index-lt t' item_string i _ s.ready s.found;
          others = s.others;
        },
      )

  -- The item of a class that was missed is not in the table that its strings were put into.
  klass-missed :
      (t t2 : Table) (path type : List ℕ) (p : Ref) (n : ℕ)
      → IsReady t
      → IsReady t2
      → Grows t t2
      → size t2 item_type ≡ size t item_type
      → path_get t2 path ≡ some p
      → stringitem_get t2 type ≡ some n
      → klass_get t path type ≡ none
      → find_type t2 (TypeItem.klass p (some n)) ≡ none
  klass-missed t t2 path type p n v v2 g same hp hn missed =
      elim (Option-cases (find_type t2 (TypeItem.klass p (some n)))) [
        | inl e ↦ e
        | inr (j, e) ↦
            let lt : j < size t item_type = omega (arith, same, index-lt t2 item_type j _ v2 e) in
            let found = g.back item_type j _ e lt in
            let below =
              v.refers item_type j _ (get-index entry_equal_iff t item_type _ j v.valid found) in
            let at = Finds-klass_get t path type j (record {
              path_ref = p;
              type_ref = n;
              has_path = path_get-back t t2 g path p hp below.0;
              has_type = g.back item_string n _ hn below.1;
              has_item = found;
            }) in
            absurd (ground arith)
      ]

  -- An array or a variable argument whose element was set: its item refers to the last type, or to one
  -- that was there when the item was missed.
  part-missed :
      (t t1 : Table) (elem : TypeDesc) (k : ℕ) (item : TypeItem)
      → SetsType t elem t1 k
      → ((i : ℕ) (n : ℕ → ℕ) → Refers n i (Item.type item) → k < i)
      → (typeitem_get t elem ≡ some (some k) → find_type t item ≡ none)
      → find_type t1 item ≡ none
  part-missed t t1 elem k item s part missed = elim (Option-cases (find_type t1 item)) [
    | inl e ↦ e
    | inr (j, e) ↦ elim s.last [
      | inl (same, at) ↦ ap (λ (u : Table). find_type u item) same ∙ missed at
      | inr at ↦
          let stands = get-index entry_equal_iff t1 item_type _ j s.ready.valid e in
          let later = part j (size t1) (s.ready.refers item_type j _ stands) in
          absurd (omega (arith, at, later, index-lt t1 item_type j _ s.ready e))
    ]
  ]

  -- On a ready table, `TypeItem_Set` of a simple descriptor fails no assertion: it leaves a ready table
  -- that keeps all items at their indices, in which `TypeItem_Get` finds the descriptor at the
  -- index that was returned.
  pub typeitem_set-SetsType :
      (desc : TypeDesc) (t : Table)
      → IsSimple desc
      → IsReady t
      → TypeOutcome t desc (typeitem_set malloc desc t)
  unfolding typeitem_set
  typeitem_set-SetsType (TypeDesc.base b) t s v =
      or_add-Outcome t (TypeDesc.base b) _ _ v s refl λ missed.
        added t t (TypeDesc.base b) (TypeItem.primitive (base_kind b)) v (Grows-refl t)
          (λ n lt. refl) tt (base-missed t b missed) (λ t2 g. base-found t2 b)
  typeitem_set-SetsType (TypeDesc.klass path type) t s v =
      or_add-Outcome t (TypeDesc.klass path type) _ _ v s refl λ missed.
        let (t1, p, e, sp) = path_set-Sets t path v in
        let (t2, n, e', sn) = stringitem_set-Sets t1 type sp.ready in
        let g = Grows-trans t t1 t2 sp.grows sn.grows in
        let hp = path_get-Grows t1 t2 sn.grows path p sp.found in
        let same = sn.others item_type (ground arith) ∙ sp.others item_type (ground arith) in
        rw (e, e')
          (added t t2 (TypeDesc.klass path type) (TypeItem.klass p (some n)) sn.ready g
            (λ m lt.
              sn.others m (λ same. absurd (omega (arith, same)))
              ∙ sp.others m (λ same. absurd (omega (arith, same))))
            (
              BelowOrNull-mono (size t1 item_string) (size t2 item_string) p
                  (sn.grows.sizes item_string) sp.below,
              index-lt t2 item_string n _ sn.ready sn.found,
            )
            (klass-missed t t2 path type p n v sn.ready g same hp sn.found
              (klass-none t path type missed))
            (λ t3 h.
              klass-found t3 path type p n (path_get-Grows t2 t3 h path p hp)
                (h.finds item_string n _ sn.found)))
  typeitem_set-SetsType (TypeDesc.proto args rets) t s v = absurd s
  typeitem_set-SetsType (TypeDesc.array dims elem) t s v =
      or_add-Outcome t (TypeDesc.array dims elem) _ _ v s refl λ missed.
        let (t1, k, e, se) = typeitem_set-SetsType elem t s v in
        rw e (
          added t t1 (TypeDesc.array dims elem) (TypeItem.array dims (some k)) se.ready se.grows
            se.others se.below
            (part-missed t t1 elem k (TypeItem.array dims (some k)) se (λ i n h. h)
              (λ at. array-none t dims elem k at missed))
            (λ t2 g.
              array-get t2 dims elem k (typeitem_get-Grows t1 t2 g elem k s se.ready se.found)))
  typeitem_set-SetsType (TypeDesc.map key val) t s v = absurd s
  typeitem_set-SetsType (TypeDesc.set elem) t s v = absurd s
  typeitem_set-SetsType (TypeDesc.varg elem) t s v =
      or_add-Outcome t (TypeDesc.varg elem) _ _ v s refl λ missed.
        let (t1, k, e, se) = typeitem_set-SetsType elem t s v in
        rw e (
          added t t1 (TypeDesc.varg elem) (TypeItem.varg (some k)) se.ready se.grows se.others
            se.below
            (part-missed t t1 elem k (TypeItem.varg (some k)) se (λ i n h. h)
              (λ at. varg-none t elem k at missed))
            (λ t2 g. varg-get t2 elem k (typeitem_get-Grows t1 t2 g elem k s se.ready se.found)))
