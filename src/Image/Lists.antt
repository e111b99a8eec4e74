-- ===== src/Image/Lists.antt =====
-- `TypeListItem_Set` on lists of simple descriptors, which hold no function type, map or set.
use koala_lang_pre.Prelude.{
  Option-cases, ℕ, ◌<◌, ◌≡◌, refl, sym, ap, ◌∙◌, subst, inl, inr, Bool, Option, none, some, List,
  [], ◌∷◌, arith,
}
use koala_lang_pre.TypeDesc.{TypeDesc, TypeList}
use koala_lang_pre.AtomTable.{size, index}
use koala_lang_pre.Image.Items.{Ref, Item}
use koala_lang_pre.Image.Key.{entry_key}
use koala_lang_pre.Image.{
  Table, item_type, item_typelist, typeitem_get, typeitems_get, typeitems_set,
}
use koala_lang_pre.Image.Read.{get_typelist, to_vector, to_typedesc}
use koala_lang_pre.Image.Ready.{AllBelow, IsReady, Grows, Grows-refl, Grows-trans}
use koala_lang_pre.Image.Types.{IsSimple, depth, typeitem_get-Grows, typeitem_get-back}
use koala_lang_pre.Image.Parts.{typeitem_get_total}
use koala_lang_pre.Image.Sets.{SetsType, typeitem_set-SetsType}
use koala_lang_pre.Image.Reads.{get_item-index, typeitem_get-read}

abbrev pub AllSimple : TypeList → Type 0
AllSimple TypeList.nil = Unit {0}
AllSimple (TypeList.cons desc more) = IsSimple desc × AllSimple more

-- All depths are below the fuel.
abbrev pub AllUnder : ℕ → TypeList → Type 0
AllUnder f TypeList.nil = Unit {0}
AllUnder f (TypeList.cons desc more) = (depth desc < f) × AllUnder f more

-- What the loop of `TypeListItem_Get` finds in a list, and what is not there.
typeitems_get-cons :
    (t : Table) (desc : TypeDesc) (more : TypeList) (i : ℕ) (rs : List Ref)
    → typeitem_get t desc ≡ some (some i)
    → typeitems_get t more ≡ some (some rs)
    → typeitems_get t (TypeList.cons desc more) ≡ some (some (some i ∷ rs))
unfolding typeitems_get
typeitems_get-cons t desc more i rs h hs = rw (h, hs) refl

pub record FindsCons (t : Table) (desc : TypeDesc) (more : TypeList) (rs : List Ref) : Type 0 where
  pub first : ℕ
  pub rest : List Ref
  pub has_first : typeitem_get t desc ≡ some (some first)
  pub has_rest : typeitems_get t more ≡ some (some rest)
  pub whole : rs ≡ some first ∷ rest

pub typeitems_get-Finds :
    (t : Table) (desc : TypeDesc) (more : TypeList) (rs : List Ref)
    → typeitems_get t (TypeList.cons desc more) ≡ some (some rs)
    → FindsCons t desc more rs
unfolding typeitems_get
typeitems_get-Finds t desc more rs h = elim (Option-cases (typeitem_get t desc)) [
  | inl e ↦ absurd (ground arith)
  | inr (none, e) ↦ absurd (ground arith)
  | inr (some i, e) ↦ elim (Option-cases (typeitems_get t more)) [
    | inl e' ↦ absurd (ground arith)
    | inr (none, e') ↦ absurd (ground arith)
    | inr (some qs, e') ↦ record {
      first = i;
      rest = qs;
      has_first = e;
      has_rest = e';
      whole = ground arith;
    }
  ]
]

pub typeitems_get_total :
    (t : Table) (ts : TypeList)
    → AllSimple ts
    → (r : Option (List Ref)) × (typeitems_get t ts ≡ some r)
unfolding typeitems_get
typeitems_get_total t TypeList.nil s = (_, refl)
typeitems_get_total t (TypeList.cons desc more) (s, ss) =
    let (r, e) = typeitem_get_total t desc s in
    let (rs, es) = typeitems_get_total t more ss in
    elim r
        as (λ r.
          typeitem_get t desc ≡ some r
          → (q : Option (List Ref)) × (typeitems_get t (TypeList.cons desc more) ≡ some q)) [
            | none ↦ λ e. (none, rw e refl)
            | some i ↦ λ e.
                elim rs
                    as (λ rs.
                      typeitems_get t more ≡ some rs
                      → (q : Option (List Ref)) × (typeitems_get t (TypeList.cons desc more)
                          ≡ some q)) [
                            | none ↦ λ es. (none, rw (e, es) refl)
                            | some qs ↦ λ es. (some (some i ∷ qs), rw (e, es) refl)
                          ]
                  es
          ]
      e

module _ (t t' : Table) (g : Grows t t') where
  pub typeitems_get-Grows :
      (ts : TypeList) (rs : List Ref)
      → AllSimple ts
      → IsReady t
      → typeitems_get t ts ≡ some (some rs)
      → typeitems_get t' ts ≡ some (some rs)
  unfolding typeitems_get
  typeitems_get-Grows TypeList.nil rs s v h = h
  typeitems_get-Grows (TypeList.cons desc more) rs (s, ss) v h =
      let f = typeitems_get-Finds t desc more rs h in
      typeitems_get-cons t' desc more f.first f.rest
        (typeitem_get-Grows t t' g desc f.first s v f.has_first)
        (typeitems_get-Grows more f.rest ss v f.has_rest)
      ∙ ap (λ (l : List Ref). some (some l)) (sym f.whole)

  pub typeitems_get-back :
      (ts : TypeList) (rs : List Ref)
      → AllSimple ts
      → IsReady t
      → IsReady t'
      → typeitems_get t' ts ≡ some (some rs)
      → AllBelow (size t item_type) rs
      → typeitems_get t ts ≡ some (some rs)
  unfolding typeitems_get
  typeitems_get-back TypeList.nil rs s v v' h below = h
  typeitems_get-back (TypeList.cons desc more) rs (s, ss) v v' h below =
      let f = typeitems_get-Finds t' desc more rs h in
      let below' = subst (AllBelow (size t item_type)) f.whole below in
      typeitems_get-cons t desc more f.first f.rest
        (typeitem_get-back t t' g desc f.first s v v' f.has_first below'.0)
        (typeitems_get-back more f.rest ss v v' f.has_rest below'.1)
      ∙ ap (λ (l : List Ref). some (some l)) (sym f.whole)

-- The list has the references `rs` in the table `t'`, which `t` has become.
pub record SetsList (t : Table) (ts : TypeList) (t' : Table) (rs : List Ref) : Type 0 where
  pub ready : IsReady t'
  pub grows : Grows t t'
  pub found : typeitems_get t' ts ≡ some (some rs)
  pub below : AllBelow (size t' item_type) rs
  pub others : (type : ℕ) → item_type < type → size t' type ≡ size t type

pub SetsList-cons :
    (t t1 t2 : Table) (desc : TypeDesc) (more : TypeList) (i : ℕ) (rs : List Ref)
    → IsSimple desc
    → SetsType t desc t1 i
    → SetsList t1 more t2 rs
    → SetsList t (TypeList.cons desc more) t2 (some i ∷ rs)
SetsList-cons t t1 t2 desc more i rs s sd sm = record {
  ready = sm.ready;
  grows = Grows-trans t t1 t2 sd.grows sm.grows;
  found =
      typeitems_get-cons t2 desc more i rs
        (typeitem_get-Grows t1 t2 sm.grows desc i s sd.ready sd.found) sm.found;
  below = (omega (arith, sd.below, sm.grows.sizes item_type), sm.below);
  others = λ n lt. sm.others n lt ∙ sd.others n lt;
}

pub typeitems_set-SetsList :
    (malloc : ℕ → Bool) (ts : TypeList) (t : Table)
    → AllSimple ts
    → IsReady t
    → (t' : Table) × (rs : List Ref) × (typeitems_set malloc ts t ≡ some (t', rs))
      × SetsList t ts t' rs
unfolding typeitems_set typeitems_get
typeitems_set-SetsList malloc TypeList.nil t s v = (
  t,
  [],
  refl,
  record { ready = v; grows = Grows-refl t; found = refl; below = tt; others = λ n lt. refl },
)
typeitems_set-SetsList malloc (TypeList.cons desc more) t (s, ss) v =
    let (t1, i, e, sd) = typeitem_set-SetsType malloc desc t s v in
    let (t2, rs, e', sm) = typeitems_set-SetsList malloc more t1 ss sd.ready in
    (t2, some i ∷ rs, rw (e, e') refl, SetsList-cons t t1 t2 desc more i rs s sd sm)

-- Where a list of types stands, with its types; an empty one stands nowhere.
abbrev pub ListAt : Table → TypeList → Ref → Type 0
ListAt t TypeList.nil r = r ≡ none
ListAt t (TypeList.cons desc more) none = ⊥
ListAt t (TypeList.cons desc more) (some i) =
    (rs : List Ref) × (typeitems_get t (TypeList.cons desc more) ≡ some (some rs))
    × (index t item_typelist (Item.typelist rs) ≡ some i)

pub ListAt-Grows :
    (t t' : Table) (ts : TypeList) (r : Ref)
    → Grows t t'
    → AllSimple ts
    → IsReady t
    → ListAt t ts r
    → ListAt t' ts r
ListAt-Grows t t' TypeList.nil r g s v h = h
ListAt-Grows t t' (TypeList.cons desc more) none g s v h = h
ListAt-Grows t t' (TypeList.cons desc more) (some i) g s v (rs, h, at) = (
  rs,
  typeitems_get-Grows t t' g (TypeList.cons desc more) rs s v h,
  g.finds item_typelist i _ at,
)

to_vector-found :
    (t : Table) (f : ℕ) (ts : TypeList) (rs : List Ref)
    → IsReady t
    → AllSimple ts
    → AllUnder f ts
    → typeitems_get t ts ≡ some (some rs)
    → to_vector (to_typedesc f t) rs ≡ some ts
unfolding typeitems_get to_vector
to_vector-found t f TypeList.nil rs v s u h = let e : [] ≡ rs = ground arith in rw (← e) refl
to_vector-found t f (TypeList.cons desc more) rs v (s, ss) (u, us) h =
    let c = typeitems_get-Finds t desc more rs h in
    rw
      (
        c.whole,
        typeitem_get-read t v f desc c.first s u c.has_first,
        to_vector-found t f more c.rest v ss us c.has_rest,
      )
      refl

-- A list of types reads back from where it stands.
pub get_typelist-ListAt :
    (t : Table) (f : ℕ) (ts : TypeList) (r : Ref)
    → IsReady t
    → AllSimple ts
    → AllUnder f ts
    → ListAt t ts r
    → (rs : List Ref) × (get_typelist t r ≡ some rs) × (to_vector (to_typedesc f t) rs ≡ some ts)
unfolding get_typelist to_vector
get_typelist-ListAt t f TypeList.nil r v s u h = ([], rw h refl, refl)
get_typelist-ListAt t f (TypeList.cons desc more) none v s u h = absurd h
get_typelist-ListAt t f (TypeList.cons desc more) (some i) v s u (rs, h, at) = (
  rs,
  rw (get_typelist, get_item-index t v item_typelist i _ at) refl,
  to_vector-found t f (TypeList.cons desc more) rs v s u h,
)
