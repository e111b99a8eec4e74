-- ===== src/Image/Protos.antt =====
-- `TypeListItem_Set` and `ProtoItem_Set`: a function type of simple arguments and results is
-- stored, and reads back.
use koala_lang_pre.Prelude.{
  Option-cases, ℕ, ◌<◌, ◌≡◌, refl, sym, ap, ◌∙◌, inl, inr, Bool, Option, none, some, List, [], ◌∷◌,
  arith,
}
use koala_lang_pre.TypeDesc.{TypeDesc, TypeList}
use koala_lang_pre.AtomTable.{size, index}
use koala_lang_pre.AtomTable.Laws.{get-index}
use koala_lang_pre.Image.Items.{Ref, Item}
use koala_lang_pre.Image.Key.{entry_key, entry_equal_iff}
use koala_lang_pre.Image.{
  Table, item_typelist, item_proto, list_get, typeitems_get, typelistitem_get, append_list,
  or_add_list, typelistitem_set, protoitem_set,
}
use koala_lang_pre.Image.Read.{proto_to_typedesc, get_proto}
use koala_lang_pre.Image.Ready.{
  BelowOrNull, BelowOrNull-mono, IsReady, Grows, Grows-refl, Grows-trans,
}
use koala_lang_pre.Image.Appends.{append-Sets, set_unique-Sets}
use koala_lang_pre.Image.Parts.{index-lt}
use koala_lang_pre.Image.Sets.{typeitem_set-SetsType}
use koala_lang_pre.Image.Reads.{get_item-index}
use koala_lang_pre.Image.Lists.{
  AllSimple, AllUnder, typeitems_get-Finds, typeitems_get_total, SetsList, SetsList-cons,
  typeitems_set-SetsList, typeitems_get-back, typeitems_get-Grows, ListAt, ListAt-Grows,
  get_typelist-ListAt,
}

-- The list of types stands at `r` in the table `t'`, which `t` has become.
pub record SetsTypelist (t : Table) (ts : TypeList) (t' : Table) (r : Ref) : Type 0 where
  pub ready : IsReady t'
  pub grows : Grows t t'
  pub at : ListAt t' ts r
  pub below : BelowOrNull (size t' item_typelist) r
  pub others : (type : ℕ) → item_typelist < type → size t' type ≡ size t type

-- What `TypeListItem_Get` finds.
typelistitem_get-ListAt :
    (t : Table) (desc : TypeDesc) (more : TypeList) (i : ℕ)
    → typelistitem_get t (TypeList.cons desc more) ≡ some (some i)
    → ListAt t (TypeList.cons desc more) (some i)
unfolding typelistitem_get
typelistitem_get-ListAt t desc more i h =
    elim (Option-cases (typeitems_get t (TypeList.cons desc more))) [
      | inl e ↦ absurd (ground arith)
      | inr (none, e) ↦ absurd (ground arith)
      | inr (some [], e) ↦ absurd (ground arith)
      | inr (some (r ∷ rs), e) ↦ (r ∷ rs, e, ground arith)
    ]

typelistitem_get-some :
    (t : Table) (ts : TypeList) (r : Ref) (rs : List Ref)
    → typeitems_get t ts ≡ some (some (r ∷ rs))
    → typelistitem_get t ts ≡ some (index t item_typelist (Item.typelist (r ∷ rs)))
unfolding typelistitem_get
typelistitem_get-some t ts r rs h = rw (typelistitem_get, h) refl

typelistitem_get_total :
    (t : Table) (ts : TypeList) → AllSimple ts → (r : Ref) × (typelistitem_get t ts ≡ some r)
unfolding typelistitem_get
typelistitem_get_total t ts s =
    let (rs, e) = typeitems_get_total t ts s in (list_get t rs, rw (typelistitem_get, e) refl)

-- A list that was missed is not in the table that its types were put into.
list-missed :
    (t t1 : Table) (desc : TypeDesc) (more : TypeList) (rs : List Ref)
    → AllSimple (TypeList.cons desc more)
    → IsReady t
    → SetsList t (TypeList.cons desc more) t1 rs
    → typelistitem_get t (TypeList.cons desc more) ≡ some none
    → index t1 item_typelist (Item.typelist rs) ≡ none
list-missed t t1 desc more rs ss v s missed =
    elim (Option-cases (index t1 item_typelist (Item.typelist rs))) [
      | inl e ↦ e
      | inr (j, e) ↦
          let lt : j < size t item_typelist = omega (
            arith,
            s.others item_typelist (omega arith),
            index-lt t1 item_typelist j _ s.ready e,
          ) in
          let found = s.grows.back item_typelist j _ e lt in
          let below =
            v.refers item_typelist j _
              (get-index entry_equal_iff t item_typelist _ j v.valid found) in
          let all =
            typeitems_get-back t t1 s.grows (TypeList.cons desc more) rs ss v s.ready s.found
              below in
          let c = typeitems_get-Finds t desc more rs all in
          let w = c.whole in
          let all' = all ∙ ap (λ (l : List Ref). some (some l)) w in
          let found' =
            ap (λ (l : List Ref). index t item_typelist (Item.typelist l)) (sym w) ∙ found in
          let e' = typelistitem_get-some t (TypeList.cons desc more) (some c.first) c.rest all' in
          absurd (ground arith)
    ]

abbrev pub ListOutcome : Table → TypeList → Option (Table × Ref) → Type 0
ListOutcome t ts o = (t' : Table) × (r : Ref) × (o ≡ some (t', r)) × SetsTypelist t ts t' r

module _ (malloc : ℕ → Bool) where
  or_add_list-Outcome :
      (t : Table) (desc : TypeDesc) (more : TypeList) (r : Option Ref) (add : Option (Table × Ref))
      → IsReady t
      → AllSimple (TypeList.cons desc more)
      → typelistitem_get t (TypeList.cons desc more) ≡ r
      → (typelistitem_get t (TypeList.cons desc more) ≡ some none
          → ListOutcome t (TypeList.cons desc more) add)
      → ListOutcome t (TypeList.cons desc more) (or_add_list malloc t r add)
  or_add_list-Outcome t desc more none add v s e h =
      let (r, e') = typelistitem_get_total t (TypeList.cons desc more) s in absurd (ground arith)
  or_add_list-Outcome t desc more (some none) add v s e h = h e
  or_add_list-Outcome t desc more (some (some i)) add v s e h =
      let at = typelistitem_get-ListAt t desc more i e in
      (
        t,
        some i,
        refl,
        record {
          ready = v;
          grows = Grows-refl t;
          at = at;
          below = index-lt t item_typelist i _ v at.2;
          others = λ n lt. refl;
        },
      )

  append_list-Outcome :
      (t t1 : Table) (desc : TypeDesc) (more : TypeList) (rs : List Ref)
      → AllSimple (TypeList.cons desc more)
      → IsReady t
      → SetsList t (TypeList.cons desc more) t1 rs
      → typelistitem_get t (TypeList.cons desc more) ≡ some none
      → ListOutcome t (TypeList.cons desc more) (append_list malloc (t1, rs))
  append_list-Outcome t t1 desc more rs ss v s missed =
      let (t2, i, e, sl) =
        append-Sets malloc t1 item_typelist (Item.typelist rs) s.ready (omega arith) s.below
          (list-missed t t1 desc more rs ss v s missed) in
      (
        t2,
        some i,
        rw e refl,
        record {
          ready = sl.ready;
          grows = Grows-trans t t1 t2 s.grows sl.grows;
          at = (
            rs,
            typeitems_get-Grows t1 t2 sl.grows (TypeList.cons desc more) rs ss s.ready s.found,
            sl.found,
          );
          below = index-lt t2 item_typelist i _ sl.ready sl.found;
          others =
              λ n lt. sl.others n (λ same. absurd (omega (arith, same))) ∙ s.others n (omega arith);
        },
      )

  -- On a ready table, `TypeListItem_Set` of simple descriptors fails no assertion, and the
  -- list stands at the index that it returns.
  pub typelistitem_set-Outcome :
      (ts : TypeList) (t : Table)
      → AllSimple ts
      → IsReady t
      → ListOutcome t ts (typelistitem_set malloc ts t)
  unfolding typelistitem_set
  typelistitem_set-Outcome TypeList.nil t s v = (
    t,
    none,
    refl,
    record { ready = v; grows = Grows-refl t; at = refl; below = tt; others = λ n lt. refl },
  )
  typelistitem_set-Outcome (TypeList.cons desc more) t s v =
      or_add_list-Outcome t desc more _ _ v s refl λ missed.
        let (t1, i, e, sd) = typeitem_set-SetsType malloc desc t s.0 v in
        let (t2, rs, e', sm) = typeitems_set-SetsList malloc more t1 s.1 sd.ready in
        rw (e, e')
          (append_list-Outcome t t2 desc more (some i ∷ rs) s v
            (SetsList-cons t t1 t2 desc more i rs s.0 sd sm) missed)

-- The function type stands at the index `i` in the table `t'`, which `t` has become.
pub record SetsProto (t : Table) (args rets : TypeList) (t' : Table) (i : ℕ) : Type 0 where
  pub ready : IsReady t'
  pub grows : Grows t t'
  pub rindex : Ref
  pub pindex : Ref
  pub found : index t' item_proto (Item.proto rindex pindex) ≡ some i
  pub others : (type : ℕ) → item_proto < type → size t' type ≡ size t type
  pub rets_at : ListAt t' rets rindex
  pub args_at : ListAt t' args pindex

pub protoitem_set-SetsProto :
    (malloc : ℕ → Bool) (t : Table) (args rets : TypeList)
    → AllSimple args
    → AllSimple rets
    → IsReady t
    → (t' : Table) × (i : ℕ) × (protoitem_set malloc t args rets ≡ some (t', i))
      × SetsProto t args rets t' i
unfolding protoitem_set
protoitem_set-SetsProto malloc t args rets sa sr v =
    let (t1, r, e, s1) = typelistitem_set-Outcome malloc rets t sr v in
    let (t2, p, e', s2) = typelistitem_set-Outcome malloc args t1 sa s1.ready in
    let below =
      BelowOrNull-mono (size t1 item_typelist) (size t2 item_typelist) r
        (s2.grows.sizes item_typelist) s1.below in
    let (t3, i, e'', s3) =
      set_unique-Sets malloc t2 item_proto (Item.proto r p) s2.ready (omega arith)
        (below, s2.below) in
    (
      t3,
      i,
      rw (e, e', e'') refl,
      record {
        ready = s3.ready;
        grows = Grows-trans t t1 t3 s1.grows (Grows-trans t1 t2 t3 s2.grows s3.grows);
        rindex = r;
        pindex = p;
        found = s3.found;
        others = λ n lt.
            s3.others n (λ same. absurd (omega (arith, same)))
            ∙ s2.others n (omega arith)
            ∙ s1.others n (omega arith);
        rets_at =
            ListAt-Grows t1 t3 rets r (Grows-trans t1 t2 t3 s2.grows s3.grows) sr s1.ready s1.at;
        args_at = ListAt-Grows t2 t3 args p s3.grows sa s2.ready s2.at;
      },
    )

-- A function type of simple arguments and results reads back from the index at which it stands.
pub get_proto-found :
    (f : ℕ) (t : Table) (args rets : TypeList) (r p : Ref) (i : ℕ)
    → AllSimple args
    → AllSimple rets
    → AllUnder f args
    → AllUnder f rets
    → IsReady t
    → index t item_proto (Item.proto r p) ≡ some i
    → ListAt t rets r
    → ListAt t args p
    → get_proto f t (some i) ≡ some (TypeDesc.proto args rets)
unfolding get_proto proto_to_typedesc
get_proto-found f t args rets r p i sa sr ua ur v found hr ha =
    let (rs, e, e') = get_typelist-ListAt t f rets r v sr ur hr in
    let (ps, d, d') = get_typelist-ListAt t f args p v sa ua ha in
    rw (get_proto, get_item-index t v item_proto i _ found, proto_to_typedesc, e, e', d, d') refl
