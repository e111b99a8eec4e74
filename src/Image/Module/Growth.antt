-- ===== src/Image/Module/Growth.antt =====
-- What was read from the table of an image reads the same after the table has grown.
use koala_lang_pre.Prelude.{
  ◌==◌, Option-cases, length, get_elem?, ℕ, zero, suc, ◌<◌, ◌≡◌, refl, sym, ap, ap₂, ◌∙◌, ◌≢◌, inl,
  inr, Bool, true, Option, none, some, List, [], ◌∷◌, ◌++◌, arith,
}
use koala_lang_pre.TypeDesc.{TypeDesc, TypeList}
use koala_lang_pre.AtomTable.{get, size, vector, push}
use koala_lang_pre.AtomTable.Laws.{vector-push, get-push_new, size-push_other}
use koala_lang_pre.AtomTable.Append.{append-push}
use koala_lang_pre.Image.Items.{Ref, TypeItem, Item}
use koala_lang_pre.Image.{
  Table, ◌>>=◌, item_string, item_type, item_typelist, item_proto, item_max, item_const,
}
use koala_lang_pre.Image.Read.{
  get_item, as_string, as_type, as_typelist, as_proto, get_string, get_type, get_typelist, get_path,
  to_vector, proto_to_typedesc, item_to_typedesc, to_typedesc, get_proto,
}
use koala_lang_pre.Image.Key.{entry_key, entry_equal_iff}
use koala_lang_pre.Image.Ready.{Grows, Grows-trans, IsReady, Refers}
use koala_lang_pre.Image.Appends.{push-IsReady, push-Grows}
use koala_lang_pre.Image.Module.{read_all, append_plain}

-- A chain that succeeds, part by part.
pub >>=-some :
    {A B : Type 0} (m : Option A) (k : A → Option B) (b : B)
    → (m >>= k) ≡ some b
    → (a : A) × (m ≡ some a) × (k a ≡ some b)
>>=-some none k b h = cc
>>=-some (some a) k b h = (a, refl, h)

-- A chain succeeds in the same way if its parts do.
pub some->>= :
    {A B : Type 0} (m : Option A) (k : A → Option B) (a : A) (b : B)
    → m ≡ some a
    → k a ≡ some b
    → (m >>= k) ≡ some b
some->>= m k a b e h = rw e h

to_vector-Follows :
    (read read' : Ref → Option TypeDesc) (rs : List Ref) (ts : TypeList)
    → ((r : Ref) (desc : TypeDesc) → read r ≡ some desc → read' r ≡ some desc)
    → to_vector read rs ≡ some ts
    → to_vector read' rs ≡ some ts
unfolding to_vector
to_vector-Follows read read' [] ts follow h = h
to_vector-Follows read read' (r ∷ rs) ts follow h =
    let (desc, e, h') = >>=-some (read r) _ ts h in
    let (more, e', h'') = >>=-some (to_vector read rs) _ ts h' in
    rw (follow r desc e, to_vector-Follows read read' rs more follow e') h''

module _ (t t' : Table) (g : Grows t t') where
  pub get_item-Grows :
      (type : ℕ) (r : Ref) (d : Item) → get_item t type r ≡ some d → get_item t' type r ≡ some d
  unfolding get_item
  get_item-Grows type none d h = h
  get_item-Grows type (some i) d h = g.gets type i d h

  cast-Grows :
      {B : Type 0} (cast : Item → Option B) (type : ℕ) (r : Ref) (b : B)
      → (get_item t type r >>= cast) ≡ some b
      → (get_item t' type r >>= cast) ≡ some b
  cast-Grows cast type r b h =
      let (d, e, h') = >>=-some (get_item t type r) cast b h in rw (get_item-Grows type r d e) h'

  pub get_string-Grows : (r : Ref) (s : List ℕ) → get_string t r ≡ some s → get_string t' r ≡ some s
  get_string-Grows r s h = cast-Grows as_string item_string r s h

  get_path-Grows : (r : Ref) (s : List ℕ) → get_path t r ≡ some s → get_path t' r ≡ some s
  unfolding get_path
  get_path-Grows none s h = h
  get_path-Grows (some i) s h = get_string-Grows (some i) s h

  get_typelist-Grows :
      (r : Ref) (rs : List Ref) → get_typelist t r ≡ some rs → get_typelist t' r ≡ some rs
  unfolding get_typelist
  get_typelist-Grows none rs h = h
  get_typelist-Grows (some i) rs h = cast-Grows as_typelist item_typelist (some i) rs h

  proto-Grows :
      (read read' : Ref → Option TypeDesc) (r p : Ref) (desc : TypeDesc)
      → ((q : Ref) (d : TypeDesc) → read q ≡ some d → read' q ≡ some d)
      → proto_to_typedesc read t r p ≡ some desc
      → proto_to_typedesc read' t' r p ≡ some desc
  unfolding proto_to_typedesc
  proto-Grows read read' r p desc follow h =
      let (rs, e1, h1) = >>=-some (get_typelist t r) _ desc h in
      let (rets, e2, h2) = >>=-some (to_vector read rs) _ desc h1 in
      let (ps, e3, h3) = >>=-some (get_typelist t p) _ desc h2 in
      let (args, e4, h4) = >>=-some (to_vector read ps) _ desc h3 in
      rw
        (
          proto_to_typedesc,
          get_typelist-Grows r rs e1,
          to_vector-Follows read read' rs rets follow e2,
          get_typelist-Grows p ps e3,
          to_vector-Follows read read' ps args follow e4,
        )
        h4

  item-Grows :
      (read read' : Ref → Option TypeDesc) (item : TypeItem) (desc : TypeDesc)
      → ((q : Ref) (d : TypeDesc) → read q ≡ some d → read' q ≡ some d)
      → item_to_typedesc read t item ≡ some desc
      → item_to_typedesc read' t' item ≡ some desc
  unfolding item_to_typedesc
  item-Grows read read' (TypeItem.primitive c) desc follow h = h
  item-Grows read read' (TypeItem.klass p n) desc follow h =
      let (path, e, h') = >>=-some (get_path t p) _ desc h in
      let (name, e', h'') = >>=-some (get_string t n) _ desc h' in
      rw (get_path-Grows p path e, get_string-Grows n name e') h''
  item-Grows read read' (TypeItem.proto q) desc follow h =
      let (d, e, h') = >>=-some (get_item t item_proto q) _ desc h in
      let (q', e', h'') = >>=-some (as_proto d) _ desc h' in
      rw (get_item-Grows item_proto q d e, e') (proto-Grows read read' q'.0 q'.1 desc follow h'')
  item-Grows read read' (TypeItem.array dims q) desc follow h =
      let (elem, e, h') = >>=-some (read q) _ desc h in rw (follow q elem e) h'
  item-Grows read read' (TypeItem.varg q) desc follow h =
      let (elem, e, h') = >>=-some (read q) _ desc h in rw (follow q elem e) h'

  get_type-Grows :
      (r : Ref) (item : TypeItem) → get_type t r ≡ some item → get_type t' r ≡ some item
  get_type-Grows r item h = cast-Grows as_type item_type r item h

  pub to_typedesc-Grows :
      (f : ℕ) (r : Ref) (desc : TypeDesc)
      → to_typedesc f t r ≡ some desc
      → to_typedesc f t' r ≡ some desc
  unfolding to_typedesc
  to_typedesc-Grows zero r desc h = absurd (ground arith)
  to_typedesc-Grows (suc f) r desc h = elim (Option-cases (get_type t r)) [
    | inl e ↦ absurd (ground arith)
    | inr (item, e) ↦
        let here : item_to_typedesc (to_typedesc f t) t item ≡ some desc = ground arith in
        rw (to_typedesc, get_type-Grows r item e)
          (item-Grows (to_typedesc f t) (to_typedesc f t') item desc (to_typedesc-Grows f) here)
  ]

  pub get_proto-Grows :
      (f : ℕ) (r : Ref) (desc : TypeDesc)
      → get_proto f t r ≡ some desc
      → get_proto f t' r ≡ some desc
  unfolding get_proto
  get_proto-Grows f r desc h =
      let (d, e, h') = >>=-some (get_item t item_proto r) _ desc h in
      let (q, e', h'') = >>=-some (as_proto d) _ desc h' in
      rw (get_proto, get_item-Grows item_proto r d e, e')
        (proto-Grows (to_typedesc f t) (to_typedesc f t') q.0 q.1 desc (to_typedesc-Grows f) h'')

-- The loop over a vector that the growth left alone, but for an item at its end.
pub read_all-snoc :
    {B : Type 0} (read read' : Item → Option B) (ds : List Item) (d : Item) (bs : List B) (b : B)
    → ((i : ℕ) (x : Item) (c : B) → get_elem? ds i ≡ some x → read x ≡ some c → read' x ≡ some c)
    → read' d ≡ some b
    → read_all read ds ≡ some bs
    → read_all read' (ds ++ d ∷ []) ≡ some (bs ++ b ∷ [])
unfolding read_all
read_all-snoc read read' [] d bs b follow e h =
    let nil : [] ≡ bs = ground arith in rw (e, ← nil) refl
read_all-snoc read read' (x ∷ ds) d bs b follow e h =
    let (c, hc, h') = >>=-some (read x) _ bs h in
    let (cs, hcs, h'') = >>=-some (read_all read ds) _ bs h' in
    let whole : c ∷ cs ≡ bs = ground arith in
    rw
      (
        follow 0 x c refl hc,
        read_all-snoc read read' ds d cs b (λ i y a at h. follow (suc i) y a at h) e hcs,
        ← whole,
      )
      refl

get_elem?-ext :
    (xs ys : List Item)
    → ((i : ℕ) (x : Item) → get_elem? xs i ≡ some x → get_elem? ys i ≡ some x)
    → length xs ≡ length ys
    → xs ≡ ys
get_elem?-ext [] [] h e = refl
get_elem?-ext [] (y ∷ ys) h e = absurd (omega arith)
get_elem?-ext (x ∷ xs) [] h e = absurd (omega arith)
get_elem?-ext (x ∷ xs) (y ∷ ys) h e =
    let head : y ≡ x = cc (h 0 x refl) in
    ap₂ (λ (z : Item) (l : List Item). z ∷ l) (sym head)
      (get_elem?-ext xs ys (λ i z g. h (suc i) z g) (omega (arith, e)))

-- A vector that keeps its size while the table grows keeps its items.
pub vector-Grows :
    (t t' : Table) (type : ℕ)
    → Grows t t'
    → size t' type ≡ size t type
    → vector t' type ≡ vector t type
unfolding get size
vector-Grows t t' type g e =
    sym (get_elem?-ext (vector t type) (vector t' type) (λ i x h. g.gets type i x h) (sym e))

-- What the image `t` is after an item that is not unique was put at the end of one of its vectors; `t1` is
-- the image with the parts of the item.
pub record Extends (t t1 : Table) (type : ℕ) (d : Item) (t' : Table) : Type 0 where
  pub ready : IsReady t'
  pub grows : Grows t t'
  pub after : Grows t1 t'
  pub at_end : get t' type (size t type) ≡ some d
  pub others : (n : ℕ) → type ≢ n → size t' n ≡ size t1 n
  pub extended : vector t' type ≡ vector t type ++ d ∷ []

pub append_plain-Extends :
    (malloc : ℕ → Bool) (t t1 : Table) (type : ℕ) (d : Item)
    → IsReady t1
    → Grows t t1
    → size t1 type ≡ size t type
    → item_const < type
    → type < item_max
    → Refers (size t1) (size t1 type) d
    → (t' : Table) × (append_plain malloc t1 type d ≡ some (t', size t type))
      × Extends t t1 type d t'
append_plain-Extends malloc t t1 type d v g same plain lt ok =
    let h : type < length t1.items = omega (arith, v.wide) in
    let itself : (type == type) ≡ true = ground arith in
    (
      push t1 type d,
      append-push entry_equal_iff malloc t1 type d h
          ∙ ap (λ (n : ℕ). some (push t1 type d, n)) same,
      record {
        ready = push-IsReady t1 type d v lt ok (inr plain);
        grows = Grows-trans t t1 (push t1 type d) g (push-Grows t1 type d v lt ok);
        after = push-Grows t1 type d v lt ok;
        at_end = ap (get (push t1 type d) type) (sym same) ∙ get-push_new t1 type d h;
        others = λ n ne. size-push_other t1 type d n h ne;
        extended =
            vector-push t1 type d type h
            ∙ rw itself (ap (λ (l : List Item). l ++ d ∷ []) (vector-Grows t t1 type g same));
      },
    )
