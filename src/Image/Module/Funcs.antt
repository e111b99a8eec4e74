-- ===== src/Image/Module/Funcs.antt =====
-- `KImage_Add_Func` and `KImage_Get_Funcs`.
use koala_lang_pre.Prelude.{ℕ, ◌≡◌, refl, sym, ◌∙◌, Bool, none, some, List, [], ◌∷◌, ◌++◌, arith}
use koala_lang_pre.TypeDesc.{TypeDesc, TypeList}
use koala_lang_pre.AtomTable.{get, size, vector}
use koala_lang_pre.AtomTable.Laws.{get-lt, get-some}
use koala_lang_pre.Image.Items.{Ref, Item}
use koala_lang_pre.Image.Key.{entry_key}
use koala_lang_pre.Image.{Table, item_string, item_func, item_code, item_proto}
use koala_lang_pre.Image.Read.{get_item, get_string, get_proto}
use koala_lang_pre.Image.Ready.{Refers, IsReady, Grows, Grows-refl, Grows-trans}
use koala_lang_pre.Image.Parts.{index-lt}
use koala_lang_pre.Image.Reads.{get_string-get}
use koala_lang_pre.Image.Lists.{AllSimple, AllUnder}
use koala_lang_pre.Image.Protos.{protoitem_set-SetsProto, get_proto-found}
use koala_lang_pre.Image.Sets.{stringitem_set-Sets}
use koala_lang_pre.Image.Module.{codeitem_set, add_func, read_func, get_funcs}
use koala_lang_pre.Image.Module.Growth.{
  >>=-some, get_item-Grows, get_string-Grows, get_proto-Grows, read_all-snoc, append_plain-Extends,
}

get_item-some :
    (t : Table) (type i : ℕ) {d : Item} → get t type i ≡ some d → get_item t type (some i) ≡ some d
unfolding get_item
get_item-some t type i h = h

module _ (t t' : Table) (v : IsReady t) (g : Grows t t') where
  -- The bytes of a function that is there stay what they are.
  codes-Grows :
      (i : ℕ) (name proto code : Ref)
      → get t item_func i ≡ some (Item.func name proto code)
      → get_item t' item_code code ≡ get_item t item_code code
  unfolding get_item
  codes-Grows i name proto none at = absurd (v.refers item_func i _ at).2
  codes-Grows i name proto (some k) at =
      let (d, e) = get-some t item_code k (v.refers item_func i _ at).2 in
      g.gets item_code k d e ∙ sym e

  read_func-Grows :
      (f i : ℕ) (d : Item) (r : List ℕ × TypeDesc × List ℕ)
      → get t item_func i ≡ some d
      → read_func f t d ≡ some r
      → read_func f t' d ≡ some r
  unfolding read_func
  read_func-Grows f i (Item.func name proto code) r at h =
      let (id, e, h') = >>=-some (get_string t name) _ r h in
      let (desc, e', h'') = >>=-some (get_proto f t proto) _ r h' in
      rw
        (
          get_string-Grows t t' g name id e,
          get_proto-Grows t t' g f proto desc e',
          codes-Grows i name proto code at,
        )
        h''
  read_func-Grows f i d r at h = absurd (ground arith)

pub get_funcs-add_func :
    (malloc : ℕ → Bool) (f : ℕ) (t : Table) (name : List ℕ) (args rets : TypeList) (codes : List ℕ)
    (funcs : List (List ℕ × TypeDesc × List ℕ))
    → AllSimple args
    → AllSimple rets
    → AllUnder f args
    → AllUnder f rets
    → IsReady t
    → get_funcs f t ≡ some funcs
    → (t' : Table) × (add_func malloc t name args rets codes ≡ some (t', size t item_func))
      × IsReady t'
      × (get_funcs f t' ≡ some (funcs ++ (name, TypeDesc.proto args rets, codes) ∷ []))
unfolding add_func codeitem_set get_funcs read_func get vector
get_funcs-add_func malloc f t name args rets codes funcs sa sr ua ur v h =
    let (t1, n, e1, s1) = stringitem_set-Sets malloc t name v in
    let (t2, i, e2, s2) = protoitem_set-SetsProto malloc t1 args rets sa sr s1.ready in
    let (t3, e3, s3) =
      append_plain-Extends malloc t2 t2 item_code (Item.code codes) s2.ready (Grows-refl t2) refl
        (omega arith) (omega arith) tt in
    let g2 = Grows-trans t1 t2 t3 s2.grows s3.grows in
    let g = Grows-trans t t1 t3 s1.grows g2 in
    let code = size t2 item_code in
    let item = Item.func (some n) (some i) (some code) in
    let stands : get t3 item_code code ≡ some (Item.code codes) = s3.at_end in
    let same : size t3 item_func ≡ size t item_func =
      s3.others item_func (λ same. absurd (omega (arith, same)))
      ∙ s2.others item_func (omega arith)
      ∙ s1.others item_func (λ same. absurd (omega (arith, same))) in
    let refers : Refers (size t3) (size t3 item_func) item = (
      omega (arith, index-lt t1 item_string n _ s1.ready s1.found, g2.sizes item_string),
      omega (arith, index-lt t2 item_proto i _ s2.ready s2.found, s3.grows.sizes item_proto),
      get-lt t3 item_code code stands,
    ) in
    let (t4, e4, x) =
      append_plain-Extends malloc t t3 item_func item s3.ready g same (omega arith) (omega arith)
        refers in
    let id = get_string-get t1 s1.ready name n s1.found in
    let proto =
      get_proto-found f t2 args rets s2.rindex s2.pindex i sa sr ua ur s2.ready s2.found s2.rets_at
        s2.args_at in
    let desc = TypeDesc.proto args rets in
    let last : read_func f t4 item ≡ some (name, TypeDesc.proto args rets, codes) =
      rw
        (
          get_string-Grows t3 t4 x.after (some n) name (get_string-Grows t1 t3 g2 (some n) name id),
          get_proto-Grows t3 t4 x.after f (some i) desc
              (get_proto-Grows t2 t3 s3.grows f (some i) desc proto),
          get_item-Grows t3 t4 x.after item_code (some code) (Item.code codes)
              (get_item-some t3 item_code code stands),
        )
        refl in
    (
      t4,
      rw (e1, e2, e3) e4,
      x.ready,
      rw (x.extended) (
          read_all-snoc (read_func f t) (read_func f t4) (vector t item_func) item funcs _
            (λ j d c at r. read_func-Grows t t4 v x.grows f j d c at r) last h),
    )
