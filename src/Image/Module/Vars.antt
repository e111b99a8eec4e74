-- ===== src/Image/Module/Vars.antt =====
-- `KImage_Add_Var` and `KImage_Get_Vars`, and the same for local variables.
use koala_lang_pre.Prelude.{ℕ, ◌<◌, ◌≡◌, refl, ◌∙◌, Bool, some, List, [], ◌∷◌, ◌++◌, arith}
use koala_lang_pre.TypeDesc.{TypeDesc}
use koala_lang_pre.AtomTable.{size, vector}
use koala_lang_pre.Image.Items.{Item}
use koala_lang_pre.Image.{Table, item_string, item_type, item_var, item_locvar}
use koala_lang_pre.Image.Read.{get_string, to_typedesc}
use koala_lang_pre.Image.Ready.{IsReady, Grows, Grows-trans}
use koala_lang_pre.Image.Types.{IsSimple, depth, typeitem_get-Grows}
use koala_lang_pre.Image.Parts.{index-lt}
use koala_lang_pre.Image.Reads.{get_string-get, typeitem_get-read}
use koala_lang_pre.Image.Sets.{typeitem_set-SetsType, stringitem_set-Sets}
use koala_lang_pre.Image.Module.{add_var, add_locvar, read_var, get_vars, read_locvar, get_locvars}
use koala_lang_pre.Image.Module.Growth.{
  >>=-some, get_string-Grows, to_typedesc-Grows, read_all-snoc, append_plain-Extends,
}

module _ (t t' : Table) (g : Grows t t') (f : ℕ) where
  read_var-Grows :
      (d : Item) (v : List ℕ × TypeDesc × ℕ) → read_var f t d ≡ some v → read_var f t' d ≡ some v
  unfolding read_var
  read_var-Grows (Item.var name type konst) v h =
      let (id, e, h') = >>=-some (get_string t name) _ v h in
      let (desc, e', h'') = >>=-some (to_typedesc f t type) _ v h' in
      rw (get_string-Grows t t' g name id e, to_typedesc-Grows t t' g f type desc e') h''
  read_var-Grows d v h = absurd (ground arith)

  read_locvar-Grows :
      (d : Item) (v : List ℕ × TypeDesc × ℕ × ℕ)
      → read_locvar f t d ≡ some v
      → read_locvar f t' d ≡ some v
  unfolding read_locvar
  read_locvar-Grows (Item.locvar name type place owner) v h =
      let (id, e, h') = >>=-some (get_string t name) _ v h in
      let (desc, e', h'') = >>=-some (to_typedesc f t type) _ v h' in
      rw (get_string-Grows t t' g name id e, to_typedesc-Grows t t' g f type desc e') h''
  read_locvar-Grows d v h = absurd (ground arith)

-- On a ready image whose variables can be read, `KImage_Add_Var` of a variable whose type holds no function
-- type succeeds and leaves a ready image, and `KImage_Get_Vars` then hands out the variables from before
-- and, last, the new one with its name, its type and its flag; the fuel is above the type's depth.
pub get_vars-add_var :
    (malloc : ℕ → Bool) (f : ℕ) (t : Table) (name : List ℕ) (desc : TypeDesc) (konst : ℕ)
    (vars : List (List ℕ × TypeDesc × ℕ))
    → IsSimple desc
    → depth desc < f
    → IsReady t
    → get_vars f t ≡ some vars
    → (t' : Table) × (add_var malloc t name desc konst ≡ some (t', size t item_var))
      × IsReady t'
      × (get_vars f t' ≡ some (vars ++ (name, desc, konst) ∷ []))
unfolding add_var get_vars read_var
get_vars-add_var malloc f t name desc konst vars s u v h =
    let (t1, i, e, s1) = typeitem_set-SetsType malloc desc t s v in
    let (t2, n, e', s2) = stringitem_set-Sets malloc t1 name s1.ready in
    let g = Grows-trans t t1 t2 s1.grows s2.grows in
    let same = s2.others item_var (ground arith) ∙ s1.others item_var (omega arith) in
    let item = Item.var (some n) (some i) konst in
    let (t3, e'', x) =
      append_plain-Extends malloc t t2 item_var item s2.ready g same (omega arith) (omega arith) (
        index-lt t2 item_string n _ s2.ready s2.found,
        omega (arith, s1.below, s2.grows.sizes item_type),
      ) in
    let id = get_string-get t2 s2.ready name n s2.found in
    let type =
      typeitem_get-read t2 s2.ready f desc i s u
        (typeitem_get-Grows t1 t2 s2.grows desc i s s1.ready s1.found) in
    let last : read_var f t3 item ≡ some (name, desc, konst) =
      rw
        (
          get_string-Grows t2 t3 x.after (some n) name id,
          to_typedesc-Grows t2 t3 x.after f (some i) desc type,
        )
        refl in
    (
      t3,
      rw (e, e') e'',
      x.ready,
      rw (x.extended) (
          read_all-snoc (read_var f t) (read_var f t3) (vector t item_var) item vars _
            (λ j d c _ r. read_var-Grows t t3 x.grows f d c r) last h),
    )

-- The same of `KImage_Add_LocVar` and `KImage_Get_LocVars`.
pub get_locvars-add_locvar :
    (malloc : ℕ → Bool) (f : ℕ) (t : Table) (name : List ℕ) (desc : TypeDesc) (place owner : ℕ)
    (vars : List (List ℕ × TypeDesc × ℕ × ℕ))
    → IsSimple desc
    → depth desc < f
    → IsReady t
    → get_locvars f t ≡ some vars
    → (t' : Table) × (add_locvar malloc t name desc place owner ≡ some (t', size t item_locvar))
      × IsReady t'
      × (get_locvars f t' ≡ some (vars ++ (name, desc, place, owner) ∷ []))
unfolding add_locvar get_locvars read_locvar
get_locvars-add_locvar malloc f t name desc place owner vars s u v h =
    let (t1, i, e, s1) = typeitem_set-SetsType malloc desc t s v in
    let (t2, n, e', s2) = stringitem_set-Sets malloc t1 name s1.ready in
    let g = Grows-trans t t1 t2 s1.grows s2.grows in
    let same = s2.others item_locvar (ground arith) ∙ s1.others item_locvar (omega arith) in
    let item = Item.locvar (some n) (some i) place owner in
    let (t3, e'', x) =
      append_plain-Extends malloc t t2 item_locvar item s2.ready g same (omega arith) (omega arith)
        (
          index-lt t2 item_string n _ s2.ready s2.found,
          omega (arith, s1.below, s2.grows.sizes item_type),
        ) in
    let id = get_string-get t2 s2.ready name n s2.found in
    let type =
      typeitem_get-read t2 s2.ready f desc i s u
        (typeitem_get-Grows t1 t2 s2.grows desc i s s1.ready s1.found) in
    let last : read_locvar f t3 item ≡ some (name, desc, place, owner) =
      rw
        (
          get_string-Grows t2 t3 x.after (some n) name id,
          to_typedesc-Grows t2 t3 x.after f (some i) desc type,
        )
        refl in
    (
      t3,
      rw (e, e') e'',
      x.ready,
      rw (x.extended) (
          read_all-snoc (read_locvar f t) (read_locvar f t3) (vector t item_locvar) item vars _
            (λ j d c _ r. read_locvar-Grows t t3 x.grows f d c r) last h),
    )
