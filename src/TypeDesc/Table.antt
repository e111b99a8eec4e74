-- ===== src/TypeDesc/Table.antt =====
-- `descTable` of src/typedesc.c, with `FindTypeDesc`, `new_typedesc` and the `TypeDesc_Get_…` calls of the
-- parser: a descriptor with the text of one that is in the table is that one.
use koala_lang_pre.Prelude.{
  if◌then◌else◌, bytes_eq, ℕ, Bool, false, Option, none, some, List, [], ◌∷◌, ◌++◌,
}
use koala_lang_pre.TypeDesc.{
  Base, TypeDesc, TypeList, base, klass, proto, array, map, set, varg, nil, cons, basic_types, desc,
}
use koala_lang_pre.TypeDesc.Parse.{Outcome, ok, ◌>>=◌, parse}

-- The loop of `init_basictypes`.
unfoldable pub insert_basics : List Base → List TypeDesc
insert_basics [] = []
insert_basics (b ∷ bs) = base b ∷ insert_basics bs

-- `Init_TypeDesc`: the table holds the basic types.
unfoldable pub init_typedesc : List TypeDesc
unfolding insert_basics
init_typedesc = insert_basics basic_types

-- `FindTypeDesc`: the table compares the texts.
unfoldable pub find_typedesc : (ℕ → Bool) → List TypeDesc → List ℕ → Option TypeDesc
find_typedesc malloc [] text = none
find_typedesc malloc (e ∷ types) text =
    if bytes_eq (desc malloc e) text then some e else find_typedesc malloc types text

-- What is common to the `TypeDesc_Get_…` calls: the text is formatted and looked up, and a new descriptor
-- enters the table only where it is not there.
unfoldable pub intern : (ℕ → Bool) → List TypeDesc → TypeDesc → List TypeDesc × TypeDesc
unfolding find_typedesc desc
intern malloc types d = elim (find_typedesc malloc types (desc malloc d)) [
  | none ↦ (types ++ d ∷ [], d)
  | some exist ↦ (types, exist)
]

-- The calls that the parser makes for a descriptor, in its order: the parts before the whole, whose text
-- is formatted from the parts that were got. No call decides how the parser goes on.
unfoldable mutual
  unfolding intern

  pub get : (ℕ → Bool) → List TypeDesc → TypeDesc → List TypeDesc × TypeDesc
  get malloc types (base b) = (types, base b)
  get malloc types (klass path type) = intern malloc types (klass path type)
  get malloc types (proto args rets) =
      let (types1, args') = get_all malloc types args in
      let (types2, rets') = get_all malloc types1 rets in intern malloc types2 (proto args' rets')
  get malloc types (array dims b) =
      let (types1, b') = get malloc types b in intern malloc types1 (array dims b')
  get malloc types (map key val) =
      let (types1, key') = get malloc types key in
      let (types2, val') = get malloc types1 val in intern malloc types2 (map key' val')
  get malloc types (set b) = let (types1, b') = get malloc types b in intern malloc types1 (set b')
  get malloc types (varg b) =
      let (types1, b') = get malloc types b in intern malloc types1 (varg b')

  pub get_all : (ℕ → Bool) → List TypeDesc → TypeList → List TypeDesc × TypeList
  get_all malloc types nil = (types, nil)
  get_all malloc types (cons t ts) =
      let (types1, t') = get malloc types t in
      let (types2, ts') = get_all malloc types1 ts in (types2, cons t' ts')

-- `String_To_TypeDesc(&s, 0, 0)` on the table: the table after it, the descriptor and what is left.
unfoldable pub string_to_typedesc :
    (ℕ → Bool) → List TypeDesc → ℕ → List ℕ → Outcome (List TypeDesc × TypeDesc)
unfolding parse get
string_to_typedesc malloc types f s = parse f 0 false s >>= λ d. ok (get malloc types d)
