-- ===== src/TypeDesc/Parse.antt =====
-- `String_To_TypeDesc`, `string_to_klass` and `String_ToTypeList` of src/typedesc.c: how a descriptor's
-- string is taken apart. No call of a `TypeDesc_Get_…` function decides how the parser goes on, so its
-- result here is the tree of the calls; Table makes them, in the parser's order.
use koala_lang_pre.Prelude.{
  ltb, ◌==◌, if◌then◌else◌, length, take, drop, ℕ, zero, suc, ◌+◌, ◌-◌, Bool, true, false, not,
  ◌&&◌, Option, none, some, List, [], ◌∷◌,
}
use koala_lang_pre.TypeDesc.{
  TypeDesc, TypeList, any, base, klass, proto, array, map, set, varg, nil, cons, get_basic,
}

-- `failed` is an assertion that does not hold, and `stray` a read past the end of the string or a
-- negative length; `no_fuel` has no counterpart in the code.
pub data Outcome (A : Type 0) : Type 0 where
  ok : A → List ℕ → Outcome A
  failed stray no_fuel : Outcome A

abbrev pub Parser : Type 0 → Type 0
Parser A = List ℕ → Outcome A

infixl 1 ◌>>=◌
abbrev pub ◌>>=◌ : {A B : Type 0} → Outcome A → (A → Parser B) → Outcome B
ok a s >>= k = k a s
failed >>= k = failed
stray >>= k = stray
no_fuel >>= k = no_fuel

-- `*s`; the string ends with a NUL.
abbrev pub peek : List ℕ → ℕ
peek [] = 0
peek (c ∷ s) = c

-- `while (*s != ';') s += 1`: the bytes before the semicolon and those after it.
unfoldable pub split_semicolon : List ℕ → Option (List ℕ × List ℕ)
split_semicolon [] = none
split_semicolon (c ∷ s) =
    if c == b';'
    then some ([], s)
    else elim (split_semicolon s) [ none ↦ none | some (k, r) ↦ some (c ∷ k, r) ]

-- `strchr(s, '.')`, as a distance.
unfoldable pub find_dot : List ℕ → Option ℕ
find_dot [] = none
find_dot (c ∷ s) =
    if c == b'.' then some 0 else elim (find_dot s) [ none ↦ none | some d ↦ some (suc d) ]

-- `string_to_klass(s, len)`; the search for the dot goes on past `len`. With no dot the code
-- subtracts from NULL, and with one past `len` it asks for a negative number of bytes.
unfoldable pub string_to_klass : List ℕ → ℕ → Option TypeDesc
string_to_klass s len = elim (find_dot s) [
  | none ↦ none
  | some d ↦
      if ltb d len then some (klass (take d s) (take (len - d - 1) (drop (d + 1) s))) else none
]

-- `while (*s == '[') …`: the number of brackets and what follows them.
unfoldable pub split_brackets : List ℕ → ℕ × List ℕ
split_brackets [] = (0, [])
split_brackets (c ∷ s) =
    let r = split_brackets s in if c == b'[' then (suc r.0, r.1) else (0, c ∷ s)

pub data Case : Type 0 where
  klass_case array_case map_case set_case proto_case varg_case basic_case : Case

-- The labels of the `switch`.
abbrev pub switch : ℕ → Case
switch c =
    if c == b'L'
    then klass_case
    else if c == b'['
    then array_case
    else if c == b'M'
    then map_case
    else if c == b'S'
    then set_case
    else if c == b'P'
    then proto_case
    else if c == b'.'
    then varg_case
    else basic_case

-- The case `L`, after its letter.
unfoldable pub parse_klass : Parser TypeDesc
parse_klass s = elim (split_semicolon s) [
  | none ↦ stray
  | some (k, r) ↦ elim (string_to_klass s (length k)) [ none ↦ stray | some t ↦ ok t r ]
]

-- `assert(_dims == 0 && _varg == 0)`
abbrev pub is_bare : ℕ → Bool → Bool
is_bare dims in_varg = dims == 0 && not in_varg

-- The two dots after the first.
abbrev pub has_dots : List ℕ → Bool
has_dots s = peek s == b'.' && peek (drop 1 s) == b'.'

-- The default case.
unfoldable pub parse_basic : ℕ → Bool → ℕ → Parser TypeDesc
parse_basic dims in_varg c s = elim (get_basic c) [
  | none ↦ failed
  | some b ↦ if ltb 0 dims && in_varg then failed else ok (base b) s
]

-- `String_To_TypeDesc(&s, _dims, _varg)`; what a call leaves of the string is no part of it by
-- structure, so each call costs a unit of fuel.
unfoldable mutual
  pub parse : ℕ → ℕ → Bool → Parser TypeDesc
  parse zero dims in_varg s = no_fuel
  parse (suc f) dims in_varg [] = failed
  parse (suc f) dims in_varg (c ∷ s) = elim (switch c) [
    | klass_case ↦ parse_klass s
    | array_case ↦
        let r = split_brackets (c ∷ s) in
        let rest = parse f r.0 false r.1 >>= λ b. ok (array r.0 b) in
        if is_bare dims in_varg then rest else failed
    | map_case ↦ parse f 0 false s >>= λ key s'. parse f 0 false s' >>= λ val. ok (map key val)
    | set_case ↦ parse f 0 false s >>= λ b. ok (set b)
    | proto_case ↦
        parse_list f b':' s >>= λ args s'. parse_list f b';' s' >>= λ rets. ok (proto args rets)
    | varg_case ↦
        let s' = drop 2 s in
        let rest = parse f 0 true s' >>= λ b. ok (varg b) in
        if is_bare dims in_varg && has_dots s
        then if peek s' == b'A' then ok (varg (base any)) (drop 1 s') else rest
        else failed
    | basic_case ↦ parse_basic dims in_varg c s
  ]

  -- The two loops of the case `P`, up to and past the byte that ends them.
  pub parse_list : ℕ → ℕ → Parser TypeList
  parse_list zero stop s = no_fuel
  parse_list (suc f) stop s =
      let more = parse f 0 false s >>= λ t s'. parse_list f stop s' >>= λ ts. ok (cons t ts) in
      if peek s == stop then ok nil (drop 1 s) else more

-- `String_ToTypeList`
unfoldable pub parse_all : ℕ → Parser TypeList
parse_all zero s = no_fuel
parse_all (suc f) [] = ok nil []
parse_all (suc f) (c ∷ s) =
    parse f 0 false (c ∷ s) >>= λ t s'. parse_all f s' >>= λ ts. ok (cons t ts)
