-- ===== src/TypeDesc/Sound.antt =====
-- What holds of the table of descriptors, as `Init_TypeDesc` leaves it and with a new entry.
use koala_lang_pre.Prelude.{
  Bool-cases, length, bytes_eq, bytes_eq_refl, bytes_eq_sound, ℕ, ◌≤◌, ◌≡◌, refl, sym, ap, ◌∙◌,
  subst, inl, inr, Bool, true, false, none, some, List, [], ◌∷◌, ◌++◌, append_assoc, arith,
}
use koala_lang_pre.TypeDesc.{Base, TypeDesc, byte, base, base_kind, basic_types, desc}
use koala_lang_pre.TypeDesc.Print.{print}
use koala_lang_pre.TypeDesc.Pieces.{IsPrintable}
use koala_lang_pre.TypeDesc.Table.{insert_basics, init_typedesc, find_typedesc}

-- Printable, with a text that the buffer does not drop.
abbrev pub IsShort : TypeDesc → Type 0
IsShort t = IsPrintable t × (length (print t) ≤ 30)

abbrev pub AllShort : List TypeDesc → Type 0
AllShort [] = Unit {0}
AllShort (t ∷ ts) = IsShort t × AllShort ts

pub AllShort-append : (ts us : List TypeDesc) → AllShort ts → AllShort us → AllShort (ts ++ us)
AllShort-append [] us h k = k
AllShort-append (t ∷ ts) us h k = (h.0, AllShort-append ts us h.1 k)

-- No two entries have the same text.
abbrev pub AreApart : (ℕ → Bool) → List TypeDesc → Type 0
AreApart malloc [] = Unit {0}
AreApart malloc (t ∷ ts) = (find_typedesc malloc ts (desc malloc t) ≡ none) × AreApart malloc ts

-- The table holds short descriptors with different texts, and the basic types are found in it.
pub record IsSound (malloc : ℕ → Bool) (types : List TypeDesc) : Type 0 where
  pub short : AllShort types
  pub apart : AreApart malloc types
  pub basics : (b : Base) → find_typedesc malloc types (base_kind b ∷ []) ≡ some (base b)

-- The table `types'` is `types` with more behind it.
abbrev pub Extends : List TypeDesc → List TypeDesc → Type 0
Extends types types' = (more : List TypeDesc) × (types' ≡ types ++ more)

pub Extends-trans : (a b c : List TypeDesc) → Extends a b → Extends b c → Extends a c
Extends-trans a b c (m, e) (n, d) =
    (m ++ n, d ∙ ap (λ (x : List TypeDesc). x ++ n) e ∙ append_assoc a m n)

pub find_typedesc-append :
    (malloc : ℕ → Bool) (types more : List TypeDesc) (text : List ℕ) (e : TypeDesc)
    → find_typedesc malloc types text ≡ some e
    → find_typedesc malloc (types ++ more) text ≡ some e
unfolding find_typedesc
find_typedesc-append malloc [] more text e h = cc
find_typedesc-append malloc (d ∷ types) more text e h =
    let ih = find_typedesc-append malloc types more text e in ground arith

pub find_typedesc-new :
    (malloc : ℕ → Bool) (types : List TypeDesc) (d : TypeDesc)
    → find_typedesc malloc types (desc malloc d) ≡ none
    → find_typedesc malloc (types ++ d ∷ []) (desc malloc d) ≡ some d
unfolding find_typedesc
find_typedesc-new malloc [] d h = rw (bytes_eq_refl (desc malloc d)) refl
find_typedesc-new malloc (e ∷ types) d h = let ih = find_typedesc-new malloc types d in ground arith

bytes_eq_sym : (s t : List ℕ) → bytes_eq s t ≡ false → bytes_eq t s ≡ false
bytes_eq_sym s t h = elim (Bool-cases (bytes_eq t s)) [
  | inl e ↦
      let same : bytes_eq s t ≡ true =
        subst (λ (x : List ℕ). bytes_eq s x ≡ true) (sym (bytes_eq_sound t s e))
          (bytes_eq_refl s) in
      absurd cc
  | inr e ↦ e
]

find_typedesc-miss :
    (malloc : ℕ → Bool) (types : List TypeDesc) (d : TypeDesc) (text : List ℕ)
    → find_typedesc malloc types text ≡ none
    → bytes_eq (desc malloc d) text ≡ false
    → find_typedesc malloc (types ++ d ∷ []) text ≡ none
unfolding find_typedesc
find_typedesc-miss malloc [] d text h k = rw k refl
find_typedesc-miss malloc (e ∷ types) d text h k =
    let ih = find_typedesc-miss malloc types d text in ground arith

pub AreApart-append :
    (malloc : ℕ → Bool) (types : List TypeDesc) (d : TypeDesc)
    → AreApart malloc types
    → find_typedesc malloc types (desc malloc d) ≡ none
    → AreApart malloc (types ++ d ∷ [])
unfolding find_typedesc
AreApart-append malloc [] d a h = (refl, tt)
AreApart-append malloc (e ∷ types) d a h =
    let other : bytes_eq (desc malloc e) (desc malloc d) ≡ false = ground arith in
    let rest : find_typedesc malloc types (desc malloc d) ≡ none = ground arith in
    (
      find_typedesc-miss malloc types d (desc malloc e) a.0 (bytes_eq_sym _ _ other),
      AreApart-append malloc types d a.1 rest,
    )

insert_basics-short : (bs : List Base) → AllShort (insert_basics bs)
unfolding insert_basics IsPrintable print
insert_basics-short [] = tt
insert_basics-short (b ∷ bs) = ((tt, omega arith), insert_basics-short bs)

init_typedesc-basics :
    (malloc : ℕ → Bool) (b : Base)
    → find_typedesc malloc init_typedesc (base_kind b ∷ []) ≡ some (base b)
unfolding init_typedesc insert_basics find_typedesc desc bytes_eq
init_typedesc-basics malloc byte = refl
init_typedesc-basics malloc _ = refl

init_typedesc-apart : (malloc : ℕ → Bool) → AreApart malloc init_typedesc
unfolding init_typedesc insert_basics find_typedesc desc bytes_eq
init_typedesc-apart malloc = (refl, (refl, (refl, (refl, (refl, (refl, (refl, (refl, tt))))))))

-- The table that `Init_TypeDesc` leaves has the basic types and nothing else.
pub init_typedesc-IsSound : (malloc : ℕ → Bool) → IsSound malloc init_typedesc
unfolding init_typedesc
init_typedesc-IsSound malloc = record {
  short = insert_basics-short basic_types;
  apart = init_typedesc-apart malloc;
  basics = init_typedesc-basics malloc;
}
