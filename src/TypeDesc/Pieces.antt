-- ===== src/TypeDesc/Pieces.antt =====
-- The descriptors that the parser reads back, and the pieces of their strings that it splits off.
use koala_lang_pre.Prelude.{
  ltb, ◌==◌, length, replicate, length-append, take-append, drop-append, ℕ, zero, suc, ◌+◌, ◌-◌,
  ◌<◌, ◌≡◌, refl, ap, ◌∙◌, Bool, true, false, some, List, [], ◌∷◌, ◌++◌, append_assoc, arith,
}
use koala_lang_pre.TypeDesc.{
  TypeDesc, TypeList, base, klass, proto, array, map, set, varg, nil, cons,
}
use koala_lang_pre.TypeDesc.Parse.{
  ok, peek, split_semicolon, find_dot, string_to_klass, split_brackets, parse_klass,
}

-- The byte does not occur in the string.
abbrev pub Lacks : ℕ → List ℕ → Type 0
Lacks c [] = Unit {0}
Lacks c (x ∷ s) = ((x == c) ≡ false) × Lacks c s

-- Neither an array nor a variable argument.
abbrev pub is_plain : TypeDesc → Bool
is_plain (array dims b) = false
is_plain (varg b) = false
is_plain _ = true

-- The descriptors that the parser reads back: no map; dimensions counted in one array; no array or
-- variable argument directly under an array or a variable argument; no `;` in a class's names, and no
-- `.` in its path.
unfoldable mutual
  pub IsPrintable : TypeDesc → Type 0
  IsPrintable (base b) = Unit {0}
  IsPrintable (klass path type) = Lacks b'.' path × Lacks b';' path × Lacks b';' type
  IsPrintable (proto args rets) = IsPrintableList args × IsPrintableList rets
  IsPrintable (array dims b) = (0 < dims) × (is_plain b ≡ true) × IsPrintable b
  IsPrintable (map key val) = ⊥
  IsPrintable (set b) = IsPrintable b
  IsPrintable (varg b) = (is_plain b ≡ true) × IsPrintable b

  pub IsPrintableList : TypeList → Type 0
  IsPrintableList nil = Unit {0}
  IsPrintableList (cons t ts) = IsPrintable t × IsPrintableList ts

split_semicolon-append :
    (k r : List ℕ) → Lacks b';' k → split_semicolon (k ++ b';' ∷ r) ≡ some (k, r)
unfolding split_semicolon
split_semicolon-append [] r h = refl
split_semicolon-append (c ∷ k) r h = rw (h.0, split_semicolon-append k r h.1)

find_dot-append : (p s : List ℕ) → Lacks b'.' p → find_dot (p ++ b'.' ∷ s) ≡ some (length p)
unfolding find_dot
find_dot-append [] s h = refl
find_dot-append (c ∷ p) s h = rw (h.0, find_dot-append p s h.1)

Lacks-append : (c : ℕ) (s t : List ℕ) → Lacks c s → Lacks c t → Lacks c (s ++ t)
Lacks-append c [] t h k = k
Lacks-append c (x ∷ s) t h k = (h.0, Lacks-append c s t h.1 k)

string_to_klass-print :
    (p t r : List ℕ) (len : ℕ)
    → Lacks b'.' p
    → len ≡ length p + 1 + length t
    → string_to_klass (p ++ b'.' ∷ (t ++ r)) len ≡ some (klass p t)
unfolding string_to_klass
string_to_klass-print p t r len h e =
    let here : ltb (length p) len ≡ true = ground arith in
    let n : len - length p - 1 ≡ length t = omega arith in
    rw (
      find_dot-append p (t ++ r) h,
      string_to_klass,
      here,
      n,
      drop-append p b'.' (t ++ r),
      take-append p (b'.' ∷ (t ++ r)) (length p) refl,
      take-append t r (length t) refl,
    )

parse_klass-split :
    (s k r : List ℕ) (t : TypeDesc)
    → split_semicolon s ≡ some (k, r)
    → string_to_klass s (length k) ≡ some t
    → parse_klass s ≡ ok t r
unfolding parse_klass
parse_klass-split s k r t e d = rw (parse_klass, e, d)

pub parse_klass-print :
    (p t r : List ℕ)
    → Lacks b'.' p
    → Lacks b';' p
    → Lacks b';' t
    → parse_klass ((p ++ b'.' ∷ (t ++ b';' ∷ [])) ++ r) ≡ ok (klass p t) r
parse_klass-print p t r h h' k =
    let whole : (p ++ b'.' ∷ (t ++ b';' ∷ [])) ++ r ≡ p ++ b'.' ∷ (t ++ b';' ∷ r) =
      simp append_assoc in
    let split : split_semicolon (p ++ b'.' ∷ (t ++ b';' ∷ r)) ≡ some (p ++ b'.' ∷ t, r) =
      rw append_assoc at
        (split_semicolon-append (p ++ b'.' ∷ t) r (Lacks-append b';' p (b'.' ∷ t) h' (refl, k))) in
    let n : length (p ++ b'.' ∷ t) ≡ length p + 1 + length t =
      omega (arith, length-append {0} p (b'.' ∷ t)) in
    ap parse_klass whole
    ∙ parse_klass-split _ (p ++ b'.' ∷ t) r (klass p t) split
        (string_to_klass-print p t (b';' ∷ r) _ h n)

pub split_brackets-append :
    (n : ℕ) (s : List ℕ)
    → (peek s == b'[') ≡ false
    → split_brackets (replicate n b'[' ++ s) ≡ (n, s)
unfolding split_brackets
split_brackets-append zero [] h = refl
split_brackets-append zero (c ∷ s) h = rw h
split_brackets-append (suc n) s h = rw (split_brackets-append n s h)
