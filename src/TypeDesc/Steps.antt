-- ===== src/TypeDesc/Steps.antt =====
-- The parser on a printed descriptor, case by case.
use koala_lang_pre.Prelude.{
  ltb, ◌==◌, length, replicate, ℕ, zero, suc, ◌<◌, ◌≡◌, refl, sym, ap, ◌∙◌, subst, ◌⊎◌, inl, inr,
  Bool, true, false, ◌&&◌, some, List, ◌∷◌, ◌++◌, arith,
}
use koala_lang_pre.TypeDesc.{
  Base, TypeDesc, TypeList, byte, char, any, base, klass, proto, array, map, set, varg, cons,
  base_kind, get_basic,
}
use koala_lang_pre.TypeDesc.Parse.{
  Outcome, Parser, ok, ◌>>=◌, peek, split_brackets, switch, basic_case, is_bare, parse_basic, parse,
  parse_list,
}
use koala_lang_pre.TypeDesc.Print.{print}
use koala_lang_pre.TypeDesc.Pieces.{is_plain, split_brackets-append, IsPrintable}

-- The byte that a printed descriptor begins with.
unfoldable pub first_byte : TypeDesc → ℕ
first_byte (base b) = base_kind b
first_byte (klass path type) = b'L'
first_byte (proto args rets) = b'P'
first_byte (array dims b) = b'['
first_byte (map key val) = b'M'
first_byte (set b) = b'S'
first_byte (varg b) = b'.'

pub peek-print : (t : TypeDesc) (r : List ℕ) → IsPrintable t → peek (print t ++ r) ≡ first_byte t
unfolding print first_byte IsPrintable
peek-print (base b) r p = refl
peek-print (array zero b) r p = absurd (omega (arith, p.0))
peek-print (array (suc n) b) r p = refl
peek-print _ r p = refl

first_byte-stop :
    (t : TypeDesc) → ((first_byte t == b':') ≡ false) × ((first_byte t == b';') ≡ false)
unfolding first_byte
first_byte-stop (base byte) = (refl, refl)
first_byte-stop (base _) = (refl, refl)
first_byte-stop _ = (refl, refl)

pub first_byte-bracket : (t : TypeDesc) → is_plain t ≡ true → (first_byte t == b'[') ≡ false
unfolding first_byte
first_byte-bracket (base byte) h = refl
first_byte-bracket (base _) h = refl
first_byte-bracket (array dims b) h = cc
first_byte-bracket _ h = refl

get_basic-base_kind : (b : Base) → get_basic (base_kind b) ≡ some b
unfolding get_basic
get_basic-base_kind byte = refl
get_basic-base_kind _ = refl

switch-base_kind : (b : Base) → switch (base_kind b) ≡ basic_case
switch-base_kind byte = refl
switch-base_kind _ = refl

pub length-print_pos : (t : TypeDesc) → IsPrintable t → 0 < length (print t)
unfolding print IsPrintable
length-print_pos (base b) p = omega arith
length-print_pos (array zero b) p = absurd (omega (arith, p.0))
length-print_pos (array (suc n) b) p = omega arith
length-print_pos _ p = omega arith

-- An array or a variable argument is parsed with no dimensions pending and not as one; any other type
-- not under both.
abbrev pub Allowed : ℕ → Bool → TypeDesc → Type 0
Allowed dims in_varg t =
    (is_bare dims in_varg ≡ true) ⊎ ((is_plain t ≡ true) × (ltb 0 dims && in_varg ≡ false))

pub bare_of :
    (dims : ℕ) (in_varg : Bool) {P : Type 0}
    → (is_bare dims in_varg ≡ true) ⊎ ((false ≡ true) × P)
    → is_bare dims in_varg ≡ true
bare_of dims in_varg (inl h) = h
bare_of dims in_varg (inr h) = cc (h.0)

pub bind-ok :
    {A B : Type 0} {m : Outcome A} {a : A} {s : List ℕ} (k : A → Parser B)
    → m ≡ ok a s
    → (m >>= k) ≡ k a s
bind-ok {B} k e = ap (λ (o : Outcome _). ◌>>=◌ {B = B} o k) e

pub parse-base :
    (b : Base) (f dims : ℕ) (in_varg : Bool) (rest : List ℕ)
    → Allowed dims in_varg (base b)
    → parse (suc f) dims in_varg (base_kind b ∷ rest) ≡ ok (base b) rest
unfolding parse parse_basic get_basic
parse-base byte f dims in_varg rest a = ground arith
parse-base _ f dims in_varg rest a = ground arith

-- The case of an array, after its brackets.
pub parse-array :
    (f n dims : ℕ) (in_varg : Bool) (b : TypeDesc) (s rest : List ℕ)
    → 0 < n
    → is_bare dims in_varg ≡ true
    → (peek s == b'[') ≡ false
    → parse f n false s ≡ ok b rest
    → parse (suc f) dims in_varg (replicate n b'[' ++ s) ≡ ok (array n b) rest
unfolding parse
parse-array f zero dims in_varg b s rest many bare h e = absurd (omega arith)
parse-array f (suc n) dims in_varg b s rest many bare h e =
    let split : split_brackets (b'[' ∷ (replicate n b'[' ++ s)) ≡ (suc n, s) =
      split_brackets-append (suc n) s h in
    let after = λ (r : ℕ × List ℕ). parse f r.0 false r.1 >>= λ c. ok (array r.0 c) in
    rw bare (ap after split ∙ bind-ok (λ c. ok (array (suc n) c)) e)

first_byte-any :
    (b : TypeDesc) → is_plain b ≡ true → (b ≡ base any) ⊎ ((first_byte b == b'A') ≡ false)
unfolding first_byte
first_byte-any (base any) h = inl refl
first_byte-any (base byte) h = inr refl
first_byte-any (base char) h = inr refl
first_byte-any (base _) h = inr refl
first_byte-any (varg b) h = cc
first_byte-any _ h = inr refl

-- The case of a variable argument, after its dots.
pub parse-varg :
    (f dims : ℕ) (in_varg : Bool) (b : TypeDesc) (rest : List ℕ)
    → is_bare dims in_varg ≡ true
    → is_plain b ≡ true
    → IsPrintable b
    → parse f 0 true (print b ++ rest) ≡ ok b rest
    → parse (suc f) dims in_varg (b'.' ∷ b'.' ∷ b'.' ∷ (print b ++ rest)) ≡ ok (varg b) rest
unfolding parse print
parse-varg f dims in_varg b rest bare plain p e = elim (first_byte-any b plain) [
  | inl same ↦
      let P = λ (c : TypeDesc).
        parse (suc f) dims in_varg (b'.' ∷ b'.' ∷ b'.' ∷ (print c ++ rest)) ≡ ok (varg c) rest in
      subst P (sym same) (rw bare)
  | inr other ↦
      let h : (peek (print b ++ rest) == b'A') ≡ false = rw (peek-print b rest p) other in
      rw (bare, h) (bind-ok (λ c. ok (varg c)) e)
]

pub parse-proto :
    (f dims : ℕ) (in_varg : Bool) (args rets : TypeList) (s s' rest : List ℕ)
    → parse_list f b':' s ≡ ok args s'
    → parse_list f b';' s' ≡ ok rets rest
    → parse (suc f) dims in_varg (b'P' ∷ s) ≡ ok (proto args rets) rest
unfolding parse
parse-proto f dims in_varg args rets s s' rest p q =
    bind-ok (λ as' r. parse_list f b';' r >>= λ rs. ok (proto as' rs)) p
    ∙ bind-ok (λ rs. ok (proto args rs)) q

pub parse_list-cons :
    (f stop : ℕ) (t : TypeDesc) (ts : TypeList) (s s' rest : List ℕ)
    → (peek s == stop) ≡ false
    → parse f 0 false s ≡ ok t s'
    → parse_list f stop s' ≡ ok ts rest
    → parse_list (suc f) stop s ≡ ok (cons t ts) rest
unfolding parse
parse_list-cons f stop t ts s s' rest h p q = rw h (
    bind-ok (λ u r. parse_list f stop r >>= λ us. ok (cons u us)) p
    ∙ bind-ok (λ us. ok (cons t us)) q)

pub peek-stop :
    (t : TypeDesc) (r : List ℕ) (stop : ℕ)
    → IsPrintable t
    → (stop ≡ b':') ⊎ (stop ≡ b';')
    → (peek (print t ++ r) == stop) ≡ false
peek-stop t r stop p (inl e) = rw (peek-print t r p, e) (first_byte-stop t).0
peek-stop t r stop p (inr e) = rw (peek-print t r p, e) (first_byte-stop t).1
