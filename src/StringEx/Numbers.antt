-- ===== src/StringEx/Numbers.antt =====
-- Numbers in the three notations, with white space around them.
use koala_lang_pre.Prelude.{
  ◌==◌, if◌then◌else◌, length, ℕ, ◌+◌, ◌*◌, ◌^◌, ◌≡◌, refl, sym, ap, ◌∙◌, ◌≢◌, Bool, true, false,
  not, ◌&&◌, ◌||◌, Option, none, some, List, [], ◌∷◌, ◌++◌, arith,
}
use mathlib.Core.Path.{ap₂}
use native.Mathlib.Nat.{pow-zero, pow-succ'}
use koala_lang_pre.StringEx.Digits.{
  Notation, decimal, octal, hex, digits_of, value_of, base_of, place_value, to_int64, reads,
  at_place,
}
use koala_lang_pre.StringEx.{
  is_space, trim_left, trim_right, string_trim, all_of, between, is_hex, number, clamp, read_number,
  string_to_int64, cons_or_space, digit, read_digits,
}

abbrev pub is_ink : ℕ → Bool
is_ink c = not (is_space c)

both : (x y : Bool) → (x && y) ≡ true → (x ≡ true) × (y ≡ true)
both true true h = (refl, refl)
both true false h = cc
both false y h = cc

no_space : (c : ℕ) → is_ink c ≡ true → is_space c ≡ false
no_space c h = not_true (is_space c) h
  where
    not_true : (b : Bool) → not b ≡ true → b ≡ false
    not_true true e = cc
    not_true false e = refl

trim_left-append :
    (pre cs : List ℕ) → all_of is_space pre ≡ true → trim_left (pre ++ cs) ≡ trim_left cs
unfolding trim_left all_of
trim_left-append [] cs h = refl
trim_left-append (c ∷ pre) cs h =
    let (a, b) = both (is_space c) (all_of is_space pre) h in rw a (trim_left-append pre cs b)

trim_right-spaces : (post : List ℕ) → all_of is_space post ≡ true → trim_right post ≡ []
unfolding trim_right all_of
trim_right-spaces [] h = refl
trim_right-spaces (c ∷ post) h =
    let (a, b) = both (is_space c) (all_of is_space post) h in rw (trim_right-spaces post b, a) refl

trim_right-append :
    (cs post : List ℕ)
    → all_of is_ink cs ≡ true
    → all_of is_space post ≡ true
    → trim_right (cs ++ post) ≡ cs
unfolding trim_right all_of
trim_right-append [] post h s = trim_right-spaces post s
trim_right-append (c ∷ []) post h s =
    let (a, b) = both (is_ink c) true h in
    let ink = no_space c a in rw (trim_right-spaces post s, ink) refl
trim_right-append (c ∷ d ∷ cs) post h s =
    let (a, b) = both (is_ink c) (all_of is_ink (d ∷ cs)) h in
    ap (cons_or_space c) (trim_right-append (d ∷ cs) post b s)

-- A text without spaces in it, which is not empty, is what is left of it with spaces around.
pub string_trim-append :
    (pre : List ℕ) (c : ℕ) (cs post : List ℕ)
    → all_of is_space pre ≡ true
    → all_of is_ink (c ∷ cs) ≡ true
    → all_of is_space post ≡ true
    → string_trim (pre ++ (c ∷ cs ++ post)) ≡ c ∷ cs
unfolding string_trim all_of trim_left
string_trim-append pre c cs post before h after =
    let (a, b) = both (is_ink c) (all_of is_ink cs) h in
    let ink = no_space c a in
    let left : trim_left (c ∷ (cs ++ post)) ≡ c ∷ (cs ++ post) = rw ink refl in
    ap trim_right (trim_left-append pre (c ∷ (cs ++ post)) before ∙ left)
    ∙ trim_right-append (c ∷ cs) post h after

abbrev pub prefix : Notation → List ℕ
prefix decimal = []
prefix octal = b'0' ∷ []
prefix hex = b'0' ∷ b'x' ∷ []

-- The digits that are accepted.
abbrev pub test_of : Notation → ℕ → Bool
test_of decimal = between b'0' b'9'
test_of octal = between b'0' b'7'
test_of hex = is_hex

-- A decimal number does not begin with a 0, and an octal one not with the mark of the other.
abbrev pub Leads : Notation → List ℕ → Type 0
Leads decimal [] = ⊥
Leads decimal (c ∷ cs) = c ≢ b'0'
Leads octal [] = Unit {0}
Leads octal (c ∷ cs) = (c ≢ b'x') × (c ≢ b'X')
Leads hex cs = Unit {0}

-- What the code accepts, and the value it gives, is what the table has.
digit-value :
    (n : Notation) (c : ℕ)
    → value_of c (digits_of n) ≡ (if test_of n c then some (digit c) else none)
digit-value decimal c = ground arith
digit-value octal c = ground arith
digit-value hex c = ground arith

places :
    (read base w d rest : ℕ)
    → (read * base + d) * w + rest ≡ read * (base * w) + ((0 * base + d) * w + rest)
places read base w d rest = grind arith

number-read :
    (base read : ℕ) (cs : List ℕ) → number base read cs ≡ read * base ^ length cs + number base 0 cs
unfolding number
number-read base read [] =
    let one : base ^ 0 ≡ 1 = pow-zero base in rw (ap (λ (x : ℕ). read * x) one) (omega arith)
number-read base read (c ∷ cs) =
    let w = base ^ length cs in
    let a = number-read base (read * base + digit c) cs in
    let b = number-read base (0 * base + digit c) cs in
    let e : base ^ length (c ∷ cs) ≡ base * w = pow-succ' base (length cs) in
    a
    ∙ places read base w (digit c) (number base 0 cs)
    ∙ ap (λ (x : ℕ). read * (base * w) + x) (sym b)
    ∙ ap (λ (x : ℕ). read * x + number base (0 * base + digit c) cs) (sym e)

number-first :
    (base d : ℕ) (cs : List ℕ)
    → number base (0 * base + d) cs ≡ d * base ^ length cs + number base 0 cs
number-first base d cs =
    let none_read : 0 * base + d ≡ d = omega arith in
    ap (λ (x : ℕ). number base x cs) none_read ∙ number-read base d cs

at_place-both :
    (b c : Bool) (d weight r : ℕ)
    → at_place (if b then some d else none) weight (if c then some r else none)
      ≡ (if b && c then some (d * weight + r) else none)
at_place-both true true d weight r = refl
at_place-both true false d weight r = refl
at_place-both false c d weight r = refl

place_value-number :
    (n : Notation) (cs : List ℕ)
    → place_value n cs ≡ (if all_of (test_of n) cs then some (number (base_of n) 0 cs) else none)
unfolding place_value all_of number
place_value-number n [] = refl
place_value-number n (c ∷ cs) =
    let w = base_of n ^ length cs in
    let v = number (base_of n) 0 cs in
    ap₂ (λ (x y : Option ℕ). at_place x w y) (digit-value n c) (place_value-number n cs)
    ∙ at_place-both (test_of n c) (all_of (test_of n) cs) (digit c) w v
    ∙ ap (λ (x : ℕ). if test_of n c && all_of (test_of n) cs then some x else none)
        (sym (number-first (base_of n) (digit c) cs))

clamp-to_int64 : (v : ℕ) → clamp v ≡ to_int64 v
clamp-to_int64 v = ground arith

map_int64 :
    (b : Bool) (v : ℕ)
    → (if b then some (clamp v) else none)
      ≡ elim (if b then some v else none) [ none ↦ none | some x ↦ some (to_int64 x) ]
map_int64 true v = ap some (clamp-to_int64 v)
map_int64 false v = refl

read_digits-reads :
    (n : Notation) (ds : List ℕ) → read_digits (test_of n) (base_of n) ds ≡ reads n ds
unfolding reads all_of number
read_digits-reads n ds = rw (reads, place_value-number n ds) (map_int64 (all_of (test_of n) ds) _)

read_number-prefix :
    (n : Notation) (ds : List ℕ) → Leads n ds → read_number (prefix n ++ ds) ≡ reads n ds
unfolding read_number all_of number
read_number-prefix hex ds l = read_digits-reads hex ds
read_number-prefix octal [] l = read_digits-reads octal []
read_number-prefix octal (d ∷ ds) l =
    let not_x : (d == b'x' || d == b'X') ≡ false = ground (arith, l.0, l.1) in
    rw not_x (read_digits-reads octal (d ∷ ds))
read_number-prefix decimal [] l = absurd l
read_number-prefix decimal (d ∷ []) l =
    let not_0 : (d == b'0') ≡ false = ground arith in rw not_0 (read_digits-reads decimal (d ∷ []))
read_number-prefix decimal (d ∷ x ∷ ds) l =
    let not_0 : (d == b'0') ≡ false = ground arith in
    rw not_0 (read_digits-reads decimal (d ∷ x ∷ ds))

trim-prefix :
    (n : Notation) (pre ds post : List ℕ)
    → all_of is_space pre ≡ true
    → all_of is_space post ≡ true
    → all_of is_ink ds ≡ true
    → Leads n ds
    → string_trim (pre ++ ((prefix n ++ ds) ++ post)) ≡ prefix n ++ ds
unfolding all_of
trim-prefix hex pre ds post a b h l = string_trim-append pre b'0' (b'x' ∷ ds) post a h b
trim-prefix octal pre ds post a b h l = string_trim-append pre b'0' ds post a h b
trim-prefix decimal pre [] post a b h l = absurd l
trim-prefix decimal pre (d ∷ ds) post a b h l = string_trim-append pre d ds post a h b

-- Digits of a notation behind its prefix, with white space around, are read as the number that they
-- stand for by their places, or as the greatest `int64` if that is less; if a character is not in the
-- notation's table of digits, the text is refused. In the table of the hexadecimal digits there is no
-- capital F. The digits hold no white space; decimal ones begin with a character that is not 0, and
-- octal ones do not begin with an x or an X.
pub string_to_int64-reads :
    (n : Notation) (pre ds post : List ℕ)
    → all_of is_space pre ≡ true
    → all_of is_space post ≡ true
    → all_of is_ink ds ≡ true
    → Leads n ds
    → string_to_int64 (pre ++ ((prefix n ++ ds) ++ post)) ≡ reads n ds
unfolding string_to_int64
string_to_int64-reads n pre ds post a b h l =
    ap read_number (trim-prefix n pre ds post a b h l) ∙ read_number-prefix n ds l
