-- ===== src/TypeDesc/Total.antt =====
-- The parser ends: fuel above twice the length of the string is enough.
use koala_lang_pre.Prelude.{
  ◌==◌, if_ind, length, drop, ℕ, zero, suc, ◌*◌, ◌≤◌, ◌<◌, ◌≡◌, refl, Bool, true, false, ◌&&◌,
  Option, none, some, List, [], ◌∷◌, arith,
}
use koala_lang_pre.TypeDesc.{TypeDesc}
use koala_lang_pre.TypeDesc.Parse.{
  Outcome, Parser, ok, failed, stray, no_fuel, ◌>>=◌, peek, split_semicolon, string_to_klass,
  split_brackets, Case, switch, klass_case, array_case, map_case, set_case, proto_case, varg_case,
  basic_case, parse_klass, is_bare, has_dots, parse_basic, parse, parse_list, parse_all,
}

-- Not out of fuel, and what is left after a success has fewer than n bytes.
abbrev pub Ends : {A : Type 0} → ℕ → Outcome A → Type 0
Ends n (ok a s) = length s < n
Ends n failed = Unit {0}
Ends n stray = Unit {0}
Ends n no_fuel = ⊥

Ends-weaken : {A : Type 0} (n n' : ℕ) (m : Outcome A) → n ≤ n' → Ends n m → Ends n' m
Ends-weaken n n' (ok a s) h e = omega arith
Ends-weaken n n' failed h e = tt
Ends-weaken n n' stray h e = tt
Ends-weaken n n' no_fuel h e = e

-- What is left after the semicolon, if there is one, has fewer than n bytes.
abbrev Shorter : ℕ → Option (List ℕ × List ℕ) → Type 0
Shorter n none = Unit {0}
Shorter n (some (k, r)) = length r < n

cons-Shorter :
    (c n : ℕ) (o : Option (List ℕ × List ℕ))
    → Shorter n o
    → Shorter (suc n) (elim o [ none ↦ none | some (k, r) ↦ some (c ∷ k, r) ])
cons-Shorter c n none h = tt
cons-Shorter c n (some (k, r)) h = omega arith

split_semicolon-Shorter : (s : List ℕ) → Shorter (length s) (split_semicolon s)
unfolding split_semicolon
split_semicolon-Shorter [] = tt
split_semicolon-Shorter (c ∷ s) =
    if_ind (Shorter (suc (length s))) (c == b';') (λ _. omega arith)
      (λ _. cons-Shorter c (length s) (split_semicolon s) (split_semicolon-Shorter s))

split_brackets-shorter : (s : List ℕ) → length (split_brackets s).1 ≤ length s
unfolding split_brackets
split_brackets-shorter [] = omega arith
split_brackets-shorter (c ∷ s) = let ih = split_brackets-shorter s in ground arith

klass-Ends :
    (n : ℕ) (r : List ℕ) (o : Option TypeDesc)
    → length r < n
    → Ends n (elim o [ none ↦ stray | some t ↦ ok t r ])
klass-Ends n r none h = tt
klass-Ends n r (some t) h = h

parse_klass-Ends : (s : List ℕ) → Ends (length s) (parse_klass s)
unfolding parse_klass
parse_klass-Ends s =
    (elim (split_semicolon s)
        as (λ o.
          Shorter (length s) o
          → Ends (length s) (elim o [
            | none ↦ stray
            | some (k, r) ↦ elim (string_to_klass s (length k)) [ none ↦ stray | some t ↦ ok t r ]
          ])) [
            | none ↦ λ h. tt
            | some (k, r) ↦ λ h. klass-Ends (length s) r (string_to_klass s (length k)) h
          ])
      (split_semicolon-Shorter s)

parse_basic-Ends :
    (dims : ℕ) (in_varg : Bool) (c : ℕ) (s : List ℕ)
    → Ends (suc (length s)) (parse_basic dims in_varg c s)
unfolding parse_basic
parse_basic-Ends dims in_varg c s = ground arith

-- A property of what a switch yields, case by case.
switch_ind :
    {A : Type 0} (P : A → Type 0) (k : Case) {l a m s p v b : A}
    → P l
    → (k ≡ array_case → P a)
    → P m
    → P s
    → P p
    → P v
    → P b
    → P (elim k [
      | klass_case ↦ l
      | array_case ↦ a
      | map_case ↦ m
      | set_case ↦ s
      | proto_case ↦ p
      | varg_case ↦ v
      | basic_case ↦ b
    ])
switch_ind P klass_case l a m s p v b = l
switch_ind P array_case l a m s p v b = a refl
switch_ind P map_case l a m s p v b = m
switch_ind P set_case l a m s p v b = s
switch_ind P proto_case l a m s p v b = p
switch_ind P varg_case l a m s p v b = v
switch_ind P basic_case l a m s p v b = b

peeked : (stop : ℕ) (s : List ℕ) → 0 < stop → (peek s == stop) ≡ true → length (drop 1 s) < length s
peeked stop [] q e = ground arith
peeked stop (c ∷ s) q e = omega arith

drop-shorter : (n : ℕ) (s : List ℕ) → length (drop n s) ≤ length s
drop-shorter zero s = omega arith
drop-shorter (suc n) [] = omega arith
drop-shorter (suc n) (c ∷ s) = omega (arith, drop-shorter n s)

switch-array : (c : ℕ) → switch c ≡ array_case → (c == b'[') ≡ true
switch-array c e = ground arith

brackets-shorter :
    (c : ℕ) (s : List ℕ) → (c == b'[') ≡ true → length (split_brackets (c ∷ s)).1 < suc (length s)
unfolding split_brackets
brackets-shorter c s e = let h = split_brackets-shorter s in rw e (omega arith)

-- A first part that ends within fewer bytes, and then a second part.
bind-shorter :
    {A B : Type 0} (n n' : ℕ) (m : Outcome A) (k : A → Parser B)
    → n ≤ n'
    → Ends n m
    → ((a : A) (s : List ℕ) → length s < n → Ends n' (k a s))
    → Ends n' (m >>= k)
bind-shorter n n' (ok a s) k h e f = f a s e
bind-shorter n n' failed k h e f = tt
bind-shorter n n' stray k h e f = tt
bind-shorter n n' no_fuel k h e f = e

mutual
  unfolding parse

  parse-Ends_at :
      (f dims : ℕ) (in_varg : Bool) (s : List ℕ)
      → 2 * length s < f
      → Ends (length s) (parse f dims in_varg s)
  parse-Ends_at zero dims in_varg s h = absurd (omega arith)
  parse-Ends_at (suc f) dims in_varg [] h = tt
  parse-Ends_at (suc f) dims in_varg (c ∷ s) h =
      let n = suc (length s) in
      let s₂ = drop 2 s in
      let few : length s₂ ≤ length s = drop-shorter 2 s in
      let fewer : length (drop 1 s₂) ≤ length s₂ = drop-shorter 1 s₂ in
      let r = split_brackets (c ∷ s) in
      switch_ind (Ends n) (switch c)
        (Ends-weaken (length s) n (parse_klass s) (omega arith) (parse_klass-Ends s))
        (λ e.
          let less : length r.1 < n = brackets-shorter c s (switch-array c e) in
          if_ind (Ends n) (is_bare dims in_varg)
            (λ _.
              bind-shorter (length r.1) n (parse f r.0 false r.1) _ (omega arith)
                (parse-Ends_at f r.0 false r.1 (omega arith)) (λ b s' l. omega arith))
            (λ _. tt))
        (bind-shorter (length s) n (parse f 0 false s) _ (omega arith)
          (parse-Ends_at f 0 false s (omega arith))
          (λ key s' l.
            bind-shorter (length s') n (parse f 0 false s') _ (omega arith)
              (parse-Ends_at f 0 false s' (omega arith)) (λ val s'' l'. omega arith)))
        (bind-shorter (length s) n (parse f 0 false s) _ (omega arith)
          (parse-Ends_at f 0 false s (omega arith)) (λ b s' l. omega arith))
        (bind-shorter (length s) n (parse_list f b':' s) _ (omega arith)
          (parse_list-Ends_at f b':' s (omega arith) (omega arith))
          (λ args s' l.
            bind-shorter (length s') n (parse_list f b';' s') _ (omega arith)
              (parse_list-Ends_at f b';' s' (omega arith) (omega arith))
              (λ rets s'' l'. omega arith)))
        (if_ind (Ends n) (is_bare dims in_varg && has_dots s)
          (λ _.
            if_ind (Ends n) (peek s₂ == b'A') (λ _. omega arith)
              (λ _.
                bind-shorter (length s₂) n (parse f 0 true s₂) _ (omega arith)
                  (parse-Ends_at f 0 true s₂ (omega arith)) (λ b s' l. omega arith)))
          (λ _. tt))
        (parse_basic-Ends dims in_varg c s)

  parse_list-Ends_at :
      (f stop : ℕ) (s : List ℕ)
      → suc (2 * length s) < f
      → 0 < stop
      → Ends (length s) (parse_list f stop s)
  parse_list-Ends_at zero stop s h q = absurd (omega arith)
  parse_list-Ends_at (suc f) stop s h q =
      if_ind (Ends (length s)) (peek s == stop) (λ e. peeked stop s q e)
        (λ _.
          bind-shorter (length s) (length s) (parse f 0 false s) _ (omega arith)
            (parse-Ends_at f 0 false s (omega arith))
            (λ t s' l.
              bind-shorter (length s') (length s) (parse_list f stop s') _ (omega arith)
                (parse_list-Ends_at f stop s' (omega arith) q) (λ ts s'' l'. omega arith)))

-- With fuel above twice the length of the string, the parser does not run out of it, and a success
-- has read at least one byte.
pub parse-Ends :
    (f dims : ℕ) (in_varg : Bool) (s : List ℕ)
    → 2 * length s < f
    → Ends (length s) (parse f dims in_varg s)
parse-Ends = parse-Ends_at

parse_all-Ends :
    (f : ℕ) (s : List ℕ) → suc (2 * length s) < f → Ends (suc (length s)) (parse_all f s)
unfolding parse_all
parse_all-Ends zero s h = absurd (omega arith)
parse_all-Ends (suc f) [] h = omega arith
parse_all-Ends (suc f) (c ∷ s) h =
    let n = suc (length s) in
    bind-shorter n (suc n) (parse f 0 false (c ∷ s)) _ (omega arith)
      (parse-Ends f 0 false (c ∷ s) (omega arith))
      (λ t s' l.
        bind-shorter (suc (length s')) (suc n) (parse_all f s') _ (omega arith)
          (parse_all-Ends f s' (omega arith)) (λ ts s'' l'. omega arith))
