-- ===== src/TypeDesc/RoundTrip.antt =====
-- What was printed parses back, but for maps.
use koala_lang_pre.Prelude.{
  length, replicate, length-append, length-replicate, ℕ, zero, suc, ◌*◌, ◌<◌, ◌≡◌, refl, sym, ap,
  ◌∙◌, ◌⊎◌, inl, inr, Bool, true, false, List, [], ◌∷◌, ◌++◌, append_assoc, arith,
}
use koala_lang_pre.TypeDesc.{
  TypeDesc, TypeList, base, klass, proto, array, map, set, varg, nil, cons,
}
use koala_lang_pre.TypeDesc.Parse.{
  Outcome, ok, failed, stray, no_fuel, ◌>>=◌, parse, parse_list, parse_all,
}
use koala_lang_pre.TypeDesc.Print.{print, print_list}
use koala_lang_pre.TypeDesc.Pieces.{parse_klass-print, IsPrintable, IsPrintableList}
use koala_lang_pre.TypeDesc.Steps.{
  peek-print, first_byte-bracket, length-print_pos, Allowed, bare_of, bind-ok, parse-base,
  parse-array, parse-varg, parse-proto, parse_list-cons, peek-stop,
}

mutual
  unfolding parse print IsPrintable

  parse-print_at :
      (t : TypeDesc) (f dims : ℕ) (in_varg : Bool) (rest : List ℕ)
      → IsPrintable t
      → 2 * length (print t) < f
      → Allowed dims in_varg t
      → parse f dims in_varg (print t ++ rest) ≡ ok t rest
  parse-print_at t zero dims in_varg rest p h a = absurd (omega arith)
  parse-print_at (base b) (suc f) dims in_varg rest p h a = parse-base b f dims in_varg rest a
  parse-print_at (klass path type) (suc f) dims in_varg rest p h a =
      parse_klass-print path type rest p.0 p.1 p.2
  parse-print_at (proto args rets) (suc f) dims in_varg rest p h a =
      let as' = print_list args in
      let rs = print_list rets in
      let n = length-append {0} as' (b':' ∷ (rs ++ b';' ∷ [])) in
      let m = length-append {0} rs (b';' ∷ []) in
      let fuel : 2 * suc (length (as' ++ b':' ∷ (rs ++ b';' ∷ []))) < suc f = h in
      let whole : (as' ++ b':' ∷ (rs ++ b';' ∷ [])) ++ rest ≡ as' ++ b':' ∷ (rs ++ b';' ∷ rest) =
        simp append_assoc in
      ap (λ (s : List ℕ). parse (suc f) dims in_varg (b'P' ∷ s)) whole
      ∙ parse-proto f dims in_varg args rets _ (rs ++ b';' ∷ rest) rest
          (parse_list-print_at args f b':' (rs ++ b';' ∷ rest) p.0 (omega arith) (inl refl))
          (parse_list-print_at rets f b';' rest p.1 (omega arith) (inr refl))
  parse-print_at (array n b) (suc f) dims in_varg rest p h a =
      let ds : List ℕ = replicate n b'[' in
      let w : length ds ≡ n = length-replicate n b'[' in
      let m = length-append {0} ds (print b) in
      let p0 : 0 < n = p.0 in
      let fuel : 2 * length (ds ++ print b) < suc f = h in
      let few : 2 * length (print b) < f = omega arith in
      ap (parse (suc f) dims in_varg) (append_assoc ds (print b) rest)
      ∙ parse-array f n dims in_varg b (print b ++ rest) rest p0 (bare_of dims in_varg a)
          (rw (peek-print b rest p.2) (first_byte-bracket b p.1))
          (parse-print_at b f n false rest p.2 few (inr (p.1, ground arith)))
  parse-print_at (map key val) (suc f) dims in_varg rest p h a = absurd p
  parse-print_at (set b) (suc f) dims in_varg rest p h a =
      let fuel : 2 * suc (length (print b)) < suc f = h in
      bind-ok (λ c. ok (set c)) (parse-print_at b f 0 false rest p (omega arith) (inl refl))
  parse-print_at (varg b) (suc f) dims in_varg rest p h a =
      let fuel : 2 * suc (suc (suc (length (print b)))) < suc f = h in
      parse-varg f dims in_varg b rest (bare_of dims in_varg a) p.0 p.1
        (parse-print_at b f 0 true rest p.1 (omega arith) (inr (p.0, refl)))

  parse_list-print_at :
      (ts : TypeList) (f stop : ℕ) (rest : List ℕ)
      → IsPrintableList ts
      → suc (2 * length (print_list ts)) < f
      → (stop ≡ b':') ⊎ (stop ≡ b';')
      → parse_list f stop (print_list ts ++ stop ∷ rest) ≡ ok ts rest
  parse_list-print_at ts zero stop rest p h s = absurd (omega arith)
  parse_list-print_at nil (suc f) stop rest p h s = ground arith
  parse_list-print_at (cons t ts) (suc f) stop rest p h s =
      let n = length-append {0} (print t) (print_list ts) in
      let few = length-print_pos t p.0 in
      let fuel : suc (2 * length (print t ++ print_list ts)) < suc f = h in
      ap (parse_list (suc f) stop) (append_assoc (print t) (print_list ts) (stop ∷ rest))
      ∙ parse_list-cons f stop t ts _ (print_list ts ++ stop ∷ rest) rest
          (peek-stop t (print_list ts ++ stop ∷ rest) stop p.0 s)
          (parse-print_at t f 0 false (print_list ts ++ stop ∷ rest) p.0 (omega arith) (inl refl))
          (parse_list-print_at ts f stop rest p.1 (omega arith) s)

-- A printable descriptor's string, followed by anything, parses as that descriptor and leaves what
-- follows, with fuel above twice the string's length.
pub parse-print :
    (t : TypeDesc) (f : ℕ) (rest : List ℕ)
    → IsPrintable t
    → 2 * length (print t) < f
    → parse f 0 false (print t ++ rest) ≡ ok t rest
parse-print t f rest p h = parse-print_at t f 0 false rest p h (inl refl)

ok-injective : {A : Type 0} {a b : A} {s s' : List ℕ} → ok a s ≡ ok b s' → a ≡ b
ok-injective {a} {b} e =
    ap (λ (o : Outcome _). elim o [ ok x s ↦ x | failed ↦ a | stray ↦ a | no_fuel ↦ a ]) e

-- Two printable descriptors with one string are the same descriptor.
pub print-injective : (t u : TypeDesc) → IsPrintable t → IsPrintable u → print t ≡ print u → t ≡ u
print-injective t u p q e =
    let f = suc (2 * length (print t)) in
    let h : 2 * length (print u) < f = omega (arith, ap (length {0} {A = ℕ}) e) in
    ok-injective (
      sym (parse-print t f [] p (omega arith))
      ∙ ap (λ (s : List ℕ). parse f 0 false (s ++ [])) e
      ∙ parse-print u f [] q h)

parse_all-cons :
    (f : ℕ) (t : TypeDesc) (ts : TypeList) (s s' : List ℕ)
    → 0 < length s
    → parse f 0 false s ≡ ok t s'
    → parse_all f s' ≡ ok ts []
    → parse_all (suc f) s ≡ ok (cons t ts) []
unfolding parse_all
parse_all-cons f t ts [] s' h p q = absurd (omega arith)
parse_all-cons f t ts (c ∷ s) s' h p q =
    bind-ok (λ u r. parse_all f r >>= λ us. ok (cons u us)) p ∙ bind-ok (λ us. ok (cons t us)) q

-- The strings of a list of printable descriptors, one after the other, parse as that list, with fuel
-- above twice their length plus one.
pub parse_all-print :
    (ts : TypeList) (f : ℕ)
    → IsPrintableList ts
    → suc (2 * length (print_list ts)) < f
    → parse_all f (print_list ts) ≡ ok ts []
unfolding parse_all print IsPrintable
parse_all-print ts zero p h = absurd (omega arith)
parse_all-print nil (suc f) p h = refl
parse_all-print (cons t ts) (suc f) p h =
    let n = length-append {0} (print t) (print_list ts) in
    let few = length-print_pos t p.0 in
    let fuel : suc (2 * length (print t ++ print_list ts)) < suc f = h in
    parse_all-cons f t ts (print t ++ print_list ts) (print_list ts) (omega arith)
      (parse-print t f (print_list ts) p.0 (omega arith)) (parse_all-print ts f p.1 (omega arith))
