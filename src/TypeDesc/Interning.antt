-- ===== src/TypeDesc/Interning.antt =====
-- Printed descriptors read into the table of descriptors.
use koala_lang_pre.Prelude.{
  Option-cases, length, replicate, length-append, bytes_eq, bytes_eq_sound, ℕ, suc, ◌*◌, ◌≤◌, ◌<◌,
  ◌≡◌, refl, sym, ap, ap₂, ◌∙◌, subst, inl, inr, Bool, true, none, some, List, [], ◌∷◌, ◌++◌,
  append-nil, arith,
}
use koala_lang_pre.TypeDesc.{
  TypeDesc, TypeList, base, klass, proto, array, map, set, varg, nil, cons, desc,
}
use koala_lang_pre.TypeDesc.Parse.{ok}
use koala_lang_pre.TypeDesc.Print.{print, print_list, desc-eq-print}
use koala_lang_pre.TypeDesc.Pieces.{IsPrintable, IsPrintableList}
use koala_lang_pre.TypeDesc.RoundTrip.{parse-print, print-injective}
use koala_lang_pre.TypeDesc.Steps.{bind-ok}
use koala_lang_pre.TypeDesc.Table.{find_typedesc, intern, get, get_all, string_to_typedesc}
use koala_lang_pre.TypeDesc.Sound.{
  IsShort, AllShort, AllShort-append, AreApart-append, IsSound, Extends, Extends-trans,
  find_typedesc-append, find_typedesc-new,
}

module _ (malloc : ℕ → Bool) (granted : (n : ℕ) → malloc n ≡ true) where
  same_text :
      (t u : TypeDesc)
      → IsShort t
      → IsShort u
      → bytes_eq (desc malloc t) (desc malloc u) ≡ true
      → t ≡ u
  same_text t u p q e = print-injective t u p.0 q.0 (
      sym (desc-eq-print malloc granted t p.1)
      ∙ bytes_eq_sound _ _ e
      ∙ desc-eq-print malloc granted u q.1)

  -- What is found for a short descriptor's text is the descriptor.
  find_typedesc-same :
      (types : List TypeDesc) (t e : TypeDesc)
      → AllShort types
      → IsShort t
      → find_typedesc malloc types (desc malloc t) ≡ some e
      → e ≡ t
  unfolding find_typedesc
  find_typedesc-same [] t e h s f = cc
  find_typedesc-same (d ∷ types) t e h s f =
      let ih = find_typedesc-same types t e h.1 s in let eq = same_text d t h.0 s in ground arith

  -- A descriptor was got from the table `types`: itself, in a sound table that extends it and has it.
  pub record Gets (types : List TypeDesc) (t : TypeDesc) (r : List TypeDesc × TypeDesc)
      : Type 0 where
    pub same : r.1 ≡ t
    pub sound : IsSound malloc r.0
    pub extends : Extends types r.0
    pub found : find_typedesc malloc r.0 (desc malloc t) ≡ some t

  record GetsAll (types : List TypeDesc) (ts : TypeList) (r : List TypeDesc × TypeList)
      : Type 0 where
    pub same : r.1 ≡ ts
    pub sound : IsSound malloc r.0
    pub extends : Extends types r.0

  enter-IsSound :
      (types : List TypeDesc) (t : TypeDesc)
      → IsSound malloc types
      → IsShort t
      → find_typedesc malloc types (desc malloc t) ≡ none
      → IsSound malloc (types ++ t ∷ [])
  enter-IsSound types t v s h = record {
    apart = AreApart-append malloc types t v.apart h;
    short = AllShort-append types (t ∷ []) v.short (s, tt);
    basics = λ b. find_typedesc-append malloc types (t ∷ []) _ (base b) (v.basics b);
  }

  intern-Gets :
      (types : List TypeDesc) (t : TypeDesc)
      → IsSound malloc types
      → IsShort t
      → Gets types t (intern malloc types t)
  unfolding intern
  intern-Gets types t v s = elim (Option-cases (find_typedesc malloc types (desc malloc t))) [
    | inr (e, h) ↦
        let same = find_typedesc-same types t e v.short s h in
        rw (intern, h)
          record {
            same = same;
            sound = v;
            extends = ([], sym (append-nil {0} types));
            found = h ∙ ap some same;
          }
    | inl h ↦
        rw (intern, h)
          record {
            same = refl;
            sound = enter-IsSound types t v s h;
            extends = (t ∷ [], refl);
            found = find_typedesc-new malloc types t h;
          }
  ]

  -- The whole, after its parts.
  whole-Gets :
      (types types' : List TypeDesc) (t t' : TypeDesc)
      → Extends types types'
      → IsSound malloc types'
      → t' ≡ t
      → IsShort t
      → Gets types t (intern malloc types' t')
  whole-Gets types types' t t' x v e s =
      let g = intern-Gets types' t v s in
      subst (λ (d : TypeDesc). Gets types t (intern malloc types' d)) (sym e)
        record {
          same = g.same;
          sound = g.sound;
          extends = Extends-trans types types' (intern malloc types' t).0 x g.extends;
          found = g.found;
        }

  mutual
    unfolding get IsPrintable print desc

    get-Gets :
        (t : TypeDesc) (types : List TypeDesc)
        → IsSound malloc types
        → IsShort t
        → Gets types t (get malloc types t)
    get-Gets (base b) types v s = record {
      same = refl;
      sound = v;
      extends = ([], sym (append-nil {0} types));
      found = v.basics b;
    }
    get-Gets (klass path type) types v s = intern-Gets types (klass path type) v s
    get-Gets (proto args rets) types v s =
        let a = print_list args in
        let r = print_list rets in
        let n = length-append {0} a (b':' ∷ (r ++ b';' ∷ [])) in
        let m = length-append {0} r (b';' ∷ []) in
        let all : suc (length (a ++ b':' ∷ (r ++ b';' ∷ []))) ≤ 30 = s.1 in
        let g = get_all-GetsAll args types v s.0.0 (omega arith) in
        let h = get_all-GetsAll rets (get_all malloc types args).0 g.sound s.0.1 (omega arith) in
        whole-Gets types _ (proto args rets) _ (Extends-trans types _ _ g.extends h.extends) h.sound
          (ap₂ proto g.same h.same) s
    get-Gets (array dims b) types v s =
        let ds : List ℕ = replicate dims b'[' in
        let n = length-append {0} ds (print b) in
        let all : length (ds ++ print b) ≤ 30 = s.1 in
        let g = get-Gets b types v (s.0.2, omega arith) in
        whole-Gets types _ (array dims b) _ g.extends g.sound (ap (array dims) g.same) s
    get-Gets (map key val) types v s = absurd s.0
    get-Gets (set b) types v s =
        let all : suc (length (print b)) ≤ 30 = s.1 in
        let g = get-Gets b types v (s.0, omega arith) in
        whole-Gets types _ (set b) _ g.extends g.sound (ap set g.same) s
    get-Gets (varg b) types v s =
        let all : suc (suc (suc (length (print b)))) ≤ 30 = s.1 in
        let g = get-Gets b types v (s.0.1, omega arith) in
        whole-Gets types _ (varg b) _ g.extends g.sound (ap varg g.same) s

    get_all-GetsAll :
        (ts : TypeList) (types : List TypeDesc)
        → IsSound malloc types
        → IsPrintableList ts
        → length (print_list ts) ≤ 30
        → GetsAll types ts (get_all malloc types ts)
    get_all-GetsAll nil types v p h = record {
      same = refl;
      sound = v;
      extends = ([], sym (append-nil {0} types));
    }
    get_all-GetsAll (cons t ts) types v p h =
        let all : length (print t ++ print_list ts) ≤ 30 = h in
        let n = length-append {0} (print t) (print_list ts) in
        let g = get-Gets t types v (p.0, omega arith) in
        let k = get_all-GetsAll ts (get malloc types t).0 g.sound p.1 (omega arith) in
        record {
          same = ap₂ cons g.same k.same;
          sound = k.sound;
          extends = Extends-trans types _ _ g.extends k.extends;
        }

  -- With memory granted, and a table of descriptors that are printable, have strings of at most 30 bytes,
  -- no two the same, and among which the basic types are found: the string of a printable descriptor, if it
  -- has at most 30 bytes, followed by anything, is read as that descriptor and leaves what follows, with
  -- fuel above twice the string's length. The table keeps its entries in their order and may get new ones
  -- behind them, meets the same conditions, and the descriptor is found in it by its string.
  pub string_to_typedesc-print :
      (t : TypeDesc) (types : List TypeDesc) (f : ℕ) (rest : List ℕ)
      → IsSound malloc types
      → IsPrintable t
      → length (print t) ≤ 30
      → 2 * length (print t) < f
      → (types' : List TypeDesc) × (string_to_typedesc malloc types f (print t ++ rest)
          ≡ ok (types', t) rest)
        × IsSound malloc types'
        × Extends types types'
        × (find_typedesc malloc types' (desc malloc t) ≡ some t)
  unfolding string_to_typedesc
  string_to_typedesc-print t types f rest v p h fuel =
      let g = get-Gets t types v (p, h) in
      let e = bind-ok (λ d. ok (get malloc types d)) (parse-print t f rest p fuel) in
      (
        (get malloc types t).0,
        e ∙ ap (λ (d : TypeDesc). ok ((get malloc types t).0, d) rest) g.same,
        g.sound,
        g.extends,
        g.found,
      )
