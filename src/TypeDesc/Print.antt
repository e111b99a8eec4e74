-- ===== src/TypeDesc/Print.antt =====
-- The intended string of a descriptor, and when the buffer writes it in full.
use koala_lang_pre.Prelude.{
  length, replicate, length-append, length-replicate, ℕ, zero, suc, ◌+◌, ◌≤◌, ◌≡◌, refl, sym, ap,
  ◌∙◌, subst, Bool, true, List, [], ◌∷◌, ◌++◌, append-nil, arith,
}
use mathlib.Core.Path.{ap₂}
use koala_lang_pre.StringBuf.{StringBuf, empty, append, append_char, format}
use koala_lang_pre.StringBuf.Format.{
  substitute, IsSmall, empty-IsSmall, Appends, Appends-nil, Appends-append, append_small,
  append_char_small, format_small,
}
use koala_lang_pre.TypeDesc.{
  TypeDesc, TypeList, base, klass, proto, array, map, set, varg, nil, cons, base_kind, klass_format,
  proto_format, map_format, set_format, varg_format, append_dims, desc, desc_list,
}

-- "Lpath.type;", "Pargs:rets;", "[type", "Mtype:type", "Stype" and "...type"
unfoldable mutual
  pub print : TypeDesc → List ℕ
  print (base b) = base_kind b ∷ []
  print (klass path type) = b'L' ∷ (path ++ b'.' ∷ (type ++ b';' ∷ []))
  print (proto args rets) = b'P' ∷ (print_list args ++ b':' ∷ (print_list rets ++ b';' ∷ []))
  print (array dims b) = replicate dims b'[' ++ print b
  print (map key val) = b'M' ∷ (print key ++ b':' ∷ print val)
  print (set b) = b'S' ∷ print b
  print (varg b) = b'.' ∷ b'.' ∷ b'.' ∷ print b

  pub print_list : TypeList → List ℕ
  print_list nil = []
  print_list (cons t ts) = print t ++ print_list ts

module _ (malloc : ℕ → Bool) (granted : (n : ℕ) → malloc n ≡ true) where
  formatted :
      (fmt : List ℕ) (args : List (List ℕ)) (s : List ℕ)
      → substitute fmt args ≡ s
      → length s ≤ 30
      → (format malloc empty fmt args).text ≡ s
  formatted fmt args s e h =
      let fits : empty.length + length (substitute fmt args) ≤ 30 =
        omega (arith, ap (length {0} {A = ℕ}) e) in
      (format_small malloc granted empty fmt args empty-IsSmall fits).text ∙ e

  append_dims-Appends :
      (dims : ℕ) (buf : StringBuf)
      → IsSmall buf
      → buf.length + dims ≤ 30
      → Appends buf (append_dims malloc dims buf) (replicate dims b'[')
  unfolding append_dims
  append_dims-Appends zero buf m h = Appends-nil buf m
  append_dims-Appends (suc dims) buf m h =
      let p = append_char_small malloc granted buf b'[' m (omega arith) in
      Appends-append buf (append_char malloc buf b'[') _ (b'[' ∷ []) (replicate dims b'[') p
        (append_dims-Appends dims (append_char malloc buf b'[') p.small (omega (arith, p.length)))

  mutual
    unfolding desc print substitute

    desc-print : (t : TypeDesc) → length (print t) ≤ 30 → desc malloc t ≡ print t
    desc-print (base b) h = refl
    desc-print (klass path type) h = formatted klass_format _ _ refl h
    desc-print (proto args rets) h =
        let a = print_list args in
        let r = print_list rets in
        let n = length-append {0} a (b':' ∷ (r ++ b';' ∷ [])) in
        let m = length-append {0} r (b';' ∷ []) in
        let all : suc (length (a ++ b':' ∷ (r ++ b';' ∷ []))) ≤ 30 = h in
        let p = desc_list-print args empty empty-IsSmall (omega arith) in
        let q = desc_list-print rets empty empty-IsSmall (omega arith) in
        ap₂ (λ (x y : List ℕ). (format malloc empty proto_format (x ∷ y ∷ [])).text) p.text q.text
        ∙ formatted proto_format (a ∷ r ∷ []) _ refl h
    desc-print (array dims b) h =
        let ds : List ℕ = replicate dims b'[' in
        let n = length-append {0} ds (print b) in
        let w : length ds ≡ dims = length-replicate dims b'[' in
        let all : length (ds ++ print b) ≤ 30 = h in
        let e = desc-print b (omega arith) in
        let p = append_dims-Appends dims empty empty-IsSmall (omega arith) in
        let q =
          append_small malloc granted (append_dims malloc dims empty) (print b) p.small
            (omega (arith, p.length)) in
        ap (λ (x : List ℕ). (append malloc (append_dims malloc dims empty) x).text) e
        ∙ q.text
        ∙ ap (λ (x : List ℕ). x ++ print b) p.text
    desc-print (map key val) h =
        let all : suc (length (print key ++ b':' ∷ print val)) ≤ 30 = h in
        let n = length-append {0} (print key) (b':' ∷ print val) in
        ap₂ (λ (x y : List ℕ). (format malloc empty map_format (x ∷ y ∷ [])).text)
          (desc-print key (omega arith)) (desc-print val (omega arith))
        ∙ formatted map_format (print key ∷ print val ∷ []) _ (rw append-nil) h
    desc-print (set b) h =
        let all : suc (length (print b)) ≤ 30 = h in
        ap (λ (x : List ℕ). (format malloc empty set_format (x ∷ [])).text)
          (desc-print b (omega arith))
        ∙ formatted set_format (print b ∷ []) _ (rw append-nil) h
    desc-print (varg b) h =
        let all : suc (suc (suc (length (print b)))) ≤ 30 = h in
        ap (λ (x : List ℕ). (format malloc empty varg_format (x ∷ [])).text)
          (desc-print b (omega arith))
        ∙ formatted varg_format (print b ∷ []) _ (rw append-nil) h

    desc_list-print :
        (ts : TypeList) (buf : StringBuf)
        → IsSmall buf
        → buf.length + length (print_list ts) ≤ 30
        → Appends buf (desc_list malloc ts buf) (print_list ts)
    desc_list-print nil buf m h = Appends-nil buf m
    desc_list-print (cons t ts) buf m h =
        let all : buf.length + length (print t ++ print_list ts) ≤ 30 = h in
        let n = length-append {0} (print t) (print_list ts) in
        let p = append_small malloc granted buf (print t) m (omega arith) in
        subst
          (λ (x : List ℕ).
            Appends buf (desc_list malloc ts (append malloc buf x)) (print t ++ print_list ts))
          (sym (desc-print t (omega arith)))
          (Appends-append buf (append malloc buf (print t)) _ (print t) (print_list ts) p
            (desc_list-print ts (append malloc buf (print t)) p.small (omega (arith, p.length))))

  -- With memory granted, a descriptor whose string has at most 30 bytes gets that string.
  pub desc-eq-print : (t : TypeDesc) → length (print t) ≤ 30 → desc malloc t ≡ print t
  desc-eq-print t h = desc-print t h
