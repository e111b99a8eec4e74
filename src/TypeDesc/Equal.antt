-- ===== src/TypeDesc/Equal.antt =====
-- `TypeDesc_Equal` of src/typedesc.c, and the strings it compares read back.
use koala_lang_pre.Prelude.{
  ◌==◌, length, bytes_eq, bytes_eq_refl, bytes_eq_sound, ℕ, ◌≤◌, ◌<◌, ◌≡◌, sym, ap, ◌∙◌, subst,
  Bool, true, false, [], append-nil, arith,
}
use koala_lang_pre.TypeDesc.{TypeDesc, desc, desc_kind, is_any, type_equal}
use koala_lang_pre.TypeDesc.Parse.{ok, parse}
use koala_lang_pre.TypeDesc.Print.{print, desc-eq-print}
use koala_lang_pre.TypeDesc.Pieces.{IsPrintable}
use koala_lang_pre.TypeDesc.RoundTrip.{parse-print, print-injective}

eq_refl : (n : ℕ) → (n == n) ≡ true
eq_refl n = ground arith

module _ (malloc : ℕ → Bool) (granted : (n : ℕ) → malloc n ≡ true) where
  -- With memory granted, the string of a printable descriptor, if it has at most 30 bytes, parses
  -- back to the descriptor.
  pub parse-desc :
      (t : TypeDesc) (f : ℕ)
      → IsPrintable t
      → length (print t) ≤ 30
      → 60 < f
      → parse f 0 false (desc malloc t) ≡ ok t []
  parse-desc t f p h fuel =
      ap (parse f 0 false) (desc-eq-print malloc granted t h ∙ sym (append-nil {0} (print t)))
      ∙ parse-print t f [] p (omega arith)

  -- With memory granted, two printable descriptors other than `any`, with strings of at most 30 bytes,
  -- are equal for the code exactly when they are the same.
  pub type_equal_iff :
      (t u : TypeDesc)
      → IsPrintable t
      → IsPrintable u
      → length (print t) ≤ 30
      → length (print u) ≤ 30
      → is_any t ≡ false
      → is_any u ≡ false
      → (type_equal malloc t u ≡ true → t ≡ u) × (t ≡ u → type_equal malloc t u ≡ true)
  unfolding type_equal
  type_equal_iff t u p q h k a b = (sound, complete)
    where
      same : type_equal malloc t u ≡ true → bytes_eq (desc malloc t) (desc malloc u) ≡ true
      same e = ground arith

      sound : type_equal malloc t u ≡ true → t ≡ u
      sound e = print-injective t u p q (
          sym (desc-eq-print malloc granted t h)
          ∙ bytes_eq_sound _ _ (same e)
          ∙ desc-eq-print malloc granted u k)

      complete : t ≡ u → type_equal malloc t u ≡ true
      complete e =
          let kinds = eq_refl (desc_kind t) in
          let bytes = bytes_eq_refl (desc malloc t) in
          subst (λ (v : TypeDesc). type_equal malloc t v ≡ true) e (ground arith)
