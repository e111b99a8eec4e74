-- ===== src/AtomString/Interning.antt =====
-- A string stands once in the pool: two calls give the same `String` exactly for the same string.
use koala_lang_pre.Prelude.{
  ◌==◌, Bool-cases, Option-cases, bytes_eq, bytes_eq_iff, ℕ, ◌≡◌, refl, sym, ap, ◌∙◌, subst, ◌≢◌,
  inl, inr, Bool, true, false, none, some, List, arith,
}
use koala_lang_pre.HashTable.{HashKey, find}
use koala_lang_pre.HashTable.Find.{IsValid, find_iff}
use koala_lang_pre.HashTable.Fresh.{absent, insert-Gains}
use koala_lang_pre.AtomString.{Pool, find_string, add_string, found_or, new_string}

-- Strings as keys, whatever function hashes them.
abbrev pub string_key : (List ℕ → ℕ) → HashKey (List ℕ)
string_key hash_string = record {
  hash = hash_string;
  equal = bytes_eq;
  compatible = λ s t e. ap hash_string ((bytes_eq_iff s t).0 e);
  transitive = λ s t u d e. (bytes_eq_iff s u).1 ((bytes_eq_iff s t).0 d ∙ (bytes_eq_iff t u).0 e);
  symmetric = λ s t e. (bytes_eq_iff t s).1 (sym ((bytes_eq_iff s t).0 e));
  reflexive = λ s. (bytes_eq_iff s s).1 refl;
}

module _ ⦃hk : HashKey (List ℕ)⦄ (same_key : (s t : List ℕ) → hk.equal s t ≡ true → s ≡ t) where
  -- `r` is the pool and the `String` for `str`, after the pool `p`.
  pub record Interns (p : Pool) (str : List ℕ) (r : Pool × ℕ) : Type 0 where
    pub valid : IsValid r.0.table r.0.heap
    pub pooled : (r.0.heap r.1).hashed ≡ true
    pub spells : (r.0.heap r.1).key ≡ str
    pub only : (a : ℕ) → (r.0.heap a).hashed ≡ true → (r.0.heap a).key ≡ str → a ≡ r.1
    pub kept :
        (a : ℕ)
        → (p.heap a).hashed ≡ true
        → ((r.0.heap a).hashed ≡ true) × ((r.0.heap a).key ≡ (p.heap a).key)

  found-Interns :
      (p : Pool) (str : List ℕ) (a : ℕ)
      → IsValid p.table p.heap
      → find p.table p.heap str ≡ some a
      → Interns p str (p, a)
  found-Interns p str a v e =
      let (on, same) = (find_iff p.table p.heap str a v).0 e in
      record {
        valid = v;
        pooled = on;
        spells = same_key _ _ same;
        only = λ b on' k. v.unique b a on' on (
            subst (λ (x : List ℕ). hk.equal x (p.heap a).key ≡ true) (sym k)
              (hk.symmetric (p.heap a).key str same));
        kept = λ b on'. (on', refl);
      }

  add_string-Interns :
      (malloc : ℕ → Bool) (p : Pool) (fresh : ℕ) (str : List ℕ)
      → IsValid p.table p.heap
      → (p.heap fresh).hashed ≡ false
      → find p.table p.heap str ≡ none
      → Interns p str (add_string malloc p fresh str)
  unfolding add_string
  add_string-Interns malloc p fresh str v off e =
      let g = insert-Gains malloc p.table p.heap fresh str v off e in
      record {
        valid = g.valid;
        pooled = g.new_on;
        spells = g.new_key;
        only = λ a on k. elim (Bool-cases (fresh == a)) [
          | inl t ↦ ground arith
          | inr f ↦
              let ne : fresh ≢ a = ground arith in
              let before : (p.heap a).hashed ≡ true = sym (g.old_on a ne) ∙ on in
              let key : (p.heap a).key ≡ str = sym (g.old_key a ne) ∙ k in
              let equal : hk.equal (p.heap a).key str ≡ true =
                subst (λ (x : List ℕ). hk.equal (p.heap a).key x ≡ true) key
                  (hk.reflexive (p.heap a).key) in
              absurd (ground (arith, absent p.table p.heap str a v e))
        ];
        kept = λ a on.
            let ne : fresh ≢ a =
              λ same. absurd (ground (arith, ap (λ (x : ℕ). (p.heap x).hashed) same)) in
            (g.old_on a ne ∙ on, g.old_key a ne);
      }

  -- On a valid pool, with an address that holds no node of it, `AtomString_New` returns a `String` that
  -- spells the string and is the only one in the pool that does; every `String` that was in the pool
  -- stays and spells what it did.
  pub new_string-Interns :
      (malloc : ℕ → Bool) (p : Pool) (fresh : ℕ) (str : List ℕ)
      → IsValid p.table p.heap
      → (p.heap fresh).hashed ≡ false
      → Interns p str (new_string malloc p fresh str)
  unfolding new_string find_string found_or
  new_string-Interns malloc p fresh str v off = elim (Option-cases (find p.table p.heap str)) [
    | inl e ↦ rw (new_string, e) (add_string-Interns malloc p fresh str v off e)
    | inr (a, e) ↦ rw (new_string, e) (found-Interns p str a v e)
  ]

  new_string_found :
      (malloc : ℕ → Bool) (p : Pool) (fresh : ℕ) (str : List ℕ) (a : ℕ)
      → find p.table p.heap str ≡ some a
      → new_string malloc p fresh str ≡ (p, a)
  unfolding new_string find_string found_or
  new_string_found malloc p fresh str a e = rw (new_string, e) refl

  -- On a valid pool a second call for the same string gives the same `String`, and leaves the pool alone.
  pub new_string_again :
      (malloc : ℕ → Bool) (p : Pool) (fresh fresh' : ℕ) (str : List ℕ)
      → IsValid p.table p.heap
      → (p.heap fresh).hashed ≡ false
      → let r = new_string malloc p fresh str in new_string malloc r.0 fresh' str ≡ r
  new_string_again malloc p fresh fresh' str v off =
      let r = new_string malloc p fresh str in
      let s = new_string-Interns malloc p fresh str v off in
      let equal : hk.equal (r.0.heap r.1).key str ≡ true =
        subst (λ (x : List ℕ). hk.equal (r.0.heap r.1).key x ≡ true) s.spells
          (hk.reflexive (r.0.heap r.1).key) in
      new_string_found malloc r.0 fresh' str r.1
        ((find_iff r.0.table r.0.heap str r.1 s.valid).1 (s.pooled, equal))
