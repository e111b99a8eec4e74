-- ===== src/Properties/Puts.antt =====
-- `Properties_Put`: the value goes behind those of its key.
use koala_lang_pre.Prelude.{
  ◌==◌, Bool-cases, Option-cases, Option-ext, bytes_eq_iff, ℕ, ◌≡◌, refl, sym, ap, ◌∙◌, ◌≢◌, inl,
  inr, Bool, true, false, Option, none, some, List, [], ◌∷◌, ◌++◌, arith,
}
use koala_lang_pre.HashTable.{update, find, insert}
use koala_lang_pre.HashTable.Find.{IsValid, find_iff}
use koala_lang_pre.HashTable.Fresh.{new_node, Gains, insert-Gains}
use koala_lang_pre.Properties.{entry_key, Properties, add_value, add_entry, put, get}

abbrev pub or_empty : Option (List (List ℕ)) → List (List ℕ)
or_empty none = []
or_empty (some vs) = vs

module _ (malloc : ℕ → Bool) (p : Properties) (fresh : ℕ) (key : List ℕ)
    (v : IsValid p.table p.heap) (off : (p.heap fresh).hashed ≡ false)
    (missed : find p.table p.heap key ≡ none) where
  abbrev after : Properties
  after = add_entry malloc p fresh key

  gains : Gains p.heap fresh key (insert malloc p.table (update p.heap fresh (new_node key)) fresh)
  gains = insert-Gains malloc p.table p.heap fresh key v off missed

  entry-IsValid : IsValid after.table after.heap
  unfolding add_entry
  entry-IsValid = gains.valid

  entry-found : find after.table after.heap key ≡ some fresh
  unfolding add_entry
  entry-found =
      let g = gains in
      (find_iff after.table after.heap key fresh g.valid).1
        (g.new_on, (bytes_eq_iff _ key).1 g.new_key)

  entry-others : (k : List ℕ) → key ≢ k → find after.table after.heap k ≡ find p.table p.heap k
  unfolding add_entry
  entry-others k ne =
      let g = gains in
      Option-ext (find after.table after.heap k) (find p.table p.heap k)
        (λ a e.
          let (on, same) = (find_iff after.table after.heap k a g.valid).0 e in
          let other : fresh ≢ a = λ at.
            ne
              (sym g.new_key ∙ ap (λ (b : ℕ). (after.heap b).key) at ∙ (bytes_eq_iff _ k).0 same) in
          (find_iff p.table p.heap k a v).1 (
            sym (g.old_on a other) ∙ on,
            (bytes_eq_iff _ k).1 (sym (g.old_key a other) ∙ (bytes_eq_iff _ k).0 same),
          ))
        (λ a e.
          let (on, same) = (find_iff p.table p.heap k a v).0 e in
          let other : fresh ≢ a =
            λ at. absurd (ground (arith, ap (λ (b : ℕ). (p.heap b).hashed) at)) in
          (find_iff after.table after.heap k a g.valid).1 (
            g.old_on a other ∙ on,
            (bytes_eq_iff _ k).1 (g.old_key a other ∙ (bytes_eq_iff _ k).0 same),
          ))

  entry-hashed : (b : ℕ) → fresh ≢ b → (after.heap b).hashed ≡ (p.heap b).hashed
  unfolding add_entry
  entry-hashed b ne = gains.old_on b ne

-- What `Properties_Put` of a value makes of the table.
pub record Puts (p : Properties) (fresh : ℕ) (key val : List ℕ) (q : Properties) : Type 0 where
  pub valid : IsValid q.table q.heap
  pub own : get q key ≡ some (or_empty (get p key) ++ val ∷ [])
  pub others : (k : List ℕ) → key ≢ k → get q k ≡ get p k
  pub free : (b : ℕ) → fresh ≢ b → (q.heap b).hashed ≡ (p.heap b).hashed

pub get-found :
    (p : Properties) (key : List ℕ) (a : ℕ)
    → find p.table p.heap key ≡ some a
    → get p key ≡ some (p.vecs a)
unfolding get
get-found p key a e = rw (get, e) refl

pub get-missed : (p : Properties) (key : List ℕ) → find p.table p.heap key ≡ none → get p key ≡ none
unfolding get
get-missed p key e = rw (get, e) refl

-- Two keys that lead to one entry are the same.
one_key :
    (p : Properties) (a : ℕ) (key k : List ℕ)
    → IsValid p.table p.heap
    → find p.table p.heap key ≡ some a
    → find p.table p.heap k ≡ some a
    → key ≡ k
one_key p a key k v e f =
    let (on, same) = (find_iff p.table p.heap key a v).0 e in
    let (on', same') = (find_iff p.table p.heap k a v).0 f in
    sym ((bytes_eq_iff _ key).0 same) ∙ (bytes_eq_iff _ k).0 same'

add_value-Puts :
    (p : Properties) (fresh a : ℕ) (key val : List ℕ)
    → IsValid p.table p.heap
    → find p.table p.heap key ≡ some a
    → Puts p fresh key val (add_value p a val)
unfolding add_value
add_value-Puts p fresh a key val v e =
    let itself : (a == a) ≡ true = ground arith in
    let q = add_value p a val in
    record {
      valid = v;
      own =
          get-found q key a e
          ∙ rw itself (ap (λ o. some (or_empty o ++ val ∷ [])) (sym (get-found p key a e)));
      others = λ k ne. elim (Option-cases (find p.table p.heap k)) [
        | inl missed ↦ get-missed q k missed ∙ sym (get-missed p k missed)
        | inr (b, f) ↦
            let differ : (a == b) ≡ false = elim (Bool-cases (a == b)) [
              | inl same ↦
                  let at : a ≡ b = ground arith in
                  absurd (ne (one_key p a key k v e (f ∙ ap (λ (n : ℕ). some n) (sym at))))
              | inr apart ↦ apart
            ] in
            get-found q k b f ∙ rw differ (sym (get-found p k b f))
      ];
      free = λ b ne. refl;
    }

module _ (malloc : ℕ → Bool) (p : Properties) (fresh : ℕ) (key : List ℕ)
    (v : IsValid p.table p.heap) (off : (p.heap fresh).hashed ≡ false)
    (missed : find p.table p.heap key ≡ none) where
  -- The new entry has no values.
  get-entry : get (add_entry malloc p fresh key) key ≡ some []
  unfolding add_entry
  get-entry =
      let itself : (fresh == fresh) ≡ true = ground arith in
      get-found (add_entry malloc p fresh key) key fresh
        (entry-found malloc p fresh key v off missed)
      ∙ rw itself refl

  get-entry_others : (k : List ℕ) → key ≢ k → get (add_entry malloc p fresh key) k ≡ get p k
  unfolding add_entry
  get-entry_others k ne =
      let u = add_entry malloc p fresh key in
      let same : find u.table u.heap k ≡ find p.table p.heap k =
        entry-others malloc p fresh key v off missed k ne in
      elim (Option-cases (find p.table p.heap k)) [
        | inl e ↦ get-missed u k (same ∙ e) ∙ sym (get-missed p k e)
        | inr (b, e) ↦
            let on = ((find_iff p.table p.heap k b v).0 e).0 in
            let other : fresh ≢ b =
              λ at. absurd (ground (arith, ap (λ (n : ℕ). (p.heap n).hashed) at)) in
            let differ : (fresh == b) ≡ false = ground arith in
            get-found u k b (same ∙ e) ∙ rw differ (sym (get-found p k b e))
      ]

-- On a valid table, with an address that holds no entry of it, the value is the last under its key and
-- nothing else changes.
pub put-Puts :
    (malloc : ℕ → Bool) (p : Properties) (fresh : ℕ) (key val : List ℕ)
    → IsValid p.table p.heap
    → (p.heap fresh).hashed ≡ false
    → Puts p fresh key val (put malloc p fresh key val)
unfolding put
put-Puts malloc p fresh key val v off = elim (Option-cases (find p.table p.heap key)) [
  | inr (a, e) ↦ rw (put, e) (add_value-Puts p fresh a key val v e)
  | inl e ↦
      let u = add_entry malloc p fresh key in
      let s =
        add_value-Puts u fresh fresh key val (entry-IsValid malloc p fresh key v off e)
          (entry-found malloc p fresh key v off e) in
      let start = get-entry malloc p fresh key v off e in
      rw (put, e)
        (record {
          valid = s.valid;
          own =
              s.own
              ∙ ap (λ (o : Option (List (List ℕ))). some (or_empty o ++ val ∷ [])) start
              ∙ ap (λ (o : Option (List (List ℕ))). some (or_empty o ++ val ∷ []))
                  (sym (get-missed p key e));
          others = λ k ne. s.others k ne ∙ get-entry_others malloc p fresh key v off e k ne;
          free = λ b ne. s.free b ne ∙ entry-hashed malloc p fresh key v off e b ne;
        })
]
