-- ===== src/Properties/Laws.antt =====
-- The table of properties is the list of the calls that put them there.
use koala_lang_pre.Prelude.{
  if◌then◌else◌, Bool-cases, Option-cases, get_elem?, bytes_eq, bytes_eq_iff, ℕ, ◌+◌, ◌≤◌, ◌≡◌,
  refl, sym, ap, ◌∙◌, subst, inl, inr, Bool, true, false, Option, none, some, List, [], ◌∷◌, ◌++◌,
  arith,
}
use koala_lang_pre.HashTable.{Heap, find}
use koala_lang_pre.HashTable.Find.{IsValid, find_iff}
use koala_lang_pre.HashTable.Methods.{init-IsValid}
use koala_lang_pre.Properties.{entry_key, Properties, properties_init, put, get, get_one, put_all}
use koala_lang_pre.Properties.Puts.{or_empty, get-found, get-missed, put-Puts}

-- The values that the calls put under a key, after those that were there.
unfoldable pub values :
    List ℕ → Option (List (List ℕ)) → List (List ℕ × List ℕ) → Option (List (List ℕ))
values key old [] = old
values key old ((k, val) ∷ pairs) =
    values key (if bytes_eq k key then some (or_empty old ++ val ∷ []) else old) pairs

put-values :
    (malloc : ℕ → Bool) (p : Properties) (fresh : ℕ) (k val key : List ℕ)
    → IsValid p.table p.heap
    → (p.heap fresh).hashed ≡ false
    → get (put malloc p fresh k val) key
      ≡ (if bytes_eq k key then some (or_empty (get p key) ++ val ∷ []) else get p key)
put-values malloc p fresh k val key v off =
    let s = put-Puts malloc p fresh k val v off in
    elim (Bool-cases (bytes_eq k key)) [
      | inl same ↦
          let e = (bytes_eq_iff k key).0 same in
          rw same (
            subst
              (λ (x : List ℕ).
                get (put malloc p fresh k val) x ≡ some (or_empty (get p x) ++ val ∷ []))
              e s.own)
      | inr differ ↦
          rw differ (s.others key (λ e. absurd (ground (arith, (bytes_eq_iff k key).1 e))))
    ]

put_all-values :
    (malloc : ℕ → Bool) (p : Properties) (fresh : ℕ) (pairs : List (List ℕ × List ℕ)) (key : List ℕ)
    → IsValid p.table p.heap
    → ((b : ℕ) → fresh ≤ b → (p.heap b).hashed ≡ false)
    → get (put_all malloc p fresh pairs) key ≡ values key (get p key) pairs
unfolding put_all values
put_all-values malloc p fresh [] key v free = refl
put_all-values malloc p fresh ((k, val) ∷ pairs) key v free =
    let off = free fresh (omega arith) in
    let s = put-Puts malloc p fresh k val v off in
    put_all-values malloc (put malloc p fresh k val) (fresh + 1) pairs key s.valid
      (λ b ge. s.free b (λ e. absurd (omega (arith, e))) ∙ free b (omega arith))
    ∙ ap (λ (o : Option (List (List ℕ))). values key o pairs)
        (put-values malloc p fresh k val key v off)

abbrev pub first : Option (List (List ℕ)) → Option (List ℕ)
first none = none
first (some vs) = get_elem? vs 0

get_one-first : (p : Properties) (key : List ℕ) → get_one p key ≡ first (get p key)
unfolding get_one get
get_one-first p key = elim (Option-cases (find p.table p.heap key)) [
  | inl e ↦ rw (get_one, e) (ap first (sym (get-missed p key e)))
  | inr (a, e) ↦ rw (get_one, e) (ap first (sym (get-found p key a e)))
]

-- With memory granted, after `Properties_Init` and any calls of `Properties_Put`, `Properties_Get` gives for
-- each key the values that these calls put under it, in their order, or NULL if there are none, and
-- `Properties_GetOne` the first of them.
pub get-put_all :
    (malloc : ℕ → Bool) (heap : Heap (List ℕ)) (next : ℕ) (pairs : List (List ℕ × List ℕ))
    (key : List ℕ)
    → ((k : ℕ) → malloc k ≡ true)
    → ((a : ℕ) → (heap a).hashed ≡ false)
    → (p : Properties) × (properties_init malloc heap ≡ some p)
      × (get (put_all malloc p next pairs) key ≡ values key none pairs)
      × (get_one (put_all malloc p next pairs) key ≡ first (values key none pairs))
unfolding properties_init
get-put_all malloc heap next pairs key grants clean =
    let (t, e, v, h) = init-IsValid malloc heap grants clean in
    let p : Properties = record { table = t; heap = heap; vecs = λ a. [] } in
    let missed : find t heap key ≡ none = elim (Option-cases (find t heap key)) [
      | inl e ↦ e
      | inr (a, e) ↦ let on = ((find_iff t heap key a v).0 e).0 in absurd (ground (arith, clean a))
    ] in
    let q = put_all malloc p next pairs in
    let own : get q key ≡ values key none pairs =
      put_all-values malloc p next pairs key v (λ b ge. clean b)
      ∙ ap (λ (o : Option (List (List ℕ))). values key o pairs) (get-missed p key missed) in
    (p, rw (properties_init, e) refl, own, get_one-first q key ∙ ap first own)
