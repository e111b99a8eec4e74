-- ===== src/Deque/Laws.antt =====
-- The deque refines a list of nodes: a push adds at its end, and a pop takes its front.
use koala_lang_pre.Prelude.{
  ◌==◌, Bool-cases, length, length-append, ℕ, ◌≡◌, refl, sym, ap, ◌∙◌, subst, inl, inr, Bool, true,
  false, ◌||◌, Option, none, some, List, [], ◌∷◌, ◌++◌, arith,
}
use koala_lang_pre.Deque.{Deque, Links, link, init, pop_first, pop_head, push_tail}

abbrev pub is_in : ℕ → List ℕ → Bool
is_in a [] = false
is_in a (b ∷ xs) = a == b || is_in a xs

-- No address stands twice.
abbrev pub IsDistinct : List ℕ → Type 0
IsDistinct [] = Unit {0}
IsDistinct (a ∷ xs) = (is_in a xs ≡ false) × IsDistinct xs

-- From `a` the links lead through `xs` to `z`, and end there.
abbrev pub Leads : Links → ℕ → List ℕ → ℕ → Type 0
Leads next a [] z = (a ≡ z) × (next z ≡ none)
Leads next a (x ∷ xs) z = (next a ≡ some x) × Leads next x xs z

-- The deque holds the nodes `xs`, in order.
pub record Holds (d : Deque) (next : Links) (xs : List ℕ) : Type 0 where
  pub leads : Leads next d.head xs d.tail
  pub distinct : IsDistinct (d.head ∷ xs)
  pub counted : d.count ≡ length xs

-- A write to a node off the way leaves the way alone.
Leads-link :
    (next : Links) (a z b : ℕ) (to : Option ℕ) (xs : List ℕ)
    → is_in b (a ∷ xs) ≡ false
    → Leads next a xs z
    → Leads (link next b to) a xs z
Leads-link next a z b to [] h p = ground (arith, p.0, p.1)
Leads-link next a z b to (x ∷ xs) h p =
    let off : is_in b (x ∷ xs) ≡ false = ground arith in
    (ground (arith, p.0), Leads-link next x z b to xs off p.1)

-- The end of the way is on it.
Leads-end : (next : Links) (a z : ℕ) (xs : List ℕ) → Leads next a xs z → is_in z (a ∷ xs) ≡ true
Leads-end next a z [] p = ground (arith, p.0)
Leads-end next a z (x ∷ xs) p = let ih = Leads-end next x z xs p.1 in ground arith

is_in-apart : (a b : ℕ) (xs : List ℕ) → is_in a xs ≡ false → is_in b xs ≡ true → (a == b) ≡ false
is_in-apart a b xs h k = elim (Bool-cases (a == b)) [
  | inr f ↦ f
  | inl t ↦ let same : b ≡ a = ground arith in cc
]

is_in-differ : (a b : ℕ) (xs : List ℕ) → is_in a xs ≡ false → is_in b xs ≡ true → (b == a) ≡ false
is_in-differ a b xs h k = elim (Bool-cases (b == a)) [
  | inr f ↦ f
  | inl t ↦ let same : b ≡ a = ground arith in cc
]

-- A write at the end of the way makes it longer.
Leads-push :
    (next : Links) (a z b : ℕ) (xs : List ℕ)
    → IsDistinct (a ∷ xs)
    → is_in b (a ∷ xs) ≡ false
    → next b ≡ none
    → Leads next a xs z
    → Leads (link next z (some b)) a (xs ++ b ∷ []) b
Leads-push next a z b [] d h e p = (ground (arith, p.0), (refl, ground (arith, p.0)))
Leads-push next a z b (x ∷ xs) d h e p =
    let off : is_in b (x ∷ xs) ≡ false = ground arith in
    let apart = is_in-differ a z (x ∷ xs) d.0 (Leads-end next x z xs p.1) in
    (rw apart p.0, Leads-push next x z b xs d.1 off e p.1)

is_in-snoc : (a b : ℕ) (xs : List ℕ) → is_in a (xs ++ b ∷ []) ≡ (is_in a xs || a == b)
is_in-snoc a b [] = ground arith
is_in-snoc a b (x ∷ xs) = let ih = is_in-snoc a b xs in ground arith

IsDistinct-snoc :
    (b : ℕ) (xs : List ℕ) → IsDistinct xs → is_in b xs ≡ false → IsDistinct (xs ++ b ∷ [])
IsDistinct-snoc b [] d h = (refl, tt)
IsDistinct-snoc b (x ∷ xs) d h =
    let off : is_in b xs ≡ false = ground arith in
    (ground (arith, is_in-snoc x b xs, d.0), IsDistinct-snoc b xs d.1 off)

-- `init` gives an empty deque, unless there is no memory.
pub init-Holds :
    (a : ℕ) (next : Links)
    → (d : Deque) × (next' : Links) × (init (some a) next ≡ some (d, next')) × Holds d next' []
unfolding init
init-Holds a next = (
  record { count = 0; head = a; tail = a },
  link next a none,
  refl,
  record { leads = (refl, ground arith); distinct = (refl, tt); counted = refl },
)

-- On a deque that holds a list, pushing a node that is not linked and not in the deque puts it at the end
-- of the list.
pub push_tail-Holds :
    (d : Deque) (next : Links) (xs : List ℕ) (node : ℕ)
    → Holds d next xs
    → is_in node (d.head ∷ xs) ≡ false
    → next node ≡ none
    → Holds (push_tail d next node).0 (push_tail d next node).1 (xs ++ node ∷ [])
unfolding push_tail
push_tail-Holds d next xs node v h e = record {
  leads = Leads-push next d.head d.tail node xs v.distinct h e v.leads;
  distinct = IsDistinct-snoc node (d.head ∷ xs) v.distinct h;
  counted = omega (arith, v.counted, length-append {0} xs (node ∷ []));
}

-- The outcome of a pop from a deque that holds `xs`.
abbrev pub Pops : List ℕ → Deque × Links × Option ℕ → Type 0
Pops [] r = (r.2 ≡ none) × Holds r.0 r.1 []
Pops (x ∷ xs) r = (r.2 ≡ some x) × (r.1 x ≡ none) × Holds r.0 r.1 xs

pop_first-Pops :
    (d : Deque) (next : Links) (x : ℕ) (xs : List ℕ)
    → Holds d next (x ∷ xs)
    → Pops (x ∷ xs) (pop_first d next (some x))
unfolding pop_first
pop_first-Pops d next x [] v =
    let last : (x == d.tail) ≡ true = ground (arith, v.leads.1.0) in
    let end : next x ≡ none = ap next v.leads.1.0 ∙ v.leads.1.1 in
    let apart : (d.head == x) ≡ false = ground (arith, v.distinct.0) in
    let back : (x == d.head) ≡ false = ground arith in
    let same : (d.head == d.head) ≡ true = ground arith in
    (
      refl,
      ground arith,
      record {
        leads = (rw last refl, rw (last, back, same) end);
        distinct = (refl, tt);
        counted = omega (arith, v.counted);
      },
    )
pop_first-Pops d next x (y ∷ xs) v =
    let apart : (d.head == x) ≡ false = ground (arith, v.distinct.0) in
    let back : (x == d.head) ≡ false = ground arith in
    let same : (d.head == d.head) ≡ true = ground arith in
    let off : is_in d.head (y ∷ xs) ≡ false = ground (arith, v.distinct.0) in
    let off' : is_in x (y ∷ xs) ≡ false = v.distinct.1.0 in
    let goes : Leads next y xs d.tail = v.leads.1.1 in
    let more : (x == d.tail) ≡ false =
      is_in-apart x d.tail (y ∷ xs) off' (Leads-end next y d.tail xs goes) in
    (
      refl,
      ground arith,
      record {
        leads = (
          rw (back, same) v.leads.1.0,
          rw more (
              Leads-link (link next d.head (next x)) y d.tail x none xs off'
                (Leads-link next y d.tail d.head (next x) xs off goes)),
        );
        distinct = (off, v.distinct.1.1);
        counted = omega (arith, v.counted);
      },
    )

-- A pop from a deque that holds a list takes the first node and unlinks it, and leaves the rest; from an
-- empty deque it gives NULL and leaves it empty.
pub pop_head-Pops :
    (d : Deque) (next : Links) (xs : List ℕ) → Holds d next xs → Pops xs (pop_head d next)
unfolding pop_head pop_first
pop_head-Pops d next [] v =
    subst (λ (o : Option ℕ). Pops [] (pop_first d next o)) (sym (ap next v.leads.0 ∙ v.leads.1))
      (refl, v)
pop_head-Pops d next (x ∷ xs) v =
    subst (λ (o : Option ℕ). Pops (x ∷ xs) (pop_first d next o)) (sym v.leads.0)
      (pop_first-Pops d next x xs v)
