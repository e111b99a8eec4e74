-- ===== src/HashTable/Chain.antt =====
-- How often an address stands in a chain, in a vector of chains, and after the writes to them.
use koala_lang_pre.Prelude.{
  ◌==◌, if◌then◌else◌, to_nat, length, get_or, length-set, get_or-set, ℕ, zero, suc, ◌+◌, ◌-◌, ◌<◌,
  ◌≡◌, refl, List, [], ◌∷◌, ◌++◌, map, arith,
}
use koala_lang_pre.HashTable.{hlist_add, unlink}

abbrev pub count : ℕ → List ℕ → ℕ
count a [] = 0
count a (b ∷ c) = to_nat (b == a) + count a c

abbrev pub chain_at : List (List ℕ) → ℕ → List ℕ
chain_at entries i = get_or entries i []

-- How often an address stands in all the chains.
unfoldable pub count_all : ℕ → List (List ℕ) → ℕ
count_all a [] = 0
count_all a (c ∷ cs) = count a c + count_all a cs

pub count-snoc : (a b : ℕ) (c : List ℕ) → count a (c ++ b ∷ []) ≡ count a c + to_nat (b == a)
count-snoc a b [] = omega arith
count-snoc a b (x ∷ c) = omega (arith, count-snoc a b c)

pub count-unlink :
    (a b : ℕ) (c : List ℕ) → count a (unlink b c) ≡ (if b == a then count a c - 1 else count a c)
unfolding unlink
count-unlink a b [] = ground arith
count-unlink a b (x ∷ c) = ground (arith, count-unlink a b c)

pub length-unlink : (a : ℕ) (c : List ℕ) → 0 < count a c → length (unlink a c) + 1 ≡ length c
unfolding unlink
length-unlink a [] h = absurd (omega arith)
length-unlink a (x ∷ c) h = ground (arith, length-unlink a c)

pub chain_at-unlink :
    (a : ℕ) (entries : List (List ℕ)) (i : ℕ)
    → chain_at (map (unlink a) entries) i ≡ unlink a (chain_at entries i)
unfolding unlink
chain_at-unlink a [] i = refl
chain_at-unlink a (c ∷ cs) zero = refl
chain_at-unlink a (c ∷ cs) (suc i) = chain_at-unlink a cs i

pub length-hlist_add :
    (a i : ℕ) (entries : List (List ℕ)) → length (hlist_add a i entries) ≡ length entries
unfolding hlist_add
length-hlist_add a i entries = length-set entries i (a ∷ chain_at entries i)

pub count-hlist_add :
    (a b i j : ℕ) (entries : List (List ℕ))
    → i < length entries
    → count a (chain_at (hlist_add b i entries) j)
      ≡ count a (chain_at entries j) + (if i == j then to_nat (b == a) else 0)
unfolding hlist_add
count-hlist_add a b i j entries h =
    rw (get_or-set {A = List ℕ} [] entries i j (b ∷ chain_at entries i) h) (ground arith)

nowhere :
    (a : ℕ) (cs : List (List ℕ))
    → ((i : ℕ) → i < length cs → count a (chain_at cs i) ≡ 0)
    → count_all a cs ≡ 0
unfolding count_all
nowhere a [] h = refl
nowhere a (c ∷ cs) h =
    omega (arith, h 0 (omega arith), nowhere a cs (λ i p. h (suc i) (omega arith)))

-- An address that stands in one chain only stands in all as often as there.
pub count_all-only :
    (a j v : ℕ) (cs : List (List ℕ))
    → j < length cs
    → ((i : ℕ) → i < length cs → count a (chain_at cs i) ≡ (if j == i then v else 0))
    → count_all a cs ≡ v
unfolding count_all
count_all-only a j v [] p h = absurd (omega arith)
count_all-only a zero v (c ∷ cs) p h =
    let rest = nowhere a cs (λ i q. ground (arith, h (suc i) (omega arith))) in
    ground (arith, h 0 (omega arith), rest)
count_all-only a (suc j) v (c ∷ cs) p h =
    let rest =
      count_all-only a j v cs (omega arith) (λ i q. ground (arith, h (suc i) (omega arith))) in
    ground (arith, h 0 (omega arith), rest)
