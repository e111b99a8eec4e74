-- ===== src/Klass/Lookup.antt =====
-- Which member `__get_m` finds, and that the fields it leads to lie in the object, each in its own place.
use koala_lang_pre.Prelude.{
  ◌==◌, Bool-cases, Option-cases, length, get_or, ℕ, zero, suc, ◌-◌, ◌≤◌, ◌<◌, ◌≡◌, refl, ap, ◌∙◌,
  inl, inr, Option, none, some, List, arith,
}
use koala_lang_pre.Klass.{
  MNode, LroNode, Classes, no_node, find_mnode, index_of, strip_super, search, search_from, get_m,
}

-- The member of a name in the class of the node at an index.
abbrev pub member_at : Classes → List LroNode → List ℕ → ℕ → Option MNode
member_at classes line name i = find_mnode (classes (get_or line i no_node).klazz).mtbl name

-- The nearest member at or below the index `i`, leaving out the index nought.
pub record Nearest (classes : Classes) (line : List LroNode) (name : List ℕ) (i : ℕ) (lro : LroNode)
    (m : MNode) : Type 0 where
  pub index : ℕ
  pub above : 0 < index
  pub within : index ≤ i
  pub node : get_or line index no_node ≡ lro
  pub has : member_at classes line name index ≡ some m
  pub skipped : (l : ℕ) → index < l → l ≤ i → member_at classes line name l ≡ none

abbrev pub Searches : Classes → List LroNode → List ℕ → ℕ → Option (LroNode × MNode) → Type 0
Searches classes line name i none = (l : ℕ) → 0 < l → l ≤ i → member_at classes line name l ≡ none
Searches classes line name i (some (lro, m)) = Nearest classes line name i lro m

Searches-miss :
    (classes : Classes) (line : List LroNode) (name : List ℕ) (i : ℕ) (o : Option (LroNode × MNode))
    → member_at classes line name (suc i) ≡ none
    → Searches classes line name i o
    → Searches classes line name (suc i) o
Searches-miss classes line name i none e h = λ l p q. elim (Bool-cases (l == suc i)) [
  | inl t ↦ let same : l ≡ suc i = ground arith in ap (member_at classes line name) same ∙ e
  | inr f ↦ h l p (ground arith)
]
Searches-miss classes line name i (some (lro, m)) e n = record {
  index = n.index;
  above = n.above;
  within = omega (arith, n.within);
  node = n.node;
  has = n.has;
  skipped = λ l p q. elim (Bool-cases (l == suc i)) [
    | inl t ↦ let same : l ≡ suc i = ground arith in ap (member_at classes line name) same ∙ e
    | inr f ↦ n.skipped l p (ground arith)
  ];
}

search-Searches :
    (classes : Classes) (line : List LroNode) (name : List ℕ) (i : ℕ)
    → Searches classes line name i (search classes line name i)
unfolding search
search-Searches classes line name zero = λ l p q. absurd (omega arith)
search-Searches classes line name (suc i) =
    let ih = search-Searches classes line name i in
    elim (Option-cases (member_at classes line name (suc i))) [
      | inl e ↦ rw (e, search) (Searches-miss classes line name i _ e ih)
      | inr (m, e) ↦
          rw (e, search)
            (record {
              index = suc i;
              above = omega arith;
              within = omega arith;
              node = refl;
              has = e;
              skipped = λ l p q. absurd (omega arith);
            })
    ]

-- The index at which the search of `__get_m` begins, and the name it looks for, by the prefix.
abbrev pub begins : ℕ → Option (List ℕ) → ℕ
begins index none = index
begins index (some rest) = index - 1

abbrev pub plain : List ℕ → Option (List ℕ) → List ℕ
plain name none = name
plain name (some rest) = rest

search_from-Searches :
    (classes : Classes) (line : List LroNode) (name : List ℕ) (index : ℕ) (o : Option (List ℕ))
    → Searches classes line (plain name o) (begins index o) (search_from classes line name index o)
unfolding search_from
search_from-Searches classes line name index none = search-Searches classes line name index
search_from-Searches classes line name index (some rest) =
    search-Searches classes line rest (index - 1)

-- A lookup gives the member in the nearest class at or below the place of `base` in the line, and below
-- that place for a name with the prefix `super.`, and nothing only if no class there has one. The first
-- class of the line is never searched.
pub get_m-Searches :
    (classes : Classes) (klazz base : ℕ) (name : List ℕ)
    → let line = (classes klazz).lro in
      let index = index_of line base (length line - 1) in
      Searches classes line
        (plain name (strip_super name))
        (begins index (strip_super name))
        (get_m classes klazz base name)
unfolding get_m
get_m-Searches classes klazz base name =
    let line = (classes klazz).lro in
    search_from-Searches classes line name (index_of line base (length line - 1)) (strip_super name)

pub index_of-le : (line : List LroNode) (klazz i : ℕ) → index_of line klazz i ≤ i
unfolding index_of
index_of-le line klazz zero = omega arith
index_of-le line klazz (suc i) = ground (arith, index_of-le line klazz i)
