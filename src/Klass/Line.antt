-- ===== src/Klass/Line.antt =====
-- The line of a class: its fields come one class after the other, without gaps.
use koala_lang_pre.Prelude.{
  ◌==◌, if◌then◌else◌, Bool-cases, if_ind, ℕ, ◌+◌, ◌≡◌, refl, sym, ap, ◌∙◌, inl, inr, Bool, true,
  false, ◌||◌, List, [], ◌∷◌, ◌++◌, arith,
}
use koala_lang_pre.Klass.{LroNode, Classes, Build, lro_find, place, add_line, add_bases}

-- Each node's offset is where the fields of the node before it end; the last ones end at `last`.
abbrev pub IsConsecutive : Classes → List LroNode → ℕ → ℕ → Type 0
IsConsecutive classes [] start last = start ≡ last
IsConsecutive classes (node ∷ line) start last =
    (node.offset ≡ start) × IsConsecutive classes line (start + (classes node.klazz).nrvars) last

-- No class stands twice.
abbrev pub IsDistinct : List LroNode → Type 0
IsDistinct [] = Unit {0}
IsDistinct (node ∷ line) = (lro_find line node.klazz ≡ false) × IsDistinct line

pub IsConsecutive-snoc :
    (classes : Classes) (line : List LroNode) (start last klazz : ℕ)
    → IsConsecutive classes line start last
    → IsConsecutive classes
        (line ++ record { klazz = klazz; offset = last } ∷ [])
        start
        (last + (classes klazz).nrvars)
IsConsecutive-snoc classes [] start last klazz h = (sym h, omega arith)
IsConsecutive-snoc classes (node ∷ line) start last klazz h =
    (h.0, IsConsecutive-snoc classes line _ last klazz h.1)

pub lro_find-snoc :
    (line : List LroNode) (node : LroNode) (klazz : ℕ)
    → lro_find (line ++ node ∷ []) klazz ≡ (lro_find line klazz || node.klazz == klazz)
unfolding lro_find
lro_find-snoc [] node klazz = ground arith
lro_find-snoc (n ∷ line) node klazz = let ih = lro_find-snoc line node klazz in ground arith

pub IsDistinct-snoc :
    (line : List LroNode) (node : LroNode)
    → IsDistinct line
    → lro_find line node.klazz ≡ false
    → IsDistinct (line ++ node ∷ [])
unfolding lro_find
IsDistinct-snoc [] node d h = (refl, tt)
IsDistinct-snoc (n ∷ line) node d h =
    let off : lro_find line node.klazz ≡ false = ground arith in
    (ground (arith, lro_find-snoc line node n.klazz, d.0), IsDistinct-snoc line node d.1 off)

-- A line in the making.
pub record IsBuild (classes : Classes) (b : Build) : Type 0 where
  pub consecutive : IsConsecutive classes b.line 0 b.next
  pub distinct : IsDistinct b.line

pub place-IsBuild :
    (classes : Classes) (b : Build) (klazz : ℕ)
    → IsBuild classes b
    → lro_find b.line klazz ≡ false
    → IsBuild classes (place classes b klazz)
place-IsBuild classes b klazz v h = record {
  consecutive = IsConsecutive-snoc classes b.line 0 b.next klazz v.consecutive;
  distinct = IsDistinct-snoc b.line _ v.distinct h;
}

-- A node of a base's line is added unless its class is there.
add_one : Classes → LroNode → Build → Build
add_one classes node b = if lro_find b.line node.klazz then b else place classes b node.klazz

add_one-IsBuild :
    (classes : Classes) (node : LroNode) (b : Build)
    → IsBuild classes b
    → IsBuild classes (add_one classes node b)
unfolding add_one
add_one-IsBuild classes node b v =
    if_ind (IsBuild classes) (lro_find b.line node.klazz) (λ _. v)
      (λ off. place-IsBuild classes b node.klazz v off)

find_again :
    (line : List LroNode) (a b : ℕ)
    → lro_find line a ≡ true
    → lro_find line b ≡ (lro_find line b || a == b)
find_again line a b h = elim (Bool-cases (a == b)) [
  | inr f ↦ ground arith
  | inl t ↦
      let same : a ≡ b = ground arith in
      let on : lro_find line b ≡ true = ap (lro_find line) (sym same) ∙ h in rw on refl
]

add_one-find :
    (classes : Classes) (node : LroNode) (b : Build) (klazz : ℕ)
    → lro_find (add_one classes node b).line klazz ≡ (lro_find b.line klazz || node.klazz == klazz)
unfolding add_one
add_one-find classes node b klazz = elim (Bool-cases (lro_find b.line node.klazz)) [
  | inr off ↦ rw off (lro_find-snoc b.line (record { klazz = node.klazz; offset = b.next }) klazz)
  | inl on ↦ rw on (find_again b.line node.klazz klazz on)
]

add_line-IsBuild :
    (classes : Classes) (nodes : List LroNode) (b : Build)
    → IsBuild classes b
    → IsBuild classes (add_line classes nodes b)
unfolding add_line add_one
add_line-IsBuild classes [] b v = v
add_line-IsBuild classes (node ∷ nodes) b v =
    add_line-IsBuild classes nodes (add_one classes node b) (add_one-IsBuild classes node b v)

add_line-find :
    (classes : Classes) (nodes : List LroNode) (b : Build) (klazz : ℕ)
    → lro_find (add_line classes nodes b).line klazz
      ≡ (lro_find b.line klazz || lro_find nodes klazz)
unfolding add_line add_one lro_find
add_line-find classes [] b klazz = ground arith
add_line-find classes (node ∷ nodes) b klazz =
    let step = add_one-find classes node b klazz in
    let rest = add_line-find classes nodes (add_one classes node b) klazz in ground arith

pub add_bases-IsBuild :
    (classes : Classes) (bases : List ℕ) (b : Build)
    → IsBuild classes b
    → IsBuild classes (add_bases classes bases b)
unfolding add_bases
add_bases-IsBuild classes [] b v = v
add_bases-IsBuild classes (base ∷ bases) b v =
    add_bases-IsBuild classes bases _ (add_line-IsBuild classes (classes base).lro b v)

-- The class stands in the line of one of the bases.
abbrev pub in_bases : Classes → List ℕ → ℕ → Bool
in_bases classes [] klazz = false
in_bases classes (base ∷ bases) klazz =
    lro_find (classes base).lro klazz || in_bases classes bases klazz

pub add_bases-find :
    (classes : Classes) (bases : List ℕ) (b : Build) (klazz : ℕ)
    → lro_find (add_bases classes bases b).line klazz
      ≡ (lro_find b.line klazz || in_bases classes bases klazz)
unfolding add_bases
add_bases-find classes [] b klazz = ground arith
add_bases-find classes (base ∷ bases) b klazz =
    let step = add_line-find classes (classes base).lro b klazz in
    let rest = add_bases-find classes bases (add_line classes (classes base).lro b) klazz in
    ground arith

pub IsConsecutive-same :
    (c d : Classes) (line : List LroNode) (start last : ℕ)
    → ((a : ℕ) → lro_find line a ≡ true → (d a).nrvars ≡ (c a).nrvars)
    → IsConsecutive c line start last
    → IsConsecutive d line start last
unfolding lro_find
IsConsecutive-same c d [] start last same h = h
IsConsecutive-same c d (node ∷ line) start last same h =
    let here : (d node.klazz).nrvars ≡ (c node.klazz).nrvars = same node.klazz (ground arith) in
    let there = λ (a : ℕ) (on : lro_find line a ≡ true). same a (ground arith) in
    (h.0, IsConsecutive-same c d line _ last there (rw (← here) at h.1))
