-- ===== src/Klass/Layout.antt =====
-- Where the fields of a class lie: what `Init_Klass` and `Klass_Add_Field` keep.
use koala_lang_pre.Prelude.{
  ◌==◌, Bool-cases, ℕ, ◌+◌, ◌≡◌, refl, sym, ap, ◌∙◌, inl, inr, Bool, true, false, ◌||◌, List, [],
  ◌∷◌, ◌++◌, arith,
}
use koala_lang_pre.Klass.{
  LroNode, Klass, Classes, Build, any, write, lro_find, place, add_bases, lro_build, init_klass,
  add_field,
}
use koala_lang_pre.Klass.Line.{
  IsConsecutive, IsDistinct, IsBuild, in_bases, IsConsecutive-same, place-IsBuild,
  add_bases-IsBuild, add_bases-find, lro_find-snoc,
}

-- The line of a class ends with the class itself, behind distinct other classes, and their fields fill
-- the object from its start on.
pub record IsLaidOut (classes : Classes) (klazz : ℕ) : Type 0 where
  pub front : List LroNode
  pub own : ℕ
  pub split : (classes klazz).lro ≡ front ++ record { klazz = klazz; offset = own } ∷ []
  pub consecutive : IsConsecutive classes front 0 own
  pub distinct : IsDistinct front
  pub other : lro_find front klazz ≡ false
  pub total : (classes klazz).totalvars ≡ own + (classes klazz).nrvars

start : Build
start = record { line = []; next = 0 }

start-IsBuild : (classes : Classes) → IsBuild classes start
unfolding start
start-IsBuild classes = record { consecutive = refl; distinct = tt }

find-start :
    (classes : Classes) (klazz : ℕ) → lro_find (place classes start any).line klazz ≡ (any == klazz)
unfolding start lro_find
find-start classes klazz = ground arith

built : Classes → List ℕ → Build
built classes bases = add_bases classes bases (place classes start any)

built-IsBuild : (classes : Classes) (bases : List ℕ) → IsBuild classes (built classes bases)
unfolding built start lro_find
built-IsBuild classes bases =
    add_bases-IsBuild classes bases _ (place-IsBuild classes start any (start-IsBuild classes) refl)

find-built :
    (classes : Classes) (bases : List ℕ) (klazz : ℕ)
    → lro_find (built classes bases).line klazz ≡ (any == klazz || in_bases classes bases klazz)
unfolding built
find-built classes bases klazz =
    ground (
      arith,
      add_bases-find classes bases (place classes start any) klazz,
      find-start classes klazz,
    )

write_self : (classes : Classes) (klazz : ℕ) (k : Klass) → write classes klazz k klazz ≡ k
write_self classes klazz k = let same : (klazz == klazz) ≡ true = ground arith in rw same refl

-- A class of the front is not the one that is written.
write_other :
    (classes : Classes) (klazz : ℕ) (k : Klass) (front : List LroNode) (a : ℕ)
    → lro_find front klazz ≡ false
    → lro_find front a ≡ true
    → write classes klazz k a ≡ classes a
write_other classes klazz k front a h on = elim (Bool-cases (klazz == a)) [
  | inr f ↦ rw f refl
  | inl t ↦ let same : klazz ≡ a = ground arith in absurd (cc)
]

IsLaidOut-write :
    (classes : Classes) (klazz : ℕ) (k : Klass) (front : List LroNode) (own : ℕ)
    → k.lro ≡ front ++ record { klazz = klazz; offset = own } ∷ []
    → IsConsecutive classes front 0 own
    → IsDistinct front
    → lro_find front klazz ≡ false
    → k.totalvars ≡ own + k.nrvars
    → IsLaidOut (write classes klazz k) klazz
IsLaidOut-write classes klazz k front own split consecutive distinct other total =
    let self = write_self classes klazz k in
    record {
      front = front;
      own = own;
      split = ap (λ (c : Klass). c.lro) self ∙ split;
      consecutive =
          IsConsecutive-same classes (write classes klazz k) front 0 own
            (λ a on. ap (λ (c : Klass). c.nrvars) (write_other classes klazz k front a other on))
            consecutive;
      distinct = distinct;
      other = other;
      total =
          ap (λ (c : Klass). c.totalvars) self
          ∙ total
          ∙ ap (λ (c : Klass). own + c.nrvars) (sym self);
    }

lro_build-IsLaidOut :
    (classes : Classes) (klazz : ℕ) (bases : List ℕ)
    → (any == klazz) ≡ false
    → in_bases classes bases klazz ≡ false
    → (classes klazz).nrvars ≡ 0
    → IsLaidOut (lro_build classes klazz bases) klazz
unfolding lro_build built start
lro_build-IsLaidOut classes klazz bases h off none_yet =
    let b = built classes bases in
    let v = built-IsBuild classes bases in
    IsLaidOut-write classes klazz _ b.line b.next refl v.consecutive v.distinct
      (find-built classes bases klazz ∙ ground arith) (omega arith)

in_bases-write :
    (classes : Classes) (klazz : ℕ) (k : Klass) (bases : List ℕ)
    → k.lro ≡ []
    → in_bases classes bases klazz ≡ false
    → in_bases (write classes klazz k) bases klazz ≡ false
unfolding lro_find
in_bases-write classes klazz k [] e h = refl
in_bases-write classes klazz k (base ∷ bases) e h =
    let rest : in_bases (write classes klazz k) bases klazz ≡ false =
      in_bases-write classes klazz k bases e (ground arith) in
    let now : lro_find (classes base).lro klazz ≡ false = ground arith in
    elim (Bool-cases (klazz == base)) [
      | inl t ↦ rw (t, e, rest) refl
      | inr f ↦ rw (f, now, rest) refl
    ]

-- A class that is none of the classes in its bases' lines, nor `any`, and that has no fields yet, is laid
-- out by `Init_Klass`: its line ends with the class, behind distinct other classes whose fields fill the
-- object from its start, and `totalvars` is where its own fields begin.
pub init_klass-IsLaidOut :
    (classes : Classes) (klazz : ℕ) (bases : List ℕ)
    → (any == klazz) ≡ false
    → in_bases classes bases klazz ≡ false
    → (classes klazz).nrvars ≡ 0
    → IsLaidOut (init_klass classes klazz bases) klazz
unfolding init_klass
init_klass-IsLaidOut classes klazz bases h off none_yet =
    let k = record (classes klazz) { lro = []; mtbl = [] } in
    lro_build-IsLaidOut (write classes klazz k) klazz bases h
      (in_bases-write classes klazz k bases refl off)
      (ap (λ (c : Klass). c.nrvars) (write_self classes klazz k) ∙ none_yet)

-- A class that is laid out stays so when a field is added to it.
pub add_field-IsLaidOut :
    (classes : Classes) (klazz : ℕ) (name : List ℕ)
    → IsLaidOut classes klazz
    → IsLaidOut (add_field classes klazz name) klazz
unfolding add_field
add_field-IsLaidOut classes klazz name v =
    IsLaidOut-write classes klazz _ v.front v.own v.split v.consecutive v.distinct v.other
      (omega (arith, v.total))

-- The line of a new class holds `any`, the classes of the lines of its bases, and itself, and no other.
pub find-init_klass :
    (classes : Classes) (klazz a : ℕ) (bases : List ℕ)
    → lro_find (init_klass classes klazz bases klazz).lro a ≡ (
        any == a
        || in_bases (write classes klazz (record (classes klazz) { lro = []; mtbl = [] })) bases a
        || klazz == a)
unfolding init_klass lro_build built start
find-init_klass classes klazz a bases =
    let c = write classes klazz (record (classes klazz) { lro = []; mtbl = [] }) in
    let b = built c bases in
    ap (λ (k : Klass). lro_find k.lro a) (write_self c klazz _)
    ∙ lro_find-snoc b.line (record { klazz = klazz; offset = b.next }) a
    ∙ ap (λ (x : Bool). x || klazz == a) (find-built c bases a)
    ∙ ground arith
