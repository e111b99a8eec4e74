-- ===== src/Codegen/Blocks.antt =====
-- Blocks of instructions: their counts, and merging.
use koala_lang_pre.Prelude.{
  ltb, leb, Option-cases, get_elem?, ℤ, pos, ℕ, zero, suc, ◌+◌, ◌-◌, ◌≤◌, ◌<◌, ◌≡◌, refl, sym, ap,
  ◌∙◌, subst, ◌≢◌, inl, inr, Bool, true, ◌&&◌, some, List, [], ◌∷◌, ◌++◌, map, append_assoc,
  append-nil, arith,
}
use koala_lang_pre.Codegen.{
  Inst, CodeBlock, opcodes, arg_count, add_inst, inst_new, inst_append, move_insts, merge,
  ConstValue, less, is_zero,
}

-- Each instruction's `upbytes` is the number of bytes up to its end, and the last one's is the total.
abbrev pub IsCounted : ℕ → List Inst → ℕ → Type 0
IsCounted start [] last = start ≡ last
IsCounted start (i ∷ insts) last = (i.upbytes ≡ start + i.bytes) × IsCounted i.upbytes insts last

abbrev pub IsValid : CodeBlock → Type 0
IsValid b = IsCounted 0 b.insts b.bytes

-- What of an instruction is written out.
abbrev pub content : Inst → ℕ × ℕ × ConstValue
content i = (i.op, i.argc, i.arg)

IsCounted-snoc :
    (start last : ℕ) (insts : List Inst) (i : Inst)
    → IsCounted start insts last
    → IsCounted start (insts ++ record i { upbytes = last + i.bytes } ∷ []) (last + i.bytes)
IsCounted-snoc start last [] i h = (omega arith, refl)
IsCounted-snoc start last (j ∷ insts) i h = (h.0, IsCounted-snoc j.upbytes last insts i h.1)

add_inst-IsValid : (b : CodeBlock) (i : Inst) → IsValid b → IsValid (add_inst b i)
unfolding add_inst
add_inst-IsValid b i v = IsCounted-snoc 0 b.bytes b.insts i v

-- An appended instruction keeps the counts of a block right.
pub inst_append-IsValid :
    (b b' : CodeBlock) (op : ℕ) (val : ConstValue)
    → IsValid b
    → inst_append b op val ≡ some b'
    → IsValid b'
unfolding inst_append
inst_append-IsValid b b' op val v e = elim (Option-cases (inst_new op val)) [
  | inl n ↦ absurd (ground arith)
  | inr (i, s) ↦
      let same : add_inst b i ≡ b' = ground arith in subst IsValid same (add_inst-IsValid b i v)
]

less-step :
    (start bytes last : ℕ)
    → start + bytes ≤ last
    → less (pos (last - start)) bytes ≡ pos (last - (start + bytes))
less-step start bytes last h =
    let e : last - start - bytes ≡ last - (start + bytes) = omega arith in
    let test : leb bytes (last - start) ≡ true = ground arith in rw (test, e) refl

move_insts-left :
    (insts : List Inst) (start last : ℕ) (to : CodeBlock)
    → IsCounted start insts last
    → start ≤ last × ((move_insts insts (pos (last - start)) to).0 ≡ pos 0)
unfolding move_insts
move_insts-left [] start last to h =
    let none_left : last - start ≡ 0 = omega arith in (omega arith, ap (λ (n : ℕ). pos n) none_left)
move_insts-left (i ∷ insts) start last to h =
    let r = move_insts-left insts i.upbytes last (add_inst to i) h.1 in
    let e : less (pos (last - start)) i.bytes ≡ pos (last - i.upbytes) =
      less-step start i.bytes last (omega (arith, h.0, r.0))
      ∙ ap (λ (n : ℕ). pos (last - n)) (sym h.0) in
    (omega (arith, h.0, r.0), ap (λ (n : ℤ). (move_insts insts n (add_inst to i)).0) e ∙ r.1)

move_insts-IsValid :
    (insts : List Inst) (left : ℤ) (to : CodeBlock)
    → IsValid to
    → IsValid (move_insts insts left to).1
unfolding move_insts
move_insts-IsValid [] left to v = v
move_insts-IsValid (i ∷ insts) left to v =
    move_insts-IsValid insts (less left i.bytes) (add_inst to i) (add_inst-IsValid to i v)

map-snoc :
    (insts : List Inst) (i : Inst)
    → map content (insts ++ i ∷ []) ≡ map content insts ++ content i ∷ []
map-snoc [] i = refl
map-snoc (j ∷ insts) i = ap (λ (l : List (ℕ × ℕ × ConstValue)). content j ∷ l) (map-snoc insts i)

map-add_inst :
    (b : CodeBlock) (i : Inst)
    → map content (add_inst b i).insts ≡ map content b.insts ++ content i ∷ []
unfolding add_inst
map-add_inst b i = map-snoc b.insts (record i { upbytes = b.bytes + i.bytes })

move_insts-content :
    (insts : List Inst) (left : ℤ) (to : CodeBlock)
    → map content (move_insts insts left to).1.insts ≡ map content to.insts ++ map content insts
unfolding move_insts
move_insts-content [] left to = sym (append-nil _)
move_insts-content (i ∷ insts) left to =
    move_insts-content insts (less left i.bytes) (add_inst to i)
    ∙ ap (λ (l : List (ℕ × ℕ × ConstValue)). l ++ map content insts) (map-add_inst to i)
    ∙ append_assoc (map content to.insts) (content i ∷ []) (map content insts)

abbrev pub AllValid : List CodeBlock → Type 0
AllValid [] = Unit {0}
AllValid (b ∷ blocks) = IsValid b × AllValid blocks

abbrev pub contents : List CodeBlock → List (ℕ × ℕ × ConstValue)
contents [] = []
contents (b ∷ blocks) = map content b.insts ++ contents blocks

-- Merging blocks whose counts are right fails no assertion. The target keeps its instructions and gets
-- those of the blocks behind them, in order, and its counts are right.
pub merge-content :
    (blocks : List CodeBlock) (to : CodeBlock)
    → AllValid blocks
    → IsValid to
    → (r : CodeBlock) × (merge blocks to ≡ some r)
      × IsValid r
      × (map content r.insts ≡ map content to.insts ++ contents blocks)
unfolding merge
merge-content [] to all v = (to, refl, v, sym (append-nil _))
merge-content (b ∷ blocks) to all v =
    let w = (move_insts b.insts (pos b.bytes) to).1 in
    let whole : b.bytes ≡ b.bytes - 0 = omega arith in
    let none_left : (move_insts b.insts (pos b.bytes) to).0 ≡ pos 0 =
      ap (λ (n : ℕ). (move_insts b.insts (pos n) to).0) whole
      ∙ (move_insts-left b.insts 0 b.bytes to all.0).1 in
    let test : is_zero (move_insts b.insts (pos b.bytes) to).0 ≡ true = ap is_zero none_left in
    let (r, e, valid, same) =
      merge-content blocks w all.1 (move_insts-IsValid b.insts (pos b.bytes) to v) in
    (
      r,
      rw test e,
      valid,
      same
          ∙ ap (λ (l : List (ℕ × ℕ × ConstValue)). l ++ contents blocks)
              (move_insts-content b.insts (pos b.bytes) to)
          ∙ append_assoc (map content to.insts) (map content b.insts) (contents blocks),
    )

-- Every row's opcode is above the row's number.
rows_above : ℕ → List (ℕ × ℕ) → Bool
rows_above n [] = true
rows_above n (row ∷ rows) = ltb n row.0 && rows_above (suc n) rows

rows_above_sound :
    (n i : ℕ) (rows : List (ℕ × ℕ)) (row : ℕ × ℕ)
    → rows_above n rows ≡ true
    → get_elem? rows i ≡ some row
    → n + i < row.0
unfolding rows_above
rows_above_sound n i [] row h e = absurd (ground arith)
rows_above_sound n zero (r ∷ rows) row h e = ground arith
rows_above_sound n (suc i) (r ∷ rows) row h e =
    let ih = rows_above_sound (suc n) i rows row (ground arith) e in omega arith

-- The table is compact and the opcodes are not: for no opcode is the size of the argument read from the
-- row of that opcode.
pub arg_count-row :
    (op n : ℕ)
    → arg_count op ≡ some n
    → (row : ℕ × ℕ) × (get_elem? opcodes op ≡ some row) × (row.1 ≡ n) × (row.0 ≢ op)
unfolding arg_count opcodes rows_above
arg_count-row op n h = elim (Option-cases (get_elem? opcodes op)) [
  | inl e ↦ absurd (ground arith)
  | inr (row, e) ↦
      (row, e, ground arith, λ same. omega (arith, rows_above_sound 0 op opcodes row refl e))
]
