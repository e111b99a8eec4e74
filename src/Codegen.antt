-- ===== src/Codegen.antt =====
-- src/codegen.c, include/codegen.h, src/opcode.c: blocks of instructions and their bytes.
-- The constant pool of the image is a parameter: `add` enters a constant and gives its index, at the
-- moment that the code calls one of the functions KImage_Add_…. An `int`, `int64` or `float64` argument
-- stands as the number that its bits spell, without a sign. The processor stores the low byte first. The blocks that
-- `next` chains are a list. Allocations are granted.
pub mod Blocks
pub mod Bytes
mod Tests
use koala_lang_pre.Prelude.{
  leb, ◌==◌, if◌then◌else◌, to_nat, length, get_elem?, ℤ, pos, negsuc, ℕ, zero, suc, ◌+◌, ◌-◌, ◌*◌,
  ◌/◌, ◌%◌, Bool, true, false, ◌&&◌, ◌||◌, Option, none, some, List, [], ◌∷◌, ◌++◌,
}
use koala_lang_pre.Buffer.{Buffer, init, write, raw_data}

-- The columns `op` and `argsize` of `opcodes`.
unfoldable pub opcodes : List (ℕ × ℕ)
opcodes =
    (1, 0)
    ∷ (2, 1)
    ∷ (3, 0)
    ∷ (4, 1)
    ∷ (5, 2)
    ∷ (10, 2)
    ∷ (11, 2)
    ∷ (12, 1)
    ∷ (13, 0)
    ∷ (14, 0)
    ∷ (15, 0)
    ∷ (16, 0)
    ∷ (17, 1)
    ∷ (18, 0)
    ∷ (19, 0)
    ∷ (20, 0)
    ∷ (21, 0)
    ∷ (22, 2)
    ∷ (23, 2)
    ∷ (24, 3)
    ∷ (25, 0)
    ∷ (40, 0)
    ∷ (41, 0)
    ∷ (42, 0)
    ∷ (43, 0)
    ∷ (44, 0)
    ∷ (45, 0)
    ∷ (46, 0)
    ∷ (47, 0)
    ∷ (48, 0)
    ∷ (49, 0)
    ∷ (50, 0)
    ∷ (51, 0)
    ∷ (52, 0)
    ∷ (53, 0)
    ∷ (54, 0)
    ∷ (55, 0)
    ∷ (56, 0)
    ∷ (57, 0)
    ∷ (58, 0)
    ∷ (59, 0)
    ∷ (60, 0)
    ∷ (61, 0)
    ∷ (70, 0)
    ∷ (71, 0)
    ∷ (72, 0)
    ∷ (73, 0)
    ∷ (74, 0)
    ∷ (75, 0)
    ∷ (76, 0)
    ∷ (77, 0)
    ∷ (78, 0)
    ∷ (79, 0)
    ∷ (80, 0)
    ∷ (90, 0)
    ∷ (91, 0)
    ∷ (92, 0)
    ∷ (93, 0)
    ∷ (94, 0)
    ∷ (95, 0)
    ∷ (96, 0)
    ∷ (97, 0)
    ∷ (98, 0)
    ∷ []

-- `OpCode_ArgCount`: the table is indexed by the opcode; `none` is a read past its end.
unfoldable pub arg_count : ℕ → Option ℕ
unfolding opcodes
arg_count op = elim (get_elem? opcodes op) [ none ↦ none | some row ↦ some row.1 ]

pub data ConstValue : Type 0 where
  undefined : ConstValue
  int float : ℕ → ConstValue
  bool : Bool → ConstValue
  string char : List ℕ → ConstValue

pub record Inst : Type 0 where
  pub bytes : ℕ
  pub argc : ℕ
  pub op : ℕ
  pub arg : ConstValue
  pub upbytes : ℕ

pub record CodeBlock : Type 0 where
  pub bytes : ℕ
  pub insts : List Inst

-- `CodeBlock_New`
abbrev pub new_block : CodeBlock
new_block = record { bytes = 0; insts = [] }

-- `inst_new`, with the argument that `Malloc` clears where none is given.
unfoldable pub inst_new : ℕ → ConstValue → Option Inst
unfolding arg_count
inst_new op val = elim (arg_count op) [
  | none ↦ none
  | some n ↦ some (record { bytes = 1 + n; argc = 0; op = op; arg = val; upbytes = 0 })
]

-- `list_add_tail` of an instruction, and the two counts behind it.
unfoldable pub add_inst : CodeBlock → Inst → CodeBlock
add_inst b i =
    let total = b.bytes + i.bytes in
    record { bytes = total; insts = b.insts ++ record i { upbytes = total } ∷ [] }

-- `Inst_Append`
unfoldable pub inst_append : CodeBlock → ℕ → ConstValue → Option CodeBlock
unfolding inst_new add_inst
inst_append b op val = elim (inst_new op val) [ none ↦ none | some i ↦ some (add_inst b i) ]

-- `-=` on an `int`.
abbrev pub less : ℤ → ℕ → ℤ
less (pos m) n = if leb n m then pos (m - n) else negsuc (n - m - 1)
less (negsuc m) n = negsuc (m + n)

abbrev pub is_zero : ℤ → Bool
is_zero (pos n) = n == 0
is_zero (negsuc n) = false

-- The loop of `CodeBlock_Merge` over one block: the bytes left in that block, and the target.
unfoldable pub move_insts : List Inst → ℤ → CodeBlock → ℤ × CodeBlock
move_insts [] left to = (left, to)
move_insts (i ∷ insts) left to = move_insts insts (less left i.bytes) (add_inst to i)

-- `CodeBlock_Merge` of a block and the blocks behind it; `none` where an assertion fails.
unfoldable pub merge : List CodeBlock → CodeBlock → Option CodeBlock
merge [] to = some to
merge (b ∷ blocks) to =
    let r = move_insts b.insts (pos b.bytes) to in
    let rest = merge blocks r.1 in if is_zero r.0 then rest else none

-- The low bytes of a number.
unfoldable pub low_bytes : ℕ → ℕ → List ℕ
low_bytes zero n = []
low_bytes (suc k) n = n % 256 ∷ low_bytes k (n / 256)

-- The numbers of the opcodes that the code generator writes.
pub data OpKind : Type 0 where
  const_op name_op local_op call_op plain_op jump_op array_op other_op : OpKind

-- The labels of the `switch` in `inst_gen`.
abbrev pub op_kind : ℕ → OpKind
op_kind op =
    if op == 10
    then const_op
    else if op == 11 || op == 22 || op == 23
    then name_op
    else if op == 12 || op == 17
    then local_op
    else if op == 24 || op == 90
    then call_op
    else if op == 25 || leb 40 op && leb op 44 || leb 46 op && leb op 52
    then plain_op
    else if op == 70 || op == 71 || op == 72
    then jump_op
    else if op == 91
    then array_op
    else other_op

-- `i->arg.ival`: the bits of the union as a number. The address of a string is not known, and a character
-- where a number is read is left out.
abbrev pub ival : ConstValue → Option ℕ
ival undefined = some 0
ival (int n) = some n
ival (float n) = some n
ival (bool b) = some (to_nat b)
ival (string s) = none
ival (char s) = none

abbrev pub is_undefined : ConstValue → Bool
is_undefined undefined = true
is_undefined _ = false

module _ {Image : Type 0} (add : Image → ConstValue → Image × ℕ) where
  -- The instruction with the low bytes of its argument.
  abbrev pub write_ival : Image → ℕ → Inst → Option (Image × List ℕ)
  write_ival image k i = elim (ival i.arg) [
    | none ↦ none
    | some n ↦ some (image, i.op ∷ low_bytes k n)
  ]

  -- `inst_gen`: the image, and the bytes that are written; `none` where an assertion fails, or the argument
  -- is no number where one is read.
  unfoldable pub inst_gen : Image → Inst → Option (Image × List ℕ)
  inst_gen image i =
      let r = add image i.arg in
      elim (op_kind i.op) [
        | const_op ↦ if is_undefined i.arg then none else some (r.0, i.op ∷ low_bytes 2 r.1)
        | name_op ↦ some (r.0, i.op ∷ low_bytes 2 r.1)
        | local_op ↦ write_ival image 1 i
        | call_op ↦ some (r.0, i.op ∷ (low_bytes 4 r.1 ++ low_bytes 2 i.argc))
        | plain_op ↦ some (image, i.op ∷ [])
        | jump_op ↦ write_ival image 2 i
        | array_op ↦ write_ival image 4 i
        | other_op ↦ none
      ]

  -- The loop of `CodeBlock_To_RawCode`; every write has the fuel that it needs.
  unfoldable pub gen_insts : Image → Buffer → List Inst → Option (Image × Buffer)
  gen_insts image buf [] = some (image, buf)
  gen_insts image buf (i ∷ insts) = elim (inst_gen image i) [
    | none ↦ none
    | some (image', bytes) ↦ elim (write (2 * length bytes + 1) buf bytes) [
      | none ↦ none
      | some buf' ↦ gen_insts image' buf' insts
    ]
  ]

  -- `CodeBlock_To_RawCode`: the image, the code and its size.
  unfoldable pub to_raw_code : Image → CodeBlock → Option (Image × List ℕ × ℕ)
  unfolding gen_insts
  to_raw_code image b = elim (gen_insts image (init 32) b.insts) [
    | none ↦ none
    | some (image', buf) ↦ some (image', raw_data buf, buf.size)
  ]
