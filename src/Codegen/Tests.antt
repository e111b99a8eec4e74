-- ===== src/Codegen/Tests.antt =====
-- A block that loads a constant and returns, with a constant pool that counts what enters it.
use koala_lang_pre.Prelude.{get_elem?, ℕ, ◌+◌, ◌≡◌, refl, ◌≢◌, none, some, [], ◌∷◌, ◌++◌, map}
use koala_lang_pre.Buffer.{left, fill, add_block, put, write, join, raw_data}
use koala_lang_pre.Codegen.{
  ConstValue, Inst, CodeBlock, undefined, int, opcodes, arg_count, new_block, inst_new, add_inst,
  inst_append, move_insts, merge, low_bytes, inst_gen, gen_insts, to_raw_code,
}
use koala_lang_pre.Codegen.Blocks.{IsValid, content, contents, merge-content, arg_count-row}
use koala_lang_pre.Codegen.Bytes.{Codes, encode, to_raw_code-Codes}

program : Unit {0}
unfolding left fill add_block put write join raw_data opcodes arg_count inst_new add_inst
    inst_append move_insts merge low_bytes inst_gen gen_insts to_raw_code
program = tt

abbrev count : ℕ → ConstValue → ℕ × ℕ
count pool val = (pool + 1, pool)

abbrev load : Inst
load = record { bytes = 1; argc = 0; op = 10; arg = int 7; upbytes = 1 }

abbrev ret : Inst
ret = record { bytes = 1; argc = 0; op = 25; arg = undefined; upbytes = 2 }

abbrev loads : CodeBlock
loads = record { bytes = 1; insts = load ∷ [] }

abbrev block : CodeBlock
block = record { bytes = 2; insts = load ∷ ret ∷ [] }

-- Row 10 of the table is that of another opcode, so the two bytes of the argument are not counted.
inst_append_runs : inst_append new_block 10 (int 7) ≡ some loads
unfolding program
inst_append_runs = refl

to_raw_code_runs : to_raw_code count 300 block ≡ some (301, 10 ∷ 44 ∷ 1 ∷ 25 ∷ [], 4)
unfolding program
to_raw_code_runs = refl

merge_runs :
    merge (loads ∷ []) loads
    ≡ some (record { bytes = 2; insts = load ∷ record load { upbytes = 2 } ∷ [] })
unfolding program
merge_runs = refl

-- The last opcodes are past the end of the table.
arg_count_past : arg_count 90 ≡ none
unfolding program
arg_count_past = refl

loads-IsValid : IsValid loads
loads-IsValid = (refl, refl)

merge-content_example :
    (r : CodeBlock) × (merge (loads ∷ block ∷ []) loads ≡ some r)
    × IsValid r
    × (map content r.insts ≡ map content loads.insts ++ contents (loads ∷ block ∷ []))
merge-content_example =
    merge-content (loads ∷ block ∷ []) loads (loads-IsValid, ((refl, (refl, refl)), tt))
      loads-IsValid

arg_count-row_example :
    (row : ℕ × ℕ) × (get_elem? opcodes 10 ≡ some row) × (row.1 ≡ 0) × (row.0 ≢ 10)
arg_count-row_example = arg_count-row 10 0 (unfold program in refl)

to_raw_code-Codes_example : Codes count (encode count 300 block.insts) (to_raw_code count 300 block)
to_raw_code-Codes_example = to_raw_code-Codes count 300 block
