-- ===== src/Buffer/Tests.antt =====
-- A buffer with blocks of four bytes.
use koala_lang_pre.Prelude.{ℕ, ◌≡◌, refl, some, List, [], ◌∷◌, ◌++◌, arith}
use koala_lang_pre.Buffer.{Buffer, init, left, fill, add_block, put, write, join, raw_data, fini}
use koala_lang_pre.Buffer.Writes.{IsValid, Writes, write-Writes}

program : Unit {0}
unfolding left fill add_block put write join raw_data fini
program = tt

abbrev six : List ℕ
six = 1 ∷ 2 ∷ 3 ∷ 4 ∷ 5 ∷ 6 ∷ []

abbrev filled : Buffer
filled = record { size = 6; blocks = 2; bsize = 4; head = (1 ∷ 2 ∷ 3 ∷ 4 ∷ []) ∷ (5 ∷ 6 ∷ []) ∷ [] }

write_runs : write 20 (init 4) six ≡ some filled
unfolding program
write_runs = refl

raw_data_runs : raw_data filled ≡ six ++ 0 ∷ 0 ∷ []
unfolding program
raw_data_runs = refl

fini_runs : (fini filled).0 ≡ init 0
unfolding program
fini_runs = refl

filled-IsValid : IsValid filled
unfolding program
filled-IsValid = record { sized = refl; counted = refl; packed = (refl, omega arith) }

write-Writes_example : Writes filled six (write 13 filled six)
write-Writes_example = write-Writes 13 filled six (omega arith) filled-IsValid (omega arith)
