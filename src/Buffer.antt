-- ===== src/Buffer.antt =====
-- src/buffer.c, include/buffer.h: the byte buffer in blocks that the code generator and the image
-- writer fill.
-- A block is the list of its used bytes, and the chain of blocks is the list from `head.next` on. An
-- allocation that is refused ends the program by an assertion, so it is granted here.
pub mod Writes
mod Tests
use koala_lang_pre.Prelude.{
  leb, if◌then◌else◌, length, take, drop, replicate, ℕ, zero, suc, ◌+◌, ◌-◌, ◌*◌, ◌/◌, min, Option,
  none, some, List, [], ◌∷◌, ◌++◌,
}

pub record Buffer : Type 0 where
  pub size : ℕ
  pub blocks : ℕ
  pub bsize : ℕ
  pub head : List (List ℕ)

-- `Buffer_Init`
abbrev pub init : ℕ → Buffer
init bsize = record { size = 0; blocks = 0; bsize = bsize; head = [] }

-- The free bytes of the last block, nought where there is none.
unfoldable pub left : ℕ → List (List ℕ) → ℕ
left bsize [] = 0
left bsize (b ∷ []) = bsize - length b
left bsize (b ∷ c ∷ bs) = left bsize (c ∷ bs)

-- `memcpy` behind the used bytes of the last block.
unfoldable pub fill : List ℕ → List (List ℕ) → List (List ℕ)
fill bytes [] = []
fill bytes (b ∷ []) = (b ++ bytes) ∷ []
fill bytes (b ∷ c ∷ bs) = b ∷ fill bytes (c ∷ bs)

-- `block_new`, and its place at the end of the chain.
unfoldable pub add_block : Buffer → Buffer
add_block buf = record buf { blocks = buf.blocks + 1; head = buf.head ++ [] ∷ [] }

-- The other branch of the loop, for the bytes that fit.
unfoldable pub put : Buffer → List ℕ → Buffer
put buf bytes = record buf { size = buf.size + length bytes; head = fill bytes buf.head }

-- `Buffer_Write`, with a unit of fuel for each test of the loop.
unfoldable pub write : ℕ → Buffer → List ℕ → Option Buffer
write zero buf bytes = none
write (suc f) buf [] = some buf
write (suc f) buf (c ∷ bytes) =
    let room = left buf.bsize buf.head in
    let sz = min room (length (c ∷ bytes)) in
    let more = write f (add_block buf) (c ∷ bytes) in
    let next = write f (put buf (take sz (c ∷ bytes))) (drop sz (c ∷ bytes)) in
    if leb room 0 then more else next

-- The loop of `Buffer_RawData`
unfoldable pub join : List (List ℕ) → List ℕ
join [] = []
join (b ∷ bs) = b ++ join bs

-- `ALIGN(n, 4)`
abbrev pub align : ℕ → ℕ
align n = (n + 3) / 4 * 4

-- `Buffer_RawData`: a cleared array of the aligned size, with the blocks copied to its front.
unfoldable pub raw_data : Buffer → List ℕ
raw_data buf = let bytes = join buf.head in bytes ++ replicate (align buf.size - length bytes) 0

-- `Buffer_Fini`: the buffer that is left, and the blocks in the order in which they are freed.
unfoldable pub fini : Buffer → Buffer × List (List ℕ)
fini buf = (init 0, buf.head)
