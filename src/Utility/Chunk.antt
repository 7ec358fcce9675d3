-- ===== src/Utility/Chunk.antt =====
-- utility/Chunk.cpp and Chunk.hpp: a chunk of equal blocks. The first byte of a free block holds the
-- index of the next free one. The heap is a function from addresses to bytes; a chunk's memory is
-- what malloc() returned, an argument of `reserve_space`.
pub mod FreeList
pub mod Ownership
mod Tests
use oodles.Prelude.{
  ℕ, zero, suc, ◌+◌, ◌-◌, ◌*◌, ◌/◌, ◌%◌, Bool, true, false, not, Option, none, some, ltb, leb, ◌==◌,
  ◌&&◌, ◌||◌, if◌then◌else◌,
}

abbrev pub Heap : Type 0
Heap = ℕ → ℕ

-- A write of one byte.
unfoldable pub store : Heap → ℕ → ℕ → Heap
store h p v q = if p == q then v else h q

pub record Chunk : Type 0 where
  pub mem : Option ℕ
  pub next_free_block : ℕ
  pub available_blocks : ℕ
  pub allocated_blocks : ℕ

-- Chunk::Chunk(), which leaves `allocated_blocks` as it is.
unfoldable pub create : ℕ → Chunk
create allocated = record {
  mem = none;
  next_free_block = 0;
  available_blocks = 0;
  allocated_blocks = allocated;
}

unfoldable pub full : Chunk → Bool
full c = c.available_blocks == 0

abbrev pub is_null : Option ℕ → Bool
is_null none = true
is_null (some p) = false

unfoldable pub is_empty : Chunk → Bool
is_empty c = is_null c.mem || (c.available_blocks == c.allocated_blocks)

abbrev pub within : Option ℕ → ℕ → ℕ → Bool
within none block chunk_size = false
within (some m) block chunk_size = leb m block && ltb block (m + chunk_size)

unfoldable pub owns_block : Chunk → ℕ → ℕ → Bool
owns_block c block chunk_size = if is_empty c then false else within c.mem block chunk_size

-- The loop of `reserve_space`: `n` rounds are left, `i` is the next index, `p` its place.
unfoldable pub index_blocks : Heap → ℕ → ℕ → ℕ → ℕ → Heap
index_blocks h block_size i p zero = h
index_blocks h block_size i p (suc n) =
    index_blocks (store h p i) block_size (i + 1) (p + block_size) n

-- The loop ends when `i` meets `blocks`, after `blocks - 1` rounds; `none` is a failed assertion.
unfoldable pub reserve_space : Heap → Chunk → ℕ → ℕ → ℕ → Option (Heap × Chunk)
reserve_space h c memory block_size blocks =
    if is_null c.mem && ltb 0 blocks && ltb 0 block_size
    then some (
      index_blocks h block_size 1 memory (blocks - 1),
      record c { mem = some memory; available_blocks = blocks; allocated_blocks = blocks },
    )
    else none

unfoldable pub destroy_space : Chunk → Option Chunk
destroy_space c =
    if is_null c.mem
    then none
    else some (record c { mem = none; next_free_block = 0; available_blocks = 0 })

abbrev pub base : Chunk → ℕ
base c = elim c.mem [ none ↦ 0 | some m ↦ m ]

-- The address of the block, or `none` for NULL. `--available_blocks` runs only above zero.
unfoldable pub allocate : Heap → Chunk → ℕ → Chunk × Option ℕ
allocate h c block_size =
    let offset = base c + c.next_free_block * block_size in
    if full c then (c, none) else (
      record c { next_free_block = h offset; available_blocks = c.available_blocks - 1 },
      some offset,
    )

unfoldable pub deallocate : Heap → Chunk → ℕ → ℕ → Heap × Chunk
deallocate h c block block_size = (
  store h block c.next_free_block,
  record c {
    next_free_block = (block - base c) / block_size % 256;
    available_blocks = (c.available_blocks + 1) % 256;
  },
)
