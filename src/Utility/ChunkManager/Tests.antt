-- ===== src/Utility/ChunkManager/Tests.antt =====
-- utility/ChunkManager.cpp: a manager of three chunks, the last of which owns the block.
use oodles.Prelude.{ℕ, ◌*◌, ◌≤◌, ◌/◌, ◌≡◌, ◌⊎◌, refl, [], ◌∷◌, Option, none, some, arith}
use oodles.Utility.Chunk.{Chunk, is_empty, owns_block}
use oodles.Utility.ChunkManager.{ChunkManager, create, initialise, find}
use oodles.Utility.ChunkManager.Find.{Found, find-Found}
use oodles.Utility.ChunkManager.Bounds.{initialise-blocks, initialise-wrapped}

abbrev chunk_at : ℕ → Chunk
chunk_at p = record {
  mem = some p;
  next_free_block = 0;
  available_blocks = 3;
  allocated_blocks = 8;
}

abbrev three : ChunkManager
three = record {
  block_size = 16;
  blocks = 8;
  chunks = chunk_at 1000 ∷ chunk_at 2000 ∷ chunk_at 3000 ∷ [];
  empty = none;
  allocator = some 0;
  deallocator = some 1;
}

find-last : find 3 three 3016 1 ≡ some (some 2)
unfolding find owns_block is_empty
find-last = refl

find-Found_example : (r : Option ℕ) × (find 3 three 3016 1 ≡ some r) × Found three.chunks 3016 128 r
find-Found_example = find-Found 3 three 3016 1 (omega arith) (omega arith)

initialise-blocks_run :
    (m' : ChunkManager) × (initialise create 16 4096 ≡ some m')
    × (8 ≤ m'.blocks)
    × (m'.blocks ≤ 255)
    × ((m'.blocks ≤ 4096 / 16) ⊎ (m'.blocks ≡ 8))
initialise-blocks_run = initialise-blocks create 16 4096 (omega arith) (omega arith) refl

-- A page of 4096 bytes and blocks of 8.
initialise-wrapped_example :
    (m' : ChunkManager) × (initialise create 8 (2 * 256 * 8) ≡ some m') × (m'.blocks ≡ 8)
initialise-wrapped_example = initialise-wrapped create 8 2 (omega arith) (omega arith) refl
