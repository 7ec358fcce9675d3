-- ===== src/Utility/Chunk/Tests.antt =====
-- The theorems of Chunk.cpp on a chunk of 8 blocks of 16 bytes at address 1000.
use oodles.Prelude.{◌⊎◌, ℕ, ◌+◌, ◌*◌, ◌<◌, ◌≡◌, refl, none, some, [], ◌∷◌, arith, length}
use oodles.Utility.Chunk.{Heap, Chunk, create, index_blocks, allocate, reserve_space, full}
use oodles.Utility.Chunk.FreeList.{Distinct, AllBelow, NotIn}
use oodles.Utility.Chunk.Ownership.{State, Reach, here, next, take_block, Reach-held}

abbrev blank : Heap
blank p = 0

abbrev indexed : Heap
indexed = index_blocks blank 16 1 1000 7

abbrev reserved : Chunk
reserved = record {
  mem = some 1000;
  next_free_block = 0;
  available_blocks = 8;
  allocated_blocks = 8;
}

abbrev start : State
start = record { heap = indexed; chunk = reserved; held = [] }

abbrev one_taken : State
one_taken = record start { chunk = (allocate indexed reserved 16).0; held = 0 ∷ [] }

taken_first : Reach 1000 16 start one_taken
unfolding allocate full
taken_first = next here (take_block start (allocate indexed reserved 16).0 0 refl)

Reach-held_example :
    Distinct one_taken.held
    × AllBelow 8 one_taken.held
    × (((f : ℕ) × ((allocate one_taken.heap one_taken.chunk 16).1 ≡ some (1000 + f * 16))
          × (f < 8)
          × NotIn f one_taken.held
          × (length one_taken.held < 8))
        ⊎ ((allocate one_taken.heap one_taken.chunk 16 ≡ (one_taken.chunk, none))
            × (length one_taken.held ≡ 8)))
unfolding create reserve_space
Reach-held_example =
    Reach-held blank indexed (create 0) reserved 1000 16 8 refl refl (omega arith) refl taken_first
