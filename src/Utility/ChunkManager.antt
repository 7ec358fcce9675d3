-- ===== src/Utility/ChunkManager.antt =====
-- utility/ChunkManager.cpp: the chunks from which blocks of one size are allocated. A pointer to a
-- chunk is its index in the vector. `none` is a failed assertion or undefined behaviour, and
-- `memory` is what malloc() gives a new chunk.
use oodles.Prelude.{
  ℕ, zero, suc, ◌+◌, ◌-◌, ◌*◌, ◌/◌, ◌%◌, ◌^◌, Bool, true, false, not, ◌&&◌, ◌||◌, List, [], ◌∷◌,
  ◌++◌, Option, none, some, ltb, leb, ◌==◌, if◌then◌else◌, length, get_elem?, set, take, get_or,
}
use oodles.Utility.Chunk
use oodles.Utility.Chunk.{Heap, Chunk, full, is_empty, owns_block, reserve_space, destroy_space}
mod Bounds
pub mod Deallocate
pub mod Find
mod Tests

pub record ChunkManager : Type 0 where
  pub block_size : ℕ
  pub blocks : ℕ
  pub chunks : List Chunk
  pub empty : Option ℕ
  pub allocator : Option ℕ
  pub deallocator : Option ℕ

abbrev pub create : ChunkManager
create = record {
  block_size = 0;
  blocks = 0;
  chunks = [];
  empty = none;
  allocator = none;
  deallocator = none;
}

abbrev pub minimum_chunk_size : ℕ
minimum_chunk_size = 8

abbrev pub maximum_chunk_size : ℕ
maximum_chunk_size = 255

-- The end of initialise, once `blocks` is a byte.
abbrev pub bounded : ℕ → ℕ
bounded blocks =
    if ltb maximum_chunk_size blocks
    then maximum_chunk_size
    else if ltb blocks minimum_chunk_size
    then minimum_chunk_size
    else blocks

abbrev pub no_chunks : List Chunk → Bool
no_chunks [] = true
no_chunks (c ∷ cs) = false

unfoldable pub initialise : ChunkManager → ℕ → ℕ → Option ChunkManager
initialise m block_size page_size =
    if ltb 0 page_size && ltb 0 block_size && no_chunks m.chunks
    then some
        (record m { block_size = block_size; blocks = bounded (page_size / block_size % 256) })
    else none

abbrev pub owned_at : List Chunk → ℕ → ℕ → Option ℕ → Bool
owned_at cs block chunk_size none = false
owned_at cs block chunk_size (some i) = elim (get_elem? cs i) [
  | none ↦ false
  | some c ↦ owns_block c block chunk_size
]

-- `--l` and `++u` within the bounds.
abbrev pub lower : Option ℕ → Option ℕ
lower none = none
lower (some zero) = none
lower (some (suc l)) = some l

abbrev pub upper : ℕ → Option ℕ → Option ℕ
upper n none = none
upper n (some u) = if ltb (u + 1) n then some (u + 1) else none

abbrev pub done : Option ℕ → Option ℕ → Bool
done none none = true
done none (some u) = false
done (some l) u = false

-- The loop of find: the owner's index, or `some none` for NULL.
unfoldable pub find_loop : ℕ → List Chunk → ℕ → ℕ → Option ℕ → Option ℕ → Option (Option ℕ)
find_loop zero cs block chunk_size l u = none
find_loop (suc f) cs block chunk_size l u = elim (owned_at cs block chunk_size l) [
  | true ↦ some l
  | false ↦ elim (owned_at cs block chunk_size u) [
    | true ↦ some u
    | false ↦
        let l' = lower l in
        let u' = upper (length cs) u in
        elim (done l' u') [ true ↦ some none | false ↦ find_loop f cs block chunk_size l' u' ]
  ]
]

unfoldable pub find : ℕ → ChunkManager → ℕ → ℕ → Option (Option ℕ)
unfolding find_loop
find f m block d =
    find_loop f m.chunks block (m.blocks * m.block_size) (some d) (upper (length m.chunks) (some d))

-- allocate: where the chunk to allocate from comes from. First the search of the vector.
unfoldable pub first_available : List Chunk → Option ℕ
first_available [] = none
first_available (c ∷ cs) =
    let rest = first_available cs in
    if full c then elim rest [ none ↦ none | some i ↦ some (suc i) ] else some 0

abbrev pub appended : ChunkManager → Option (Heap × Chunk) → Option (Heap × ChunkManager)
appended m none = none
appended m (some (h, c)) = some (
  h,
  record m {
    chunks = m.chunks ++ c ∷ [];
    allocator = some (length m.chunks);
    deallocator = some 0;
  },
)

-- `c` is what `resize` adds; `none` for it in the search adds it.
abbrev pub add_chunk : Heap → ChunkManager → ℕ → ℕ → Option ℕ → Option (Heap × ChunkManager)
add_chunk h m memory allocated none =
    appended m (reserve_space h (Chunk.create allocated) memory m.block_size m.blocks)
add_chunk h m memory allocated (some i) = some (h, record m { allocator = some i })

abbrev pub chunk_empty : List Chunk → ℕ → Bool
chunk_empty cs i = elim (get_elem? cs i) [ none ↦ false | some c ↦ is_empty c ]

abbrev pub acquire : Heap → ChunkManager → ℕ → ℕ → Option ℕ → Option (Heap × ChunkManager)
unfolding first_available
acquire h m memory allocated none = add_chunk h m memory allocated (first_available m.chunks)
acquire h m memory allocated (some e) =
    if chunk_empty m.chunks e then some (h, record m { allocator = some e; empty = none }) else none

abbrev pub same_pointer : Option ℕ → Option ℕ → Bool
same_pointer none none = true
same_pointer none (some j) = false
same_pointer (some i) none = false
same_pointer (some i) (some j) = i == j

abbrev pub chunk_full : List Chunk → Option ℕ → Bool
chunk_full cs none = true
chunk_full cs (some i) = elim (get_elem? cs i) [ none ↦ true | some c ↦ full c ]

abbrev pub ready : Heap → ChunkManager → ℕ → ℕ → Option (Heap × ChunkManager)
unfolding acquire
ready h m memory allocated =
    if chunk_full m.chunks m.allocator
    then acquire h m memory allocated m.empty
    else if same_pointer m.allocator m.empty
    then some (h, record m { empty = none })
    else some (h, m)

-- The two assertions and the chunk's own allocate.
abbrev pub block_from :
    Heap → ChunkManager → ℕ → Chunk × Option ℕ → Option (Heap × ChunkManager × Option ℕ)
block_from h m i (c, p) = some (h, record m { chunks = set m.chunks i c }, p)

abbrev pub allocate_from : Heap → ChunkManager → Option ℕ → Option (Heap × ChunkManager × Option ℕ)
allocate_from h m none = none
allocate_from h m (some i) = elim (get_elem? m.chunks i) [
  | none ↦ none
  | some c ↦ if full c then none else block_from h m i (Chunk.allocate h c m.block_size)
]

abbrev pub allocate_ready : Option (Heap × ChunkManager) → Option (Heap × ChunkManager × Option ℕ)
allocate_ready none = none
allocate_ready (some (h, m)) = allocate_from h m m.allocator

unfoldable pub allocate : Heap → ChunkManager → ℕ → ℕ → Option (Heap × ChunkManager × Option ℕ)
unfolding ready
allocate h m memory allocated = allocate_ready (ready h m memory allocated)
