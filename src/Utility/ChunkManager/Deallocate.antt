-- ===== src/Utility/ChunkManager/Deallocate.antt =====
-- utility/ChunkManager.cpp: deallocate, which keeps at most one empty chunk, and the destructor.
use oodles.Prelude.{
  ℕ, ◌+◌, ◌-◌, not, ◌||◌, List, [], ◌∷◌, Option, none, some, ◌==◌, if◌then◌else◌, length, get_elem?,
  set, take,
}
use oodles.Utility.Chunk
use oodles.Utility.Chunk.{Heap, Chunk, is_empty, destroy_space}
use oodles.Utility.ChunkManager.{
  ChunkManager, find, no_chunks, chunk_empty, chunk_full, same_pointer,
}

-- `std::swap` of two chunks.
abbrev swapped_pair : List Chunk → ℕ → ℕ → Option Chunk → Option Chunk → List Chunk
swapped_pair cs i j none b = cs
swapped_pair cs i j (some a) none = cs
swapped_pair cs i j (some a) (some b) = set (set cs i b) j a

abbrev pub swap : List Chunk → ℕ → ℕ → List Chunk
swap cs i j = swapped_pair cs i j (get_elem? cs i) (get_elem? cs j)

-- The chunks without the last one, whose space is destroyed.
abbrev pub destroyed : List Chunk → ℕ → Option Chunk → Option (List Chunk)
destroyed cs last none = none
destroyed cs last (some c) =
    if is_empty c
    then elim (destroy_space c) [ none ↦ none | some c' ↦ some (take last cs) ]
    else none

-- `if (allocator == end || allocator->full()) allocator = deallocator;`
abbrev pub reallocated : ChunkManager → ℕ → ChunkManager
reallocated m last =
    if same_pointer m.allocator (some last) || chunk_full m.chunks m.allocator
    then record m { allocator = m.deallocator }
    else m

abbrev pub popped : ChunkManager → ℕ → Option (List Chunk) → Option ChunkManager
popped m last none = none
popped m last (some cs) = some (reallocated (record m { chunks = cs }) last)

-- What happens to the last chunk when `e` was empty already and `d` has become so.
abbrev pub release : ChunkManager → ℕ → ℕ → Option ChunkManager
release m e d =
    let last = length m.chunks - 1 in
    let m' =
      if d == last
      then record m { deallocator = some e }
      else if not (e == last)
      then record m { chunks = swap m.chunks e last }
      else m in
    popped m' last (destroyed m'.chunks last (get_elem? m'.chunks last))

abbrev pub kept_empty : Option ChunkManager → Option ChunkManager
kept_empty none = none
kept_empty (some m) = some (record m { empty = m.deallocator })

abbrev pub release_from : ChunkManager → ℕ → Option ℕ → Option ChunkManager
release_from m d none = kept_empty (some m)
release_from m d (some e) = if d == e then none else kept_empty (release m e d)

-- After the chunk's own deallocate.
abbrev pub emptied : Heap → ChunkManager → ℕ → Option (Heap × ChunkManager)
emptied h m d =
    if chunk_empty m.chunks d
    then elim (release_from m d m.empty) [ none ↦ none | some m' ↦ some (h, m') ]
    else some (h, m)

abbrev pub returned : Heap → ChunkManager → ℕ → ℕ → Option Chunk → Option (Heap × ChunkManager)
returned h m block d none = none
returned h m block d (some c) =
    if is_empty c
    then none
    else (let (h', c') = Chunk.deallocate h c block m.block_size in
        emptied h' (record m { chunks = set m.chunks d c'; deallocator = some d }) d)

abbrev pub owned_by : Heap → ChunkManager → ℕ → Option (Option ℕ) → Option (Heap × ChunkManager)
owned_by h m block none = none
owned_by h m block (some none) = none
owned_by h m block (some (some d)) = returned h m block d (get_elem? m.chunks d)

-- deallocate, with the fuel of find.
unfoldable pub deallocate : Heap → ChunkManager → ℕ → Option (Heap × ChunkManager)
unfolding find
deallocate h m block = elim m.deallocator [
  | none ↦ none
  | some d ↦
      if no_chunks m.chunks then none else owned_by h m block (find (length m.chunks + 1) m block d)
]

-- The destructor: each chunk's space is destroyed.
unfoldable pub destroy : List Chunk → Option (List Chunk)
destroy [] = some []
destroy (c ∷ cs) =
    let rest = destroy cs in
    elim (destroy_space c) [
      | none ↦ none
      | some c' ↦ elim rest [ none ↦ none | some cs' ↦ some (c' ∷ cs') ]
    ]
