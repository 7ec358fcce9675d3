-- ===== src/Utility.antt =====
-- utility/: the data structures that the rest of the program stands on.
pub mod Bits
pub mod BitSet
pub mod BreadCrumbTrail
pub mod Chunk
pub mod ChunkManager
pub mod IndexedSet
pub mod Events
pub mod Hash
pub mod Linker
pub mod Tree
