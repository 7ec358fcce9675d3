-- ===== src/Utility/ChunkManager/Bounds.antt =====
-- utility/ChunkManager.cpp: how many blocks a chunk gets. `blocks` is a byte, so the quotient loses all
-- but its last 8 bits before it is held against the bounds.
use oodles.Prelude.{
  ℕ, ◌*◌, ◌/◌, ◌%◌, ◌<◌, ◌≤◌, ◌≡◌, ◌⊎◌, inl, inr, refl, Bool, true, ◌&&◌, [], none, some, ltb,
  if◌then◌else◌, arith, Bool-cases, ap,
}
use native.Mathlib.Nat.{mul-div_cancel}
use oodles.Utility.ChunkManager.{ChunkManager, no_chunks, bounded, initialise}

bounded_lem :
    (q : ℕ)
    → (8 ≤ bounded (q % 256))
      × (bounded (q % 256) ≤ 255)
      × ((bounded (q % 256) ≤ q) ⊎ (bounded (q % 256) ≡ 8))
bounded_lem q = elim (Bool-cases (ltb 255 (q % 256))) [
  | inl e ↦ ground arith
  | inr e ↦ elim (Bool-cases (ltb (q % 256) 8)) [
    | inl f ↦ rw (e, f) (omega arith, omega arith, inr refl)
    | inr f ↦ rw (e, f) (ground arith, ground arith, inl (omega arith))
  ]
]

positive : (k b : ℕ) → 0 < k → 0 < b → 0 < k * 256 * b
positive k b h l = grind arith

guard :
    (m : ChunkManager) (block_size page_size : ℕ)
    → 0 < page_size
    → 0 < block_size
    → m.chunks ≡ []
    → initialise m block_size page_size
      ≡ some (record m { block_size = block_size; blocks = bounded (page_size / block_size % 256) })
unfolding initialise
guard m b p h l e =
    let x : ltb 0 p ≡ true = ground arith in
    let y : ltb 0 b ≡ true = ground arith in
    let z : no_chunks m.chunks ≡ true = ap no_chunks e in
    let w : (ltb 0 p && ltb 0 b && no_chunks m.chunks) ≡ true = rw (x, y, z) in
    ap
      (λ (c : Bool).
        if c then some (record m { block_size = b; blocks = bounded (p / b % 256) }) else none)
      w

-- From a manager without chunks, initialise with sizes above 0 succeeds: a chunk gets from 8 to 255
-- blocks, and no more than fit in the page unless it gets 8.
pub initialise-blocks :
    (m : ChunkManager) (block_size page_size : ℕ)
    → 0 < page_size
    → 0 < block_size
    → m.chunks ≡ []
    → (m' : ChunkManager) × (initialise m block_size page_size ≡ some m')
      × (8 ≤ m'.blocks)
      × (m'.blocks ≤ 255)
      × ((m'.blocks ≤ page_size / block_size) ⊎ (m'.blocks ≡ 8))
initialise-blocks m b p h l e =
    let q = bounded_lem (p / b) in
    (record m { block_size = b; blocks = bounded (p / b % 256) }, guard m b p h l e, q.0, q.1, q.2)

-- From a manager without chunks, a page of a positive multiple of 256 blocks gives the smallest chunks,
-- of 8 blocks, not the largest: the quotient is 0 as a byte.
pub initialise-wrapped :
    (m : ChunkManager) (block_size k : ℕ)
    → 0 < block_size
    → 0 < k
    → m.chunks ≡ []
    → (m' : ChunkManager) × (initialise m block_size (k * 256 * block_size) ≡ some m')
      × (m'.blocks ≡ 8)
initialise-wrapped m b k l h e =
    let p = k * 256 * b in
    let q : p / b ≡ k * 256 = mul-div_cancel (k * 256) l in
    let z : p / b % 256 ≡ 0 = rw q (omega arith) in
    (
      record m { block_size = b; blocks = bounded (p / b % 256) },
      guard m b p (positive k b h l) l e,
      rw z,
    )
