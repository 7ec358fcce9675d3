-- ===== src/Utility/Chunk/FreeList.antt =====
-- Chunk.cpp: the indices hidden in the free blocks against the list of the free blocks.
use native.Mathlib.Nat.{mul-div_cancel, mul-add-div_right, div-eq_of_lt}
use oodles.Prelude.{
  ℕ, zero, suc, ◌+◌, ◌-◌, ◌*◌, ◌/◌, ◌%◌, ◌≤◌, ◌<◌, ◌≡◌, ◌≢◌, refl, sym, ap, subst, ◌∙◌, none, some,
  List, [], ◌∷◌, arith, length,
}
use oodles.Utility.Chunk.{
  Heap, Chunk, store, index_blocks, reserve_space, allocate, deallocate, full, base, is_null,
}

abbrev pub NotIn : ℕ → List ℕ → Type 0
NotIn i [] = Unit {0}
NotIn i (x ∷ xs) = (i ≢ x) × NotIn i xs

abbrev pub Distinct : List ℕ → Type 0
Distinct [] = Unit {0}
Distinct (x ∷ xs) = NotIn x xs × Distinct xs

abbrev pub AllBelow : ℕ → List ℕ → Type 0
AllBelow n [] = Unit {0}
AllBelow n (x ∷ xs) = (x < n) × AllBelow n xs

-- The `n` blocks that the hidden indices lead to from block `i` on.
unfoldable pub chain : Heap → ℕ → ℕ → ℕ → ℕ → List ℕ
chain h m size i zero = []
chain h m size i (suc n) = i ∷ chain h m size (h (m + i * size)) n

-- `fs` are the free blocks of a chunk, in the order in which they will be handed out.
pub record Frees (h : Heap) (c : Chunk) (m size : ℕ) (fs : List ℕ) : Type 0 where
  pub at : c.mem ≡ some m
  pub sized : 0 < size
  pub few : c.allocated_blocks < 256
  pub lists : chain h m size c.next_free_block c.available_blocks ≡ fs
  pub distinct : Distinct fs
  pub below : AllBelow c.allocated_blocks fs
  pub count : length fs ≤ c.allocated_blocks

length-chain : (h : Heap) (m size i n : ℕ) → length (chain h m size i n) ≡ n
unfolding chain
length-chain h m size i zero = refl
length-chain h m size i (suc n) = ap suc (length-chain h m size (h (m + i * size)) n)

-- Blocks do not overlap.
pub apart : (i j k size : ℕ) → i ≢ j → k < size → j * size ≢ i * size + k
apart i j k size ne h e = ne (
    omega (
      arith,
      mul-add-div_right {m = size} (omega arith) i k,
      mul-div_cancel j {n = size} (omega arith),
      div-eq_of_lt h,
      ap (λ v. v / size) e,
    ))

pub store_ne : (h : Heap) (p q v : ℕ) → p ≢ q → store h p v q ≡ h q
unfolding store
store_ne h p q v ne = ground arith

pub store_self : (h : Heap) (p v : ℕ) → store h p v p ≡ v
unfolding store
store_self h p v = ground arith

-- A write into another block leaves the chain as it was.
pub chain-store :
    (h : Heap) (m size i n b k v : ℕ)
    → k < size
    → NotIn b (chain h m size i n)
    → chain (store h (m + (b * size + k)) v) m size i n ≡ chain h m size i n
unfolding chain
chain-store h m size i zero b k v p q = refl
chain-store h m size i (suc n) b k v p q =
    let e : store h (m + (b * size + k)) v (m + i * size) ≡ h (m + i * size) =
      store_ne h _ _ v (λ e. apart b i k size q.0 p (omega arith)) in
    rw e (ap (◌∷◌ i) (chain-store h m size (h (m + i * size)) n b k v p q.1))

-- The indices that `reserve_space` writes lead through all blocks in order.
pub count_up : ℕ → ℕ → List ℕ
count_up i zero = []
count_up i (suc n) = i ∷ count_up (i + 1) n

NotIn-count_up : (j i n : ℕ) → j < i → NotIn j (count_up i n)
unfolding count_up
NotIn-count_up j i zero h = tt
NotIn-count_up j i (suc n) h = (omega arith, NotIn-count_up j (i + 1) n (omega arith))

Distinct-count_up : (i n : ℕ) → Distinct (count_up i n)
unfolding count_up
Distinct-count_up i zero = tt
Distinct-count_up i (suc n) =
    (NotIn-count_up i (i + 1) n (omega arith), Distinct-count_up (i + 1) n)

AllBelow-count_up : (b i n : ℕ) → i + n ≤ b → AllBelow b (count_up i n)
unfolding count_up
AllBelow-count_up b i zero h = tt
AllBelow-count_up b i (suc n) h = (omega arith, AllBelow-count_up b (i + 1) n (omega arith))

-- What the loop leaves at the first byte of block `j`.
index_blocks-at : (h : Heap) (size i p n q : ℕ) → q < p → index_blocks h size (i + 1) p n q ≡ h q
unfolding index_blocks
index_blocks-at h size i p zero q l = refl
index_blocks-at h size i p (suc n) q l =
    index_blocks-at (store h p (i + 1)) size (i + 1) (p + size) n q (omega arith)
    ∙ store_ne h p q (i + 1) (omega arith)

chain-index_blocks :
    (h : Heap) (m size i n p : ℕ)
    → 0 < size
    → p ≡ m + i * size
    → chain (index_blocks h size (i + 1) p n) m size i (suc n) ≡ count_up i (suc n)
unfolding chain index_blocks count_up
chain-index_blocks h m size i zero p l e = refl
chain-index_blocks h m size i (suc n) p l e =
    let h' = store h p (i + 1) in
    let f : index_blocks h' size (i + 1 + 1) (p + size) n (m + i * size) ≡ i + 1 =
      index_blocks-at h' size (i + 1) (p + size) n (m + i * size) (omega arith)
      ∙ ap (store h p (i + 1)) (sym e)
      ∙ store_self h p (i + 1) in
    ap (◌∷◌ i) (
      ap (λ q. chain (index_blocks h' size (i + 1 + 1) (p + size) n) m size q (suc n)) f
      ∙ chain-index_blocks h' m size (i + 1) n (p + size) l (omega arith))

pub length-count_up : (i n : ℕ) → length (count_up i n) ≡ n
unfolding count_up
length-count_up i zero = refl
length-count_up i (suc n) = ap suc (length-count_up (i + 1) n)

add_cancel : (m x y : ℕ) → m + x ≡ m + y → x ≡ y
add_cancel m x y e = omega arith

add-sub : (m n : ℕ) → m + n - m ≡ n
add-sub m n = omega arith

suc-sub-one : (n : ℕ) → suc n - 1 ≡ n
suc-sub-one n = omega arith

-- The head and the tail of a chain.
chain_cons :
    (h : Heap) (m size i n f : ℕ) (fs : List ℕ)
    → chain h m size i n ≡ f ∷ fs
    → (i ≡ f) × (n ≢ 0) × (chain h m size (h (m + i * size)) (n - 1) ≡ fs)
unfolding chain
chain_cons h m size i zero f fs e = cc
chain_cons h m size i (suc n) f fs e = (cc, omega arith, rw (suc-sub-one n) (cc))

-- A new chunk of 1 to 255 blocks has all its blocks free, in order.
pub reserve_space-Frees :
    (h : Heap) (c : Chunk) (m size blocks : ℕ)
    → c.mem ≡ none
    → c.next_free_block ≡ 0
    → 0 < size
    → 0 < blocks
    → blocks < 256
    → (h' : Heap) × (c' : Chunk) × (reserve_space h c m size blocks ≡ some (h', c'))
      × Frees h' c' m size (count_up 0 blocks)
      × (c'.allocated_blocks ≡ blocks)
unfolding reserve_space
reserve_space-Frees h c m size zero e z p q r = elim q [ ]
reserve_space-Frees h c m size (suc n) e z p q r = (
  index_blocks h size 1 m (suc n - 1),
  record c { mem = some m; available_blocks = suc n; allocated_blocks = suc n },
  rw (e, is_null) (ground arith),
  record {
    at = refl;
    sized = p;
    few = r;
    lists = rw (z, suc-sub-one n) (chain-index_blocks h m size 0 n m p (omega arith));
    distinct = Distinct-count_up 0 (suc n);
    below = AllBelow-count_up (suc n) 0 (suc n) (omega arith);
    count = omega (arith, length-count_up 0 (suc n));
  },
  refl,
)

-- `allocate` hands out the first free block, and NULL when there is none.
pub allocate-Frees :
    (h : Heap) (c : Chunk) (m size f : ℕ) (fs : List ℕ)
    → Frees h c m size (f ∷ fs)
    → ((allocate h c size).1 ≡ some (m + f * size)) × Frees h (allocate h c size).0 m size fs
unfolding allocate full
allocate-Frees h c m size f fs s =
    let (i, n, l) = chain_cons h m size c.next_free_block c.available_blocks f fs s.lists in
    ground (arith, i, n, l)

pub allocate_full :
    (h : Heap) (c : Chunk) (m size : ℕ) → Frees h c m size [] → allocate h c size ≡ (c, none)
unfolding allocate full
allocate_full h c m size s =
    ground (arith, ap length s.lists, length-chain h m size c.next_free_block c.available_blocks)

block_index :
    (c : Chunk) (m b size : ℕ)
    → c.mem ≡ some m
    → 0 < size
    → b < 256
    → (m + b * size - base c) / size % 256 ≡ b
block_index c m b size e p q =
    rw e (omega (arith, mul-div_cancel b {n = size} p, ap (λ v. v / size) (add-sub m (b * size))))

chain_pushed :
    (h : Heap) (c : Chunk) (m size b : ℕ) (fs : List ℕ)
    → Frees h c m size fs
    → NotIn b fs
    → chain (store h (m + b * size) c.next_free_block) m size b (suc c.available_blocks) ≡ b ∷ fs
unfolding chain
chain_pushed h c m size b fs s q =
    let a : m + b * size ≡ m + (b * size + 0) = omega arith in
    rw (store_self h (m + b * size) c.next_free_block) (
      ap (◌∷◌ b) (
        ap (λ p. chain (store h p c.next_free_block) m size c.next_free_block c.available_blocks) a
        ∙ chain-store h m size c.next_free_block c.available_blocks b 0 c.next_free_block s.sized
            (subst (NotIn b) (sym s.lists) q)
        ∙ s.lists))

-- `deallocate` puts the block in front of the free ones.
pub deallocate-Frees :
    (h : Heap) (c : Chunk) (m size b : ℕ) (fs : List ℕ)
    → Frees h c m size fs
    → b < c.allocated_blocks
    → NotIn b fs
    → length fs < c.allocated_blocks
    → let (h', c') = deallocate h c (m + b * size) size in
      Frees h' c' m size (b ∷ fs) × (c'.allocated_blocks ≡ c.allocated_blocks)
unfolding deallocate
deallocate-Frees h c m size b fs s p q l =
    let i : (m + b * size - base c) / size % 256 ≡ b =
      block_index c m b size s.at s.sized (omega arith) in
    let a : c.available_blocks ≡ length fs =
      omega
        (arith, ap length s.lists, length-chain h m size c.next_free_block c.available_blocks) in
    let n : (c.available_blocks + 1) % 256 ≡ suc c.available_blocks = omega arith in
    (
      record {
        at = s.at;
        sized = s.sized;
        few = s.few;
        lists = rw (i, n) (chain_pushed h c m size b fs s q);
        distinct = (q, s.distinct);
        below = (p, s.below);
        count = l;
      },
      refl,
    )

-- What a client writes into a block that it holds leaves the free blocks as they are.
pub store-Frees :
    (h : Heap) (c : Chunk) (m size b k v : ℕ) (fs : List ℕ)
    → Frees h c m size fs
    → NotIn b fs
    → k < size
    → Frees (store h (m + (b * size + k)) v) c m size fs
store-Frees h c m size b k v fs s q l = record {
  at = s.at;
  sized = s.sized;
  few = s.few;
  lists =
      chain-store h m size c.next_free_block c.available_blocks b k v l
        (subst (NotIn b) (sym s.lists) q)
      ∙ s.lists;
  distinct = s.distinct;
  below = s.below;
  count = s.count;
}

pub allocated-allocate :
    (h : Heap) (c : Chunk) (size : ℕ) → (allocate h c size).0.allocated_blocks ≡ c.allocated_blocks
unfolding allocate
allocated-allocate h c size = ground arith

-- Blocks at the same address are the same block.
pub same_block : (m i j size : ℕ) → 0 < size → m + i * size ≡ m + j * size → i ≡ j
same_block m i j size p e = omega (
  arith,
  mul-div_cancel i {n = size} p,
  mul-div_cancel j {n = size} p,
  ap (λ v. v / size) (add_cancel m (i * size) (j * size) e),
)

pub reserve_space-pos :
    (h : Heap) (c : Chunk) (m size blocks : ℕ) {r : Heap × Chunk}
    → reserve_space h c m size blocks ≡ some r
    → (0 < blocks) × (0 < size)
unfolding reserve_space
reserve_space-pos h c m size blocks e = ground arith
