-- ===== src/Utility/Chunk/Ownership.antt =====
-- Chunk.cpp driven by its clients: who holds which block, over any sequence of calls.
use mathlib.Core.List.{append_assoc}
use oodles.Prelude.{
  ◌⊎◌, inl, inr, ℕ, ◌+◌, ◌*◌, ◌<◌, ◌≡◌, ◌≢◌, sym, ap, subst, ◌∙◌, none, some, List, [], ◌∷◌, ◌++◌,
  arith, length, length-append,
}
use oodles.Utility.Chunk.{Heap, Chunk, store, reserve_space, allocate, deallocate}
use oodles.Utility.Chunk.FreeList.{
  NotIn, Distinct, AllBelow, Frees, count_up, length-count_up, reserve_space-pos,
  reserve_space-Frees, allocate-Frees, allocate_full, allocated-allocate, same_block,
  deallocate-Frees, store-Frees,
}

-- The blocks that clients hold.
pub record State : Type 0 where
  pub heap : Heap
  pub chunk : Chunk
  pub held : List ℕ

-- A client takes a block, gives one back that it holds, or writes a byte into one that it holds.
pub data Step (m size : ℕ) : State → State → Type 0 where
  take_block :
      (s : State) (c : Chunk) (f : ℕ)
      → allocate s.heap s.chunk size ≡ (c, some (m + f * size))
      → Step m size s (record s { chunk = c; held = f ∷ s.held })
  refused :
      (s : State) (c : Chunk)
      → allocate s.heap s.chunk size ≡ (c, none)
      → Step m size s (record s { chunk = c })
  give_back :
      (s : State) (b : ℕ) (xs ys : List ℕ)
      → s.held ≡ xs ++ b ∷ ys
      → Step m size s (record {
        heap = (deallocate s.heap s.chunk (m + b * size) size).0;
        chunk = (deallocate s.heap s.chunk (m + b * size) size).1;
        held = xs ++ ys;
      })
  write_byte :
      (s : State) (b k v : ℕ) (xs ys : List ℕ)
      → s.held ≡ xs ++ b ∷ ys
      → k < size
      → Step m size s (record s { heap = store s.heap (m + (b * size + k)) v })

pub data Reach (m size : ℕ) (s : State) : State → Type 0 where
  here : Reach m size s s
  next : {t u : State} → Reach m size s t → Step m size t u → Reach m size s u

-- Every block of the chunk is either held by one client or free.
pub record Partitioned (m size blocks : ℕ) (s : State) (fs : List ℕ) : Type 0 where
  pub frees : Frees s.heap s.chunk m size fs
  pub distinct : Distinct (s.held ++ fs)
  pub below : AllBelow s.chunk.allocated_blocks s.held
  pub total : length s.held + length fs ≡ blocks
  pub all : s.chunk.allocated_blocks ≡ blocks

NotIn-middle : (a b : ℕ) (xs ys : List ℕ) → NotIn a (xs ++ b ∷ ys) → (a ≢ b) × NotIn a (xs ++ ys)
NotIn-middle a b [] ys h = h
NotIn-middle a b (x ∷ xs) ys h = let r = NotIn-middle a b xs ys h.1 in (r.0, (h.0, r.1))

NotIn-insert : (a b : ℕ) (xs ys : List ℕ) → a ≢ b → NotIn a (xs ++ ys) → NotIn a (xs ++ b ∷ ys)
NotIn-insert a b [] ys e h = (e, h)
NotIn-insert a b (x ∷ xs) ys e h = (h.0, NotIn-insert a b xs ys e h.1)

take_out :
    (b : ℕ) (xs ys : List ℕ) → Distinct (xs ++ b ∷ ys) → NotIn b (xs ++ ys) × Distinct (xs ++ ys)
take_out b [] ys h = h
take_out b (x ∷ xs) ys h =
    let r = take_out b xs ys h.1 in
    let q = NotIn-middle x b xs ys h.0 in ((λ e. q.0 (sym e), r.0), (q.1, r.1))

put_in :
    (b : ℕ) (xs ys : List ℕ) → NotIn b (xs ++ ys) → Distinct (xs ++ ys) → Distinct (xs ++ b ∷ ys)
put_in b [] ys h d = (h, d)
put_in b (x ∷ xs) ys h d = (NotIn-insert x b xs ys (λ e. h.0 (sym e)) d.0, put_in b xs ys h.1 d.1)

NotIn-left : (a : ℕ) (xs ys : List ℕ) → NotIn a (xs ++ ys) → NotIn a ys
NotIn-left a [] ys h = h
NotIn-left a (x ∷ xs) ys h = NotIn-left a xs ys h.1

AllBelow-middle :
    (n b : ℕ) (xs ys : List ℕ) → AllBelow n (xs ++ b ∷ ys) → (b < n) × AllBelow n (xs ++ ys)
AllBelow-middle n b [] ys h = h
AllBelow-middle n b (x ∷ xs) ys h = let r = AllBelow-middle n b xs ys h.1 in (r.0, (h.0, r.1))

taken :
    (m size blocks f : ℕ) (s : State) (c : Chunk) (fs : List ℕ)
    → allocate s.heap s.chunk size ≡ (c, some (m + f * size))
    → Partitioned m size blocks s fs
    → (gs : List ℕ) × Partitioned m size blocks (record s { chunk = c; held = f ∷ s.held }) gs
taken m size blocks f s c [] e p = cc (allocate_full s.heap s.chunk m size p.frees)
taken m size blocks f s c (g ∷ gs) e p =
    let a = allocate-Frees s.heap s.chunk m size g gs p.frees in
    let same : f ≡ g = same_block m f g size p.frees.sized (cc (a.0)) in
    let now : (allocate s.heap s.chunk size).0 ≡ c = ap (λ r. r.0) e in
    let kept : c.allocated_blocks ≡ s.chunk.allocated_blocks =
      sym (ap (λ r. r.allocated_blocks) now) ∙ allocated-allocate s.heap s.chunk size in
    (
      gs,
      record {
        frees = subst (λ c. Frees s.heap c m size gs) now a.1;
        distinct = rw same (take_out g s.held gs p.distinct);
        below =
            (rw (same, kept) p.frees.below.0, subst (λ n. AllBelow n s.held) (sym kept) p.below);
        total = omega (arith, p.total);
        all = kept ∙ p.all;
      },
    )

given_back :
    (m size blocks b : ℕ) (s : State) (xs ys fs : List ℕ)
    → s.held ≡ xs ++ b ∷ ys
    → Partitioned m size blocks s fs
    → Partitioned m size blocks
        (record {
          heap = (deallocate s.heap s.chunk (m + b * size) size).0;
          chunk = (deallocate s.heap s.chunk (m + b * size) size).1;
          held = xs ++ ys;
        })
        (b ∷ fs)
given_back m size blocks b s xs ys fs e p =
    let out : NotIn b (xs ++ (ys ++ fs)) × Distinct (xs ++ (ys ++ fs)) =
      take_out b xs (ys ++ fs) (rw (← append_assoc xs (b ∷ ys) fs, ← e) p.distinct) in
    let low =
      AllBelow-middle s.chunk.allocated_blocks b xs ys
        (subst (AllBelow s.chunk.allocated_blocks) e p.below) in
    let free : NotIn b fs = NotIn-left b ys fs (NotIn-left b xs (ys ++ fs) out.0) in
    let few : length fs < s.chunk.allocated_blocks =
      omega (arith, p.total, p.all, ap length e, length-append xs (b ∷ ys)) in
    let d = deallocate-Frees s.heap s.chunk m size b fs p.frees low.0 free few in
    record {
      frees = d.0;
      distinct =
          put_in b (xs ++ ys) fs (subst (NotIn b) (sym (append_assoc xs ys fs)) out.0)
            (subst Distinct (sym (append_assoc xs ys fs)) out.1);
      below = subst (λ n. AllBelow n (xs ++ ys)) (sym d.1) low.1;
      total = omega (arith, p.total, ap length e, length-append xs (b ∷ ys), length-append xs ys);
      all = d.1 ∙ p.all;
    }

written :
    (m size blocks b k v : ℕ) (s : State) (xs ys fs : List ℕ)
    → s.held ≡ xs ++ b ∷ ys
    → k < size
    → Partitioned m size blocks s fs
    → Partitioned m size blocks (record s { heap = store s.heap (m + (b * size + k)) v }) fs
written m size blocks b k v s xs ys fs e l p =
    let out : NotIn b (xs ++ (ys ++ fs)) × Distinct (xs ++ (ys ++ fs)) =
      take_out b xs (ys ++ fs) (rw (← append_assoc xs (b ∷ ys) fs, ← e) p.distinct) in
    record {
      frees =
          store-Frees s.heap s.chunk m size b k v fs p.frees
            (NotIn-left b ys fs (NotIn-left b xs (ys ++ fs) out.0)) l;
      distinct = p.distinct;
      below = p.below;
      total = p.total;
      all = p.all;
    }

refusal :
    (m size blocks : ℕ) (s : State) (c : Chunk) (fs : List ℕ)
    → allocate s.heap s.chunk size ≡ (c, none)
    → Partitioned m size blocks s fs
    → Partitioned m size blocks (record s { chunk = c }) fs
refusal m size blocks s c [] e p =
    subst (λ c. Partitioned m size blocks (record s { chunk = c }) [])
      (ap (λ r. r.0) (sym (allocate_full s.heap s.chunk m size p.frees) ∙ e)) p
refusal m size blocks s c (g ∷ gs) e p = cc ((allocate-Frees s.heap s.chunk m size g gs p.frees).0)

-- Each step of a client keeps every block either free or held by one.
pub Step-Partitioned :
    (m size blocks : ℕ) {s t : State} (fs : List ℕ)
    → Step m size s t
    → Partitioned m size blocks s fs
    → (gs : List ℕ) × Partitioned m size blocks t gs
Step-Partitioned m size blocks fs (take_block s c f e) p = taken m size blocks f s c fs e p
Step-Partitioned m size blocks fs (refused s c e) p = (fs, refusal m size blocks s c fs e p)
Step-Partitioned m size blocks fs (give_back s b xs ys e) p =
    (b ∷ fs, given_back m size blocks b s xs ys fs e p)
Step-Partitioned m size blocks fs (write_byte s b k v xs ys e l) p =
    (fs, written m size blocks b k v s xs ys fs e l p)

Reach-Partitioned :
    (m size blocks : ℕ) {s t : State} (fs : List ℕ)
    → Partitioned m size blocks s fs
    → Reach m size s t
    → (gs : List ℕ) × Partitioned m size blocks t gs
Reach-Partitioned m size blocks fs p here = (fs, p)
Reach-Partitioned m size blocks fs p (next r st) =
    let (gs, q) = Reach-Partitioned m size blocks fs p r in Step-Partitioned m size blocks gs st q

NotIn-right : (a : ℕ) (xs ys : List ℕ) → NotIn a (xs ++ ys) → NotIn a xs
NotIn-right a [] ys h = tt
NotIn-right a (x ∷ xs) ys h = (h.0, NotIn-right a xs ys h.1)

Distinct-left : (xs ys : List ℕ) → Distinct (xs ++ ys) → Distinct xs
Distinct-left [] ys h = tt
Distinct-left (x ∷ xs) ys h = (NotIn-right x xs ys h.0, Distinct-left xs ys h.1)

-- What `allocate` answers in a state whose free blocks are `fs`.
answer :
    (m size blocks : ℕ) (s : State) (fs : List ℕ)
    → Partitioned m size blocks s fs
    → ((f : ℕ) × ((allocate s.heap s.chunk size).1 ≡ some (m + f * size))
        × (f < blocks)
        × NotIn f s.held
        × (length s.held < blocks))
      ⊎ ((allocate s.heap s.chunk size ≡ (s.chunk, none)) × (length s.held ≡ blocks))
answer m size blocks s [] p =
    inr (allocate_full s.heap s.chunk m size p.frees, omega (arith, p.total))
answer m size blocks s (f ∷ fs) p = inl (
  f,
  (allocate-Frees s.heap s.chunk m size f fs p.frees).0,
  omega (arith, p.frees.below, p.all),
  NotIn-right f s.held fs (take_out f s.held fs p.distinct).0,
  omega (arith, p.total),
)

some_inj : {a b : Heap × Chunk} → some a ≡ some b → a ≡ b
some_inj e = cc

-- Once a fresh chunk is reserved, and whatever its clients then take, give back and write into their
-- blocks, no block has two holders and every held one is a block of the chunk. `allocate` then
-- answers with a block that nobody holds, fewer than all being held, or with NULL, all being held.
pub Reach-held :
    (h h' : Heap) (c c' : Chunk) (m size blocks : ℕ) {s : State}
    → c.mem ≡ none
    → c.next_free_block ≡ 0
    → blocks < 256
    → reserve_space h c m size blocks ≡ some (h', c')
    → Reach m size (record { heap = h'; chunk = c'; held = [] }) s
    → Distinct s.held
      × AllBelow blocks s.held
      × (((f : ℕ) × ((allocate s.heap s.chunk size).1 ≡ some (m + f * size))
            × (f < blocks)
            × NotIn f s.held
            × (length s.held < blocks))
          ⊎ ((allocate s.heap s.chunk size ≡ (s.chunk, none)) × (length s.held ≡ blocks)))
Reach-held h h' c c' m size blocks {s} e z l r w =
    let (gs, p) = Reach-Partitioned m size blocks (count_up 0 blocks) start w in
    let a = answer m size blocks s gs p in
    (Distinct-left s.held gs p.distinct, subst (λ n. AllBelow n s.held) p.all p.below, a)
  where
    start :
        Partitioned m size blocks (record { heap = h'; chunk = c'; held = [] }) (count_up 0 blocks)
    start =
        let pos = reserve_space-pos h c m size blocks r in
        let (h₂, c₂, made, f, n) = reserve_space-Frees h c m size blocks e z pos.1 pos.0 l in
        subst
          (λ (r : Heap × Chunk).
            Partitioned m size blocks (record { heap = r.0; chunk = r.1; held = [] })
              (count_up 0 blocks))
          (some_inj (sym made ∙ r))
          (record {
            frees = f;
            distinct = f.distinct;
            below = tt;
            total = omega (arith, length-count_up 0 blocks);
            all = n;
          })
