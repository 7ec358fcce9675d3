-- ===== src/Utility/ChunkManager/Find.antt =====
-- utility/ChunkManager.cpp: find searches both ways from the deallocator and misses no chunk.
use oodles.Prelude.{
  ap, subst, ℕ, zero, suc, ◌+◌, ◌-◌, ◌*◌, ◌<◌, ◌≤◌, ◌≡◌, ◌≢◌, ◌⊎◌, refl, true, false, List, Option,
  none, some, ltb, ◌==◌, length, get_elem?, get_elem?-lt, arith, Bool-cases, Option-cases, inl, inr,
}
use oodles.Utility.Chunk.{Chunk}
use oodles.Utility.ChunkManager.{ChunkManager, owned_at, lower, upper, done, find_loop, find}

-- Where the chunks still to be searched end below, and where they start above.
abbrev below : Option ℕ → ℕ
below none = 0
below (some l) = suc l

abbrev above : ℕ → Option ℕ → ℕ
above n none = n
above n (some u) = u

started_open : (d : ℕ) (u : Option ℕ) → done (some d) u ≡ false
started_open d none = refl
started_open d (some u) = refl

module _ (cs : List Chunk) (block chunk_size : ℕ) where
  -- A result is an owner, or there is none.
  abbrev pub Found : Option ℕ → Type 0
  Found none = (k : ℕ) → owned_at cs block chunk_size (some k) ≡ false
  Found (some k) = owned_at cs block chunk_size (some k) ≡ true

  Found-here : (o : Option ℕ) → owned_at cs block chunk_size o ≡ true → Found o
  Found-here none h = absurd (cc h)
  Found-here (some k) h = h

  abbrev Searched : Option ℕ → Option ℕ → Type 0
  Searched l u =
      (k : ℕ)
      → below l ≤ k
      → k < above (length cs) u
      → owned_at cs block chunk_size (some k) ≡ false

  abbrev Inside : Option ℕ → Type 0
  Inside none = Unit
  Inside (some u) = u < length cs

  outside : (k : ℕ) → length cs ≤ k → owned_at cs block chunk_size (some k) ≡ false
  outside k h = elim (Option-cases (get_elem? cs k)) [
    | inl e ↦ rw (owned_at, e)
    | inr (c, e) ↦ let l = get_elem?-lt cs k c e in absurd (omega (arith, l, h))
  ]

  lower-below : (l : Option ℕ) → below (lower l) ≡ below l - 1
  lower-below none = refl
  lower-below (some zero) = refl
  lower-below (some (suc l)) = omega arith

  upper-Inside : (u : Option ℕ) → Inside u → Inside (upper (length cs) u)
  upper-Inside none h = tt
  upper-Inside (some u) h = elim (Bool-cases (ltb (u + 1) (length cs))) [
    | inl e ↦ let d : u + 1 < length cs = ground arith in rw e d
    | inr e ↦ rw e tt
  ]

  upper-above :
      (u : Option ℕ) (k : ℕ)
      → Inside u
      → k < above (length cs) (upper (length cs) u)
      → u ≢ some k
      → k < above (length cs) u
  upper-above none k h a d = a
  upper-above (some u) k h a d =
      let n : u ≢ k = λ e. d (ap some e) in
      elim (Bool-cases (ltb (u + 1) (length cs))) [
        | inl e ↦ let b : k < u + 1 = rw e at a in omega (arith, b, n)
        | inr e ↦
            let b : k < length cs = rw e at a in
            let c : length cs ≤ u + 1 = ground arith in omega (arith, b, c, n)
      ]

  lower-at_most : (l : Option ℕ) (k : ℕ) → below (lower l) ≤ k → l ≢ some k → below l ≤ k
  lower-at_most none k a d = a
  lower-at_most (some zero) k a d = let n : 0 ≢ k = λ e. d (ap some e) in omega (arith, n)
  lower-at_most (some (suc l)) k a d = let n : suc l ≢ k = λ e. d (ap some e) in omega (arith, a, n)

  differs :
      (o : Option ℕ) (k : ℕ)
      → owned_at cs block chunk_size o ≡ false
      → (owned_at cs block chunk_size (some k) ≡ false) ⊎ (o ≢ some k)
  differs none k h = inr (λ e. absurd (cc e))
  differs (some j) k h = elim (Bool-cases (j == k)) [
    | inl e ↦
        let q : j ≡ k = ground arith in
        inl (subst (λ i. owned_at cs block chunk_size (some i) ≡ false) q h)
    | inr e ↦ inr (λ d. let q : j ≡ k = cc d in ground arith)
  ]

  Searched-step :
      (l u : Option ℕ)
      → Inside u
      → Searched l u
      → owned_at cs block chunk_size l ≡ false
      → owned_at cs block chunk_size u ≡ false
      → Searched (lower l) (upper (length cs) u)
  Searched-step l u h s a b k x y = elim (differs l k a) [
    | inl e ↦ e
    | inr d ↦ elim (differs u k b) [
      | inl e ↦ e
      | inr g ↦ s k (lower-at_most l k x d) (upper-above u k h y g)
    ]
  ]

  above-upper : (u : ℕ) → u < length cs → above (length cs) (upper (length cs) (some u)) ≡ u + 1
  above-upper u h = elim (Bool-cases (ltb (u + 1) (length cs))) [
    | inl e ↦ rw e
    | inr e ↦ let c : length cs ≤ u + 1 = ground arith in rw e (omega (arith, h, c))
  ]

  abbrev rounds : Option ℕ → Option ℕ → ℕ
  rounds l u = below l + (length cs - above (length cs) u)

  rounds-less :
      (l u : Option ℕ)
      → Inside u
      → done l u ≡ false
      → rounds (lower l) (upper (length cs) u) < rounds l u
  rounds-less none none h d = absurd (cc d)
  rounds-less none (some u) h d = rw (above-upper u h) (omega (arith, h))
  rounds-less (some l) none h d = rw (lower-below (some l)) (omega arith)
  rounds-less (some l) (some u) h d = rw (lower-below (some l), above-upper u h) (omega (arith, h))

  none_left : (l u : Option ℕ) → done l u ≡ true → Searched l u → Found none
  none_left none none d s k = elim (Bool-cases (ltb k (length cs))) [
    | inl e ↦ s k (omega arith) (ground arith)
    | inr e ↦ outside k (ground arith)
  ]
  none_left none (some u) d s k = absurd (cc d)
  none_left (some l) none d s k = absurd (cc d)
  none_left (some l) (some u) d s k = absurd (cc d)

  pub find_loop-Found :
      (f : ℕ) (l u : Option ℕ)
      → Inside u
      → done l u ≡ false
      → rounds l u ≤ f
      → Searched l u
      → (r : Option ℕ) × (find_loop f cs block chunk_size l u ≡ some r) × Found r
  unfolding find_loop
  find_loop-Found zero l u h d b s = absurd (omega (arith, rounds-less l u h d, b))
  find_loop-Found (suc f) l u h d b s = elim (Bool-cases (owned_at cs block chunk_size l)) [
    | inl e ↦ (l, rw (find_loop, e), Found-here l e)
    | inr e ↦ elim (Bool-cases (owned_at cs block chunk_size u)) [
      | inl g ↦ (u, rw (find_loop, e, g), Found-here u g)
      | inr g ↦
          let l' = lower l in
          let u' = upper (length cs) u in
          let s' = Searched-step l u h s e g in
          elim (Bool-cases (done l' u')) [
            | inl i ↦ (none, rw (find_loop, e, g, i), none_left l' u' i s')
            | inr i ↦
                let j = rounds-less l u h d in
                let (r, k, w) =
                  find_loop-Found f l' u' (upper-Inside u h) i (omega (arith, j, b)) s' in
                (r, rw (find_loop, e, g, i) k, w)
          ]
    ]
  ]

-- From a deallocator that points into the vector, find returns when its fuel is at least the number of
-- chunks: either the index of a chunk that owns the block, or NULL and no chunk owns it.
pub find-Found :
    (f : ℕ) (m : ChunkManager) (block d : ℕ)
    → d < length m.chunks
    → length m.chunks ≤ f
    → (r : Option ℕ) × (find f m block d ≡ some r)
      × Found m.chunks block (m.blocks * m.block_size) r
unfolding find
find-Found f m block d h b =
    let cs = m.chunks in
    let size = m.blocks * m.block_size in
    let u = upper (length cs) (some d) in
    let e = above-upper cs block size d h in
    find_loop-Found cs block size f (some d) u (upper-Inside cs block size (some d) h)
      (started_open d u) (rw e (omega (arith, h, b)))
      (λ k x y. absurd (omega (arith, x, rw e at y)))
