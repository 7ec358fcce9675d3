-- ===== src/Net/Oop/Factory/Laws.antt =====
-- Factory.cpp: what `create` makes after messages were enrolled.
use mathlib.Core.Option
use mathlib.Core.List.{append-nil, append_assoc}
use oodles.Prelude.{
  ℕ, ◌+◌, ◌^◌, ◌≤◌, ◌<◌, ◌≡◌, refl, ◌∙◌, ap, true, false, List, [], ◌∷◌, ◌++◌, Option, none, some,
  arith, if◌then◌else◌, ltb, length, set, set-append_length, ◌==◌, Option-cases, inl, inr,
}
use oodles.Utility.BitSet
use oodles.Utility.BitSet.{BitSet, size_of_int32, set_bits, has_value, index_of, minus_one}
use oodles.Utility.BitSet.Members.{IsValid, create_lem, set_bits_lem}
use oodles.Utility.BitSet.Rank.{
  count_below, index_of-count_below, index_of-set_bits, small_size, count_below-set_bits_new,
  count_below-create, count_below-le,
}
use oodles.Utility.BitSet.Registry.{
  entry_of, KeysBelow, KeysBelow-append, KeysBelow-mono, Stores, create-Stores, set_bits-Stores,
  rank_of_new,
}
use oodles.Net.Oop.Factory.{
  Factory, Created, none_made, made, undefined, empty, enroll, enroll_all, create, grown,
  max_message_id,
}

module _ {ℓ} {M : Type ℓ} (id : M → ℕ) (make : M → ℕ → M) where
  -- The table of the messages by id.
  abbrev pub table : List M → List (ℕ × Option M)
  table [] = []
  table (m ∷ ms) = (id m, some m) ∷ table ms

  -- The first message of that id.
  abbrev pub message_of : List M → ℕ → Option M
  message_of [] v = none
  message_of (m ∷ ms) v = if id m == v then some m else message_of ms v

  -- The ids rise from `n` on, up to the largest that the factory's index holds.
  abbrev pub Ascending : ℕ → List M → Type 0
  Ascending n [] = Unit {0}
  Ascending n (m ∷ ms) = (n ≤ id m) × (id m ≤ max_message_id) × Ascending (id m + 1) ms

  abbrev expected : Option M → ℕ → Created M
  expected none body_size = none_made
  expected (some m) body_size = made (make m body_size)

  -- What `enroll` does with an id that is new.
  enroll_new :
      (f : Factory M) (m : M)
      → IsValid f.index
      → id m ≤ f.index.max
      → f.index.max < 2 ^ 31
      → has_value f.index (id m) ≡ false
      → count_below f.index (id m) ≤ length f.registry
      → enroll id make f m ≡ (
        record {
          index = (set_bits f.index (id m)).0;
          registry = set (f.registry ++ none ∷ []) (count_below f.index (id m)) (some m);
        },
        true,
      )
  unfolding enroll grown
  enroll_new f m h p l e q =
      let done : (set_bits f.index (id m)).1 ≡ true =
        ground (arith, set_bits_lem f.index (id m) 0 h) in
      rw
        (
          done,
          index_of-set_bits f.index (id m) h p l e,
          small_size (count_below f.index (id m)) (omega (arith, count_below-le f.index (id m))),
        )
        (ground arith)

  enroll-Stores :
      (f : Factory M) (t : List (ℕ × Option M)) (m : M)
      → Stores f.index f.registry t
      → (f.index.max ≡ max_message_id)
      → KeysBelow t (id m)
      → id m ≤ max_message_id
      → let g = (enroll id make f m).0 in
        Stores g.index g.registry (t ++ (id m, some m) ∷ []) × (g.index.max ≡ max_message_id)
  enroll-Stores f t m s e k p =
      let c = id m in
      let b = f.index in
      let r = rank_of_new c s k (omega arith) in
      let q = set_bits-Stores c s k (omega arith) (some m) in
      rw
        (
          enroll_new f m s.valid (omega arith) (omega arith) r.1 (omega arith),
          r.0,
          set-append_length f.registry none (some m) [],
        )
        (q.0, ground (arith, set_bits_lem b c 0 s.valid))

  enroll_all-Stores :
      (f : Factory M) (t : List (ℕ × Option M)) (n : ℕ) (ms : List M)
      → Stores f.index f.registry t
      → f.index.max ≡ max_message_id
      → KeysBelow t n
      → Ascending n ms
      → let g = enroll_all id make f ms in
        Stores g.index g.registry (t ++ table ms) × (g.index.max ≡ max_message_id)
  unfolding enroll_all
  enroll_all-Stores f t n [] s e k h = rw append-nil (s, e)
  enroll_all-Stores f t n (m ∷ ms) s e k h =
      let new = enroll-Stores f t m s e (KeysBelow-mono t n (id m) h.0 k) h.1 in
      rw (append_assoc t ((id m, some m) ∷ []) (table ms)) at (
        enroll_all-Stores (enroll id make f m).0 (t ++ (id m, some m) ∷ []) (id m + 1) ms new.0
          new.1 (KeysBelow-append t n (id m + 1) (id m) (some m) k h.0 (omega arith)) h.2)

  entry_of-table : (ms : List M) (v : ℕ) → entry_of (table ms) v ≡ Option.map some (message_of ms v)
  entry_of-table [] v = refl
  entry_of-table (m ∷ ms) v = ground (arith, entry_of-table ms v)

  create-Stores-none :
      (f : Factory M) (t : List (ℕ × Option M)) (v body_size : ℕ)
      → Stores f.index f.registry t
      → v < 2 ^ 16
      → entry_of t v ≡ none
      → create id make f v body_size ≡ none_made
  unfolding create
  create-Stores-none f t v body_size s p e =
      rw (index_of-count_below f.index v s.valid (omega arith), s.absent v e)

  create-Stores-some :
      (f : Factory M) (t : List (ℕ × Option M)) (v body_size : ℕ) (m : M)
      → Stores f.index f.registry t
      → v < 2 ^ 16
      → entry_of t v ≡ some (some m)
      → create id make f v body_size ≡ made (make m body_size)
  unfolding create
  create-Stores-some f t v body_size m s p e =
      rw
        (
          index_of-count_below f.index v s.valid (omega arith),
          (s.present v (some m) e).0,
          small_size (count_below f.index v) (omega (arith, count_below-le f.index v)),
          (s.present v (some m) e).1,
        )
        (ground (arith, count_below-le f.index v))

  -- When messages are enrolled in the order of their ids, `create` makes a message of the type that
  -- was enrolled for the header's id, with the header's body size, and NULL for any other id.
  pub create-enroll_all :
      (ms : List M) (v body_size : ℕ)
      → Ascending 0 ms
      → v < 2 ^ 16
      → create id make (enroll_all id make empty ms) v body_size
        ≡ expected (message_of ms v) body_size
  unfolding empty BitSet.create
  create-enroll_all ms v body_size h p = elim (Option-cases (message_of ms v)) [
    | inl e ↦ rw e (create-Stores-none _ _ v body_size all.0 p (rw (entry_of-table ms v, e)))
    | inr (m, e) ↦ rw e (create-Stores-some _ _ v body_size m all.0 p (rw (entry_of-table ms v, e)))
  ]
    where
      all :
          Stores
            (enroll_all id make empty ms).index
            (enroll_all id make empty ms).registry
            (table ms)
          × ((enroll_all id make empty ms).index.max ≡ max_message_id)
      all = enroll_all-Stores empty [] 0 ms (create-Stores max_message_id) refl tt h

  module _ (m n : M) (h : id n < id m) (p : id m ≤ max_message_id) where
    index₀ : BitSet
    index₀ = BitSet.create max_message_id

    index₁ : BitSet
    index₁ = (set_bits index₀ (id m)).0

    index₂ : BitSet
    index₂ = (set_bits index₁ (id n)).0

    abbrev first_enrolled : Factory M
    first_enrolled = record { index = index₁; registry = some m ∷ [] }

    abbrev both_enrolled : Factory M
    both_enrolled = record { index = index₂; registry = some n ∷ none ∷ [] }

    max₀ : index₀.max ≡ max_message_id
    unfolding index₀ BitSet.create
    max₀ = refl

    facts₁ :
        IsValid index₁
        × (index₁.max ≡ max_message_id)
        × (has_value index₁ (id n) ≡ false)
        × ((v : ℕ) → count_below index₁ v ≡ (if ltb (id m) v then 1 else 0))
    unfolding index₁ index₀
    facts₁ =
        let c = create_lem max_message_id in
        let f = set_bits_lem index₀ (id m) (id n) c.0 in
        (
          f.0,
          f.1 ∙ max₀,
          ground (arith, f, c.1 (id n)),
          λ v. ground (
            arith,
            count_below-set_bits_new index₀ (id m) v c.0 (omega (arith, max₀)) (c.1 (id m)),
            count_below-create max_message_id v,
          ),
        )

    has₁ : has_value index₁ (id m) ≡ true
    unfolding index₁ index₀
    has₁ =
        let c = create_lem max_message_id in
        ground (arith, set_bits_lem index₀ (id m) (id m) c.0, max₀)

    first_enrolled_lem : (enroll id make empty m).0 ≡ first_enrolled
    unfolding empty index₁ index₀
    first_enrolled_lem =
        let c = create_lem max_message_id in
        rw (
          enroll_new empty m c.0 (omega (arith, max₀)) (omega (arith, max₀)) (c.1 (id m))
              (omega (arith, count_below-create max_message_id (id m))),
          count_below-create max_message_id (id m),
        )

    both_enrolled_lem : (enroll id make first_enrolled n).0 ≡ both_enrolled
    unfolding index₂
    both_enrolled_lem =
        let e : count_below index₁ (id n) ≡ 0 = ground (arith, facts₁.3 (id n)) in
        rw (
          enroll_new first_enrolled n facts₁.0 (omega (arith, facts₁.1)) (omega (arith, facts₁.1))
              facts₁.2 (omega (arith, e)),
          e,
        )

    facts₂ :
        IsValid index₂
        × (has_value index₂ (id m) ≡ true)
        × (has_value index₂ (id n) ≡ true)
        × (count_below index₂ (id m) ≡ 1)
        × (count_below index₂ (id n) ≡ 0)
    unfolding index₂
    facts₂ =
        let q : id n ≤ index₁.max = omega (arith, facts₁.1) in
        let f = set_bits_lem index₁ (id n) (id m) facts₁.0 in
        let g = set_bits_lem index₁ (id n) (id n) facts₁.0 in
        (
          f.0,
          ground (arith, f, has₁),
          ground (arith, g),
          ground (
            arith,
            count_below-set_bits_new index₁ (id n) (id m) facts₁.0 q facts₁.2,
            facts₁.3 (id m),
          ),
          ground (
            arith,
            count_below-set_bits_new index₁ (id n) (id n) facts₁.0 q facts₁.2,
            facts₁.3 (id n),
          ),
        )

    enroll_both : enroll_all id make empty (m ∷ n ∷ []) ≡ both_enrolled
    unfolding enroll_all
    enroll_both = ap (λ f. (enroll id make f n).0) first_enrolled_lem ∙ both_enrolled_lem

    create_both :
        (body_size : ℕ)
        → (create id make both_enrolled (id m) body_size ≡ undefined)
          × (create id make both_enrolled (id n) body_size ≡ made (make n body_size))
    unfolding create size_of_int32
    create_both body_size =
        let f = facts₂ in
        (
          rw (index_of-count_below index₂ (id m) f.0 (omega arith), f.1, f.3),
          rw (index_of-count_below index₂ (id n) f.0 (omega arith), f.2, f.4),
        )

  -- A message that is enrolled after one with a larger id takes the other's entry: from then on a
  -- header with the larger id calls through a NULL entry.
  pub create-enroll_descending :
      (m n : M) (body_size : ℕ)
      → id n < id m
      → id m ≤ max_message_id
      → let f = enroll_all id make empty (m ∷ n ∷ []) in
        (create id make f (id m) body_size ≡ undefined)
        × (create id make f (id n) body_size ≡ made (make n body_size))
  create-enroll_descending m n body_size h p =
      rw (enroll_both m n h p) (create_both m n h p body_size)
