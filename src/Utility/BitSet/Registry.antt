-- ===== src/Utility/BitSet/Registry.antt =====
-- A vector indexed by rank, as Factory::enroll (net/oop/Factory.cpp) and ResponseCodes::add_message
-- (net/http/ResponseCodes.cpp) build it beside a bit set.
use oodles.Prelude.{
  ℕ, suc, ◌≤◌, ◌<◌, ◌≡◌, refl, sym, true, false, not, ◌&&◌, List, [], ◌∷◌, ◌++◌, Option, none, some,
  arith, if◌then◌else◌, leb, ◌==◌, length, get_elem?, Option-cases, length-append, inl, inr,
  get_elem?-append_some, get_elem?-append_length,
}
use oodles.Utility.BitSet.{BitSet, create, set_bits, has_value}
use oodles.Utility.BitSet.Members.{IsValid, create_lem, set_bits_lem}
use oodles.Utility.BitSet.Rank.{
  count_below, count_below-set_bits, count_below_above, count_below-create,
}

-- A table of keys with their entries.
abbrev pub entry_of {ℓ} : {A : Type ℓ} → List (ℕ × A) → ℕ → Option A
entry_of [] v = none
entry_of ((k, a) ∷ t) v = if k == v then some a else entry_of t v

-- Every key of the table lies below `n`.
abbrev pub KeysBelow {ℓ} : {A : Type ℓ} → List (ℕ × A) → ℕ → Type 0
KeysBelow [] n = Unit {0}
KeysBelow ((k, a) ∷ t) n = (k < n) × KeysBelow t n

module _ {ℓ} {A : Type ℓ} where
  pub entry_of_below :
      (t : List (ℕ × A)) (n v : ℕ) (a : A) → KeysBelow t n → entry_of t v ≡ some a → v < n
  entry_of_below [] n v a h e = cc
  entry_of_below ((k, x) ∷ t) n v a h e = ground (arith, entry_of_below t n v a h.1)

  pub entry_of-append :
      (t : List (ℕ × A)) (c v : ℕ) (a : A)
      → KeysBelow t c
      → entry_of (t ++ (c, a) ∷ []) v ≡ (if c == v then some a else entry_of t v)
  entry_of-append [] c v a h = refl
  entry_of-append ((k, x) ∷ t) c v a h = ground (arith, entry_of-append t c v a h.1)

  pub KeysBelow-append :
      (t : List (ℕ × A)) (n m c : ℕ) (a : A)
      → KeysBelow t n
      → n ≤ c
      → c < m
      → KeysBelow (t ++ (c, a) ∷ []) m
  KeysBelow-append [] n m c a h p q = (q, tt)
  KeysBelow-append ((k, x) ∷ t) n m c a h p q = (omega arith, KeysBelow-append t n m c a h.1 p q)

  pub KeysBelow-mono : (t : List (ℕ × A)) (n m : ℕ) → n ≤ m → KeysBelow t n → KeysBelow t m
  KeysBelow-mono [] n m p h = tt
  KeysBelow-mono ((k, x) ∷ t) n m p h = (omega arith, KeysBelow-mono t n m p h.1)

  -- The set has the keys of the table, and the vector has each key's entry at the key's rank.
  pub record Stores (b : BitSet) (xs : List A) (t : List (ℕ × A)) : Type ℓ where
    pub valid : IsValid b
    pub size : length xs ≡ count_below b (suc b.max)
    pub absent : (v : ℕ) → entry_of t v ≡ none → has_value b v ≡ false
    pub present :
        (v : ℕ) (a : A)
        → entry_of t v ≡ some a
        → (has_value b v ≡ true) × (get_elem? xs (count_below b v) ≡ some a)

  pub create-Stores : (max : ℕ) → Stores (create max) [] []
  create-Stores max = record {
    valid = (create_lem max).0;
    size = sym (count_below-create max _);
    absent = λ v _. (create_lem max).1 v;
    present = λ v a e. cc;
  }

  pub keys_above :
      {b : BitSet} {xs : List A} {t : List (ℕ × A)} (c : ℕ)
      → Stores b xs t
      → KeysBelow t c
      → (v : ℕ) → has_value b v ≡ true
      → v < c
  keys_above {b} {xs} {t} c s k v e = elim (Option-cases (entry_of t v)) [
    | inl n ↦ cc (s.absent v n)
    | inr (a, p) ↦ entry_of_below t c v a k p
  ]

  module _ {b : BitSet} {xs : List A} {t : List (ℕ × A)} (c : ℕ) (s : Stores b xs t)
      (k : KeysBelow t c) (p : c ≤ b.max) where
    pub rank_of_new : (count_below b c ≡ length xs) × (has_value b c ≡ false)
    rank_of_new =
        ground
          (arith, s.size, count_below_above b c (suc b.max) (keys_above c s k), keys_above c s k c)

    -- A key above all others gets the next index, and only its own entry is new.
    pub set_bits-Stores :
        (a : A)
        → Stores (set_bits b c).0 (xs ++ a ∷ []) (t ++ (c, a) ∷ [])
          × ((set_bits b c).1 ≡ true)
          × (count_below (set_bits b c).0 c ≡ length xs)
    set_bits-Stores a = (
      record {
        valid = new.0;
        size = ground (
          arith,
          length-append xs (a ∷ []),
          s.size,
          new.1,
          count_below-set_bits b c (suc b.max) s.valid p (keys_above c s k),
          count_below_above b c (suc b.max) (keys_above c s k),
        );
        absent = λ v e.
            ground (arith, entry_of-append t c v a k, set_bits_lem b c v s.valid, s.absent v);
        present = λ v a' e. ground (
          arith,
          entry_of-append t c v a k,
          set_bits_lem b c v s.valid,
          count_below-set_bits b c v s.valid p (keys_above c s k),
          s.present v a',
          entry_of_below t c v a' k,
          rank_of_new,
          get_elem?-append_some xs (a ∷ []) (count_below b v) a',
          get_elem?-append_length xs a [],
        );
      },
      ground (arith, new, rank_of_new),
      ground (arith, count_below-set_bits b c c s.valid p (keys_above c s k), rank_of_new),
    )
      where
        new :
            IsValid (set_bits b c).0
            × ((set_bits b c).0.max ≡ b.max)
            × ((set_bits b c).1 ≡ leb c b.max && not (has_value b c))
        new = let f = set_bits_lem b c 0 s.valid in (f.0, f.1, f.2)
