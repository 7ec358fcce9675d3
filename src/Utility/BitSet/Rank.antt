-- ===== src/Utility/BitSet/Rank.antt =====
-- BitSet.cpp, `index_of`: the index of a member is the number of members below it.
use native.Mathlib.Nat.{zero-add}
use native.Mathlib.Decide.{dec_le, ℕ_discrete}
use oodles.Prelude.{
  ℕ, zero, suc, ◌+◌, ◌*◌, ◌/◌, ◌%◌, ◌^◌, ◌≤◌, ◌<◌, ◌≡◌, refl, ap, true, false, List, arith,
  if◌then◌else◌, ltb, leb, get_or,
}
use oodles.Utility.Bits.{bit, bit-le-one, digit_sum, digit_sum-suc, digit_sum-zero}
use oodles.Utility.BitSet.{
  BitSet, create, set_bits, has_value, index_of, size_of_int32, count_words, minus_one,
  population_count, population_count_to,
}
use oodles.Utility.BitSet.PopulationCount.{
  population_count-digit_sum, population_count_to-digit_sum,
}
use oodles.Utility.BitSet.Members.{
  IsValid, create_lem, set_bits_lem, AreWords, AreWords-get, digit_of, bit_and_31, word_has-digit,
}

pub has_value-le : (b : BitSet) (v : ℕ) → has_value b v ≡ true → v ≤ b.max
unfolding has_value
has_value-le b v h = ground arith

-- How many numbers below `n` the set has.
unfoldable pub count_below : BitSet → ℕ → ℕ
count_below b zero = 0
count_below b (suc n) = count_below b n + (if has_value b n then 1 else 0)

digits_below : List ℕ → ℕ → ℕ
digits_below ws zero = 0
digits_below ws (suc n) = digits_below ws n + digit_of ws n

digits_below-le : (ws : List ℕ) (n : ℕ) → digits_below ws n ≤ n
unfolding digits_below
digits_below-le ws zero = omega arith
digits_below-le ws (suc n) =
    omega (arith, digits_below-le ws n, bit-le-one (get_or ws (n / 32) 0) (n % 32))

place : (ws : List ℕ) (j r : ℕ) → r < 32 → digit_of ws (j * 32 + r) ≡ bit (get_or ws j 0) r
place ws j r h =
    let e : (j * 32 + r) / 32 ≡ j = omega arith in
    let f : (j * 32 + r) % 32 ≡ r = omega arith in rw (e, f)

-- Within a word the digits are summed from the lowest.
digits_below_word :
    (ws : List ℕ) (j r : ℕ)
    → r ≤ 32
    → digits_below ws (j * 32 + r) ≡ digits_below ws (j * 32) + digit_sum (get_or ws j 0) r
unfolding digits_below
digits_below_word ws j zero h =
    let e : j * 32 + 0 ≡ j * 32 = omega arith in rw (e, digit_sum-zero) (omega arith)
digits_below_word ws j (suc r) h =
    let e : j * 32 + suc r ≡ suc (j * 32 + r) = omega arith in
    rw e (
      omega (
        arith,
        digits_below_word ws j r (omega arith),
        place ws j r h,
        digit_sum-suc (get_or ws j 0) r,
      ))

add_word :
    (ws : List ℕ) (i : ℕ)
    → AreWords ws
    → suc i * 32 < 2 ^ 32
    → (digits_below ws (i * 32) + population_count (get_or ws i 0)) % 2 ^ 32
      ≡ digits_below ws (suc i * 32)
add_word ws i h p =
    let e : suc i * 32 ≡ i * 32 + 32 = omega arith in
    rw e (
      omega (
        arith,
        digits_below_word ws i 32 (omega arith),
        population_count-digit_sum (get_or ws i 0) (AreWords-get ws i h),
        digits_below-le ws (i * 32 + 32),
      ))

-- The loop adds whole words and never wraps.
count_words-digits :
    (ws : List ℕ) (i n : ℕ)
    → AreWords ws
    → (i + n) * 32 < 2 ^ 32
    → count_words ws i n (digits_below ws (i * 32)) ≡ digits_below ws ((i + n) * 32)
unfolding count_words
count_words-digits ws i zero h p = let e : i + 0 ≡ i = omega arith in rw e
count_words-digits ws i (suc n) h p =
    let e : i + suc n ≡ suc i + n = omega arith in
    rw (add_word ws i h (omega arith), e) (count_words-digits ws (suc i) n h (omega arith))

digits_below-count : (b : BitSet) (n : ℕ) → n ≤ suc b.max → digits_below b.words n ≡ count_below b n
unfolding digits_below count_below has_value
digits_below-count b zero h = refl
digits_below-count b (suc n) h = ground (
  arith,
  digits_below-count b n (omega arith),
  word_has-digit b.words n,
  bit-le-one (get_or b.words (n / 32) 0) (n % 32),
)

rank_digits :
    (ws : List ℕ) (v : ℕ)
    → AreWords ws
    → v < 2 ^ 32
    → count_words ws 0 (v / 32) 0 + population_count_to (get_or ws (v / 32) 0) (v % 32)
      ≡ digits_below ws v
unfolding digits_below
rank_digits ws v h p =
    let e : v / 32 * 32 + v % 32 ≡ v = omega arith in
    omega (
      arith,
      count_words-digits ws 0 (v / 32) h (omega arith),
      population_count_to-digit_sum (get_or ws (v / 32) 0) (v % 32) (omega arith),
      digits_below_word ws (v / 32) (v % 32) (omega arith),
      ap (digits_below ws) e,
      ap (λ k. digits_below ws (k * 32)) (zero-add (v / 32)),
    )

-- In a valid set, for a 32-bit number: of a member `index_of` is the number of members below it, and
-- of any other number it is -1.
pub index_of-count_below :
    (b : BitSet) (v : ℕ)
    → IsValid b
    → v < 2 ^ 32
    → index_of b v ≡ (if has_value b v then count_below b v else minus_one)
unfolding index_of
index_of-count_below b v h p =
    rw (bit_and_31 v, rank_digits b.words v h.fits p)
      (ground (arith, digits_below-le b.words v, digits_below-count b v, has_value-le b v))

-- Setting a bit that no member reaches leaves the ranks up to it, and its own rank is the size.
pub count_below-set_bits :
    (b : BitSet) (c n : ℕ)
    → IsValid b
    → c ≤ b.max
    → ((v : ℕ) → has_value b v ≡ true → v < c)
    → count_below (set_bits b c).0 n ≡ (if leb n c then count_below b n else suc (count_below b c))
unfolding count_below
count_below-set_bits b c zero h p m = ground arith
count_below-set_bits b c (suc n) h p m =
    ground (arith, count_below-set_bits b c n h p m, set_bits_lem b c n h, m n)

pub count_below_above :
    (b : BitSet) (c n : ℕ)
    → ((v : ℕ) → has_value b v ≡ true → v < c)
    → c ≤ n
    → count_below b n ≡ count_below b c
unfolding count_below
count_below_above b c zero m h = let e : c ≡ 0 = omega arith in rw e
count_below_above b c (suc n) m h = elim (dec_le c n) [
  | yes p ↦ ground (arith, count_below_above b c n m, m n)
  | no p ↦ let e : c ≡ suc n = omega arith in rw e
]

pub count_below-le : (b : BitSet) (n : ℕ) → count_below b n ≤ n
unfolding count_below
count_below-le b zero = omega arith
count_below-le b (suc n) = ground (arith, count_below-le b n)

pub count_below-create : (max n : ℕ) → count_below (create max) n ≡ 0
unfolding count_below
count_below-create max zero = refl
count_below-create max (suc n) = ground (arith, count_below-create max n, (create_lem max).1 n)

-- A new member raises the ranks above it by one.
pub count_below-set_bits_new :
    (b : BitSet) (c n : ℕ)
    → IsValid b
    → c ≤ b.max
    → has_value b c ≡ false
    → count_below (set_bits b c).0 n ≡ count_below b n + (if ltb c n then 1 else 0)
unfolding count_below
count_below-set_bits_new b c zero h p m = ground arith
count_below-set_bits_new b c (suc n) h p m = elim (ℕ_discrete c n) [
  | yes e ↦ ground (arith, count_below-set_bits_new b c n h p m, set_bits_lem b c n h)
  | no e ↦ ground (arith, count_below-set_bits_new b c n h p m, set_bits_lem b c n h)
]

-- The index of a number that was just set.
pub index_of-set_bits :
    (b : BitSet) (c : ℕ)
    → IsValid b
    → c ≤ b.max
    → b.max < 2 ^ 31
    → has_value b c ≡ false
    → index_of (set_bits b c).0 c ≡ count_below b c
index_of-set_bits b c h p l m = ground (
  arith,
  index_of-count_below (set_bits b c).0 c (set_bits_lem b c c h).0,
  set_bits_lem b c c h,
  count_below-set_bits_new b c c h p m,
)

pub small_size : (p : ℕ) → p < 2 ^ 31 → size_of_int32 p ≡ p
unfolding size_of_int32
small_size p h = ground arith
