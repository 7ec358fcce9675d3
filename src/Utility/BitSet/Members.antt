-- ===== src/Utility/BitSet/Members.antt =====
-- BitSet.cpp, `set_bits`, `clear_bits` and `has_value`: the words against the set that they stand
-- for.
use Prim.Native.Nat.{bit_and, bit_or}
use oodles.Prelude.{
  ℕ, zero, suc, ◌+◌, ◌-◌, ◌*◌, ◌/◌, ◌%◌, ◌^◌, ◌≤◌, ◌<◌, ◌≡◌, refl, false, not, List, [], ◌∷◌, arith,
  leb, ◌==◌, ◌&&◌, ◌||◌, if◌then◌else◌, length, get_or, set, replicate, length-replicate,
  length-set, get_or-set_self, get_or-set_ne,
}
use oodles.Utility.Bits.{
  bit, bit-le-one, bit_and-pow, bit-bit_or, bit-bit_and, bit-zero, bit-pow, bit-complement,
  bit_and_step, bit_and-zero, bit_or-lt, bit_and-lt, two-pow-pos, two-pow-lt,
}
use oodles.Utility.BitSet.{
  BitSet, create, has_value, set_bits, clear_bits, word_has, set_word, clear_word,
}

-- Every word fits in 32 bits.
abbrev pub AreWords : List ℕ → Type 0
AreWords [] = Unit {0}
AreWords (w ∷ ws) = (w < 2 ^ 32) × AreWords ws

-- The array reaches the word of `max`, and holds 32-bit words.
pub record IsValid (b : BitSet) : Type 0 where
  pub reaches : b.max / 32 < length b.words
  pub fits : AreWords b.words

pub AreWords-get : (ws : List ℕ) (i : ℕ) → AreWords ws → get_or ws i 0 < 2 ^ 32
AreWords-get [] i h = omega arith
AreWords-get (w ∷ ws) zero h = h.0
AreWords-get (w ∷ ws) (suc i) h = AreWords-get ws i h.1

AreWords-set : (ws : List ℕ) (i v : ℕ) → AreWords ws → v < 2 ^ 32 → AreWords (set ws i v)
AreWords-set [] i v h p = tt
AreWords-set (w ∷ ws) zero v h p = (p, h.1)
AreWords-set (w ∷ ws) (suc i) v h p = (h.0, AreWords-set ws i v h.1 p)

AreWords-replicate : (n : ℕ) → AreWords (replicate n 0)
AreWords-replicate zero = tt
AreWords-replicate (suc n) = (omega arith, AreWords-replicate n)

-- `value & 31` is the remainder by 32.
pub bit_and_31 : (v : ℕ) → bit_and v 31 ≡ v % 32
bit_and_31 v = omega (
  arith,
  bit_and_step v 31,
  bit_and_step (v / 2) 15,
  bit_and_step (v / 2 / 2) 7,
  bit_and_step (v / 2 / 2 / 2) 3,
  bit_and_step (v / 2 / 2 / 2 / 2) 1,
  bit_and-zero (v / 2 / 2 / 2 / 2 / 2) (v / 2 / 2 / 2 / 2 / 2) (omega arith),
)

-- The digit of the array that stands for `v`.
abbrev pub digit_of : List ℕ → ℕ → ℕ
digit_of ws v = bit (get_or ws (v / 32) 0) (v % 32)

test_product : (b p : ℕ) → b ≤ 1 → 0 < p → not (b * p == 0) ≡ (b == 1)
test_product zero p h q = ground arith
test_product (suc zero) p h q = ground arith
test_product (suc (suc b)) p h q = absurd (omega arith)

pub word_has-digit : (ws : List ℕ) (v : ℕ) → word_has ws v ≡ (digit_of ws v == 1)
unfolding word_has
word_has-digit ws v =
    rw (bit_and_31 v, bit_and-pow (get_or ws (v / 32) 0) (v % 32))
      (test_product _ _ (bit-le-one _ (v % 32)) (two-pow-pos (v % 32)))

same_place : (u v : ℕ) → u / 32 ≡ v / 32 → u % 32 ≡ v % 32 → u ≡ v
same_place u v p q = omega arith

-- A write to the word of `v` changes the digits of that word only.
digit_of-set :
    (ws : List ℕ) (v u w : ℕ)
    → v / 32 < length ws
    → digit_of (set ws (v / 32) w) u ≡ (if v / 32 == u / 32 then bit w (u % 32) else digit_of ws u)
digit_of-set ws v u w h =
    ground (arith, get_or-set_self ws (v / 32) w 0 h, get_or-set_ne ws (v / 32) (u / 32) w 0)

digit_of-set_word :
    (ws : List ℕ) (v u : ℕ)
    → v / 32 < length ws
    → digit_of (set_word ws v) u ≡ (if v == u then 1 else digit_of ws u)
unfolding set_word
digit_of-set_word ws v u h =
    rw (bit_and_31 v, digit_of-set ws v u (bit_or (get_or ws (v / 32) 0) (2 ^ (v % 32))) h)
      (ground (
        arith,
        bit-bit_or (get_or ws (v / 32) 0) (2 ^ (v % 32)) (u % 32),
        bit-pow (v % 32) (u % 32),
        same_place v u,
        bit-le-one (get_or ws (v / 32) 0) (u % 32),
      ))

digit_of-clear_word :
    (ws : List ℕ) (v u : ℕ)
    → v / 32 < length ws
    → digit_of (clear_word ws v) u ≡ (if v == u then 0 else digit_of ws u)
unfolding clear_word
digit_of-clear_word ws v u h =
    rw
      (
        bit_and_31 v,
        digit_of-set ws v u (bit_and (get_or ws (v / 32) 0) (2 ^ 32 - 1 - 2 ^ (v % 32))) h,
      )
      (ground (
        arith,
        bit-bit_and (get_or ws (v / 32) 0) (2 ^ 32 - 1 - 2 ^ (v % 32)) (u % 32),
        bit-complement 32 (2 ^ (v % 32)) (u % 32) (two-pow-lt (v % 32) 32 (omega arith))
            (omega arith),
        bit-pow (v % 32) (u % 32),
        same_place v u,
        bit-le-one (get_or ws (v / 32) 0) (u % 32),
      ))

word_has-set_word :
    (ws : List ℕ) (v u : ℕ)
    → v / 32 < length ws
    → word_has (set_word ws v) u ≡ (v == u) || word_has ws u
word_has-set_word ws v u h =
    rw (word_has-digit (set_word ws v) u, word_has-digit ws u)
      (ground (arith, digit_of-set_word ws v u h))

word_has-clear_word :
    (ws : List ℕ) (v u : ℕ)
    → v / 32 < length ws
    → word_has (clear_word ws v) u ≡ not (v == u) && word_has ws u
word_has-clear_word ws v u h =
    rw (word_has-digit (clear_word ws v) u, word_has-digit ws u)
      (ground (arith, digit_of-clear_word ws v u h))

set_word-valid :
    (ws : List ℕ) (v : ℕ)
    → AreWords ws
    → AreWords (set_word ws v) × (length (set_word ws v) ≡ length ws)
unfolding set_word
set_word-valid ws v h = (
  AreWords-set ws _ _ h (
      bit_or-lt 32 _ _ (AreWords-get ws (v / 32) h)
        (rw (bit_and_31 v) (two-pow-lt (v % 32) 32 (omega arith)))),
  length-set ws _ _,
)

clear_word-valid :
    (ws : List ℕ) (v : ℕ)
    → AreWords ws
    → AreWords (clear_word ws v) × (length (clear_word ws v) ≡ length ws)
unfolding clear_word
clear_word-valid ws v h =
    (AreWords-set ws _ _ h (bit_and-lt 32 _ _ (omega arith)), length-set ws _ _)

in_reach : (v max n : ℕ) → v ≤ max → max / 32 < n → v / 32 < n
in_reach v max n h p = omega arith

get_or-replicate : (n i : ℕ) → get_or {A = ℕ} (replicate n 0) i 0 ≡ 0
get_or-replicate zero i = refl
get_or-replicate (suc n) zero = refl
get_or-replicate (suc n) (suc i) = get_or-replicate n i

word_has-replicate : (n u : ℕ) → word_has (replicate n 0) u ≡ false
word_has-replicate n u =
    rw (word_has-digit (replicate n 0) u, get_or-replicate n (u / 32), bit-zero (u % 32))

-- A fresh set is valid and empty.
pub create_lem : (max : ℕ) → IsValid (create max) × ((u : ℕ) → has_value (create max) u ≡ false)
unfolding create has_value
create_lem max = (
  record {
    reaches = omega (arith, length-replicate {A = ℕ} ((max / 32 + 1) * 8 / 4) 0);
    fits = AreWords-replicate _;
  },
  λ u. ground (arith, word_has-replicate ((max / 32 + 1) * 8 / 4) u),
)

-- Setting a number keeps a valid set valid. It is refused above `max` and for a member; else exactly
-- that number is added.
pub set_bits_lem :
    (b : BitSet) (v u : ℕ)
    → IsValid b
    → let (b', done) = set_bits b v in
      IsValid b'
      × (b'.max ≡ b.max)
      × (done ≡ leb v b.max && not (has_value b v))
      × (has_value b' u ≡ (v == u) && leb v b.max || has_value b u)
unfolding set_bits has_value
set_bits_lem b v u h = ground (
  arith,
  set_word-valid b.words v,
  word_has-set_word b.words v u,
  in_reach v b.max (length b.words),
)

-- Clearing keeps a valid set valid. It succeeds for a member, and exactly that number is removed.
pub clear_bits_lem :
    (b : BitSet) (v u : ℕ)
    → IsValid b
    → let (b', done) = clear_bits b v in
      IsValid b'
      × (b'.max ≡ b.max)
      × (done ≡ has_value b v)
      × (has_value b' u ≡ not (v == u) && has_value b u)
unfolding clear_bits has_value
clear_bits_lem b v u h = ground (
  arith,
  clear_word-valid b.words v,
  word_has-clear_word b.words v u,
  in_reach v b.max (length b.words),
)
