-- ===== src/Utility/BitSet.antt =====
-- utility/BitSet.cpp and BitSet.hpp: a set of numbers up to `max`, a bit for each, with the rank of
-- a member among the members. A `uint32_t` is a number with `% 2 ^ 32` written out.
pub mod PopulationCount
pub mod Members
pub mod Rank
pub mod Registry
mod Tests
use Prim.Native.Nat.{bit_and, bit_or}
use oodles.Prelude.{
  ℕ, zero, suc, ◌+◌, ◌-◌, ◌*◌, ◌/◌, ◌%◌, ◌^◌, ◌<◌, Bool, true, false, not, List, replicate, get_or,
  set, ltb, ◌==◌, ◌||◌, if◌then◌else◌,
}

abbrev pub uint32_max : ℕ
uint32_max = 2 ^ 32 - 1

abbrev pub mask_01010101 : ℕ
mask_01010101 = uint32_max / 3

abbrev pub mask_00110011 : ℕ
mask_00110011 = uint32_max / 5

abbrev pub mask_00001111 : ℕ
mask_00001111 = uint32_max / 17

abbrev pub byte_size : ℕ
byte_size = 8

abbrev pub value_size : ℕ
value_size = 4

abbrev pub bits_per_value : ℕ
bits_per_value = value_size * byte_size

abbrev pub bitwise_modulo : ℕ
bitwise_modulo = bits_per_value - 1

-- One line of the count: fields of `s` digits are added pairwise.
abbrev pub fold_fields : ℕ → ℕ → ℕ → ℕ
fold_fields mask s value = (bit_and value mask + bit_and (value / 2 ^ s) mask) % 2 ^ 32

-- population_count(value)
pub population_count : ℕ → ℕ
population_count value =
    fold_fields mask_00001111 4 (fold_fields mask_00110011 2 (fold_fields mask_01010101 1 value))
    % 255

-- population_count(value, limit)
pub population_count_to : ℕ → ℕ → ℕ
population_count_to value limit =
    if limit == 0 then 0 else population_count (value * 2 ^ (bits_per_value - limit) % 2 ^ 32)

-- The free functions `set_bits`, `clear_bits` and `has_value` over the words.
unfoldable pub set_word : List ℕ → ℕ → List ℕ
set_word words value =
    set words (value / bits_per_value)
      (bit_or (get_or words (value / bits_per_value) 0) (2 ^ bit_and value bitwise_modulo))

unfoldable pub clear_word : List ℕ → ℕ → List ℕ
clear_word words value = set words (value / bits_per_value) (
    bit_and (get_or words (value / bits_per_value) 0)
      (2 ^ 32 - 1 - 2 ^ bit_and value bitwise_modulo))

unfoldable pub word_has : List ℕ → ℕ → Bool
word_has words value =
    not (bit_and (get_or words (value / bits_per_value) 0) (2 ^ bit_and value bitwise_modulo) == 0)

-- The class; `words` is the array `set`.
pub record BitSet : Type 0 where
  pub max : ℕ
  pub words : List ℕ

-- calloc() of `max / 32 + 1` items of eight bytes: twice as many words as that.
unfoldable pub create : ℕ → BitSet
create max = record {
  max = max;
  words = replicate ((max / bits_per_value + 1) * byte_size / value_size) 0;
}

unfoldable pub has_value : BitSet → ℕ → Bool
has_value b value = if ltb b.max value then false else word_has b.words value

-- A method that changes the object returns the new one beside its result.
unfoldable pub set_bits : BitSet → ℕ → BitSet × Bool
set_bits b value =
    if ltb b.max value || has_value b value
    then (b, false)
    else (record b { words = set_word b.words value }, true)

unfoldable pub clear_bits : BitSet → ℕ → BitSet × Bool
clear_bits b value =
    if not (has_value b value)
    then (b, false)
    else (record b { words = clear_word b.words value }, true)

-- The loop of `index_of`: `n` rounds are left, from word `i` on.
unfoldable pub count_words : List ℕ → ℕ → ℕ → ℕ → ℕ
count_words words i zero k = k
count_words words i (suc n) k =
    count_words words (suc i) n ((k + population_count (get_or words i 0)) % 2 ^ 32)

-- The int32_t result as its bit pattern: -1 is this.
abbrev pub minus_one : ℕ
minus_one = 2 ^ 32 - 1

unfoldable pub index_of : BitSet → ℕ → ℕ
unfolding count_words
index_of b value =
    if not (has_value b value)
    then minus_one
    else ((count_words b.words 0 (value / bits_per_value) 0
          + population_count_to (get_or b.words (value / bits_per_value) 0)
              (bit_and value bitwise_modulo))
        % 2 ^ 32)

-- An `int32_t` bit pattern converted to `size_t`: the sign is extended.
unfoldable pub size_of_int32 : ℕ → ℕ
size_of_int32 p = if ltb p (2 ^ 31) then p else p + 2 ^ 64 - 2 ^ 32
