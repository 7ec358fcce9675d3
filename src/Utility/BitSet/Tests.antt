-- ===== src/Utility/BitSet/Tests.antt =====
-- The theorems of BitSet.cpp at concrete sets.
use oodles.Prelude.{◌≡◌, not, ◌&&◌, ◌||◌, ◌==◌, leb, if◌then◌else◌, arith}
use oodles.Utility.Bits.{digit_sum}
use oodles.Utility.BitSet.{
  BitSet, create, set_bits, clear_bits, has_value, index_of, population_count, minus_one,
}
use oodles.Utility.BitSet.Members.{IsValid, create_lem, set_bits_lem, clear_bits_lem}
use oodles.Utility.BitSet.Rank.{index_of-count_below, count_below}
use oodles.Utility.BitSet.PopulationCount.{population_count-digit_sum}

abbrev one : BitSet
one = (set_bits (create 70) 33).0

abbrev pair : BitSet
pair = (set_bits one 3).0

pair-IsValid : IsValid pair
pair-IsValid = (set_bits_lem one 3 0 (set_bits_lem (create 70) 33 0 (create_lem 70).0).0).0

population_count-digit_sum_example : population_count 0xf0f00003 ≡ digit_sum 0xf0f00003 32
population_count-digit_sum_example = population_count-digit_sum 0xf0f00003 (omega arith)

set_bits_lem_run :
    let (b', done) = set_bits pair 70 in
    IsValid b'
    × (b'.max ≡ pair.max)
    × (done ≡ leb 70 pair.max && not (has_value pair 70))
    × (has_value b' 33 ≡ (70 == 33) && leb 70 pair.max || has_value pair 33)
set_bits_lem_run = set_bits_lem pair 70 33 pair-IsValid

clear_bits_lem_run :
    let (b', done) = clear_bits pair 3 in
    IsValid b'
    × (b'.max ≡ pair.max)
    × (done ≡ has_value pair 3)
    × (has_value b' 33 ≡ not (3 == 33) && has_value pair 33)
clear_bits_lem_run = clear_bits_lem pair 3 33 pair-IsValid

index_of-count_below_example :
    index_of pair 33 ≡ (if has_value pair 33 then count_below pair 33 else minus_one)
index_of-count_below_example = index_of-count_below pair 33 pair-IsValid (omega arith)
