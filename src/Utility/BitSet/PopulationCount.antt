-- ===== src/Utility/BitSet/PopulationCount.antt =====
-- The masked sums of `population_count` against the plain sum of a word's digits.
use Prim.Native.Nat.{bit_and}
use native.Mathlib.Nat.{two-pow-succ}
use oodles.Prelude.{
  ap₂, ltb, ltb→lt, ℕ, zero, suc, ◌+◌, ◌-◌, ◌*◌, ◌/◌, ◌%◌, ◌^◌, ◌≤◌, ◌<◌, ◌≡◌, refl, ap, subst,
  Bool, true, arith, ◌&&◌, ◌==◌, ==_iff,
}
use oodles.Utility.Bits.{
  half_split, bit_and_step, bit_and-zero, digit_sum, digit_sum-zero, digit_sum_split, digit_sum-le,
  digit_sum-mod, digit_sum-shift,
}
use oodles.Utility.BitSet.{
  mask_01010101, mask_00110011, mask_00001111, fold_fields, population_count, population_count_to,
}

-- To check a claim at every number below `n`.
all_below : ℕ → (ℕ → Bool) → Bool
all_below zero p = true
all_below (suc n) p = p n && all_below n p

all_below-true : (n : ℕ) (p : ℕ → Bool) (x : ℕ) → all_below n p ≡ true → x < n → p x ≡ true
unfolding all_below
all_below-true zero p x h lt = absurd (omega arith)
all_below-true (suc n) p x h lt = ground (arith, all_below-true n p x)

bit_and-le : (n a b : ℕ) → b ≤ n → bit_and a b ≤ b
bit_and-le zero a b h =
    let e : b ≡ 0 = omega arith in rw (e, bit_and-zero a a (omega arith)) (omega arith)
bit_and-le (suc n) a b h =
    omega (arith, bit_and_step a b, bit_and-le n (a / 2) (b / 2) (omega arith))

times_one : (h : ℕ) → h * 1 + 0 ≡ h
times_one h = omega arith

-- `&` works on the low digits and on the rest separately.
bit_and_split :
    (n h l k m : ℕ)
    → l < 2 ^ n
    → m < 2 ^ n
    → bit_and (h * 2 ^ n + l) (k * 2 ^ n + m) ≡ bit_and h k * 2 ^ n + bit_and l m
bit_and_split zero h l k m p q =
    let e : l ≡ 0 = omega arith in
    let f : m ≡ 0 = omega arith in
    rw (e, f) (omega (arith, ap₂ bit_and (times_one h) (times_one k)))
bit_and_split (suc n) h l k m p q = rw (two-pow-succ n) (
    omega (
      arith,
      two-pow-succ n,
      bit_and_step (h * (2 ^ n + 2 ^ n) + l) (k * (2 ^ n + 2 ^ n) + m),
      ap₂ bit_and (half_split h l (2 ^ n)) (half_split k m (2 ^ n)),
      bit_and_step l m,
      bit_and_split n h (l / 2) k (m / 2) (omega (arith, two-pow-succ n))
          (omega (arith, two-pow-succ n)),
    ))

-- One line of the count without its wrap-around.
abbrev fold_raw : ℕ → ℕ → ℕ → ℕ
fold_raw m s x = bit_and x m + bit_and (x / 2 ^ s) m

-- The three lines, for masks of any width.
abbrev fold_thrice : ℕ → ℕ → ℕ → ℕ → ℕ
fold_thrice a b c x = fold_raw c 4 (fold_raw b 2 (fold_raw a 1 x))

-- What a byte lends to the one below it is masked away, and a byte's sum stays a byte.
abbrev MasksByte : ℕ → ℕ → Type 0
MasksByte m s =
    ((y : ℕ) → y < 4096 → bit_and (y / 2 ^ s) m ≡ bit_and (y % 256 / 2 ^ s) m)
    × ((l : ℕ) → l < 256 → fold_raw m s l < 256)

masks_byte :
    (m s : ℕ)
    → all_below 4096 (λ y. bit_and (y / 2 ^ s) m == bit_and (y % 256 / 2 ^ s) m) ≡ true
    → all_below 256 (λ l. ltb (fold_raw m s l) 256) ≡ true
    → MasksByte m s
masks_byte m s t u = (
  λ y h. (==_iff _ _).0 (all_below-true 4096 _ y t h),
  λ l h. ltb→lt _ _ (all_below-true 256 _ l u h),
)

-- A shift by `s` carries the low `s` digits of the byte above into this one.
abbrev ShiftsByte : ℕ → Type 0
ShiftsByte s =
    (h l : ℕ)
    → l < 256
    → ((h * 256 + l) / 2 ^ s ≡ h / 2 ^ s * 256 + (h % 2 ^ s * 256 + l) / 2 ^ s)
      × (h % 2 ^ s * 256 + l < 4096)
      × ((h % 2 ^ s * 256 + l) / 2 ^ s < 256)
      × ((h % 2 ^ s * 256 + l) % 256 ≡ l)

fold_raw_byte :
    (m k s h l : ℕ)
    → MasksByte m s
    → ShiftsByte s
    → m < 256
    → l < 256
    → fold_raw (k * 256 + m) s (h * 256 + l) ≡ fold_raw k s h * 256 + fold_raw m s l
fold_raw_byte m k s h l t u p q =
    let f = u h l q in
    rw f.0 (
      omega (
        arith,
        bit_and_split 8 h l k m q p,
        bit_and_split 8 (h / 2 ^ s) ((h % 2 ^ s * 256 + l) / 2 ^ s) k m f.2 p,
        t.0 (h % 2 ^ s * 256 + l) f.1,
        ap (λ v. bit_and (v / 2 ^ s) m) f.3,
      ))

-- The three lines on a byte count its digits.
abbrev count_byte : ℕ → ℕ
count_byte = fold_thrice 0x55 0x33 0x0f

fold_thrice_byte :
    (a b c h l : ℕ)
    → l < 256
    → fold_thrice (a * 256 + 0x55) (b * 256 + 0x33) (c * 256 + 0x0f) (h * 256 + l)
      ≡ fold_thrice a b c h * 256 + count_byte l
unfolding all_below
fold_thrice_byte a b c h l q =
    let t₁ = masks_byte 0x55 1 refl refl in
    let t₂ = masks_byte 0x33 2 refl refl in
    let t₃ = masks_byte 0x0f 4 refl refl in
    rw (fold_raw_byte 0x55 a 1 h l t₁ (λ h l p. omega arith) (omega arith) q) (
      rw
        (fold_raw_byte 0x33 b 2 (fold_raw a 1 h) (fold_raw 0x55 1 l) t₂ (λ h l p. omega arith)
          (omega arith) (t₁.1 l q))
        (fold_raw_byte 0x0f c 4 (fold_raw b 2 (fold_raw a 1 h))
          (fold_raw 0x33 2 (fold_raw 0x55 1 l)) t₃ (λ h l p. omega arith) (omega arith)
          (t₂.1 (fold_raw 0x55 1 l) (t₁.1 l q))))

count_byte_lem : (l : ℕ) → l < 256 → count_byte l ≡ digit_sum l 8
unfolding all_below digit_sum
count_byte_lem l h =
    (==_iff _ _).0 (all_below-true 256 (λ l. count_byte l == digit_sum l 8) l refl h)

-- No line of the count wraps.
fold_fields-eq-raw : (m s x : ℕ) → m < 2 ^ 31 → fold_fields m s x ≡ fold_raw m s x
fold_fields-eq-raw m s x h =
    omega (arith, bit_and-le m x m (omega arith), bit_and-le m (x / 2 ^ s) m (omega arith))

population_count-eq-thrice :
    (v : ℕ) → population_count v ≡ fold_thrice mask_01010101 mask_00110011 mask_00001111 v % 255
unfolding population_count
population_count-eq-thrice v =
    let one = fold_raw mask_01010101 1 v in
    let two = fold_raw mask_00110011 2 one in
    rw (fold_fields-eq-raw mask_01010101 1 v (omega arith)) (
      rw (fold_fields-eq-raw mask_00110011 2 one (omega arith))
        (rw (fold_fields-eq-raw mask_00001111 4 two (omega arith)) refl))

-- The count of a word of four bytes.
four_bytes :
    (a b c d : ℕ)
    → a < 256
    → b < 256
    → c < 256
    → d < 256
    → population_count (((a * 256 + b) * 256 + c) * 256 + d)
      ≡ digit_sum (((a * 256 + b) * 256 + c) * 256 + d) 32
four_bytes a b c d p q r s = rw (population_count-eq-thrice (((a * 256 + b) * 256 + c) * 256 + d)) (
    omega (
      arith,
      fold_thrice_byte 0x555555 0x333333 0x0f0f0f ((a * 256 + b) * 256 + c) d s,
      fold_thrice_byte 0x5555 0x3333 0x0f0f (a * 256 + b) c r,
      fold_thrice_byte 0x55 0x33 0x0f a b q,
      digit_sum_split 8 ((a * 256 + b) * 256 + c) d 24 s,
      digit_sum_split 8 (a * 256 + b) c 16 r,
      digit_sum_split 8 a b 8 q,
      count_byte_lem a p,
      count_byte_lem b q,
      count_byte_lem c r,
      count_byte_lem d s,
      digit_sum-le a 8,
      digit_sum-le b 8,
      digit_sum-le c 8,
      digit_sum-le d 8,
    ))

bytes_of_word :
    (v : ℕ) → ((v / 2 ^ 24 * 256 + v / 2 ^ 16 % 256) * 256 + v / 256 % 256) * 256 + v % 256 ≡ v
bytes_of_word v = omega arith

-- The three masked sums and the remainder by 255 count the one digits of a 32-bit word.
pub population_count-digit_sum : (v : ℕ) → v < 2 ^ 32 → population_count v ≡ digit_sum v 32
population_count-digit_sum v h =
    subst (λ v. population_count v ≡ digit_sum v 32) (bytes_of_word v)
      (four_bytes (v / 2 ^ 24) (v / 2 ^ 16 % 256) (v / 256 % 256) (v % 256) (omega arith)
        (omega arith) (omega arith) (omega arith))

shift_width : (limit : ℕ) → limit ≤ 32 → 32 - limit + limit ≡ 32
shift_width limit h = omega arith

-- The count with a limit is that of the digits below it.
pub population_count_to-digit_sum :
    (v limit : ℕ) → limit ≤ 32 → population_count_to v limit ≡ digit_sum v limit
unfolding population_count_to
population_count_to-digit_sum v zero h = rw digit_sum-zero
population_count_to-digit_sum v (suc l) h =
    let k = 32 - suc l in
    ground (
      arith,
      population_count-digit_sum (v * 2 ^ k % 2 ^ 32) (omega arith),
      digit_sum-mod 32 (v * 2 ^ k),
      digit_sum-shift k (suc l) v,
      ap (digit_sum (v * 2 ^ k)) (shift_width (suc l) h),
    )
