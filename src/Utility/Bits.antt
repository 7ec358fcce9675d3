-- ===== src/Utility/Bits.antt =====
-- Binary digits of the native numbers: what `|`, `&` and `~` of a word do to a single digit. The
-- library gives the operations by recursion on the digits, and no law at variables.
use Prim.Native.Nat.{
  ℕ, zero, suc, ◌+◌, ◌-◌, ◌*◌, ◌/◌, ◌%◌, ◌^◌, ◌≤◌, ◌<◌, min, max, bit_and, bit_or, digits,
  bit_and-bitwise, bit_or-bitwise,
}
use native.Mathlib.Nat.{two-pow-succ, mul-one, zero-add, suc-add}
use oodles.Prelude.{◌≡◌, refl, ap, ap₂, arith, ◌==◌, if◌then◌else◌}

-- Digit `j` of `w`.
abbrev pub bit : ℕ → ℕ → ℕ
bit w zero = w % 2
bit w (suc j) = bit (w / 2) j

-- Digits as a sum over those below `n`, lowest first.
unfoldable pub digit_sum : ℕ → ℕ → ℕ
digit_sum w zero = 0
digit_sum w (suc n) = w % 2 + digit_sum (w / 2) n

pub digit_sum-zero : (w : ℕ) → digit_sum w 0 ≡ 0
unfolding digit_sum
digit_sum-zero w = refl

pub bit-le-one : (w j : ℕ) → bit w j ≤ 1
bit-le-one w zero = omega arith
bit-le-one w (suc j) = bit-le-one (w / 2) j

abbrev run_digits : (ℕ → ℕ) → (ℕ → ℕ → ℕ) → ℕ → ℕ → ℕ → ℕ
run_digits z f n a b = digits z f n a b

-- More fuel than the first number has digits changes nothing.
run_digits_fuel :
    (z : ℕ → ℕ) (f : ℕ → ℕ → ℕ) (n m a b : ℕ)
    → a ≤ n
    → a ≤ m
    → run_digits z f n a b ≡ run_digits z f m a b
run_digits_fuel z f zero zero a b p q = refl
run_digits_fuel z f zero (suc m) zero b p q = refl
run_digits_fuel z f zero (suc m) (suc a) b p q = absurd (omega arith)
run_digits_fuel z f (suc n) zero zero b p q = refl
run_digits_fuel z f (suc n) zero (suc a) b p q = absurd (omega arith)
run_digits_fuel z f (suc n) (suc m) zero b p q = refl
run_digits_fuel z f (suc n) (suc m) (suc a) b p q =
    omega (arith, run_digits_fuel z f n m (suc a / 2) (b / 2) (omega arith) (omega arith))

-- The law of the lowest digit, for an operation that runs through the digits.
module _ (z : ℕ → ℕ) (f op : ℕ → ℕ → ℕ) (runs : (v w : ℕ) → op v w ≡ run_digits z f v v w) where
  op-zero : (w : ℕ) → op 0 w ≡ z w
  op-zero w = runs 0 w

  op-suc : (v w : ℕ) → op (suc v) w ≡ op (suc v / 2) (w / 2) * 2 + f (suc v % 2) (w % 2)
  op-suc v w = omega (
    arith,
    runs (suc v) w,
    runs (suc v / 2) (w / 2),
    run_digits_fuel z f v (suc v / 2) (suc v / 2) (w / 2) (omega arith) (omega arith),
  )

-- A number taken apart above its lowest digits, halved.
pub half_split : (h l p : ℕ) → (h * (p + p) + l) / 2 ≡ h * p + l / 2
half_split h l p = omega arith

and_zero : (w : ℕ) → bit_and 0 w ≡ 0
and_zero = op-zero (λ w. zero) min bit_and bit_and-bitwise

or_zero : (w : ℕ) → bit_or 0 w ≡ w
or_zero = op-zero (λ w. w) max bit_or bit_or-bitwise

pub bit_and_step : (v w : ℕ) → bit_and v w ≡ bit_and (v / 2) (w / 2) * 2 + min (v % 2) (w % 2)
bit_and_step zero w = omega (arith, and_zero w, and_zero (w / 2))
bit_and_step (suc v) w = op-suc (λ w. zero) min bit_and bit_and-bitwise v w

pub bit_or_step : (v w : ℕ) → bit_or v w ≡ bit_or (v / 2) (w / 2) * 2 + max (v % 2) (w % 2)
bit_or_step zero w = omega (arith, or_zero w, or_zero (w / 2))
bit_or_step (suc v) w = op-suc (λ w. w) max bit_or bit_or-bitwise v w

pub half-bit_or : (a b : ℕ) → bit_or a b / 2 ≡ bit_or (a / 2) (b / 2)
half-bit_or a b = omega (arith, bit_or_step a b)

pub half-bit_and : (a b : ℕ) → bit_and a b / 2 ≡ bit_and (a / 2) (b / 2)
half-bit_and a b = omega (arith, bit_and_step a b)

pub bit-bit_or : (a b j : ℕ) → bit (bit_or a b) j ≡ max (bit a j) (bit b j)
bit-bit_or a b zero = omega (arith, bit_or_step a b)
bit-bit_or a b (suc j) = rw (half-bit_or a b) (bit-bit_or (a / 2) (b / 2) j)

pub bit-bit_and : (a b j : ℕ) → bit (bit_and a b) j ≡ min (bit a j) (bit b j)
bit-bit_and a b zero = omega (arith, bit_and_step a b)
bit-bit_and a b (suc j) = rw (half-bit_and a b) (bit-bit_and (a / 2) (b / 2) j)

pub bit-zero : (j : ℕ) → bit 0 j ≡ 0
bit-zero zero = refl
bit-zero (suc j) = bit-zero j

half-pow : (k : ℕ) → 2 ^ suc k / 2 ≡ 2 ^ k
half-pow k = omega (arith, two-pow-succ k)

pub bit-pow : (k j : ℕ) → bit (2 ^ k) j ≡ (if k == j then 1 else 0)
bit-pow zero zero = refl
bit-pow zero (suc j) = ground (arith, bit-zero j)
bit-pow (suc k) zero = ground (arith, two-pow-succ k)
bit-pow (suc k) (suc j) = rw (half-pow k) (rw (bit-pow k j) (ground arith))

pub bit_and-zero : (n a : ℕ) → a ≤ n → bit_and a 0 ≡ 0
bit_and-zero n zero h = refl
bit_and-zero zero (suc a) h = absurd (omega arith)
bit_and-zero (suc n) (suc a) h =
    omega (arith, bit_and_step (suc a) 0, bit_and-zero n (suc a / 2) (omega arith))

half_double : (p : ℕ) → (p + p) / 2 ≡ p
half_double p = omega arith

half_complement : (n m : ℕ) → m < 2 ^ suc n → (2 ^ suc n - 1 - m) / 2 ≡ 2 ^ n - 1 - m / 2
half_complement n m h = omega (arith, two-pow-succ n)

pub two-pow-pos : (n : ℕ) → 0 < 2 ^ n
two-pow-pos zero = omega arith
two-pow-pos (suc n) = omega (arith, two-pow-succ n, two-pow-pos n)

pub two-pow-lt : (k n : ℕ) → k < n → 2 ^ k < 2 ^ n
two-pow-lt k zero h = elim h [ ]
two-pow-lt zero (suc n) h = omega (arith, two-pow-succ n, two-pow-pos n)
two-pow-lt (suc k) (suc n) h =
    omega (arith, two-pow-succ n, two-pow-succ k, two-pow-lt k n (omega arith))

-- A mask of one digit selects that digit.
pub bit_and-pow : (w k : ℕ) → bit_and w (2 ^ k) ≡ bit w k * 2 ^ k
bit_and-pow w zero = omega (arith, bit_and_step w 1, bit_and-zero (w / 2) (w / 2) (omega arith))
bit_and-pow w (suc k) = rw (two-pow-succ k) (
    omega (
      arith,
      bit_and_step w (2 ^ k + 2 ^ k),
      ap (bit_and (w / 2)) (half_double (2 ^ k)),
      bit_and-pow (w / 2) k,
    ))

-- The complement of a word of `n` digits flips each of them.
pub bit-complement : (n m j : ℕ) → m < 2 ^ n → j < n → bit (2 ^ n - 1 - m) j ≡ 1 - bit m j
bit-complement zero m j h p = elim p [ ]
bit-complement (suc n) m zero h p = omega (arith, two-pow-succ n)
bit-complement (suc n) m (suc j) h p =
    rw (half_complement n m h)
      (bit-complement n (m / 2) j (omega (arith, two-pow-succ n)) (omega arith))

pub bit_and-lt : (n a b : ℕ) → b < 2 ^ n → bit_and a b < 2 ^ n
bit_and-lt zero a b h =
    let e : b ≡ 0 = omega arith in rw (e, bit_and-zero a a (omega arith)) (omega arith)
bit_and-lt (suc n) a b h = omega (
  arith,
  two-pow-succ n,
  bit_and_step a b,
  bit_and-lt n (a / 2) (b / 2) (omega (arith, two-pow-succ n)),
)

pub bit_or-lt : (n a b : ℕ) → a < 2 ^ n → b < 2 ^ n → bit_or a b < 2 ^ n
bit_or-lt zero a b h k =
    let e : a ≡ 0 = omega arith in let f : b ≡ 0 = omega arith in rw (e, f) (omega arith)
bit_or-lt (suc n) a b h k = omega (
  arith,
  two-pow-succ n,
  bit_or_step a b,
  bit_or-lt n (a / 2) (b / 2) (omega (arith, two-pow-succ n)) (omega (arith, two-pow-succ n)),
)

half_mod : (w p : ℕ) → 0 < p → w % (p + p) / 2 ≡ w / 2 % p
half_mod w p h = grind arith

parity_mod : (w p : ℕ) → 0 < p → w % (p + p) % 2 ≡ w % 2
parity_mod w p h = grind arith

-- Digits above a word's width are zero, and `%` by a power of two cuts them off.
pub digit_sum-mod : (n w : ℕ) → digit_sum (w % 2 ^ n) n ≡ digit_sum w n
unfolding digit_sum
digit_sum-mod zero w = refl
digit_sum-mod (suc n) w =
    rw (two-pow-succ n, half_mod w (2 ^ n) (two-pow-pos n))
      (omega (arith, parity_mod w (2 ^ n) (two-pow-pos n), digit_sum-mod n (w / 2)))

half_shift : (w k : ℕ) → w * 2 ^ suc k / 2 ≡ w * 2 ^ k
half_shift w k = rw (two-pow-succ k) (omega arith)

even_shift : (w k : ℕ) → w * 2 ^ suc k % 2 ≡ 0
even_shift w k = rw (two-pow-succ k) (omega arith)

-- Shifting left by `k` puts the lowest `n` digits on top of `k` zeroes.
pub digit_sum-shift : (k n w : ℕ) → digit_sum (w * 2 ^ k) (k + n) ≡ digit_sum w n
unfolding digit_sum
digit_sum-shift zero n w = rw (mul-one, zero-add)
digit_sum-shift (suc k) n w = rw (suc-add k n) (
    omega (
      arith,
      even_shift w k,
      ap (λ v. digit_sum v (k + n)) (half_shift w k),
      digit_sum-shift k n w,
    ))

-- The lowest `n` digits and the rest, counted separately.
pub digit_sum_split :
    (n h l m : ℕ) → l < 2 ^ n → digit_sum (h * 2 ^ n + l) (n + m) ≡ digit_sum l n + digit_sum h m
unfolding digit_sum
digit_sum_split zero h l m p =
    let e : h * 2 ^ 0 + l ≡ h = omega arith in omega (arith, ap₂ digit_sum e (zero-add m))
digit_sum_split (suc n) h l m p =
    rw (two-pow-succ n, suc-add n m)
      (omega (
        arith,
        ap (λ v. digit_sum v (n + m)) (half_split h l (2 ^ n)),
        digit_sum_split n h (l / 2) m (omega (arith, two-pow-succ n)),
      ))

-- The sum counted from the other end.
pub digit_sum-suc : (w n : ℕ) → digit_sum w (suc n) ≡ digit_sum w n + bit w n
unfolding digit_sum
digit_sum-suc w zero = omega arith
digit_sum-suc w (suc n) = omega (arith, digit_sum-suc (w / 2) n)

pub digit_sum-le : (w n : ℕ) → digit_sum w n ≤ n
unfolding digit_sum
digit_sum-le w zero = omega arith
digit_sum-le w (suc n) = omega (arith, digit_sum-le (w / 2) n)
