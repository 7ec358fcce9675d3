-- ===== src/Utility/Hash.antt =====
-- utility/hash.cpp: the FNV hash. A `char` is signed: a byte from 128 on is extended by its sign.
use Prim.Native.Nat.{bit_xor}
use oodles.Prelude.{
  ℕ, ◌+◌, ◌-◌, ◌*◌, ◌%◌, ◌^◌, ◌≡◌, ◌≢◌, refl, false, List, [], ◌∷◌, ◌++◌, ltb, ◌==◌, if◌then◌else◌,
  arith,
}

-- Template FNV, for unsigned integers below `modulus`.
pub record Fnv : Type 0 where
  pub modulus : ℕ
  pub prime : ℕ
  pub offset : ℕ

abbrev pub extend : ℕ → ℕ → ℕ
extend modulus c = if ltb c 128 then c else modulus + c - 256

-- The loop of operator().
unfoldable pub mix : Fnv → List ℕ → ℕ → ℕ
mix f [] seed = seed
mix f (c ∷ cs) seed = mix f cs (bit_xor (seed * f.prime % f.modulus) (extend f.modulus c))

unfoldable pub hash : Fnv → List ℕ → ℕ → ℕ
unfolding mix
hash f input seed = mix f input (if seed == 0 then f.offset else seed)

abbrev pub fnv64_parameters : Fnv
fnv64_parameters = record { modulus = 2 ^ 64; prime = 1099511628211; offset = 14695981039346656037 }

abbrev pub fnv32_parameters : Fnv
fnv32_parameters = record { modulus = 2 ^ 32; prime = 16777619; offset = 2166136261 }

unfoldable pub fnv64 : List ℕ → ℕ → ℕ
unfolding hash
fnv64 input seed = hash fnv64_parameters input seed

unfoldable pub fnv32 : List ℕ → ℕ → ℕ
unfolding hash
fnv32 input seed = hash fnv32_parameters input seed

mix-append :
    (f : Fnv) (xs ys : List ℕ) (seed : ℕ) → mix f (xs ++ ys) seed ≡ mix f ys (mix f xs seed)
unfolding mix
mix-append f [] ys seed = refl
mix-append f (x ∷ xs) ys seed = mix-append f xs ys _

-- The hash of a text is that of its second part, seeded with the hash of its first part, unless that
-- is 0.
pub fnv64-append :
    (xs ys : List ℕ) (seed : ℕ)
    → fnv64 xs seed ≢ 0
    → fnv64 (xs ++ ys) seed ≡ fnv64 ys (fnv64 xs seed)
unfolding fnv64 hash
fnv64-append xs ys seed n =
    let start = if seed == 0 then fnv64_parameters.offset else seed in
    let e : (fnv64 xs seed == 0) ≡ false = ground arith in
    rw e (mix-append fnv64_parameters xs ys start)
