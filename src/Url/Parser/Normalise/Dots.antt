-- ===== src/Url/Parser/Normalise/Dots.antt =====
-- url/Parser.cpp: what normalise does to a path.
use oodles.Prelude.{
  ap, ℕ, zero, suc, ◌+◌, ◌-◌, ◌*◌, ◌<◌, ◌≤◌, ◌≡◌, refl, Bool, false, ◌||◌, none, some, List, [],
  ◌∷◌, ltb, ◌==◌, if◌then◌else◌, length, get_elem?, get_elem?-lt, arith, Bool-cases, Option-cases,
  inl, inr,
}
use oodles.Url.Attributes.{Text}
use oodles.Url.Parser.Scan.{done, undefined}
use oodles.Url.Parser.Normalise.{is_parent, is_current, erase_at, normalise_loop, normalise_path}

abbrev pub dotted : Text → Bool
dotted s = is_parent s || is_current s

-- A component of the path from position `i` on is "." or "..".
abbrev pub any_dotted : ℕ → List Text → Bool
any_dotted i [] = false
any_dotted zero (s ∷ path) = dotted s || any_dotted zero path
any_dotted (suc i) (s ∷ path) = any_dotted i path

length-erase_at :
    (path : List Text) (i : ℕ) (s : Text)
    → get_elem? path i ≡ some s
    → length (erase_at i path) + 1 ≡ length path
length-erase_at [] i s h = cc
length-erase_at (x ∷ path) zero s h = omega arith
length-erase_at (x ∷ path) (suc i) s h = omega (arith, length-erase_at path i s h)

length-erase_before :
    (path : List Text) (i : ℕ) → i < length path → length (erase_at i path) + 1 ≡ length path
length-erase_before [] i h = absurd (omega arith)
length-erase_before (x ∷ path) zero h = omega arith
length-erase_before (x ∷ path) (suc i) h = omega (arith, length-erase_before path i (omega arith))

no_elem : (path : List Text) (i : ℕ) → get_elem? path i ≡ none → length path ≤ i
no_elem [] i h = omega arith
no_elem (x ∷ path) zero h = cc
no_elem (x ∷ path) (suc i) h = omega (arith, no_elem path i h)

-- Once a component is erased, the loop never meets the old end.
loop-shrunk :
    (fuel j i : ℕ) (path : List Text)
    → i ≤ length path
    → length path < j
    → 2 * length path < fuel + i
    → normalise_loop fuel j i path ≡ undefined
unfolding normalise_loop
loop-shrunk zero j i path a b c = absurd (omega arith)
loop-shrunk (suc fuel) j i path a b c =
    let apart : (i == j) ≡ false = ground arith in
    elim (Option-cases (get_elem? path i)) [
      | inl e ↦ rw (normalise_loop, apart, e)
      | inr (s, e) ↦
          let less = get_elem?-lt path i s e in
          let one = length-erase_at path i s e in
          elim (Bool-cases (is_parent s)) [
            | inl p ↦ elim (Bool-cases (ltb i 2)) [
              | inl q ↦ rw (normalise_loop, apart, e, p, q)
              | inr q ↦
                  let two = length-erase_before (erase_at i path) (i - 1) (ground arith) in
                  rw (normalise_loop, apart, e, p, q)
                    (loop-shrunk fuel j (i - 1) (erase_at (i - 1) (erase_at i path)) (ground arith)
                      (ground arith) (ground arith))
            ]
            | inr p ↦ elim (Bool-cases (is_current s)) [
              | inl q ↦ elim (Bool-cases (i == 0)) [
                | inl z ↦ rw (normalise_loop, apart, e, p, q, z)
                | inr z ↦
                    rw (normalise_loop, apart, e, p, q, z)
                      (loop-shrunk fuel j i (erase_at i path) (omega arith) (omega arith)
                        (ground arith))
              ]
              | inr q ↦
                  rw (normalise_loop, apart, e, p, q)
                    (loop-shrunk fuel j (i + 1) path (omega arith) b (omega arith))
            ]
          ]
    ]

any_dotted-head :
    (x s : Text) (path : List Text)
    → some x ≡ some s
    → (dotted x || any_dotted 0 path) ≡ (dotted s || any_dotted 0 path)
any_dotted-head x s path h =
    ap (λ o. elim o [ none ↦ false | some y ↦ dotted y || any_dotted 0 path ]) h

any_dotted-suc :
    (path : List Text) (i : ℕ) (s : Text)
    → get_elem? path i ≡ some s
    → any_dotted i path ≡ (dotted s || any_dotted (suc i) path)
any_dotted-suc [] i s h = cc
any_dotted-suc (x ∷ path) zero s h = any_dotted-head x s path h
any_dotted-suc (x ∷ path) (suc i) s h = any_dotted-suc path i s h

any_dotted-next :
    (path : List Text) (i : ℕ) (s : Text)
    → get_elem? path i ≡ some s
    → any_dotted i path ≡ (dotted s || any_dotted (i + 1) path)
any_dotted-next path i s h =
    let e : suc i ≡ i + 1 = omega arith in rw (← e) (any_dotted-suc path i s h)

any_dotted-end : (path : List Text) (i : ℕ) → length path ≤ i → any_dotted i path ≡ false
any_dotted-end [] i h = refl
any_dotted-end (x ∷ path) zero h = absurd (omega arith)
any_dotted-end (x ∷ path) (suc i) h = any_dotted-end path i (omega arith)

loop-first :
    (fuel i : ℕ) (path : List Text)
    → i ≤ length path
    → 2 * length path < fuel + i
    → normalise_loop fuel (length path) i path
      ≡ (if any_dotted i path then undefined else done path)
unfolding normalise_loop
loop-first zero i path a c = absurd (omega arith)
loop-first (suc fuel) i path a c = elim (Bool-cases (i == length path)) [
  | inl e ↦ rw (normalise_loop, e, any_dotted-end path i (ground arith))
  | inr n ↦ elim (Option-cases (get_elem? path i)) [
    | inl e ↦ absurd (ground (arith, no_elem path i e))
    | inr (s, e) ↦
        let less = get_elem?-lt path i s e in
        let one = length-erase_at path i s e in
        let after = any_dotted-next path i s e in
        elim (Bool-cases (is_parent s)) [
          | inl p ↦ elim (Bool-cases (ltb i 2)) [
            | inl q ↦ rw (normalise_loop, n, after, e, p, q)
            | inr q ↦
                let two = length-erase_before (erase_at i path) (i - 1) (ground arith) in
                rw (normalise_loop, n, after, e, p, q)
                  (loop-shrunk fuel (length path) (i - 1) (erase_at (i - 1) (erase_at i path))
                    (ground arith) (ground arith) (ground arith))
          ]
          | inr p ↦ elim (Bool-cases (is_current s)) [
            | inl q ↦ elim (Bool-cases (i == 0)) [
              | inl z ↦ rw (normalise_loop, n, after, e, p, q, z)
              | inr z ↦
                  rw (normalise_loop, n, after, e, p, q, z)
                    (loop-shrunk fuel (length path) i (erase_at i path) (omega arith) (omega arith)
                      (ground arith))
            ]
            | inr q ↦
                rw (normalise_loop, n, after, e, p, q)
                  (loop-first fuel (i + 1) path (omega arith) (omega arith))
          ]
        ]
  ]
]

pub normalise_path_lem :
    (path : List Text) → normalise_path path ≡ (if any_dotted 0 path then undefined else done path)
unfolding normalise_path
normalise_path_lem path = loop-first _ 0 path (omega arith) (omega arith)
