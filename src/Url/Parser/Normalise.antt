-- ===== src/Url/Parser/Normalise.antt =====
-- url/Parser.cpp: normalise, on the components of the path.
use oodles.Prelude.{
  ℕ, zero, suc, ◌+◌, ◌-◌, ◌*◌, ◌<◌, ◌≤◌, ◌≡◌, refl, Bool, true, false, ◌||◌, Option, none, some,
  List, [], ◌∷◌, ltb, ◌==◌, if◌then◌else◌, length, get_elem?, arith, Bool-cases, inl, inr,
}
use oodles.Url.Attributes.{Text}
use oodles.Url.Parser.Scan.{Outcome, done, aborted, undefined, exhausted, same_text}
pub mod Dots

unfoldable pub is_parent : Text → Bool
unfolding same_text
is_parent s = same_text s (b'.' ∷ b'.' ∷ [])

unfoldable pub is_current : Text → Bool
unfolding same_text
is_current s = same_text s (b'.' ∷ [])

-- vector::erase
abbrev pub erase_at {ℓ} : {A : Type ℓ} → ℕ → List A → List A
erase_at i [] = []
erase_at zero (x ∷ xs) = xs
erase_at (suc i) (x ∷ xs) = x ∷ erase_at i xs

-- The loop over the path from the iterator `i` to `j`, which stays the end the path had at first.
-- Reading at or after the end the path has now, stepping before its beginning and stepping from an
-- iterator that was erased are undefined.
unfoldable pub normalise_loop : ℕ → ℕ → ℕ → List Text → Outcome (List Text)
unfolding is_parent is_current
normalise_loop zero j i path = exhausted
normalise_loop (suc fuel) j i path = elim (i == j) [
  | true ↦ done path
  | false ↦ elim (get_elem? path i) [
    | none ↦ undefined
    | some s ↦ elim (is_parent s) [
      | true ↦ elim (ltb i 2) [
        | true ↦ undefined
        | false ↦ normalise_loop fuel j (i - 1) (erase_at (i - 1) (erase_at i path))
      ]
      | false ↦ elim (is_current s) [
        | true ↦ elim (i == 0) [
          | true ↦ undefined
          | false ↦ normalise_loop fuel j i (erase_at i path)
        ]
        | false ↦ normalise_loop fuel j (i + 1) path
      ]
    ]
  ]
]

-- The first half of normalise.
unfoldable pub normalise_path : List Text → Outcome (List Text)
unfolding normalise_loop
normalise_path path = normalise_loop (2 * length path + 1) (length path) 0 path
