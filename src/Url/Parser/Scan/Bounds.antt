-- ===== src/Url/Parser/Scan/Bounds.antt =====
-- url/Parser.cpp: where the searches for a character come to.
use oodles.Prelude.{
  ap, ◌∙◌, ℕ, zero, suc, ◌+◌, ◌-◌, ◌<◌, ◌≤◌, ◌≡◌, refl, Bool, true, false, not, ◌&&◌, [], ◌∷◌, ◌++◌,
  ltb, ◌==◌, length, drop, take, arith, Bool-cases, inl, inr, ==_refl, ◌⊎◌,
}
use oodles.Url.Attributes.{Text}
use oodles.Url.Parser.Scan.{npos, seek, find_first_of, seek_last, occurrences}

pub seek_after : (c : ℕ) (xs : Text) (i : ℕ) → i + length xs ≤ npos → i ≤ seek c xs i
unfolding seek
seek_after c [] i h = omega arith
seek_after c (x ∷ xs) i h = ground (arith, seek_after c xs (i + 1))

pub length-drop : (n : ℕ) (xs : Text) → length (drop n xs) ≡ length xs - n
length-drop zero xs = omega arith
length-drop (suc n) [] = omega arith
length-drop (suc n) (x ∷ xs) = omega (arith, length-drop n xs)

pub find_after :
    (url : Text) (c start : ℕ)
    → length url ≤ npos
    → start ≤ npos
    → start ≤ find_first_of url c start
unfolding find_first_of
find_after url c start h g = elim (Bool-cases (ltb (length url) start)) [
  | inl l ↦ seek_after c (drop start url) start (ground (arith, length-drop start url))
  | inr l ↦ seek_after c (drop start url) start (ground (arith, length-drop start url))
]

seek_most : (c : ℕ) (xs : Text) (i : ℕ) → i + length xs ≤ npos → seek c xs i ≤ npos
unfolding seek
seek_most c [] i h = omega arith
seek_most c (x ∷ xs) i h = ground (arith, seek_most c xs (i + 1))

pub find_most :
    (url : Text) (c start : ℕ) → length url ≤ npos → start ≤ npos → find_first_of url c start ≤ npos
unfolding find_first_of
find_most url c start h g = elim (Bool-cases (ltb (length url) start)) [
  | inl l ↦ seek_most c (drop start url) start (ground (arith, length-drop start url))
  | inr l ↦ seek_most c (drop start url) start (ground (arith, length-drop start url))
]

seek_found :
    (c : ℕ) (xs : Text) (i : ℕ) → (seek c xs i == npos) ≡ false → seek c xs i < i + length xs
unfolding seek
seek_found c [] i h = absurd (ground arith)
seek_found c (x ∷ xs) i h = ground (arith, seek_found c xs (i + 1))

pub find_within :
    (url : Text) (c start : ℕ)
    → start ≤ length url
    → (find_first_of url c start == npos) ≡ false
    → find_first_of url c start < length url
unfolding find_first_of
find_within url c start h g =
    ground (arith, seek_found c (drop start url) start g, length-drop start url)

-- Every character passes the test, and in particular none is `c`.
abbrev pub all_of : (ℕ → Bool) → Text → Bool
all_of p [] = true
all_of p (x ∷ xs) = p x && all_of p xs

abbrev pub lacks : ℕ → Text → Bool
lacks c = all_of (λ x. not (x == c))

pub all_of-append :
    (p : ℕ → Bool) (xs ys : Text) → all_of p (xs ++ ys) ≡ (all_of p xs && all_of p ys)
all_of-append p [] ys = refl
all_of-append p (x ∷ xs) ys = ground (arith, all_of-append p xs ys)

pub all_of_weaker :
    (p q : ℕ → Bool) (xs : Text)
    → ((x : ℕ) → p x ≡ true → q x ≡ true)
    → all_of p xs ≡ true
    → all_of q xs ≡ true
all_of_weaker p q [] w h = refl
all_of_weaker p q (x ∷ xs) w h = ground (arith, w x, all_of_weaker p q xs w)

pub seek-past :
    (c : ℕ) (xs ys : Text) (i : ℕ)
    → lacks c xs ≡ true
    → seek c (xs ++ ys) i ≡ seek c ys (i + length xs)
unfolding seek
seek-past c [] ys i h = ap (seek c ys) (omega arith)
seek-past c (x ∷ xs) ys i h =
    let e : (x == c) ≡ false = ground arith in
    let r : lacks c xs ≡ true = ground arith in
    let k : i + 1 + length xs ≡ i + length (x ∷ xs) = omega arith in
    rw (e, seek-past c xs ys (i + 1) r, k)

pub seek_last-past :
    (c : ℕ) (xs ys : Text) (i found : ℕ)
    → lacks c ys ≡ true
    → seek_last c (xs ++ ys) i found ≡ seek_last c xs i found
unfolding seek_last
seek_last-past c [] [] i found h = refl
seek_last-past c [] (y ∷ ys) i found h =
    let e : (y == c) ≡ false = ground arith in
    rw (seek_last, e) (seek_last-past c [] ys (i + 1) found (ground arith))
seek_last-past c (x ∷ xs) ys i found h = seek_last-past c xs ys (i + 1) _ h

-- The last `c` stands where a text without it follows.
pub seek_last-at :
    (c : ℕ) (xs ys : Text) (i found : ℕ)
    → lacks c ys ≡ true
    → seek_last c (xs ++ c ∷ ys) i found ≡ i + length xs
unfolding seek_last
seek_last-at c [] ys i found h =
    rw (seek_last, ==_refl c) (seek_last-past c [] ys (i + 1) i h ∙ omega arith)
seek_last-at c (x ∷ xs) ys i found h = seek_last-at c xs ys (i + 1) _ h ∙ omega arith

pub seek_last_before :
    (c : ℕ) (xs : Text) (i found : ℕ)
    → (seek_last c xs i found ≡ found) ⊎ (seek_last c xs i found < i + length xs)
unfolding seek_last
seek_last_before c [] i found = inl refl
seek_last_before c (x ∷ xs) i found = elim (Bool-cases (x == c)) [
  | inl e ↦ elim (seek_last_before c xs (i + 1) i) [
    | inl s ↦ inr (rw (seek_last, e, s) (omega arith))
    | inr l ↦ inr (rw (seek_last, e) (omega arith))
  ]
  | inr e ↦ elim (seek_last_before c xs (i + 1) found) [
    | inl s ↦ inl (rw (seek_last, e) s)
    | inr l ↦ inr (rw (seek_last, e) (omega arith))
  ]
]

pub take-append : (xs ys : Text) → take (length xs) (xs ++ ys) ≡ xs
take-append [] ys = refl
take-append (x ∷ xs) ys = ap (◌∷◌ x) (take-append xs ys)

pub drop-append : (xs ys : Text) → drop (length xs) (xs ++ ys) ≡ ys
drop-append [] ys = refl
drop-append (x ∷ xs) ys = drop-append xs ys

pub take_all : (n : ℕ) (xs : Text) → length xs ≤ n → take n xs ≡ xs
take_all zero [] h = refl
take_all (suc n) [] h = refl
take_all zero (x ∷ xs) h = absurd (omega arith)
take_all (suc n) (x ∷ xs) h = ap (◌∷◌ x) (take_all n xs (omega arith))

pub occurrences-append :
    (c : ℕ) (xs ys : Text) → occurrences c (xs ++ ys) ≡ occurrences c xs + occurrences c ys
unfolding occurrences
occurrences-append c [] ys = omega arith
occurrences-append c (x ∷ xs) ys = ground (arith, occurrences-append c xs ys)

pub occurrences-lacks : (c : ℕ) (xs : Text) → lacks c xs ≡ true → occurrences c xs ≡ 0
unfolding occurrences
occurrences-lacks c [] h = refl
occurrences-lacks c (x ∷ xs) h = ground (arith, occurrences-lacks c xs)
