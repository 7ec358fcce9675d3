-- ===== src/Sched/Session/Counts.antt =====
-- sched/Session.cpp: how often a key stands in the garbage collector's map.
use oodles.Prelude.{
  ℕ, ◌+◌, ◌≤◌, ◌≡◌, ◌≢◌, ap, true, false, List, [], ◌∷◌, ◌++◌, none, some, arith, ◌==◌,
  if◌then◌else◌, map, Bool-cases, inl, inr,
}
use oodles.Net.Oop.Messages.{Message}
use oodles.Sched.Session.{find, erase, assign}

abbrev pub once : ℕ → ℕ → ℕ
once a b = if a == b then 1 else 0

abbrev pub times : ℕ → List ℕ → ℕ
times a [] = 0
times a (x ∷ xs) = once a x + times a xs

pub times-append : (a : ℕ) (xs ys : List ℕ) → times a (xs ++ ys) ≡ times a xs + times a ys
times-append a [] ys = omega arith
times-append a (x ∷ xs) ys = omega (arith, times-append a xs ys)

pub once_self : (a : ℕ) → once a a ≡ 1
once_self a = ground arith

once-true : (a j k : ℕ) → (j == k) ≡ true → (once k j ≡ 1) × (once a j ≡ once a k)
once-true a j k e = (ground arith, ap (once a) (ground arith))

once-false : (j k : ℕ) → (j == k) ≡ false → once k j ≡ 0
once-false j k e = ground arith

abbrev pub keys : List (ℕ × Message) → List ℕ
keys g = map (λ r. r.0) g

pub times-assign :
    (a k : ℕ) (m : Message) (g : List (ℕ × Message))
    → times k (keys g) ≡ 0
    → times a (keys (assign k m g)) ≡ times a (keys g) + once a k
unfolding assign
times-assign a k m [] h = omega arith
times-assign a k m ((j, n) ∷ g) h = elim (Bool-cases (j == k)) [
  | inl e ↦ let o = once-true a j k e in absurd (omega (arith, h, o.0))
  | inr e ↦ let r = times-assign a k m g (omega (arith, h)) in rw (assign, e) (omega (arith, r))
]

pub times-erase :
    (a k : ℕ) (g : List (ℕ × Message))
    → 1 ≤ times k (keys g)
    → times a (keys g) ≡ once a k + times a (keys (erase k g))
unfolding erase
times-erase a k [] h = ground arith
times-erase a k ((j, n) ∷ g) h = elim (Bool-cases (j == k)) [
  | inl e ↦ let o = once-true a j k e in rw (erase, e) (omega (arith, o.1))
  | inr e ↦
      let o = once-false j k e in
      let r = times-erase a k g (omega (arith, h, o)) in rw (erase, e) (omega (arith, r))
]

pub find-counted : (k : ℕ) (g : List (ℕ × Message)) → 1 ≤ times k (keys g) → find k g ≢ none
unfolding find
find-counted k [] h e = ground arith
find-counted k ((j, n) ∷ g) h e = elim (Bool-cases (j == k)) [
  | inl b ↦ let q : some n ≡ none = rw (← e, find, b) in cc q
  | inr b ↦
      let q : find k g ≡ none = rw (← e, find, b) in
      let o = once-false j k b in find-counted k g (omega (arith, h, o)) q
]
