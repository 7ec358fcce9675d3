-- ===== src/Url/Parser/Scan/Finds.antt =====
-- url/Parser.cpp: the searches on a text whose parts are known.
use mathlib.Core.List.{append_assoc}
use oodles.Prelude.{
  ap, ◌∙◌, ℕ, zero, suc, ◌+◌, ◌-◌, ◌≤◌, ◌≡◌, true, [], ◌∷◌, ◌++◌, ◌==◌, ==_refl, if◌then◌else◌,
  length, drop, take, replicate, arith, length-append,
}
use oodles.Url.Attributes.{Text}
use oodles.Url.Parser.Scan.{
  npos, seek, find_first_of, seek_last, find_last_of, occurrences, count_chars, substr, resize,
}
use oodles.Url.Parser.Scan.Bounds.{
  lacks, seek-past, seek_last-past, seek_last-at, take-append, drop-append, take_all,
  occurrences-append,
}

drop-drop : (i n : ℕ) (url : Text) → drop (i + n) url ≡ drop n (drop i url)
drop-drop zero n url = let e : 0 + n ≡ n = omega arith in rw e
drop-drop (suc i) zero [] = let e : suc i + 0 ≡ suc i = omega arith in rw e
drop-drop (suc i) (suc n) [] = let e : suc i + suc n ≡ suc (i + suc n) = omega arith in rw e
drop-drop (suc i) n (x ∷ url) =
    let e : suc i + n ≡ suc (i + n) = omega arith in rw e (drop-drop i n url)

-- Past a known part.
pub drop_more : (i : ℕ) (url xs ys : Text) → drop i url ≡ xs ++ ys → drop (i + length xs) url ≡ ys
drop_more i url xs ys h = drop-drop i (length xs) url ∙ ap (drop (length xs)) h ∙ drop-append xs ys

pub find_first_at :
    (c i : ℕ) (url xs ys : Text)
    → drop i url ≡ xs ++ c ∷ ys
    → lacks c xs ≡ true
    → find_first_of url c i ≡ i + length xs
unfolding find_first_of seek
find_first_at c i url xs ys d h = rw (d, seek-past c xs (c ∷ ys) i h, seek, ==_refl c)

take_front : (n : ℕ) (url xs ys : Text) → url ≡ xs ++ ys → n ≡ length xs → take n url ≡ xs
take_front n url xs ys e l = rw (e, l) (take-append xs ys)

pub find_last_none :
    (c last : ℕ) (url xs ys : Text)
    → url ≡ xs ++ ys
    → last + 1 ≡ length xs
    → lacks c xs ≡ true
    → find_last_of url c last ≡ npos
unfolding find_last_of seek_last
find_last_none c last url xs ys e l h =
    rw (take_front (last + 1) url xs ys e l) (seek_last-past c [] xs 0 npos h)

pub find_last_at :
    (c last : ℕ) (url xs ys zs : Text)
    → url ≡ (xs ++ c ∷ ys) ++ zs
    → last + 1 ≡ length (xs ++ c ∷ ys)
    → lacks c ys ≡ true
    → find_last_of url c last ≡ length xs
unfolding find_last_of
find_last_at c last url xs ys zs e l h =
    rw (take_front (last + 1) url (xs ++ c ∷ ys) zs e l)
      (seek_last-at c xs ys 0 npos h ∙ omega arith)

pub find_last_whole :
    (c : ℕ) (url xs ys : Text)
    → url ≡ xs ++ c ∷ ys
    → length url ≤ npos
    → lacks c ys ≡ true
    → find_last_of url c npos ≡ length xs
unfolding find_last_of
find_last_whole c url xs ys e l h =
    let t : take (npos + 1) url ≡ xs ++ c ∷ ys = take_all (npos + 1) url (omega arith) ∙ e in
    rw t (seek_last-at c xs ys 0 npos h ∙ omega arith)

pub substr_known :
    (i j : ℕ) (url xs ys : Text)
    → drop i url ≡ xs ++ ys
    → j ≡ i + length xs
    → substr url i (j - i) ≡ xs
substr_known i j url xs ys d e =
    let n : j - i ≡ length xs = omega arith in rw (n, d) (take-append xs ys)

-- The delimiter `d` stands at the end `j`.
pub count_known :
    (i j c d : ℕ) (url xs ys : Text)
    → drop i url ≡ xs ++ d ∷ ys
    → j ≡ i + length xs
    → count_chars url i j c ≡ occurrences c xs + (if d == c then 1 else 0)
unfolding count_chars occurrences
count_known i j c d url xs ys h e =
    let n : j + 1 - i ≡ length (xs ++ d ∷ []) = omega (arith, length-append xs (d ∷ [])) in
    let t : take (length (xs ++ d ∷ [])) (xs ++ d ∷ ys) ≡ xs ++ d ∷ [] =
      rw (append_assoc xs (d ∷ []) ys) at (take-append (xs ++ d ∷ []) ys) in
    rw (n, h, t) (occurrences-append c xs (d ∷ []) ∙ omega arith)

pub resize_fresh : (n : ℕ) → resize (n + 1) [] ≡ [] ∷ replicate n []
resize_fresh n =
    let e : n + 1 ≡ suc n = omega arith in let e' : suc n - 0 ≡ suc n = omega arith in rw (e, e')
