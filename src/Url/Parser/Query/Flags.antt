-- ===== src/Url/Parser/Query/Flags.antt =====
-- url/Parser.cpp: a query without '='.
use mathlib.Core.List.{append-nil}
use oodles.Prelude.{
  ap, ℕ, zero, suc, ◌+◌, ◌-◌, ◌%◌, ◌^◌, ◌<◌, ◌≤◌, ◌≡◌, refl, true, false, none, [], ◌∷◌, ltb,
  length, drop, take, arith,
}
use oodles.Url.Attributes.{Text}
use oodles.Url.Parser.Scan.{done, npos, seek, find_first_of}
use oodles.Url.Parser.Scan.Bounds.{lacks, seek-past, length-drop, take_all}
use oodles.Url.Parser.Query.{insert_pair, query_end, read_pair, query_loop, tokenise_query}

find_first_none :
    (c i : ℕ) (url : Text) → lacks c (drop i url) ≡ true → find_first_of url c i ≡ npos
unfolding find_first_of seek
find_first_none c i url h =
    let e = seek-past c (drop i url) [] i h in rw (append-nil (drop i url)) at e

drop_all : (n : ℕ) (xs : Text) → length xs ≤ n → drop n xs ≡ []
drop_all zero [] h = refl
drop_all (suc n) [] h = refl
drop_all zero (x ∷ xs) h = absurd (omega arith)
drop_all (suc n) (x ∷ xs) h = drop_all n xs (omega arith)

-- The position after "not found" wraps around to the beginning of the URL.
read_pair-flag :
    (url : Text) (i : ℕ)
    → i < length url
    → length url < npos
    → lacks b'=' (drop i url) ≡ true
    → read_pair url (length url) i ≡ ((drop i url, url), length url + 2)
unfolding read_pair
read_pair-flag url i l n h =
    let e = find_first_none b'=' i url h in
    let none_left : lacks b'&' (drop npos url) ≡ true = rw (drop_all npos url (omega arith)) in
    let a = find_first_none b'&' npos url none_left in
    let w : (length url + 1 + 2 ^ 64 - 1 - npos) % 2 ^ 64 ≡ length url + 1 = omega arith in
    let k : take (npos - i) (drop i url) ≡ drop i url =
      take_all (npos - i) (drop i url) (omega (arith, length-drop i url)) in
    let v : take (length url + 1) url ≡ url = take_all (length url + 1) url (omega arith) in
    let m : length url + 1 + 1 ≡ length url + 2 = omega arith in rw (e, a, w, k, v, m)

-- When a query has no '=' and no anchor follows, the value that is stored for it is the whole URL, on
-- every URL shorter than 2^64 - 1.
pub tokenise_query-flag :
    (url : Text) (i : ℕ)
    → i < length url
    → length url < npos
    → lacks b'=' (drop i url) ≡ true
    → lacks b'#' (drop i url) ≡ true
    → tokenise_query url i none ≡ done (length url + 2, (drop i url, url) ∷ [])
unfolding tokenise_query query_loop insert_pair
tokenise_query-flag url i l n h g =
    let o : query_end url i ≡ length url = rw (find_first_none b'#' i url g) in
    let t : ltb i (length url) ≡ true = ground arith in
    let t' : ltb (length url + 2) (length url) ≡ false = ground arith in
    let f : length url + 1 ≡ suc (suc (length url - 1)) = omega arith in
    let q = read_pair-flag url i l n h in
    let first : (read_pair url (length url) i).0 ≡ (drop i url, url) = ap (λ r. r.0) q in
    let next : (read_pair url (length url) i).1 ≡ length url + 2 = ap (λ r. r.1) q in
    rw (tokenise_query, o, f, query_loop, t, next, t', first, next)
