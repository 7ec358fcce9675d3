-- ===== src/Url/Parser/Query/Ends.antt =====
-- url/Parser.cpp: the loop of tokenise_query ends.
use oodles.Prelude.{
  ℕ, zero, suc, ◌-◌, ◌<◌, ◌≤◌, ◌≡◌, List, ltb, ltb→lt, length, arith, Bool-cases, inl, inr,
}
use oodles.Url.Attributes.{Text}
use oodles.Url.Parser.Scan.{done, npos, find_first_of}
use oodles.Url.Parser.Scan.Bounds.{find_after, find_most, find_within}
use oodles.Url.Parser.Query.{query_end, read_pair, query_loop, insert_pair}

read_pair_after :
    (url : Text) (max i : ℕ)
    → i < max
    → max ≤ npos
    → length url ≤ npos
    → i < (read_pair url max i).1
unfolding read_pair
read_pair_after url max i l m h =
    let a = find_after url b'=' i h (omega arith) in
    let b =
      find_after url b'&' (find_first_of url b'=' i) h (find_most url b'=' i h (omega arith)) in
    ground arith

-- The loop over the query comes to an end, not before where it began.
pub query_loop-ends :
    (fuel : ℕ) (url : Text) (max i : ℕ) (pairs : List (Text × Text))
    → max ≤ npos
    → length url ≤ npos
    → max - i < fuel
    → (j : ℕ) × (after : List (Text × Text)) × (query_loop fuel url max i pairs ≡ done (j, after))
      × (i ≤ j)
unfolding query_loop
query_loop-ends zero url max i pairs m h f = absurd (omega arith)
query_loop-ends (suc fuel) url max i pairs m h f = elim (Bool-cases (ltb i max)) [
  | inr e ↦ (i, pairs, rw (query_loop, e), omega arith)
  | inl e ↦
      let next = (read_pair url max i).1 in
      let later = read_pair_after url max i (ltb→lt i max e) m h in
      let (j, after, q, g) =
        query_loop-ends fuel url max next (insert_pair (read_pair url max i).0 pairs) m h
          (ground arith) in
      (j, after, rw (query_loop, e) q, omega arith)
]

pub query_end_within : (url : Text) (i : ℕ) → i < length url → query_end url i ≤ length url
query_end_within url i h = ground (arith, find_within url b'#' i)
