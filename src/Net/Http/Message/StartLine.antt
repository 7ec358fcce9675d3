-- ===== src/Net/Http/Message/StartLine.antt =====
-- net/http/Message.cpp: the tokens of a start line.
use mathlib.Core.List.{append_assoc}
use oodles.Prelude.{
  ◌∙◌, ℕ, ◌+◌, ◌-◌, ◌≤◌, ◌≡◌, refl, true, false, ◌||◌, [], ◌∷◌, ◌++◌, ltb, ◌==◌, length,
  length-append, take, drop, arith,
}
use oodles.Url.Attributes.{Text}
use oodles.Url.Parser.Scan.Bounds.{lacks, take-append, take_all, length-drop}
use oodles.Url.Parser.Scan.Finds.{drop_more, substr_known}
use oodles.Net.Http.Message.Headers.{HttpMessage, inbound}
use oodles.Net.Http.Message.Writing.{crlf, start_line_size, write_start_line}
use oodles.Net.Http.Message.Reading.{
  read, Trigram, put_token, token_loop, version_readable, read_start_line,
}

token_loop-plain :
    (y r s : Text) (i j k : ℕ) (t : Trigram)
    → lacks b' ' y ≡ true
    → token_loop (y ++ r) s i j k false t ≡ token_loop r s (i + length y) j k false t
unfolding token_loop
token_loop-plain [] r s i j k t h = let z : i + 0 ≡ i = omega arith in rw z
token_loop-plain (c ∷ y) r s i j k t h =
    let plain : (c == b' ') ≡ false = ground arith in
    let z : i + length (c ∷ y) ≡ i + 1 + length y = omega arith in
    rw (token_loop, plain, z) (token_loop-plain y r s (i + 1) j k t (ground arith))

-- A token of the first two, up to the space behind it.
token_loop-token :
    (y r s : Text) (j k : ℕ) (t : Trigram)
    → lacks b' ' y ≡ true
    → drop j s ≡ y ++ b' ' ∷ r
    → ltb (k + 1) 3 ≡ true
    → token_loop (y ++ b' ' ∷ r) s j j k false t
      ≡ token_loop r s (j + length y + 1) (j + length y + 1) (k + 1) (k + 1 == 2) (put_token k y t)
unfolding token_loop
token_loop-token y r s j k t h d l =
    let e = token_loop-plain y (b' ' ∷ r) s j j k t h in
    let u = substr_known j (j + length y) s y (b' ' ∷ r) d refl in e ∙ rw (token_loop, l, u)

-- The last token, to the end of the line.
token_loop-last :
    (c : ℕ) (cs s : Text) (j : ℕ) (t : Trigram)
    → drop j s ≡ c ∷ cs
    → token_loop (c ∷ cs) s j j 2 true t ≡ put_token 2 (c ∷ cs) t
unfolding token_loop
token_loop-last c cs s j t d =
    let n : take (length s - j) (drop j s) ≡ drop j s =
      take_all (length s - j) (drop j s) (omega (arith, length-drop j s)) in
    let q : ((c == b' ') || true) ≡ true = ground arith in rw (token_loop, q, n, d)

abbrev line_of : Text → Text → Text → Text
line_of a b c = a ++ b' ' ∷ (b ++ b' ' ∷ c)

tokens_of_line :
    (a b : Text) (c : ℕ) (cs : Text) (t : Trigram)
    → lacks b' ' a ≡ true
    → lacks b' ' b ≡ true
    → token_loop (line_of a b (c ∷ cs)) (line_of a b (c ∷ cs)) 0 0 0 false t
      ≡ record { first = a; second = b; third = c ∷ cs }
tokens_of_line a b c cs t h g =
    let s = line_of a b (c ∷ cs) in
    let d1 : drop (0 + length a) s ≡ b' ' ∷ (b ++ b' ' ∷ c ∷ cs) = drop_more 0 s a _ refl in
    let d2 : drop (0 + length a + 1) s ≡ b ++ b' ' ∷ c ∷ cs =
      drop_more (0 + length a) s (b' ' ∷ []) _ d1 in
    let d3 : drop (0 + length a + 1 + length b) s ≡ b' ' ∷ c ∷ cs =
      drop_more (0 + length a + 1) s b _ d2 in
    let d4 : drop (0 + length a + 1 + length b + 1) s ≡ c ∷ cs =
      drop_more (0 + length a + 1 + length b) s (b' ' ∷ []) _ d3 in
    token_loop-token a (b ++ b' ' ∷ c ∷ cs) s 0 0 t h refl refl
    ∙ token_loop-token b (c ∷ cs) s (0 + length a + 1) 1 (put_token 0 a t) g d2 refl
    ∙ token_loop-last c cs s (0 + length a + 1 + length b + 1) (put_token 1 b (put_token 0 a t)) d4

line_of-crlf :
    (a b c : Text)
    → take (length a + length b + length c + 2) (a ++ (b' ' ∷ b ++ (b' ' ∷ c ++ crlf)))
      ≡ line_of a b c
line_of-crlf a b c =
    let e : a ++ (b' ' ∷ b ++ (b' ' ∷ c ++ crlf)) ≡ line_of a b c ++ crlf =
      rw (append_assoc a (b' ' ∷ (b ++ b' ' ∷ c)) crlf, append_assoc b (b' ' ∷ c) crlf) in
    let n : length a + length b + length c + 2 ≡ length (line_of a b c) =
      omega (arith, length-append a (b' ' ∷ (b ++ b' ' ∷ c)), length-append b (b' ' ∷ c)) in
    rw (e, n) (take-append (line_of a b c) crlf)

-- From a start line that write_start_line has written whole, less its CR and LF, read_start_line gets
-- the three tokens back, when the first two have no space, the last is not empty and one of the first
-- and the last has the five characters that are read before a version.
pub read_start_line-write_start_line :
    (m n : HttpMessage) (c : ℕ) (cs : Text) (max : ℕ)
    → lacks b' ' m.first ≡ true
    → lacks b' ' m.second ≡ true
    → m.third ≡ c ∷ cs
    → version_readable (record { first = m.first; second = m.second; third = m.third }) ≡ true
    → start_line_size m + 4 ≤ max
    → read_start_line n (take (start_line_size m + 2) (write_start_line m max).0)
      ≡ read (record n { mode = inbound; first = m.first; second = m.second; third = m.third })
unfolding read_start_line write_start_line
read_start_line-write_start_line m n c cs max h g e v l =
    let fits : ltb max (start_line_size m + 4) ≡ false = ground arith in
    let t : take (start_line_size m + 2) (write_start_line m max).0
        ≡ line_of m.first m.second m.third =
      rw fits (line_of-crlf m.first m.second m.third) in
    let all =
      tokens_of_line m.first m.second c cs
        (record { first = n.first; second = n.second; third = n.third }) h g in
    let all' = rw (← e) at all in rw (t, all', v)
