-- ===== src/Url/Parser/Scan.antt =====
-- url/Parser.cpp: the searches and conversions that the parser is made of. Positions are numbers below
-- 2^64, `npos` is the greatest, and reading at the size of a string gives the byte 0.
use oodles.Prelude.{
  ℕ, zero, suc, ◌+◌, ◌-◌, ◌*◌, ◌^◌, Bool, true, false, not, ◌&&◌, ◌||◌, List, [], ◌∷◌, ◌++◌, ltb,
  leb, ◌==◌, if◌then◌else◌, length, take, drop, replicate, get_or, set,
}
use oodles.Url.Attributes.{Text, is_nil}
pub mod Bounds
pub mod Finds

-- What a step of the parser comes to: a value, a failed assertion, a use of an iterator that is not
-- valid, or fuel that did not suffice.
pub data Outcome {ℓ} (A : Type ℓ) : Type ℓ where
  done : A → Outcome A
  aborted undefined exhausted : Outcome A

-- string::npos, the parser's NONE.
abbrev pub npos : ℕ
npos = 2 ^ 64 - 1

abbrev pub char_at : Text → ℕ → ℕ
char_at url index = get_or url index 0

-- string::find_first_of of one character, the scan being at position `i`.
unfoldable pub seek : ℕ → Text → ℕ → ℕ
seek c [] i = npos
seek c (x ∷ xs) i = let rest = seek c xs (i + 1) in if x == c then i else rest

unfoldable pub find_first_of : Text → ℕ → ℕ → ℕ
unfolding seek
find_first_of url c start = seek c (drop start url) start

-- string::find_last_of of one character, at most at position `last`.
unfoldable pub seek_last : ℕ → Text → ℕ → ℕ → ℕ
seek_last c [] i found = found
seek_last c (x ∷ xs) i found = seek_last c xs (i + 1) (if x == c then i else found)

unfoldable pub find_last_of : Text → ℕ → ℕ → ℕ
unfolding seek_last
find_last_of url c last = seek_last c (take (last + 1) url) 0 npos

-- string::substr
abbrev pub substr : Text → ℕ → ℕ → Text
substr url start n = take n (drop start url)

-- count_chars, over the positions from `start` to `end`, both included.
unfoldable pub occurrences : ℕ → Text → ℕ
occurrences c [] = 0
occurrences c (x ∷ xs) = (if x == c then 1 else 0) + occurrences c xs

unfoldable pub count_chars : Text → ℕ → ℕ → ℕ → ℕ
unfolding occurrences
count_chars url start end c = occurrences c (take (end + 1 - start) (drop start url))

-- tolower, in the "C" locale.
abbrev pub tolower : ℕ → ℕ
tolower c = if leb b'A' c && leb c b'Z' then c + 32 else c

-- vector::resize, and `*s += c` where `s` is the component `i`: the vector has been given one component
-- for each delimiter before, so that `i` is never beyond it.
abbrev pub resize : ℕ → List Text → List Text
resize n xs = take n xs ++ replicate (n - length xs) []

abbrev pub append_to : List Text → ℕ → ℕ → List Text
append_to xs i c = set xs i (get_or xs i [] ++ c ∷ [])

-- c_str
unfoldable pub c_str : Text → Text
c_str [] = []
c_str (c ∷ cs) = let rest = c_str cs in if c == 0 then [] else c ∷ rest

abbrev pub is_space : ℕ → Bool
is_space c = c == 32 || (leb 9 c && leb c 13)

abbrev pub is_digit : ℕ → Bool
is_digit c = leb b'0' c && leb c b'9'

unfoldable pub skip_spaces : Text → Text
skip_spaces [] = []
skip_spaces (c ∷ cs) = let rest = skip_spaces cs in if is_space c then rest else c ∷ cs

-- The digits of strtol: whether all that is left are digits, with a value of at most `limit`.
unfoldable pub digits_within : ℕ → Text → ℕ → Bool
digits_within limit [] value = leb value limit
digits_within limit (c ∷ cs) value =
    let rest = digits_within limit cs (10 * value + (c - b'0')) in is_digit c && rest

abbrev pub some_digits : ℕ → Text → Bool
some_digits limit [] = false
some_digits limit (c ∷ cs) = digits_within limit (c ∷ cs) 0

abbrev pub signed : Text → Bool
signed [] = false
signed (c ∷ cs) =
    if c == b'-'
    then some_digits (2 ^ 63) cs
    else (if c == b'+' then some_digits (2 ^ 63 - 1) cs else some_digits (2 ^ 63 - 1) (c ∷ cs))

-- str2int: whether it returns and does not throw; its callers discard the number. For the two
-- extreme values of `long` the code reads `errno`, which is taken to be 0 before the call.
unfoldable pub str2int : Text → Bool
unfolding c_str skip_spaces digits_within
str2int s = signed (skip_spaces (c_str s))

-- Of two texts: whether they are equal, and whether the first comes first in the order of strings.
unfoldable pub same_text : Text → Text → Bool
same_text [] [] = true
same_text [] (y ∷ ys) = false
same_text (x ∷ xs) [] = false
same_text (x ∷ xs) (y ∷ ys) = let rest = same_text xs ys in x == y && rest

unfoldable pub text_less : Text → Text → Bool
text_less xs [] = false
text_less [] (y ∷ ys) = true
text_less (x ∷ xs) (y ∷ ys) = let rest = text_less xs ys in ltb x y || (x == y && rest)
