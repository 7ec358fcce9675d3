-- ===== src/Net/Http/Message/Keys.antt =====
-- net/http/Message.cpp: the comparisons of headers, and the search that they serve.
use oodles.Prelude.{
  ℕ, zero, suc, ◌+◌, ◌-◌, ◌/◌, ◌≡◌, refl, Bool, true, false, not, ◌&&◌, ◌||◌, List, [], ◌∷◌, ltb,
  ◌==◌, ==_refl, if◌then◌else◌, length, get_or, arith,
}
use oodles.Url.Attributes.{Text}
use oodles.Url.Parser.Scan.{tolower}

pub record HttpHeader : Type 0 where
  pub key : Text
  pub value : Text

abbrev pub no_header : HttpHeader
no_header = record { key = []; value = [] }

-- Whether strncasecmp of two texts is negative, over as many characters as the first one has. A text
-- ends where a byte is 0.
unfoldable pub case_less : Text → Text → Bool
case_less [] other = false
case_less (x ∷ xs) [] = false
case_less (x ∷ xs) (y ∷ ys) =
    let rest = case_less xs ys in
    if tolower x == tolower y then not (x == 0) && rest else ltb (tolower x) (tolower y)

-- Whether it is 0.
unfoldable pub case_equal : Text → Text → Bool
case_equal [] other = true
case_equal (x ∷ xs) [] = x == 0
case_equal (x ∷ xs) (y ∷ ys) =
    let rest = case_equal xs ys in tolower x == tolower y && (x == 0 || rest)

-- operator<, of a header and a key; that of two headers takes the key of the second.
abbrev pub header_less : HttpHeader → Text → Bool
header_less h key = case_less h.key key

-- operator==, of a header and a string: its parameter is `other`, and it compares its own key twice.
abbrev pub header_equal : HttpHeader → Text → Bool
header_equal h other = case_equal h.key h.key

-- std::lower_bound, by halves of the `len` headers from `first` on.
unfoldable pub search_half : ℕ → List HttpHeader → Text → ℕ → ℕ → ℕ
search_half zero headers key first len = first
search_half (suc fuel) headers key first len =
    let half = len / 2 in
    elim (len == 0) [
      | true ↦ first
      | false ↦ elim (header_less (get_or headers (first + half) no_header) key) [
        | true ↦ search_half fuel headers key (first + half + 1) (len - half - 1)
        | false ↦ search_half fuel headers key first half
      ]
    ]

unfoldable pub lower_bound : List HttpHeader → Text → ℕ
unfolding search_half
lower_bound headers key = search_half (length headers) headers key 0 (length headers)

pub case_equal_refl : (xs : Text) → case_equal xs xs ≡ true
unfolding case_equal
case_equal_refl [] = refl
case_equal_refl (x ∷ xs) = ground (arith, ==_refl (tolower x), case_equal_refl xs)
