-- ===== src/Url/Parser/Query.antt =====
-- url/Parser.cpp: tokenise_query, and how normalise prints the query again.
use oodles.Prelude.{
  ℕ, zero, suc, ◌+◌, ◌-◌, ◌%◌, ◌^◌, Bool, true, false, ◌&&◌, ◌||◌, not, Option, none, some, List,
  [], ◌∷◌, ◌++◌, ltb, ◌==◌, if◌then◌else◌, length,
}
use oodles.Url.Attributes.{Text}
use oodles.Url.Parser.Scan.{
  Outcome, done, aborted, undefined, exhausted, npos, find_first_of, substr, same_text, text_less,
}
pub mod Flags
pub mod Ends

-- std::set<pair<string, string> >::insert, on the elements in their order.
abbrev pub pair_less : Text × Text → Text × Text → Bool
pair_less (a, b) (c, d) = text_less a c || (not (text_less c a) && text_less b d)

unfoldable pub insert_pair : Text × Text → List (Text × Text) → List (Text × Text)
insert_pair p [] = p ∷ []
insert_pair p (q ∷ qs) =
    let rest = insert_pair p qs in
    if pair_less p q then p ∷ q ∷ qs else (if pair_less q p then q ∷ rest else q ∷ qs)

-- The end of the query: an anchor is to be skipped.
abbrev pub query_end : Text → ℕ → ℕ
query_end url index =
    let i = find_first_of url b'#' index in if i == npos then length url else i - 1

-- One turn of the loop of tokenise_query: the pair, and the index after it. The positions wrap around
-- when there is no '='.
unfoldable pub read_pair : Text → ℕ → ℕ → (Text × Text) × ℕ
read_pair url max index =
    let i = find_first_of url b'=' index in
    let ampersand = find_first_of url b'&' i in
    let j = if ampersand == npos then max + 1 else ampersand in
    (
      (substr url index (i - index), substr url ((i + 1) % 2 ^ 64) ((j + 2 ^ 64 - 1 - i) % 2 ^ 64)),
      j + 1,
    )

unfoldable pub query_loop : ℕ → Text → ℕ → ℕ → List (Text × Text) → Outcome (ℕ × List (Text × Text))
unfolding read_pair
query_loop zero url max index pairs = exhausted
query_loop (suc fuel) url max index pairs = elim (ltb index max) [
  | false ↦ done (index, pairs)
  | true ↦
      let (p, next) = read_pair url max index in query_loop fuel url max next (insert_pair p pairs)
]

-- tokenise_query: the index and the set; it asserts that there is no set before.
unfoldable pub tokenise_query :
    Text → ℕ → Option (List (Text × Text)) → Outcome (ℕ × List (Text × Text))
unfolding query_loop
tokenise_query url index none = query_loop (length url + 1) url (query_end url index) index []
tokenise_query url index (some pairs) = aborted

-- The second half of normalise.
unfoldable pub print_pairs : List (Text × Text) → Text
print_pairs [] = []
print_pairs ((first, second) ∷ pairs) = first ++ (b'=' ∷ second) ++ b'&' ∷ print_pairs pairs

abbrev pub without_last : Text → Text
without_last [] = []
without_last (c ∷ []) = []
without_last (c ∷ d ∷ cs) = c ∷ without_last (d ∷ cs)

unfoldable pub add_query : Text → Option (List (Text × Text)) → Text
unfolding print_pairs
add_query page none = page
add_query page (some pairs) = without_last (page ++ b'?' ∷ print_pairs pairs)
