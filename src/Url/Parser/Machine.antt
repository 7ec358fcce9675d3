-- ===== src/Url/Parser/Machine.antt =====
-- url/Parser.cpp: Parser::parse. No URL has more than 2^63 characters here.
use oodles.Prelude.{
  ℕ, zero, suc, ◌+◌, ◌-◌, ◌*◌, Bool, true, false, Option, none, some, List, [], ◌∷◌, ◌++◌, ltb,
  ◌==◌, if◌then◌else◌, length,
}
use oodles.Url.Attributes.{
  Attributes, Part, scheme_part, username_part, password_part, domain_part, port_part, path_part,
  page_part, query_part, no_part, Text,
}
use oodles.Url.Parser.Scan.{Outcome, done, aborted, undefined, exhausted, char_at, find_first_of}
use oodles.Url.Parser.Tokens.{tokenise_scheme, tokenise_domain, tokenise_path}
use oodles.Url.Parser.Query.{tokenise_query, add_query}
use oodles.Url.Parser.Normalise.{normalise_path}
pub mod Ending
pub mod Users
pub mod Phases
mod Known
mod Directory
pub mod RoundTrip

pub record State : Type 0 where
  pub part : Part
  pub attributes : Attributes
  pub query_string : Option (List (Text × Text))

abbrev pub queried : State → Outcome (ℕ × List (Text × Text)) → Outcome (ℕ × State)
queried s (done (i, pairs)) = done (i, record s { query_string = some pairs })
queried s aborted = aborted
queried s undefined = undefined
queried s exhausted = exhausted

-- The switch: the index where the turn of the loop ends, and the state.
unfoldable pub step_at : Part → Text → ℕ → State → Outcome (ℕ × State)
step_at scheme_part url i s =
    let (part, i', scheme) = tokenise_scheme url i s.attributes.scheme in
    done (i', record s { part = part; attributes = record (s.attributes) { scheme = scheme } })
step_at username_part url i s =
    if char_at url i == b':'
    then done (i, record s { part = password_part })
    else done (
      i,
      record s {
        attributes = record (s.attributes) {
          username = s.attributes.username ++ char_at url i ∷ [];
        };
      },
    )
step_at password_part url i s =
    if char_at url i == b'@'
    then done (i, record s { part = domain_part })
    else done (
      i,
      record s {
        attributes = record (s.attributes) {
          password = s.attributes.password ++ char_at url i ∷ [];
        };
      },
    )
step_at domain_part url i s =
    let (part, i', attributes) = tokenise_domain url i s.attributes in
    done (i', record s { part = part; attributes = attributes })
step_at port_part url i s =
    if char_at url i == b'/'
    then done (i, record s { part = path_part })
    else done (
      i,
      record s {
        attributes = record (s.attributes) { port = s.attributes.port ++ char_at url i ∷ [] };
      },
    )
step_at path_part url i s =
    let (part, i', path) = tokenise_path url i s.attributes.path in
    done (i', record s { part = part; attributes = record (s.attributes) { path = path } })
step_at page_part url i s =
    if char_at url i == b'?'
    then done (i, record s { part = query_part })
    else done (
      i,
      record s {
        attributes = record (s.attributes) { page = s.attributes.page ++ char_at url i ∷ [] };
      },
    )
step_at query_part url i s = queried s (tokenise_query url i s.query_string)
step_at no_part url i s = done (i, s)

-- The loop.
unfoldable pub parse_loop : ℕ → Text → ℕ → State → Outcome State
unfolding step_at
parse_loop zero url i s = exhausted
parse_loop (suc fuel) url i s = elim (ltb i (length url)) [
  | false ↦ done s
  | true ↦ elim (step_at s.part url i s) [
    | done (i', s') ↦ parse_loop fuel url (i' + 1) s'
    | aborted ↦ aborted
    | undefined ↦ undefined
    | exhausted ↦ exhausted
  ]
]

abbrev pub normalised : Attributes → Text → Outcome (List Text) → Outcome Attributes
normalised a page (done path) = done (record a { page = page; path = path })
normalised a page aborted = aborted
normalised a page undefined = undefined
normalised a page exhausted = exhausted

-- normalise, at the end.
abbrev pub normalise : Outcome State → Outcome Attributes
normalise (done s) =
    normalised s.attributes (add_query s.attributes.page s.query_string)
      (normalise_path s.attributes.path)
normalise aborted = aborted
normalise undefined = undefined
normalise exhausted = exhausted

-- "://" is a set of characters to find_first_of.
abbrev pub least : ℕ → ℕ → ℕ
least a b = if ltb a b then a else b

unfoldable pub first_part : Text → Part
first_part url =
    if ltb (find_first_of url b'.' 0) (least (find_first_of url b':' 0) (find_first_of url b'/' 0))
    then domain_part
    else scheme_part

-- Parser::parse
unfoldable pub parse : Text → Attributes → Outcome Attributes
unfolding parse_loop first_part
parse url a = normalise (
    parse_loop (2 * length url + 2) url 0
      (record { part = first_part url; attributes = a; query_string = none }))
