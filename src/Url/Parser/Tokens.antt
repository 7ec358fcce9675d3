-- ===== src/Url/Parser/Tokens.antt =====
-- url/Parser.cpp: tokenise_scheme, tokenise_domain and tokenise_path.
use oodles.Prelude.{
  ℕ, zero, suc, ◌+◌, ◌-◌, ◌%◌, ◌^◌, Bool, true, false, not, ◌&&◌, ◌||◌, List, [], ◌∷◌, ◌++◌, ltb,
  ◌==◌, if◌then◌else◌, length, get_or,
}
use oodles.Url.Attributes.{
  Attributes, Part, scheme_part, username_part, domain_part, port_part, path_part, page_part, Text,
}
use oodles.Url.Parser.Scan.{
  npos, char_at, find_first_of, find_last_of, count_chars, tolower, resize, append_to, str2int,
  substr,
}
pub mod Splits

-- tokenise_scheme: the next state, the index and the scheme.
unfoldable pub tokenise_scheme : Text → ℕ → Text → Part × ℕ × Text
tokenise_scheme url index scheme =
    if char_at url index == b':'
    then (
      if find_last_of url b'@' (find_first_of url b'/' (index + 2 + 1)) == npos
          then domain_part
          else username_part,
      index + 2,
      scheme,
    )
    else (scheme_part, index, scheme ++ tolower (char_at url index) ∷ [])

-- Where the domain ends: at the port if there is one, else at the path, else with the URL.
unfoldable pub domain_end : Text → ℕ → ℕ
domain_end url index =
    let slash = find_first_of url b'/' index in
    let j = if slash == npos then length url else slash in
    let i = find_last_of url b':' j in if not (i == npos) && ltb index i then i else j

-- `octets` is a uint16_t.
abbrev pub octet : ℕ → Text → ℕ
octet octets s = if str2int s then (octets + 1) % 2 ^ 16 else octets

-- The loop over the characters of the domain: `i` is the component that `s` points to.
unfoldable pub domain_loop : Text → ℕ → List Text → ℕ → List Text × ℕ × ℕ
domain_loop [] octets domain i = (domain, i, octets)
domain_loop (c ∷ cs) octets domain i = elim (c == b'.') [
  | true ↦ domain_loop cs (octet octets (get_or domain i [])) domain (i + 1)
  | false ↦ domain_loop cs octets (append_to domain i (tolower c)) i
]

abbrev pub after_domain : ℕ → Part
after_domain c = if c == b':' then port_part else (if c == b'/' then path_part else page_part)

-- tokenise_domain
unfoldable pub tokenise_domain : Text → ℕ → Attributes → Part × ℕ × Attributes
unfolding domain_end domain_loop
tokenise_domain url index a =
    let j = domain_end url index in
    let domain = resize (count_chars url index j b'.' + 1) a.domain in
    let (parts, i, octets) = domain_loop (substr url index (j - index)) 0 domain 0 in
    (
      after_domain (char_at url j),
      j,
      record a { domain = parts; ip = if str2int (get_or parts i []) then octets == 3 else a.ip },
    )

-- The loop over the characters of the path.
unfoldable pub path_loop : Text → List Text → ℕ → List Text
path_loop [] path i = path
path_loop (c ∷ cs) path i = elim (c == b'/') [
  | true ↦ path_loop cs path (i + 1)
  | false ↦ path_loop cs (append_to path i c) i
]

-- tokenise_path
unfoldable pub tokenise_path : Text → ℕ → List Text → Part × ℕ × List Text
unfolding path_loop
tokenise_path url index path =
    let j = find_last_of url b'/' npos in
    if j == npos || j == index - 1 then (page_part, index - 1, path) else (
      page_part,
      j,
      path_loop (substr url index (j - index)) (resize (count_chars url index j b'/') path) 0,
    )
