-- ===== src/Url/Parser/Machine/RoundTrip.antt =====
-- url/Parser.cpp and url/URL.cpp: what to_string prints, parse reads.
use oodles.Prelude.{
  ℕ, ◌<◌, ◌≡◌, Bool, true, false, ◌&&◌, List, [], ◌∷◌, ◌++◌, leb, ◌==◌, if◌then◌else◌, length,
  get_or,
}
use oodles.Url.Attributes.{Attributes, Text}
use oodles.Url.Ids.{join, dot, directory_of}
use oodles.Url.Parser.Scan.{npos, str2int}
use oodles.Url.Parser.Scan.Bounds.{all_of, lacks}
use oodles.Url.Parser.Tokens.Splits.{host_char, all_hosts, octets_of, all_lack}
use oodles.Url.Parser.Normalise.Dots.{any_dotted}

abbrev pub lower : ℕ → Bool
lower c = leb b'a' c && leb c b'z'

abbrev pub no_attributes : Attributes
no_attributes = record {
  ip = false;
  port = [];
  page = [];
  scheme = [];
  username = [];
  password = [];
  path = [];
  domain = [];
}

-- Four components, of which the last is a number and so are those before.
abbrev pub is_ip : Text → List Text → Bool
is_ip x xs = if str2int (get_or (x ∷ xs) (length xs) []) then octets_of 0 x xs == 3 else false

abbrev pub plain : Text → Text → List Text → List Text → Text → Attributes
plain scheme x xs path page = record no_attributes {
  ip = is_ip x xs;
  scheme = scheme;
  domain = x ∷ xs;
  path = path;
  page = page;
}

abbrev pub url_of : Text → Text → Text → Text → Text
url_of s h d page = s ++ b':' ∷ b'/' ∷ b'/' ∷ (h ++ b'/' ∷ (d ++ page))

abbrev scheme_end : Text
scheme_end = b':' ∷ b'/' ∷ b'/' ∷ []

-- The conditions on the parts of a URL without user and port that to_string prints.
module _ (s x page : Text) (xs path : List Text) (hs : all_of lower s ≡ true)
    (hx : all_of host_char x ≡ true) (hxs : all_hosts xs ≡ true) (hp : all_lack path ≡ true)
    (hd : any_dotted 0 path ≡ false) (hw : lacks b'/' page ≡ true) (hq : lacks b'?' page ≡ true)
    (small : length (url_of s (join dot x xs) (directory_of path) page) < npos) where
  abbrev hosts : Text
  hosts = join dot x xs

  abbrev rest : Text
  rest = directory_of path ++ page

  abbrev whole : Text
  whole = url_of s hosts (directory_of path) page
