-- ===== src/Url/Ids.antt =====
-- url/URL.cpp: the ids of a URL, and the texts that are made of its attributes. `hash_t` has 64 bits.
use oodles.Prelude.{
  ℕ, ◌≡◌, ◌≢◌, refl, sym, ap, ◌∙◌, Bool, true, false, not, List, [], ◌∷◌, ◌++◌, ◌==◌, if◌then◌else◌,
  arith,
}
use oodles.Url.Attributes.{Attributes, Text, is_nil}
use oodles.Utility.Hash.{fnv64, fnv64-append}
mod Tests

-- hasher, of a text and of a vector of texts.
abbrev pub hasher : Text → ℕ → ℕ
hasher input seed = fnv64 input seed

unfoldable pub hasher_all : List Text → ℕ → ℕ
hasher_all [] seed = seed
hasher_all (x ∷ xs) seed = hasher_all xs (hasher x seed)

pub record UrlId : Type 0 where
  pub domain : ℕ
  pub path : ℕ
  pub page : ℕ

-- IDGenerator::compute_hash: a hash that is 0 counts as not yet computed.
abbrev pub compute_hash : (ℕ → ℕ) → ℕ → ℕ → ℕ
compute_hash hash_content hash seed = if hash == 0 then hash_content seed else hash

-- The end of URL::tokenise: three generators, each asked as often as there.
unfoldable pub ids : Attributes → UrlId
unfolding hasher_all
ids a =
    let d = compute_hash (hasher_all a.domain) 0 0 in
    let d' = compute_hash (hasher_all a.domain) d 0 in
    let p = compute_hash (hasher_all a.path) 0 d' in
    let d'' = compute_hash (hasher_all a.domain) d' 0 in
    let p' = compute_hash (hasher_all a.path) p d'' in
    record { domain = d; path = p; page = compute_hash (hasher a.page) 0 p' }

-- operator==
unfoldable pub same_page : Attributes → Attributes → Bool
unfolding ids
same_page a b = (ids a).page == (ids b).page

-- The loops of host() and resource() over all components but the last, and then the last.
unfoldable pub join : Text → Text → List Text → Text
join separator x [] = x
join separator x (y ∷ ys) = x ++ (separator ++ join separator y ys)

abbrev pub dot : Text
dot = b'.' ∷ []

abbrev pub slash : Text
slash = b'/' ∷ []

abbrev pub host_of : List Text → Text
host_of [] = []
host_of (x ∷ xs) = join dot x xs

unfoldable pub host : Attributes → Text
unfolding join
host a = host_of a.domain

abbrev pub directory_of : List Text → Text
directory_of [] = []
directory_of (x ∷ xs) = join slash x xs ++ slash

unfoldable pub resource : Attributes → Text
unfolding join
resource a = slash ++ (directory_of a.path ++ a.page)

abbrev pub scheme_of : Text → Text
scheme_of [] = []
scheme_of (c ∷ cs) = (c ∷ cs) ++ b':' ∷ b'/' ∷ b'/' ∷ []

abbrev pub user_of : Text → Text → Text
user_of [] password = []
user_of (c ∷ cs) [] = (c ∷ cs) ++ b'@' ∷ []
user_of (c ∷ cs) (p ∷ ps) = (c ∷ cs) ++ (b':' ∷ p ∷ ps) ++ b'@' ∷ []

abbrev pub port_of : Text → Text
port_of [] = []
port_of (c ∷ cs) = b':' ∷ c ∷ cs

-- to_stream, and so to_string.
unfoldable pub to_string : Attributes → Text
unfolding host resource
to_string a =
    scheme_of a.scheme
    ++ (user_of a.username a.password ++ (host a ++ (port_of a.port ++ resource a)))

-- A generator asked again gives the same id.
ids_lem :
    (a : Attributes)
    → ids a ≡ record {
      domain = hasher_all a.domain 0;
      path = hasher_all a.path (hasher_all a.domain 0);
      page = hasher a.page (hasher_all a.path (hasher_all a.domain 0));
    }
unfolding ids
ids_lem a = ground arith

hasher_all-append :
    (xs ys : List Text) (seed : ℕ) → hasher_all (xs ++ ys) seed ≡ hasher_all ys (hasher_all xs seed)
unfolding hasher_all
hasher_all-append [] ys seed = refl
hasher_all-append (x ∷ xs) ys seed = hasher_all-append xs ys _

hasher_all_split :
    (xs : List Text) (y z : Text) (zs : List Text) (seed : ℕ)
    → hasher y (hasher_all xs seed) ≢ 0
    → hasher_all (xs ++ (y ++ z) ∷ zs) seed ≡ hasher_all (xs ++ y ∷ z ∷ zs) seed
unfolding hasher_all
hasher_all_split xs y z zs seed n =
    hasher_all-append xs ((y ++ z) ∷ zs) seed
    ∙ ap (hasher_all zs) (fnv64-append y z (hasher_all xs seed) n)
    ∙ sym (hasher_all-append xs (y ∷ z ∷ zs) seed)

-- Two URLs that differ only in a dot between two parts of the domain have all ids in common, unless
-- the hash up to that dot is 0: the ids do not tell where the parts end.
pub ids_split :
    (a : Attributes) (xs : List Text) (y z : Text) (zs : List Text)
    → hasher y (hasher_all xs 0) ≢ 0
    → ids (record a { domain = xs ++ (y ++ z) ∷ zs }) ≡ ids (record a { domain = xs ++ y ∷ z ∷ zs })
ids_split a xs y z zs n =
    let e = hasher_all_split xs y z zs 0 n in
    rw (
      ids_lem (record a { domain = xs ++ (y ++ z) ∷ zs }),
      ids_lem (record a { domain = xs ++ y ∷ z ∷ zs }),
      e,
    )
