-- ===== src/Url/Ids/Tests.antt =====
-- url/URL.cpp: runs of the ids at concrete URLs.
use oodles.Prelude.{◌≡◌, ◌≢◌, [], ◌∷◌, ◌++◌, arith, false}
use oodles.Utility.Hash.{fnv64}
use oodles.Url.Attributes.{Attributes}
use oodles.Url.Ids.{ids, hasher, hasher_all, ids_split}

abbrev page_only : Attributes
page_only = record {
  ip = false;
  port = [];
  page = b'p' ∷ [];
  scheme = [];
  username = [];
  password = [];
  path = [];
  domain = [];
}

hash_of_a : hasher (b'a' ∷ []) (hasher_all [] 0) ≢ 0
unfolding hasher_all fnv64
hash_of_a = λ e. ground arith

-- The URLs ab/p and a.b/p have the same ids.
ids_split_example :
    ids (record page_only { domain = [] ++ (b'a' ∷ [] ++ b'b' ∷ []) ∷ [] })
    ≡ ids (record page_only { domain = [] ++ (b'a' ∷ []) ∷ (b'b' ∷ []) ∷ [] })
ids_split_example = ids_split page_only [] (b'a' ∷ []) (b'b' ∷ []) [] hash_of_a
