-- ===== src/Url/Iterator/Tests.antt =====
-- Iterator.cpp on http://www.a/x/, its bytes shortened.
use oodles.Prelude.{◌≡◌, false, [], ◌∷◌, some, arith}
use oodles.Url.Attributes.{Attributes, begin}
use oodles.Url.Iterator.{create}
use oodles.Url.Iterator.Forward.{visit, in_order, visit-in_order}

abbrev sample : Attributes
sample = record {
  ip = false;
  port = [];
  page = [];
  scheme = b'h' ∷ [];
  username = [];
  password = [];
  path = (b'x' ∷ []) ∷ [];
  domain = (b'w' ∷ []) ∷ (b'a' ∷ []) ∷ [];
}

visit-in_order_run : visit sample 9 (some (create sample begin)) ≡ some (in_order sample)
visit-in_order_run = visit-in_order sample 9 (omega arith)
