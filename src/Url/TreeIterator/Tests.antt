-- ===== src/Url/TreeIterator/Tests.antt =====
-- TreeIterator.cpp on http://www.a/x/ and on http://www.a/p, their bytes shortened.
use oodles.Prelude.{◌≡◌, refl, false, [], ◌∷◌, some, arith}
use oodles.Url.Attributes.{Attributes, begin, end, page_places}
use oodles.Url.TreeIterator.{create, previous}
use oodles.Url.TreeIterator.Forward.{visit, tree_order, visit-tree_order}
use oodles.Url.TreeIterator.Backward.{visit_back, visit_back-empty_path}

abbrev directory : Attributes
directory = record {
  ip = false;
  port = [];
  page = [];
  scheme = b'h' ∷ [];
  username = [];
  password = [];
  path = (b'x' ∷ []) ∷ [];
  domain = (b'w' ∷ []) ∷ (b'a' ∷ []) ∷ [];
}

abbrev root_page : Attributes
root_page = record directory { path = []; page = b'p' ∷ [] }

visit-tree_order_example :
    visit directory 5 (some (create directory begin)) ≡ some (tree_order directory)
visit-tree_order_example =
    visit-tree_order directory 5 (omega arith) (omega arith) (omega arith) (omega arith)

visit_back-empty_path_example :
    visit_back root_page 2 (previous root_page (create root_page end))
    ≡ some (page_places root_page.page)
visit_back-empty_path_example = visit_back-empty_path root_page 2 refl (omega arith) (omega arith)
