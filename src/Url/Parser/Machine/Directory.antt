-- ===== src/Url/Parser/Machine/Directory.antt =====
-- url/Parser.cpp: how the loop of parse goes through the path and the page.
use mathlib.Core.List.{append_assoc}
use oodles.Prelude.{
  sym, ◌∙◌, ℕ, suc, ◌+◌, ◌<◌, ◌≤◌, ◌≡◌, true, List, [], ◌∷◌, ◌++◌, length, drop, arith,
  length-append,
}
use oodles.Url.Attributes.{Attributes, Part, path_part, page_part, Text}
use oodles.Url.Ids.{join, slash, directory_of}
use oodles.Url.Parser.Scan.{resize, done, npos, count_chars}
use oodles.Url.Parser.Scan.Bounds.{lacks}
use oodles.Url.Parser.Scan.Finds.{
  drop_more, find_last_whole, substr_known, count_known, resize_fresh,
}
use oodles.Url.Parser.Tokens.{path_loop}
use oodles.Url.Parser.Tokens.Splits.{all_lack, path_loop-join}
use oodles.Url.Parser.Machine.{normalise}
use oodles.Url.Parser.Machine.Known.{occurrences-join-slash}
use oodles.Url.Parser.Machine.Phases.{
  Leads, page_phase, no_path_phase, path_phase, end_phase, at_part,
}

pub more_fuel :
    (url : Text) (i : ℕ) (part : Part) (a b : Attributes) (n m : ℕ)
    → Leads url i part a n b
    → n ≤ m
    → Leads url i part a m b
more_fuel url i part a b n m k h fuel f = k fuel (omega arith)

-- The page, to the end of the URL.
page-Leads :
    (url pre page : Text) (a b : Attributes)
    → url ≡ pre ++ page
    → lacks b'?' page ≡ true
    → normalise (done (at_part page_part (record a { page = page }))) ≡ done b
    → Leads url (length pre) page_part (record a { page = [] }) (1 + length page) b
page-Leads url pre page a b e q f =
    let d = drop_more 0 url pre page e in
    let l : length url ≤ 0 + length pre + length page =
      rw e (omega (arith, length-append pre page)) in
    let z : 0 + length pre ≡ length pre = omega arith in
    let k =
      rw z at
        (page_phase url b page [] (0 + length pre) a 1 q d (end_phase url b _ page_part _ l f)) in
    k

pub path-Leads :
    (url pre page : Text) (path : List Text) (a b : Attributes)
    → url ≡ pre ++ b'/' ∷ (directory_of path ++ page)
    → all_lack path ≡ true
    → lacks b'/' page ≡ true
    → lacks b'?' page ≡ true
    → length url < npos
    → ((part : Part)
        → normalise (done (at_part part (record a { path = path; page = page }))) ≡ done b)
    → Leads url (suc (length pre)) path_part (record a { path = []; page = [] }) (3 + length page) b
path-Leads url pre [] [] a b e p w q n f =
    let l : length url ≤ suc (length pre) = rw e (omega (arith, length-append pre (b'/' ∷ []))) in
    more_fuel url _ path_part _ b 1 3
      (end_phase url b (suc (length pre)) path_part _ l (f path_part)) (omega arith)
path-Leads url pre (c ∷ cs) [] a b e p w q n f =
    let e' : url ≡ (pre ++ b'/' ∷ []) ++ c ∷ cs = e ∙ sym (append_assoc pre (b'/' ∷ []) (c ∷ cs)) in
    let m : length (pre ++ b'/' ∷ []) ≡ suc (length pre) =
      omega (arith, length-append pre (b'/' ∷ [])) in
    let l : suc (length pre) < length url =
      rw e (omega (arith, length-append pre (b'/' ∷ c ∷ cs))) in
    let k =
      rw m at (
        page-Leads url (pre ++ b'/' ∷ []) (c ∷ cs) (record a { path = [] }) b e' q (f page_part)) in
    let last = find_last_whole b'/' url pre (c ∷ cs) e (omega arith) w in
    more_fuel url _ path_part _ b (1 + length (c ∷ cs) + 1) (3 + length (c ∷ cs))
      (no_path_phase url b (length pre) _ _ l last k) (omega arith)
path-Leads url pre page (y ∷ ys) a b e p w q n f =
    let dir = join slash y ys in
    let at_dir : url ≡ (pre ++ b'/' ∷ []) ++ (dir ++ b'/' ∷ page) =
      e ∙ rw (append_assoc pre (b'/' ∷ []) (dir ++ b'/' ∷ page), append_assoc dir slash page) in
    let at_slash : url ≡ (pre ++ b'/' ∷ dir) ++ b'/' ∷ page =
      e ∙ rw (append_assoc pre (b'/' ∷ dir) (b'/' ∷ page), append_assoc dir slash page) in
    let at_page : url ≡ ((pre ++ b'/' ∷ dir) ++ b'/' ∷ []) ++ page =
      at_slash ∙ rw (append_assoc (pre ++ b'/' ∷ dir) (b'/' ∷ []) page) in
    let m : 0 + length (pre ++ b'/' ∷ []) ≡ suc (length pre) =
      omega (arith, length-append pre (b'/' ∷ [])) in
    let j : length (pre ++ b'/' ∷ dir) ≡ suc (length pre) + length dir =
      omega (arith, length-append pre (b'/' ∷ dir)) in
    let j' : length ((pre ++ b'/' ∷ dir) ++ b'/' ∷ []) ≡ suc (length (pre ++ b'/' ∷ dir)) =
      omega (arith, length-append (pre ++ b'/' ∷ dir) (b'/' ∷ [])) in
    let l : length (pre ++ b'/' ∷ dir) < length url =
      rw at_slash (omega (arith, length-append (pre ++ b'/' ∷ dir) (b'/' ∷ page))) in
    let d : drop (suc (length pre)) url ≡ dir ++ b'/' ∷ page =
      rw m at (drop_more 0 url (pre ++ b'/' ∷ []) (dir ++ b'/' ∷ page) at_dir) in
    let l1 : lacks b'/' y ≡ true = ground arith in
    let l2 : all_lack ys ≡ true = ground arith in
    let last = find_last_whole b'/' url (pre ++ b'/' ∷ dir) page at_slash (omega arith) w in
    let count : count_chars url (suc (length pre)) (length (pre ++ b'/' ∷ dir)) b'/'
        ≡ length ys + 1 =
      count_known (suc (length pre)) (length (pre ++ b'/' ∷ dir)) b'/' b'/' url dir page d j
      ∙ omega (arith, occurrences-join-slash y ys l1 l2) in
    let k = rw j' at (
      page-Leads url ((pre ++ b'/' ∷ dir) ++ b'/' ∷ []) page (record a { path = y ∷ ys }) b at_page
        q (f page_part)) in
    let loop : path_loop dir
          (resize (count_chars url (suc (length pre)) (length (pre ++ b'/' ∷ dir)) b'/') []) 0
        ≡ y ∷ ys =
      rw (count, resize_fresh (length ys)) (path_loop-join y ys [] l1 l2) in
    more_fuel url _ path_part _ b (1 + length page + 1) (3 + length page)
      (path_phase url b (suc (length pre)) (length (pre ++ b'/' ∷ dir)) dir (y ∷ ys) _ _
        (omega arith) (omega arith) (omega arith) (omega arith) last
        (substr_known (suc (length pre)) (length (pre ++ b'/' ∷ dir)) url dir (b'/' ∷ page) d j)
        loop k)
      (omega arith)
