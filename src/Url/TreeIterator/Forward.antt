-- ===== src/Url/TreeIterator/Forward.antt =====
-- TreeIterator.cpp: what a loop from begin_tree() to end_tree() visits.
use oodles.Prelude.{
  ℕ, zero, suc, ◌+◌, ◌-◌, ◌^◌, ◌≤◌, ◌<◌, ◌≡◌, refl, sym, ap, ◌∙◌, true, false, List, [], ◌∷◌, ◌++◌,
  Option, none, some, arith, if◌then◌else◌, length, Bool-cases, inl, inr,
}
use oodles.Url.Attributes.{
  Attributes, domain_part, path_part, begin, Place, page_place, domain_place, path_place, places,
  page_places, Text,
}
use oodles.Url.TreeIterator.{TreeIterator, create, next, less_one, move_pointer_forward}
use oodles.Url.Iterator.Forward.{rounds, rounds-length}
use oodles.Url.TreeIterator.Moves.{
  at_part, past_end, less_one_small, next-move, next-move_move, next-move_move_move, address_more,
  address_last, name_more, name_last, path_more, path_done, page_shown, page_absent, finish,
}

-- `for (i = begin_tree() ; i != end_tree() ; ++i)`: the places visited. `none` when the fuel or that
-- of an increment runs out.
unfoldable pub visit : Attributes → ℕ → Option TreeIterator → Option (List Place)
visit a zero it = none
visit a (suc n) none = none
visit a (suc n) (some it) =
    let rest = visit a n (next a it) in
    elim it.value [ none ↦ some [] | some p ↦ elim rest [ none ↦ none | some ps ↦ some (p ∷ ps) ] ]

-- The domain's places, top-level domain first.
abbrev pub countdown : ℕ → List Place
countdown zero = []
countdown (suc n) = domain_place n ∷ countdown n

abbrev pub domain_order : Attributes → List Place
domain_order a = if a.ip then places domain_place 0 a.domain else countdown (length a.domain)

abbrev pub tree_order : Attributes → List Place
tree_order a = domain_order a ++ (places path_place 0 a.path ++ page_places a.page)

visit_cons :
    (a : Attributes) (n : ℕ) (it : TreeIterator) (p : Place) (o : Option TreeIterator)
    (ps : List Place)
    → it.value ≡ some p
    → next a it ≡ o
    → visit a n o ≡ some ps
    → visit a (suc n) (some it) ≡ some (p ∷ ps)
unfolding visit
visit_cons a n it p o ps e f g = rw (e, f, g)

visit-past_end : (a : Attributes) (n : ℕ) → visit a (suc n) (some past_end) ≡ some []
unfolding visit
visit-past_end a n = refl

-- The loops, with the fuel they take.
page_loop :
    (a : Attributes) (n i : ℕ) (v : Option Place) (t : Text)
    → a.page ≡ t
    → length a.path ≤ i
    → visit a (suc (suc n)) (next a (at_part path_part v i)) ≡ some (page_places t)
page_loop a n i v [] e h =
    rw (next-move_move_move a _ _ _ _ _ _ (path_done a v i h) (page_absent a v (rw e)) (finish a v))
      (visit-past_end a (suc n))
page_loop a n i v (c ∷ cs) e h =
    rw (next-move_move a _ _ _ _ _ (path_done a v i h) (page_shown a v (rw e))) (
      visit_cons a (suc n) _ page_place _ [] refl (next-move a _ _ _ _ (finish a (some page_place)))
        (visit-past_end a n))

path_loop :
    (a : Attributes) (n i : ℕ) (v : Option Place) (xs : List Text)
    → i + length xs ≡ length a.path
    → length a.path < 2 ^ 64
    → visit a (rounds xs (suc (suc n))) (next a (at_part path_part v i))
      ≡ some (places path_place i xs ++ page_places a.page)
path_loop a n i v [] e b = page_loop a n i v a.page refl (omega arith)
path_loop a n i v (x ∷ xs) e b = rw (next-move a _ _ _ _ (path_more a v i (omega arith) b)) (
    visit_cons a (rounds xs (suc (suc n))) _ (path_place i) _ _ refl refl
      (path_loop a n (i + 1) (some (path_place i)) xs (omega arith) b))

abbrev after_domain : Attributes → List Place
after_domain a = places path_place 0 a.path ++ page_places a.page

address_loop :
    (a : Attributes) (n i : ℕ) (v : Option Place) (x : Text) (xs : List Text)
    → a.ip ≡ true
    → i + suc (length xs) ≡ length a.domain
    → length a.domain < 2 ^ 64
    → length a.path < 2 ^ 64
    → visit a (suc (rounds xs (rounds a.path (suc (suc n))))) (next a (at_part domain_part v i))
      ≡ some (domain_place i ∷ (places domain_place (i + 1) xs ++ after_domain a))
address_loop a n i v x [] p e b c =
    rw (next-move a _ _ _ _ (address_last a v i p (omega arith) b)) (
      visit_cons a _ _ (domain_place i) _ _ refl refl
        (path_loop a n 0 (some (domain_place i)) a.path (omega arith) c))
address_loop a n i v x (y ∷ xs) p e b c =
    rw (next-move a _ _ _ _ (address_more a v i p (omega arith) b)) (
      visit_cons a _ _ (domain_place i) _ _ refl refl
        (address_loop a n (i + 1) (some (domain_place i)) y xs p (omega arith) b c))

-- A round for each number below `i`, and `n` more.
abbrev countdown_rounds : ℕ → ℕ → ℕ
countdown_rounds zero n = n
countdown_rounds (suc i) n = suc (countdown_rounds i n)

countdown_rounds_lem : (i n : ℕ) → countdown_rounds i n ≡ i + n
countdown_rounds_lem zero n = omega arith
countdown_rounds_lem (suc i) n = omega (arith, countdown_rounds_lem i n)

name_loop :
    (a : Attributes) (n i : ℕ) (v : Option Place)
    → a.ip ≡ false
    → i < length a.domain
    → length a.path < 2 ^ 64
    → visit a
        (suc (countdown_rounds i (rounds a.path (suc (suc n)))))
        (next a (at_part domain_part v i))
      ≡ some (countdown (suc i) ++ after_domain a)
name_loop a n zero v p e c = rw (next-move a _ _ _ _ (name_last a v p e)) (
    visit_cons a _ _ (domain_place 0) _ _ refl refl
      (path_loop a n 0 (some (domain_place 0)) a.path (omega arith) c))
name_loop a n (suc i) v p e c = rw (next-move a _ _ _ _ (name_more a v i p e)) (
    visit_cons a _ _ (domain_place (suc i)) _ _ refl refl
      (name_loop a n i (some (domain_place (suc i))) p (omega arith) c))

-- The constructor's own move is an increment from the first index.
start :
    (a : Attributes) (i : ℕ) (it : TreeIterator)
    → (if a.ip then 0 else less_one (length a.domain)) ≡ i
    → move_pointer_forward a (at_part domain_part none i) ≡ (it, false)
    → some (create a begin) ≡ next a (at_part domain_part none i)
unfolding create move_pointer_forward
start a i it e f =
    ap (λ j. some (move_pointer_forward a (at_part domain_part none j)).0) e
    ∙ ap (λ p. some p.0) f
    ∙ sym (next-move a _ _ _ it f)

start_address :
    (a : Attributes) (n : ℕ)
    → a.ip ≡ true
    → length a.domain ≡ suc n
    → length a.domain < 2 ^ 64
    → some (create a begin) ≡ next a (at_part domain_part none 0)
start_address a zero p e b = start a 0 _ (rw p) (address_last a none 0 p (omega arith) b)
start_address a (suc n) p e b = start a 0 _ (rw p) (address_more a none 0 p (omega arith) b)

start_name :
    (a : Attributes) (i : ℕ)
    → a.ip ≡ false
    → length a.domain ≡ suc i
    → length a.domain < 2 ^ 64
    → some (create a begin) ≡ next a (at_part domain_part none i)
start_name a zero p e b =
    start a 0 _ (rw (p, e) (less_one_small 0 (omega arith))) (name_last a none p (omega arith))
start_name a (suc i) p e b =
    start a (suc i) _ (rw (p, e) (less_one_small (suc i) (omega arith)))
      (name_more a none i p (omega arith))

from_begin_address :
    (a : Attributes) (n : ℕ) (x : Text) (xs : List Text)
    → a.ip ≡ true
    → a.domain ≡ x ∷ xs
    → length a.domain < 2 ^ 64
    → length a.path < 2 ^ 64
    → visit a (suc (rounds xs (rounds a.path (suc (suc n))))) (some (create a begin))
      ≡ some (tree_order a)
from_begin_address a n x xs p e b c =
    let l : length a.domain ≡ suc (length xs) = ap length e in
    let f : tree_order a ≡ domain_place 0 ∷ (places domain_place 1 xs ++ after_domain a) =
      rw (p, e) in
    rw (f, start_address a (length xs) p l b) (address_loop a n 0 none x xs p (omega arith) b c)

from_begin_name :
    (a : Attributes) (n i : ℕ)
    → a.ip ≡ false
    → length a.domain ≡ suc i
    → length a.domain < 2 ^ 64
    → length a.path < 2 ^ 64
    → visit a (suc (countdown_rounds i (rounds a.path (suc (suc n))))) (some (create a begin))
      ≡ some (tree_order a)
from_begin_name a n i p e b c =
    let f : tree_order a ≡ countdown (suc i) ++ after_domain a = rw (p, e) in
    rw (f, start_name a i p e b) (name_loop a n i none p (omega arith) c)

enough_address :
    (a : Attributes) (n : ℕ) (d : List Text)
    → a.ip ≡ true
    → a.domain ≡ d
    → 0 < length d
    → length a.domain < 2 ^ 64
    → length a.path < 2 ^ 64
    → length a.domain + length a.path + 2 ≤ n
    → visit a n (some (create a begin)) ≡ some (tree_order a)
enough_address a n [] p e d b c h = ground arith
enough_address a n (x ∷ xs) p e d b c h =
    let k = n - (length a.domain + length a.path + 2) in
    let l : length a.domain ≡ suc (length xs) = ap length e in
    let f : n ≡ suc (rounds xs (rounds a.path (suc (suc k)))) =
      omega (
        arith,
        rounds-length xs (rounds a.path (suc (suc k))),
        rounds-length a.path (suc (suc k)),
      ) in
    rw f (from_begin_address a k x xs p e b c)

enough_name :
    (a : Attributes) (n : ℕ)
    → a.ip ≡ false
    → 0 < length a.domain
    → length a.domain < 2 ^ 64
    → length a.path < 2 ^ 64
    → length a.domain + length a.path + 2 ≤ n
    → visit a n (some (create a begin)) ≡ some (tree_order a)
enough_name a n p d b c h =
    let k = n - (length a.domain + length a.path + 2) in
    let i = length a.domain - 1 in
    let f : n ≡ suc (countdown_rounds i (rounds a.path (suc (suc k)))) = omega (
      arith,
      countdown_rounds_lem i (rounds a.path (suc (suc k))),
      rounds-length a.path (suc (suc k)),
    ) in
    rw f (from_begin_name a k i p (omega arith) b c)

-- For a URL with a domain, whose vectors are shorter than 2^64, the loop from begin_tree() to
-- end_tree() visits the domain from the top-level domain down (an address from its first octet on),
-- each part of the path, and the page unless it is empty, in this order, and ends,
-- given fuel for all of these and the step to the end.
pub visit-tree_order :
    (a : Attributes) (n : ℕ)
    → 0 < length a.domain
    → length a.domain < 2 ^ 64
    → length a.path < 2 ^ 64
    → length a.domain + length a.path + 2 ≤ n
    → visit a n (some (create a begin)) ≡ some (tree_order a)
visit-tree_order a n d b c h = elim (Bool-cases a.ip) [
  | inl p ↦ enough_address a n a.domain p refl d b c h
  | inr p ↦ enough_name a n p d b c h
]
