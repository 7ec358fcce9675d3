-- ===== src/Url/TreeIterator/Backward.antt =====
-- TreeIterator.cpp: the walk backwards from end_tree() when the path is empty.
use oodles.Prelude.{
  ℕ, zero, suc, ◌-◌, ◌^◌, ◌≤◌, ◌<◌, ◌≡◌, refl, true, false, List, [], ◌∷◌, Option, none, some,
  arith, ltb, length,
}
use oodles.Url.Attributes.{
  Attributes, domain_part, path_part, no_part, end, Place, page_place, page_places, Text, is_nil,
}
use oodles.Url.TreeIterator.{
  TreeIterator, create, previous, less_one, repeat, move_pointer_backward, backward_from,
  move_pointer_forward, forward_from,
}
use oodles.Url.TreeIterator.Moves.{at_part}

-- A loop of decrements from an iterator: the places visited until the pointer is NULL. `none` when
-- the fuel or that of a decrement runs out.
unfoldable pub visit_back : Attributes → ℕ → Option TreeIterator → Option (List Place)
visit_back a zero it = none
visit_back a (suc n) none = none
visit_back a (suc n) (some it) =
    let rest = visit_back a n (previous a it) in
    elim it.value [ none ↦ some [] | some p ↦ elim rest [ none ↦ none | some ps ↦ some (p ∷ ps) ] ]

abbrev past_begin : ℕ → TreeIterator
past_begin i = record { internal_state = end; external_state = no_part; value = none; index = i }

back_page :
    (a : Attributes)
    → is_nil a.path ≡ true
    → is_nil a.page ≡ false
    → move_pointer_backward a (past_begin 0)
      ≡ (at_part path_part (some page_place) (less_one (length a.path)), false)
unfolding move_pointer_backward backward_from
back_page a p e = rw e

back_no_page :
    (a : Attributes)
    → is_nil a.page ≡ true
    → move_pointer_backward a (past_begin 0)
      ≡ (at_part path_part none (less_one (length a.path)), true)
unfolding move_pointer_backward backward_from
back_no_page a e = rw e

back_path :
    (a : Attributes) (v : Option Place) (i : ℕ)
    → is_nil a.path ≡ true
    → move_pointer_backward a (at_part path_part v i) ≡ (at_part domain_part v i, true)
unfolding move_pointer_backward backward_from
back_path a v i e = rw e

back_domain :
    (a : Attributes) (v : Option Place) (i : ℕ)
    → length a.domain ≤ i
    → move_pointer_backward a (at_part domain_part v i) ≡ (at_part no_part v 0, true)
unfolding move_pointer_backward backward_from
back_domain a v i h = let e : ltb i (length a.domain) ≡ false = ground arith in rw e (ground arith)

-- The decrements.
end_state : (a : Attributes) → (create a end) ≡ past_begin 0
unfolding create move_pointer_forward forward_from
end_state a = refl

previous-path :
    (a : Attributes) (v : Option Place) (i : ℕ)
    → is_nil a.path ≡ true
    → length a.domain ≤ i
    → previous a (at_part path_part v i) ≡ some (past_begin 0)
unfolding previous repeat
previous-path a v i e h = rw (back_path a v i e, back_domain a v i h)

previous-end_page :
    (a : Attributes)
    → is_nil a.path ≡ true
    → is_nil a.page ≡ false
    → previous a (past_begin 0)
      ≡ some (at_part path_part (some page_place) (less_one (length a.path)))
unfolding previous repeat
previous-end_page a p e = rw (back_page a p e)

previous-end_bare :
    (a : Attributes)
    → is_nil a.path ≡ true
    → is_nil a.page ≡ true
    → length a.domain ≤ less_one (length a.path)
    → previous a (past_begin 0) ≡ some (past_begin 0)
unfolding previous repeat
previous-end_bare a p e h =
    let i = less_one (length a.path) in
    rw (back_no_page a e, back_path a none i p, back_domain a none i h)

visit_back-end : (a : Attributes) (n : ℕ) → visit_back a (suc n) (some (past_begin 0)) ≡ some []
unfolding visit_back
visit_back-end a n = refl

visit_back_cons :
    (a : Attributes) (n : ℕ) (it : TreeIterator) (p : Place) (o : Option TreeIterator)
    (ps : List Place)
    → it.value ≡ some p
    → previous a it ≡ o
    → visit_back a n o ≡ some ps
    → visit_back a (suc n) (some it) ≡ some (p ∷ ps)
unfolding visit_back
visit_back_cons a n it p o ps e f g = rw (e, f, g)

bare :
    (a : Attributes) (n : ℕ) (t : Text)
    → a.page ≡ t
    → is_nil a.path ≡ true
    → length a.domain ≤ less_one (length a.path)
    → visit_back a (suc (suc n)) (previous a (past_begin 0)) ≡ some (page_places t)
bare a n [] e p d = rw (previous-end_bare a p (rw e) d) (visit_back-end a (suc n))
bare a n (c ∷ cs) e p d = rw (previous-end_page a p (rw e)) (
    visit_back_cons a (suc n) _ page_place _ [] refl
      (previous-path a (some page_place) (less_one (length a.path)) p d) (visit_back-end a n))

-- For a URL with an empty path, whose domain is shorter than 2^64, the walk back from end_tree()
-- visits the page unless it is empty, and then stops: no part of the domain is visited
-- (with fuel for two steps or more).
pub visit_back-empty_path :
    (a : Attributes) (n : ℕ)
    → a.path ≡ []
    → length a.domain < 2 ^ 64
    → 2 ≤ n
    → visit_back a n (previous a (create a end)) ≡ some (page_places a.page)
visit_back-empty_path a n p d h =
    let e : n ≡ suc (suc (n - 2)) = omega arith in
    let b : length a.domain ≤ less_one (length a.path) = rw p (omega arith) in
    rw (e, end_state a) (bare a (n - 2) a.page refl (rw p) b)
