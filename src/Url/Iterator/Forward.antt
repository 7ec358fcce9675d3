-- ===== src/Url/Iterator/Forward.antt =====
-- Iterator.cpp: what a loop from begin() to end() visits.
use oodles.Prelude.{
  ℕ, zero, suc, ◌+◌, ◌-◌, ◌≤◌, ◌≡◌, refl, true, false, List, [], ◌∷◌, ◌++◌, Option, none, some,
  arith, if◌then◌else◌, ltb, length,
}
use oodles.Url.Attributes.{
  Attributes, Part, domain_part, path_part, no_part, transient, begin, end, Place, scheme_place,
  username_place, password_place, port_place, page_place, domain_place, path_place, places,
  page_places, Text, is_nil,
}
use oodles.Url.Iterator.{Iterator, create, next}

-- `for (i = begin() ; i != end() ; ++i)`: the places visited. `none` when the fuel or that of an
-- increment runs out.
unfoldable pub visit : Attributes → ℕ → Option Iterator → Option (List Place)
visit a zero it = none
visit a (suc n) none = none
visit a (suc n) (some it) =
    let rest = visit a n (next a it) in
    elim it.value [ none ↦ some [] | some p ↦ elim rest [ none ↦ none | some ps ↦ some (p ∷ ps) ] ]

abbrev pub in_order : Attributes → List Place
in_order a =
    scheme_place
    ∷ username_place
    ∷ password_place
    ∷ (places domain_place 0 a.domain
        ++ (port_place ∷ (places path_place 0 a.path ++ page_places a.page)))

abbrev at_part : Part → Option Place → ℕ → Iterator
at_part e v i = record { internal_state = transient; external_state = e; value = v; index = i }

abbrev past_end : Iterator
past_end = record { internal_state = end; external_state = no_part; value = none; index = 0 }

visit_cons :
    (a : Attributes) (n : ℕ) (it : Iterator) (p : Place) (o : Option Iterator) (ps : List Place)
    → it.value ≡ some p
    → next a it ≡ o
    → visit a n o ≡ some ps
    → visit a (suc n) (some it) ≡ some (p ∷ ps)
unfolding visit
visit_cons a n it p o ps e f g = rw (e, f, g)

visit-past_end :
    (a : Attributes) (n i : ℕ) → visit a (suc n) (some (record past_end { index = i })) ≡ some []
unfolding visit
visit-past_end a n i = refl

-- The increments that the loop meets.
next_domain :
    (a : Attributes) (v : Option Place) (i : ℕ)
    → next a (at_part domain_part v i) ≡ (
        if ltb i (length a.domain)
        then some (at_part domain_part (some (domain_place i)) (i + 1))
        else some (at_part path_part (some port_place) 0))
unfolding next
next_domain a v i = ground arith

next_path :
    (a : Attributes) (v : Option Place) (i : ℕ)
    → next a (at_part path_part v i) ≡ (
        if ltb i (length a.path)
        then some (at_part path_part (some (path_place i)) (i + 1))
        else (if is_nil a.page then some past_end else some (at_part no_part (some page_place) 0)))
unfolding next
next_path a v i = ground arith

next_last : (a : Attributes) (p : Place) → next a (at_part no_part (some p) 0) ≡ some past_end
unfolding next
next_last a p = refl

page_loop :
    (a : Attributes) (n : ℕ) (t : List ℕ)
    → a.page ≡ t
    → visit a
        (suc (suc n))
        (if is_nil t then some past_end else some (at_part no_part (some page_place) 0))
      ≡ some (page_places t)
page_loop a n [] e = visit-past_end a (suc n) 0
page_loop a n (c ∷ cs) e =
    visit_cons a (suc n) (at_part no_part (some page_place) 0) page_place _ [] refl
      (next_last a page_place) (visit-past_end a n 0)

-- A round for each element, and `n` more.
abbrev pub rounds {ℓ} : {A : Type ℓ} → List A → ℕ → ℕ
rounds [] n = n
rounds (x ∷ xs) n = suc (rounds xs n)

pub rounds-length {ℓ} : {A : Type ℓ} (xs : List A) (n : ℕ) → rounds xs n ≡ length xs + n
rounds-length [] n = omega arith
rounds-length (x ∷ xs) n = omega (arith, rounds-length xs n)

not_below : (i m : ℕ) → i + 0 ≡ m → ltb i m ≡ false
not_below i m e = ground arith

is_below : (i k m : ℕ) → i + suc k ≡ m → ltb i m ≡ true
is_below i k m e = ground arith

path_loop :
    (a : Attributes) (n i : ℕ) (v : Option Place) (xs : List Text)
    → i + length xs ≡ length a.path
    → visit a (rounds xs (suc (suc n))) (next a (at_part path_part v i))
      ≡ some (places path_place i xs ++ page_places a.page)
path_loop a n i v [] e =
    rw (next_path a v i, not_below i (length a.path) e) (page_loop a n a.page refl)
path_loop a n i v (x ∷ xs) e =
    rw (next_path a v i, is_below i (length xs) (length a.path) e)
      (visit_cons a (rounds xs (suc (suc n))) _ (path_place i) _ _ refl refl
        (path_loop a n (i + 1) (some (path_place i)) xs (omega arith)))

from_port :
    (a : Attributes) (n : ℕ)
    → visit a (suc (rounds a.path (suc (suc n)))) (some (at_part path_part (some port_place) 0))
      ≡ some (port_place ∷ (places path_place 0 a.path ++ page_places a.page))
from_port a n =
    visit_cons a (rounds a.path (suc (suc n))) _ port_place _ _ refl refl
      (path_loop a n 0 (some port_place) a.path (omega arith))

domain_loop :
    (a : Attributes) (n i : ℕ) (v : Option Place) (xs : List Text)
    → i + length xs ≡ length a.domain
    → visit a (rounds xs (suc (rounds a.path (suc (suc n))))) (next a (at_part domain_part v i))
      ≡ some (
          places domain_place i xs
          ++ (port_place ∷ (places path_place 0 a.path ++ page_places a.page)))
domain_loop a n i v [] e = rw (next_domain a v i, not_below i (length a.domain) e) (from_port a n)
domain_loop a n i v (x ∷ xs) e =
    rw (next_domain a v i, is_below i (length xs) (length a.domain) e)
      (visit_cons a (rounds xs (suc (rounds a.path (suc (suc n))))) _ (domain_place i) _ _ refl refl
        (domain_loop a n (i + 1) (some (domain_place i)) xs (omega arith)))

from_begin :
    (a : Attributes) (n : ℕ)
    → visit a
        (suc (suc (suc (rounds a.domain (suc (rounds a.path (suc (suc n))))))))
        (some (create a begin))
      ≡ some (in_order a)
unfolding create next
from_begin a n =
    let m = rounds a.domain (suc (rounds a.path (suc (suc n)))) in
    visit_cons a (suc (suc m)) _ scheme_place _ _ refl refl (
      visit_cons a (suc m) _ username_place _ _ refl refl (
        visit_cons a m _ password_place _ _ refl refl
          (domain_loop a n 0 (some password_place) a.domain (omega arith))))

-- The loop from begin() to end() visits scheme, username and password, each part of the domain, the
-- port, each part of the path, and the page unless it is empty, in this order, and ends,
-- given fuel for all of these and the step to the end.
pub visit-in_order :
    (a : Attributes) (n : ℕ)
    → length a.domain + length a.path + 6 ≤ n
    → visit a n (some (create a begin)) ≡ some (in_order a)
visit-in_order a n h =
    let k = n - (length a.domain + length a.path + 6) in
    let e : n ≡ suc (suc (suc (rounds a.domain (suc (rounds a.path (suc (suc k))))))) = omega (
      arith,
      rounds-length a.domain (suc (rounds a.path (suc (suc k)))),
      rounds-length a.path (suc (suc k)),
    ) in
    rw e (from_begin a k)
