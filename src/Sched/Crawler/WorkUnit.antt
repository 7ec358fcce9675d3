-- ===== src/Sched/Crawler/WorkUnit.antt =====
-- sched/Crawler.cpp: adding a URL to the work unit and taking it out.
use oodles.Prelude.{
  ℕ, zero, suc, ◌%◌, ◌^◌, ◌≤◌, ◌≡◌, refl, ap, List, [], ◌∷◌, some, arith, ltb, ==_refl, Bool-cases,
  inl, inr, length, get_elem?,
}
use oodles.Sched.Crawler.{Crawler, assigned, lower_bound, insert, erase, add_url, remove_url}

abbrev pub From : ℕ → List ℕ → Type 0
From a [] = Unit
From a (u ∷ us) = (a ≤ u) × From u us

-- The vector is sorted.
abbrev pub Sorted : List ℕ → Type 0
Sorted us = From 0 us

insert-From :
    (a url : ℕ) (us : List ℕ) → a ≤ url → From a us → From a (insert us (lower_bound us url) url)
unfolding insert lower_bound
insert-From a url [] h s = (h, tt)
insert-From a url (u ∷ us) h s = elim (Bool-cases (ltb u url)) [
  | inl e ↦ rw (lower_bound, e) (s.0, insert-From u url us (ground arith) s.1)
  | inr e ↦ rw (lower_bound, e) (h, (ground arith, s.1))
]

-- The position found for an address is where it was inserted.
lower_bound-insert :
    (url : ℕ) (us : List ℕ)
    → (lower_bound (insert us (lower_bound us url) url) url ≡ lower_bound us url)
unfolding insert lower_bound
lower_bound-insert url [] = ground arith
lower_bound-insert url (u ∷ us) = elim (Bool-cases (ltb u url)) [
  | inl e ↦ rw (lower_bound, e) (rw e (ap (λ k. suc k) (lower_bound-insert url us)))
  | inr e ↦ rw (lower_bound, e) (ground arith)
]

erase-insert : (us : List ℕ) (i url : ℕ) → i ≤ length us → erase (insert us i url) i ≡ us
unfolding insert erase
erase-insert us zero url h = refl
erase-insert [] (suc i) url h = absurd (omega arith)
erase-insert (u ∷ us) (suc i) url h = ap (λ l. u ∷ l) (erase-insert us i url (omega arith))

get_elem?-insert :
    (us : List ℕ) (i url : ℕ) → i ≤ length us → get_elem? (insert us i url) i ≡ some url
unfolding insert
get_elem?-insert us zero url h = refl
get_elem?-insert [] (suc i) url h = absurd (omega arith)
get_elem?-insert (u ∷ us) (suc i) url h = get_elem?-insert us i url (omega arith)

lower_bound-le : (us : List ℕ) (url : ℕ) → lower_bound us url ≤ length us
unfolding lower_bound
lower_bound-le [] url = omega arith
lower_bound-le (u ∷ us) url = ground (arith, lower_bound-le us url)

length-insert :
    (us : List ℕ) (i url : ℕ) → i ≤ length us → length (insert us i url) ≡ suc (length us)
unfolding insert
length-insert us zero url h = refl
length-insert [] (suc i) url h = refl
length-insert (u ∷ us) (suc i) url h = ap (λ k. suc k) (length-insert us i url (omega arith))

remove_at :
    (c : Crawler) (url i : ℕ)
    → lower_bound (insert c.work_unit i url) url ≡ i
    → i ≤ length c.work_unit
    → remove_url (record c { work_unit = insert c.work_unit i url }) url ≡ some (c, assigned c)
unfolding remove_url
remove_at c url i e h = rw (
  remove_url,
  e,
  get_elem?-insert c.work_unit i url h,
  erase-insert c.work_unit i url h,
  ==_refl url,
)

-- Adding a URL to a sorted work unit keeps it sorted, one longer, and returns its size, modulo 2^16;
-- removing that URL then passes the assertion, restores the crawler and returns its former size.
pub remove_url-add_url :
    (c : Crawler) (url : ℕ)
    → Sorted c.work_unit
    → Sorted (add_url c url).0.work_unit
      × ((add_url c url).1 ≡ suc (length c.work_unit) % 2 ^ 16)
      × (remove_url (add_url c url).0 url ≡ some (c, assigned c))
unfolding add_url remove_url
remove_url-add_url c url s =
    let us = c.work_unit in
    let i = lower_bound us url in
    let le = lower_bound-le us url in
    (
      insert-From 0 url us (omega arith) s,
      ap (λ n. n % 2 ^ 16) (length-insert us i url le),
      remove_at c url i (lower_bound-insert url us) le,
    )

pub length-add_url :
    (c : Crawler) (url : ℕ) → length (add_url c url).0.work_unit ≡ suc (length c.work_unit)
unfolding add_url
length-add_url c url =
    length-insert c.work_unit (lower_bound c.work_unit url) url (lower_bound-le c.work_unit url)
