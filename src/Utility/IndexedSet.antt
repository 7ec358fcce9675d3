-- ===== src/Utility/IndexedSet.antt =====
-- utility/IndexedSet.hpp and IndexedSet.ipp: the distinct items of a sequence, and by position the
-- item inserted there. The order of the template is a parameter.
use oodles.Prelude.{
  ℕ, zero, suc, ◌+◌, ◌%◌, ◌^◌, ◌≤◌, ◌<◌, ◌≡◌, refl, sym, ap, subst, ◌∙◌, Bool, true, false, not,
  ◌&&◌, ◌||◌, List, [], ◌∷◌, ◌++◌, Option, none, some, arith, if◌then◌else◌, Bool-cases,
  Option-cases, inl, inr, length, get_elem?, length-append, get_elem?-append_some,
  get_elem?-append_length, get_elem?-lt,
}
mod Tests

-- `items` has each node of the set with its index, `locations` the data of the node that each
-- location points to.
pub record IndexedSet {ℓ} (A : Type ℓ) : Type ℓ where
  pub unique : Bool
  pub items : List (A × ℕ)
  pub indicies : List ℕ
  pub locations : List A

unfoldable pub create {ℓ} : {A : Type ℓ} → Bool → IndexedSet A
create unique = record { unique = unique; items = []; indicies = []; locations = [] }

abbrev pub size {ℓ} : {A : Type ℓ} → IndexedSet A → ℕ
size s = length s.indicies

-- `items.find`: neither is less than the other.
unfoldable pub find {ℓ} : {A : Type ℓ} → (A → A → Bool) → List (A × ℕ) → A → Option (A × ℕ)
find less [] x = none
find less ((y, j) ∷ ys) x =
    let rest = find less ys x in if not (less y x) && not (less x y) then some (y, j) else rest

-- The tail of insert: the index goes into `indicies`, as a uint32_t.
abbrev pub indexed {ℓ} : {A : Type ℓ} → IndexedSet A → ℕ → Bool → IndexedSet A × ℕ × Bool
indexed s i new = (
  if not s.unique || new then record s { indicies = s.indicies ++ i % 2 ^ 32 ∷ [] } else s,
  i,
  new,
)

abbrev pub inserted {ℓ} : {A : Type ℓ} → IndexedSet A → A → Option (A × ℕ) → IndexedSet A × ℕ × Bool
inserted s x none =
    indexed
      (record s { items = (x, length s.locations) ∷ s.items; locations = s.locations ++ x ∷ [] })
      (length s.locations) true
inserted s x (some (y, j)) = indexed s j false

unfoldable pub insert {ℓ} :
    {A : Type ℓ} → (A → A → Bool) → IndexedSet A → A → IndexedSet A × ℕ × Bool
unfolding find
insert less s x = inserted s x (find less s.items x)

abbrev pub location {ℓ} : {A : Type ℓ} → List A → Option ℕ → Option A
location ls none = none
location ls (some j) = get_elem? ls j

-- operator[]; `none` out of range.
unfoldable pub item {ℓ} : {A : Type ℓ} → IndexedSet A → ℕ → Option A
item s i = location s.locations (get_elem? s.indicies i)

-- Each node's index is the location that points to it.
abbrev pub Placed {ℓ} : {A : Type ℓ} → List A → List (A × ℕ) → Type ℓ
Placed ls [] = Unit
Placed ls ((y, j) ∷ ys) = (get_elem? ls j ≡ some y) × Placed ls ys

pub Placed-append {ℓ} :
    {A : Type ℓ} (x : A) (ls : List A) (ys : List (A × ℕ)) → Placed ls ys → Placed (ls ++ x ∷ []) ys
Placed-append x ls [] p = tt
Placed-append x ls ((y, j) ∷ ys) p =
    (get_elem?-append_some ls (x ∷ []) j y p.0, Placed-append x ls ys p.1)

same_node {ℓ} : {A : Type ℓ} (p q : A × ℕ) → some p ≡ some q → (p.0 ≡ q.0) × (p.1 ≡ q.1)
same_node p q e = (cc e, cc e)

pub find-Placed {ℓ} :
    {A : Type ℓ} (less : A → A → Bool) (ls : List A) (ys : List (A × ℕ)) (x y : A) (j : ℕ)
    → Placed ls ys
    → find less ys x ≡ some (y, j)
    → (get_elem? ls j ≡ some y) × ((not (less y x) && not (less x y)) ≡ true)
unfolding find
find-Placed less ls [] x y j p e = absurd (cc e)
find-Placed {A = A} less ls ((z, k) ∷ ys) x y j p e =
    elim (Bool-cases (not (less z x) && not (less x z))) [
      | inl b ↦
          let n : A × ℕ = (z, k) in
          let m : A × ℕ = (y, j) in
          let q : some n ≡ some m = rw (← e, find, b) in
          let a : z ≡ y = (same_node n m q).0 in
          let c : k ≡ j = (same_node n m q).1 in
          (
            subst (λ i. get_elem? ls i ≡ some y) c (p.0 ∙ ap some a),
            subst (λ w. (not (less w x) && not (less x w)) ≡ true) a b,
          )
      | inr b ↦
          let m : A × ℕ = (y, j) in
          let q : find less ys x ≡ some m = rw (← e, find, b) in find-Placed less ls ys x y j p.1 q
    ]

item-grown {ℓ} :
    {A : Type ℓ} (ls ms : List A) (k : ℕ)
    → (js : List ℕ) (i : ℕ) (z : A) → location ls (get_elem? js i) ≡ some z
    → location (ls ++ ms) (get_elem? (js ++ k ∷ []) i) ≡ some z
item-grown ls ms k [] i z e = absurd (cc e)
item-grown ls ms k (j ∷ js) zero z e = get_elem?-append_some ls ms j z e
item-grown ls ms k (j ∷ js) (suc i) z e = item-grown ls ms k js i z e

-- What insert leaves: nodes placed, what stands at each position, and the new item at the end.
Inserts {ℓ} : {A : Type ℓ} → (A → A → Bool) → IndexedSet A → A → IndexedSet A → Type ℓ
Inserts {A = A} less s x t =
    Placed t.locations t.items
    × ((i : ℕ) (z : A) → item s i ≡ some z → item t i ≡ some z)
    × ((y : A) × (item t (size s) ≡ some y) × ((not (less y x) && not (less x y)) ≡ true))

item-last {ℓ} :
    {A : Type ℓ} (ls : List A) (js : List ℕ) (k : ℕ) (y : A)
    → get_elem? ls k ≡ some y
    → k < 2 ^ 32
    → location ls (get_elem? (js ++ k % 2 ^ 32 ∷ []) (length js)) ≡ some y
item-last ls js k y e b =
    let w : k % 2 ^ 32 ≡ k = omega arith in rw (get_elem?-append_length js (k % 2 ^ 32) [], w) e

nil_append {ℓ} : {A : Type ℓ} (xs : List A) → xs ++ [] ≡ xs
nil_append [] = refl
nil_append (x ∷ xs) = ap (λ l. x ∷ l) (nil_append xs)

pushed {ℓ} :
    {A : Type ℓ} (less : A → A → Bool) (s : IndexedSet A) (x y : A) (j : ℕ) (ls ms : List A)
    (ns : List (A × ℕ))
    → s.locations ++ ms ≡ ls
    → Placed ls ns
    → get_elem? ls j ≡ some y
    → j < 2 ^ 32
    → (not (less y x) && not (less x y)) ≡ true
    → Inserts less s x
        (record s { items = ns; locations = ls; indicies = s.indicies ++ j % 2 ^ 32 ∷ [] })
unfolding Inserts item
pushed less s x y j ls ms ns g p e b h = (
  p,
  λ i z f.
      subst (λ l. location l (get_elem? (s.indicies ++ j % 2 ^ 32 ∷ []) i) ≡ some z) g
        (item-grown s.locations ms (j % 2 ^ 32) s.indicies i z f),
  (y, item-last ls s.indicies j y e b, h),
)

indexed-kept {ℓ} :
    {A : Type ℓ} (s : IndexedSet A) (i : ℕ) (new : Bool)
    → s.unique ≡ false
    → (indexed s i new).0 ≡ record s { indicies = s.indicies ++ i % 2 ^ 32 ∷ [] }
indexed-kept s i new u = let e : (not s.unique || new) ≡ true = rw u in rw e

insert-Inserts {ℓ} :
    {A : Type ℓ} (less : A → A → Bool) (s : IndexedSet A) (x : A)
    → ((a : A) → less a a ≡ false)
    → s.unique ≡ false
    → length s.locations < 2 ^ 32
    → Placed s.locations s.items
    → Inserts less s x (insert less s x).0
unfolding insert
insert-Inserts less s x r u b p = elim (Option-cases (find less s.items x)) [
  | inl e ↦
      let k = length s.locations in
      let ls = s.locations ++ x ∷ [] in
      let last = get_elem?-append_length s.locations x [] in
      rw (insert, e, indexed-kept (record s { items = (x, k) ∷ s.items; locations = ls }) k true u)
        (pushed less s x x k ls (x ∷ []) ((x, k) ∷ s.items) refl
          (last, Placed-append x s.locations s.items p) last b (rw (r x)))
  | inr (n, e) ↦
      let f = find-Placed less s.locations s.items x n.0 n.1 p e in
      let l = get_elem?-lt s.locations n.1 n.0 f.0 in
      rw (insert, e, indexed-kept s n.1 false u)
        (pushed less s x n.0 n.1 s.locations [] s.items (nil_append s.locations) p f.0
          (omega (arith, l)) f.1)
]

-- Where the order is irreflexive and there are fewer than 2^32 distinct items, inserting into a set
-- that is not `unique` keeps the item at each position.
pub insert-item_kept {ℓ} :
    {A : Type ℓ} (less : A → A → Bool) (s : IndexedSet A) (x : A) (i : ℕ) (z : A)
    → ((a : A) → less a a ≡ false)
    → s.unique ≡ false
    → length s.locations < 2 ^ 32
    → Placed s.locations s.items
    → item s i ≡ some z
    → item (insert less s x).0 i ≡ some z
unfolding Inserts
insert-item_kept less s x i z r u b p e = (insert-Inserts less s x r u b p).1 i z e

-- Where the order is irreflexive, the set is not `unique`, there are fewer than 2^32 locations and
-- each node's index is the location that points to it, inserting an item adds a last position whose
-- item is equivalent to the one inserted, and each node's index is still the location that points to
-- it.
pub insert-item_last {ℓ} :
    {A : Type ℓ} (less : A → A → Bool) (s : IndexedSet A) (x : A)
    → ((a : A) → less a a ≡ false)
    → s.unique ≡ false
    → length s.locations < 2 ^ 32
    → Placed s.locations s.items
    → (y : A) × (item (insert less s x).0 (size s) ≡ some y)
      × ((not (less y x) && not (less x y)) ≡ true)
      × Placed (insert less s x).0.locations (insert less s x).0.items
unfolding Inserts
insert-item_last less s x r u b p =
    let q = insert-Inserts less s x r u b p in let (y, at, same) = q.2 in (y, at, same, q.0)
