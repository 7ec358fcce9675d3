-- ===== src/Utility/Tree/Children.antt =====
-- utility/Node.ipp: create_child finds the child with a value or adds one.
use mathlib.Core.Path.{fun_ext}
use oodles.Prelude.{
  ap, ◌∙◌, ℕ, suc, ◌+◌, ◌%◌, ◌^◌, ◌<◌, ◌≤◌, ◌≡◌, ◌≢◌, refl, Bool, true, false, not, ◌&&◌, ◌||◌,
  List, [], ◌∷◌, ◌++◌, Option, none, some, ltb, ◌==◌, ==_refl, if◌then◌else◌, length, length-append,
  get_elem?, get_elem?-lt, get_elem?-append_some, get_elem?-append_length, arith, Bool-cases, inl,
  inr,
}
use oodles.Url.Attributes.{Text}
use oodles.Url.Parser.Scan.{text_less, same_text}
use oodles.Utility.IndexedSet
use oodles.Utility.IndexedSet.{
  IndexedSet, item, find, find-Placed, location, Placed, indexed, Placed-append,
}
use oodles.Utility.Tree.{
  Nodes, write, new_node, allocated, key_less, child_known, child_new, create_child,
}

-- Of two texts neither comes first just when they are the same.
same_text_lem : (a b : Text) → (not (text_less a b) && not (text_less b a)) ≡ same_text a b
unfolding text_less same_text
same_text_lem [] [] = refl
same_text_lem [] (y ∷ ys) = refl
same_text_lem (x ∷ xs) [] = refl
same_text_lem (x ∷ xs) (y ∷ ys) = ground (arith, same_text_lem xs ys)

pub same_text_refl : (a : Text) → same_text a a ≡ true
unfolding same_text
same_text_refl [] = refl
same_text_refl (x ∷ xs) = ground (arith, ==_refl x, same_text_refl xs)

pub same_text_eq : (a b : Text) → same_text a b ≡ true → a ≡ b
unfolding same_text
same_text_eq [] [] h = refl
same_text_eq [] (y ∷ ys) h = cc
same_text_eq (x ∷ xs) [] h = cc
same_text_eq (x ∷ xs) (y ∷ ys) h =
    let e : x ≡ y = ground arith in
    let r : same_text xs ys ≡ true = ground arith in let q = same_text_eq xs ys r in cc

-- The child with a value, among the items of a set.
abbrev pub named : (ℕ → Text) → Text → List (ℕ × ℕ) → Option ℕ
named f v [] = none
named f v ((y, j) ∷ ys) = if same_text (f y) v then some y else named f v ys

-- Each item is a node below `n`.
abbrev pub AllBelow : ℕ → List (ℕ × ℕ) → Type 0
AllBelow n [] = Unit
AllBelow n ((y, j) ∷ ys) = (y < n) × AllBelow n ys

abbrev first : Option (ℕ × ℕ) → Option ℕ
first none = none
first (some (y, j)) = some y

module _ (f g : ℕ → Text) (n : ℕ) (same : (k : ℕ) → k < n → f k ≡ g k) where
  find-named :
      (less : ℕ → ℕ → Bool) (v : Text) (x : ℕ) (ys : List (ℕ × ℕ))
      → ((a b : ℕ) → less a b ≡ text_less (f a) (f b))
      → f x ≡ v
      → AllBelow n ys
      → first (find less ys x) ≡ named g v ys
  unfolding find
  find-named less v x [] l e a = refl
  find-named less v x ((y, j) ∷ ys) l e a =
      let q : (not (less y x) && not (less x y)) ≡ same_text (g y) v =
        rw (l y x, l x y, e, same y a.0) (same_text_lem (g y) v) in
      let rest = find-named less v x ys l e a.1 in
      elim (Bool-cases (same_text (g y) v)) [
        | inl b ↦ rw (find, q, b)
        | inr b ↦ rw (find, q, b) rest
      ]

  pub named_same : (v : Text) (ys : List (ℕ × ℕ)) → AllBelow n ys → named f v ys ≡ named g v ys
  named_same v [] a = refl
  named_same v ((y, j) ∷ ys) a = rw (same y a.0, named_same v ys a.1)

pub write_self {ℓ} : {A : Type ℓ} (f : ℕ → A) (k : ℕ) (v : A) → write f k v k ≡ v
write_self f k v = rw (==_refl k)

pub write_ne {ℓ} : {A : Type ℓ} (f : ℕ → A) (k : ℕ) (v : A) (j : ℕ) → k ≢ j → write f k v j ≡ f j
write_ne f k v j h = let e : (k == j) ≡ false = ground arith in rw e

pub write_same {ℓ} : {A : Type ℓ} (f : ℕ → A) (k : ℕ) → write f k (f k) ≡ f
write_same f k = fun_ext (λ j. elim (Bool-cases (k == j)) [
  | inl e ↦ let q : k ≡ j = ground arith in rw (e, q)
  | inr e ↦ rw e
])

-- A set of children in a store that has `n` nodes: distinct, each at the index that `insert` gives.
pub record WellFormed (n : ℕ) (s : IndexedSet ℕ) : Type 0 where
  pub distinct : s.unique ≡ true
  pub placed : Placed s.locations s.items
  pub same_length : length s.indicies ≡ length s.locations
  pub in_place : (j : ℕ) → j < length s.locations → get_elem? s.indicies j ≡ some j
  pub below : AllBelow n s.items
  pub few : length s.locations ≤ n

first_none : (o : Option (ℕ × ℕ)) → first o ≡ none → o ≡ none
first_none none h = refl
first_none (some (y, j)) h = absurd (cc h)

first_some : (o : Option (ℕ × ℕ)) (c : ℕ) → first o ≡ some c → (j : ℕ) × (o ≡ some (c, j))
first_some none c h = absurd (cc h)
first_some (some (y, j)) c h = let e : y ≡ c = cc h in (j, rw e)

item-in_place :
    (n : ℕ) (s : IndexedSet ℕ) (c j : ℕ)
    → WellFormed n s
    → get_elem? s.locations j ≡ some c
    → item s j ≡ some c
unfolding item
item-in_place n s c j w e = rw (w.in_place j (get_elem?-lt s.locations j c e)) e

insert-known {ℓ} :
    {A : Type ℓ} (less : A → A → Bool) (s : IndexedSet A) (x y : A) (j : ℕ)
    → s.unique ≡ true
    → find less s.items x ≡ some (y, j)
    → IndexedSet.insert less s x ≡ (s, j, false)
unfolding IndexedSet.insert
insert-known less s x y j u e =
    let q : (not s.unique || false) ≡ false = rw u in rw (IndexedSet.insert, e, q)

-- The set after a new item goes in.
abbrev pub grown {ℓ} : {A : Type ℓ} → IndexedSet A → A → IndexedSet A
grown s x = record s {
  items = (x, length s.locations) ∷ s.items;
  locations = s.locations ++ x ∷ [];
  indicies = s.indicies ++ length s.locations % 2 ^ 32 ∷ [];
}

or_true : (b : Bool) → (b || true) ≡ true
or_true true = refl
or_true false = refl

insert-new {ℓ} :
    {A : Type ℓ} (less : A → A → Bool) (s : IndexedSet A) (x : A)
    → find less s.items x ≡ none
    → IndexedSet.insert less s x ≡ (grown s x, length s.locations, true)
unfolding IndexedSet.insert
insert-new less s x e = rw (IndexedSet.insert, e, or_true (not s.unique))

module _ {ℓ} {D : Type ℓ} (d : D) (t : Nodes D) (p : ℕ) (v : Text) (i : ℕ) (old : p < t.next)
    (w : WellFormed t.next (t.node p).children) where
  allocated_old : (k : ℕ) → k < t.next → (allocated d t v).node k ≡ t.node k
  allocated_old k h = write_ne t.node t.next (new_node d v) k (λ e. omega arith)

  find-children :
      first (find (key_less (allocated d t v)) (t.node p).children.items t.next)
      ≡ named (λ k. (t.node k).value) v (t.node p).children.items
  find-children =
      find-named (λ k. ((allocated d t v).node k).value) (λ k. (t.node k).value) t.next
        (λ k h. ap (λ n. n.value) (allocated_old k h)) (key_less (allocated d t v)) v t.next
        (t.node p).children.items (λ a b. refl)
        (ap (λ n. n.value) (write_self t.node t.next (new_node d v))) w.below

  pub create_child-known :
      (c : ℕ)
      → named (λ k. (t.node k).value) v (t.node p).children.items ≡ some c
      → create_child d t p v i ≡ some (t, c)
  unfolding create_child IndexedSet.insert
  create_child-known c h =
      let (j, f) = first_some _ c (find-children ∙ h) in
      let s = (t.node p).children in
      let less = key_less (allocated d t v) in
      let at = find-Placed less s.locations s.items t.next c j w.placed f in
      let it = item-in_place t.next s c j w at.0 in
      let q = insert-known less s t.next c j w.distinct f in
      let known : child_known t p s (item s j) ≡ some (t, c) = rw (it, write_same t.node p) in
      rw (create_child, allocated_old p old, q) known

  pub create_child-new :
      named (λ k. (t.node k).value) v (t.node p).children.items ≡ none
      → create_child d t p v i
        ≡ child_new
            (allocated d t v)
            p
            t.next
            i
            (grown (t.node p).children t.next)
            (length (t.node p).children.locations)
  unfolding create_child
  create_child-new h =
      let s = (t.node p).children in
      let less = key_less (allocated d t v) in
      let q : IndexedSet.insert less ((allocated d t v).node p).children t.next
          ≡ (grown s t.next, length s.locations, true) =
        rw (allocated_old p old) (insert-new less s t.next (first_none _ (find-children ∙ h))) in
      rw (create_child, q)

pub AllBelow-le : (m n : ℕ) (ys : List (ℕ × ℕ)) → m ≤ n → AllBelow m ys → AllBelow n ys
AllBelow-le m n [] l a = tt
AllBelow-le m n ((y, j) ∷ ys) l a = (omega (arith, a.0, l), AllBelow-le m n ys l a.1)

grown-in_place :
    (n : ℕ) (s : IndexedSet ℕ) (j : ℕ)
    → n < 2 ^ 32
    → WellFormed n s
    → j < suc (length s.locations)
    → get_elem? (s.indicies ++ length s.locations % 2 ^ 32 ∷ []) j ≡ some j
grown-in_place n s j b w h =
    let k = length s.locations in
    let m : k % 2 ^ 32 ≡ k = omega (arith, w.few) in
    elim (Bool-cases (ltb j k)) [
      | inl e ↦ get_elem?-append_some s.indicies _ j j (w.in_place j (ground arith))
      | inr e ↦
          let q : j ≡ length s.indicies = ground (arith, w.same_length) in
          rw (q, get_elem?-append_length s.indicies (k % 2 ^ 32) [], m, w.same_length)
    ]

-- A set of children that has the next node too.
pub grown-WellFormed :
    (n : ℕ) (s : IndexedSet ℕ) → n < 2 ^ 32 → WellFormed n s → WellFormed (n + 1) (grown s n)
grown-WellFormed n s b w = record {
  distinct = w.distinct;
  placed = (get_elem?-append_length s.locations n [], Placed-append n s.locations s.items w.placed);
  same_length = omega (
    arith,
    w.same_length,
    length-append s.indicies (length s.locations % 2 ^ 32 ∷ []),
    length-append s.locations (n ∷ []),
  );
  in_place = λ j h. grown-in_place n s j b w (omega (arith, h, length-append s.locations (n ∷ [])));
  below = (omega arith, AllBelow-le n (n + 1) s.items (omega arith) w.below);
  few = omega (arith, w.few, length-append s.locations (n ∷ []));
}
