-- ===== src/Utility/Tree/Paths.antt =====
-- utility/Node.ipp and Tree.ipp: the nodes that a path of values leads to.
use oodles.Prelude.{
  sym, subst, ◌∙◌, ℕ, ◌+◌, ◌%◌, ◌^◌, ◌<◌, ◌≤◌, ◌≡◌, ◌≢◌, refl, true, false, List, [], ◌∷◌, Option,
  none, some, ◌==◌, ==_refl, if◌then◌else◌, length, arith, Bool-cases, Option-cases, inl, inr,
}
use oodles.Url.Attributes.{Text}
use oodles.Url.Parser.Scan.{same_text}
use oodles.Utility.IndexedSet
use oodles.Utility.IndexedSet.{IndexedSet}
use oodles.Utility.Tree.{Nodes, allocated, create_child, write}
use oodles.Utility.Tree.Children.{
  named, named_same, AllBelow, AllBelow-le, WellFormed, grown, grown-WellFormed, same_text_refl,
  same_text_eq, create_child-known, create_child-new,
}

-- The nodes as a function of a node and a value, and of a node and a path.
abbrev pub child {ℓ} : {D : Type ℓ} → Nodes D → ℕ → Text → Option ℕ
child t p v = named (λ k. (t.node k).value) v (t.node p).children.items

abbrev pub follow {ℓ} : {D : Type ℓ} → Nodes D → ℕ → List Text → Option ℕ
follow t p [] = some p
follow t p (v ∷ vs) = elim (child t p v) [ none ↦ none | some q ↦ follow t q vs ]

pub record Valid {ℓ} {D : Type ℓ} (t : Nodes D) : Type ℓ where
  pub every : (k : ℕ) → WellFormed t.next (t.node k).children
  pub upward : (k : ℕ) (v : Text) (c : ℕ) → child t k v ≡ some c → k < c

pub named-below :
    (f : ℕ → Text) (v : Text) (n : ℕ) (ys : List (ℕ × ℕ)) (c : ℕ)
    → AllBelow n ys
    → named f v ys ≡ some c
    → c < n
named-below f v n [] c a h = absurd (cc h)
named-below f v n ((y, j) ∷ ys) c a h = elim (Bool-cases (same_text (f y) v)) [
  | inl e ↦ let q : some y ≡ some c = rw (← h, e) in let r : y ≡ c = cc q in omega (arith, a.0, r)
  | inr e ↦ let q : named f v ys ≡ some c = rw (← h, e) in named-below f v n ys c a.1 q
]

WellFormed-le : (m n : ℕ) (s : IndexedSet ℕ) → m ≤ n → WellFormed m s → WellFormed n s
WellFormed-le m n s l w = record {
  distinct = w.distinct;
  placed = w.placed;
  same_length = w.same_length;
  in_place = w.in_place;
  below = AllBelow-le m n s.items l w.below;
  few = omega (arith, l, w.few);
}

pub create-WellFormed : (n : ℕ) → WellFormed n (IndexedSet.create true)
unfolding IndexedSet.create
create-WellFormed n = record {
  distinct = refl;
  placed = tt;
  same_length = refl;
  in_place = λ j h. absurd (omega (arith, h));
  below = tt;
  few = omega arith;
}

-- What finding or adding the child of `p` with the value `v` comes to.
pub record Step {ℓ} {D : Type ℓ} (t : Nodes D) (p : ℕ) (v : Text) (t' : Nodes D) (q : ℕ)
    : Type ℓ where
  pub valid : Valid t'
  pub reached : child t' p v ≡ some q
  pub allocated_node : q < t'.next
  pub from : t.next ≤ t'.next
  pub to : t'.next ≤ t.next + 1
  pub kept : (r : ℕ) (w : Text) (c : ℕ) → r < t.next → child t r w ≡ some c → child t' r w ≡ some c
  pub old :
      (r : ℕ) (w : Text) (c : ℕ)
      → r < t.next
      → c < t.next
      → child t' r w ≡ some c
      → child t r w ≡ some c

module _ {ℓ} {D : Type ℓ} (d : D) (t : Nodes D) (p : ℕ) (v : Text) (i : ℕ) (h : p < t.next)
    (g : Valid t) where
  Step-known : (c : ℕ) → child t p v ≡ some c → Step t p v t c
  Step-known c e = record {
    valid = g;
    reached = e;
    allocated_node = named-below _ v t.next (t.node p).children.items c (g.every p).below e;
    from = omega arith;
    to = omega arith;
    kept = λ r w c l e. e;
    old = λ r w c l m e. e;
  }

  -- The store after a new child.
  abbrev with_child : Nodes D
  with_child = record t {
    next = t.next + 1;
    node =
        write
          (write (allocated d t v).node p
            (record ((allocated d t v).node p) { children = grown (t.node p).children t.next }))
          t.next
          (record ((allocated d t v).node t.next) {
            path_idx = i % 2 ^ 16;
            parent = some p;
            child_idx = length (t.node p).children.locations % 2 ^ 32;
          });
  }

  node_new : (with_child.node t.next).children ≡ IndexedSet.create true
  node_new = rw (==_refl t.next)

  value_new : (with_child.node t.next).value ≡ v
  value_new = rw (==_refl t.next)

  value_old : (k : ℕ) → k < t.next → (with_child.node k).value ≡ (t.node k).value
  value_old k l =
      let e : (t.next == k) ≡ false = ground arith in
      elim (Bool-cases (p == k)) [
        | inl f ↦ let q : p ≡ k = ground arith in rw (e, f, q, e)
        | inr f ↦ rw (e, f)
      ]

  children_of_parent : (with_child.node p).children ≡ grown (t.node p).children t.next
  children_of_parent = let e : (t.next == p) ≡ false = ground arith in rw (e, ==_refl p)

  children_of_other :
      (k : ℕ) → k ≢ p → k ≢ t.next → (with_child.node k).children ≡ (t.node k).children
  children_of_other k a b =
      let e : (t.next == k) ≡ false = ground arith in
      let f : (p == k) ≡ false = ground arith in rw (e, f)

  child_of_parent :
      (w : Text) → child with_child p w ≡ (if same_text v w then some t.next else child t p w)
  child_of_parent w = rw (
    children_of_parent,
    value_new,
    named_same (λ k. (with_child.node k).value) (λ k. (t.node k).value) t.next value_old w
        (t.node p).children.items (g.every p).below,
  )

  child_of_other : (k : ℕ) (w : Text) → k ≢ p → k ≢ t.next → child with_child k w ≡ child t k w
  child_of_other k w a b = rw (
    children_of_other k a b,
    named_same (λ k. (with_child.node k).value) (λ k. (t.node k).value) t.next value_old w
        (t.node k).children.items (g.every k).below,
  )

  parent_of_new :
      (w : Text) (c : ℕ)
      → c ≢ t.next
      → (if same_text v w then some t.next else child t p w) ≡ some c
      → child t p w ≡ some c
  parent_of_new w c n e = elim (Bool-cases (same_text v w)) [
    | inl f ↦
        let q : some t.next ≡ some c = rw (← e, f) in
        let r : t.next ≡ c = cc q in absurd (n (sym r))
    | inr f ↦ rw (← e, f)
  ]

  new_of_parent :
      (w : Text) (c : ℕ)
      → child t p v ≡ none
      → child t p w ≡ some c
      → (if same_text v w then some t.next else child t p w) ≡ some c
  new_of_parent w c e m = elim (Bool-cases (same_text v w)) [
    | inl f ↦
        let q : v ≡ w = same_text_eq v w f in
        let r : none ≡ some c = sym e ∙ rw q m in absurd (cc r)
    | inr f ↦ rw f m
  ]

  no_children :
      (k : ℕ) (w : Text) (c : ℕ)
      → (with_child.node k).children ≡ IndexedSet.create true
      → child with_child k w ≢ some c
  unfolding IndexedSet.create
  no_children k w c o m =
      let q : named (λ k. (with_child.node k).value) w [] ≡ some c =
        subst (λ s. named (λ k. (with_child.node k).value) w s.items ≡ some c) o m in
      cc q

  above : (w : Text) (c : ℕ) → (if same_text v w then some t.next else child t p w) ≡ some c → p < c
  above w c m = elim (Bool-cases (same_text v w)) [
    | inl f ↦
        let q : some t.next ≡ some c = rw (← m, f) in
        let r : t.next ≡ c = cc q in omega (arith, h, r)
    | inr f ↦ let q : child t p w ≡ some c = rw (← m, f) in g.upward p w c q
  ]

  with_child-Valid : t.next < 2 ^ 32 → Valid with_child
  with_child-Valid b = record {
    every = λ k. elim (Bool-cases (t.next == k)) [
      | inl e ↦
          let q : t.next ≡ k = ground arith in rw (← q, node_new) (create-WellFormed (t.next + 1))
      | inr e ↦ elim (Bool-cases (p == k)) [
        | inl f ↦
            let q : p ≡ k = ground arith in
            rw (← q, children_of_parent) (grown-WellFormed t.next (t.node p).children b (g.every p))
        | inr f ↦
            rw (children_of_other k (λ a. ground arith) (λ a. ground arith))
              (WellFormed-le t.next (t.next + 1) (t.node k).children (omega arith) (g.every k))
      ]
    ];
    upward = λ k w c m. elim (Bool-cases (t.next == k)) [
      | inl e ↦
          let q : t.next ≡ k = ground arith in
          let o : (with_child.node k).children ≡ IndexedSet.create true = rw (← q) node_new in
          absurd (no_children k w c o m)
      | inr e ↦ elim (Bool-cases (p == k)) [
        | inl f ↦
            let q : p ≡ k = ground arith in
            subst (λ x. child with_child x w ≡ some c → x < c) q
              (λ m. above w c (sym (child_of_parent w) ∙ m)) m
        | inr f ↦
            g.upward k w c (sym (child_of_other k w (λ a. ground arith) (λ a. ground arith)) ∙ m)
      ]
    ];
  }

  Step-new : t.next < 2 ^ 32 → child t p v ≡ none → Step t p v with_child t.next
  Step-new b e = record {
    valid = with_child-Valid b;
    reached = rw (child_of_parent v, same_text_refl v);
    allocated_node = omega arith;
    from = omega arith;
    to = omega arith;
    kept = λ r w c l m. elim (Bool-cases (p == r)) [
      | inl f ↦
          let q : p ≡ r = ground arith in
          subst (λ x. child t x w ≡ some c → child with_child x w ≡ some c) q
            (λ m. child_of_parent w ∙ new_of_parent w c e m) m
      | inr f ↦ rw (child_of_other r w (λ a. ground arith) (λ a. omega arith)) m
    ];
    old = λ r w c l n m. elim (Bool-cases (p == r)) [
      | inl f ↦
          let q : p ≡ r = ground arith in
          subst (λ x. child with_child x w ≡ some c → child t x w ≡ some c) q
            (λ m. parent_of_new w c (λ a. omega arith) (sym (child_of_parent w) ∙ m)) m
      | inr f ↦ sym (child_of_other r w (λ a. ground arith) (λ a. omega arith)) ∙ m
    ];
  }

  -- create_child from an allocated node is such a step.
  pub create_child-Step :
      t.next < 2 ^ 32
      → (t' : Nodes D) × (q : ℕ) × (create_child d t p v i ≡ some (t', q)) × Step t p v t' q
  create_child-Step b = elim (Option-cases (child t p v)) [
    | inl e ↦ (with_child, t.next, create_child-new d t p v i h (g.every p) e, Step-new b e)
    | inr (c, e) ↦ (t, c, create_child-known d t p v i h (g.every p) c e, Step-known c e)
  ]
