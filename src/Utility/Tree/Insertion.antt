-- ===== src/Utility/Tree/Insertion.antt =====
-- utility/Tree.ipp: Tree::insert adds one path of values.
use oodles.Prelude.{
  ap, sym, subst, ◌∙◌, ℕ, ◌+◌, ◌^◌, ◌<◌, ◌≤◌, ◌≡◌, refl, List, [], ◌∷◌, Option, none, some, length,
  arith, Option-cases, inl, inr,
}
use oodles.Url.Attributes.{Text}
use oodles.Utility.IndexedSet
use oodles.Utility.Tree.{Nodes, insert_values, insert, start_of, create}
use oodles.Utility.Tree.Children.{create_child-known}
use oodles.Utility.Tree.Paths.{
  child, follow, Valid, Step, create_child-Step, named-below, create-WellFormed,
}

-- What a client sees of a tree: the node to which a path of values leads from a node. Over the nodes
-- below `n`, one view extends another by the path `vs` from `p` to `q`.
pub record Extends (n : ℕ) (m : ℕ → List Text → Option ℕ) (p : ℕ) (vs : List Text)
    (m' : ℕ → List Text → Option ℕ) (q : ℕ) : Type 0 where
  pub reached : m' p vs ≡ some q
  pub kept : (r : ℕ) (ws : List Text) (c : ℕ) → r < n → m r ws ≡ some c → m' r ws ≡ some c
  pub old : (r : ℕ) (ws : List Text) (c : ℕ) → r < n → c < n → m' r ws ≡ some c → m r ws ≡ some c

module _ {ℓ} {D : Type ℓ} where
  follow-cons :
      (t : Nodes D) (p q : ℕ) (v : Text) (vs : List Text)
      → child t p v ≡ some q
      → follow t p (v ∷ vs) ≡ follow t q vs
  follow-cons t p q v vs e = rw (follow, e)

  follow-child :
      (t : Nodes D) (p c : ℕ) (v : Text) (vs : List Text)
      → follow t p (v ∷ vs) ≡ some c
      → (q : ℕ) × (child t p v ≡ some q) × (follow t q vs ≡ some c)
  follow-child t p c v vs e = elim (Option-cases (child t p v)) [
    | inl f ↦ let q : none ≡ some c = rw (← e, follow, f) in absurd (cc q)
    | inr (q, f) ↦ (q, f, rw (← e, follow, f))
  ]

  follow-le : (t : Nodes D) (p c : ℕ) (vs : List Text) → Valid t → follow t p vs ≡ some c → p ≤ c
  follow-le t p c [] g e = let q : p ≡ c = cc e in omega (arith, q)
  follow-le t p c (v ∷ vs) g e =
      let (q, a, b) = follow-child t p c v vs e in
      let l = follow-le t q c vs g b in omega (arith, g.upward p v q a, l)

  module _ (t t' : Nodes D) (p q : ℕ) (v : Text) (g : Valid t) (s : Step t p v t' q) where
    follow-kept :
        (r : ℕ) (ws : List Text) (c : ℕ)
        → r < t.next
        → follow t r ws ≡ some c
        → follow t' r ws ≡ some c
    follow-kept r [] c l e = e
    follow-kept r (w ∷ ws) c l e =
        let (x, a, b) = follow-child t r c w ws e in
        let k = named-below _ w t.next (t.node r).children.items x (g.every r).below a in
        follow-cons t' r x w ws (s.kept r w x l a) ∙ follow-kept x ws c k b

    follow-old :
        (r : ℕ) (ws : List Text) (c : ℕ)
        → r < t.next
        → c < t.next
        → follow t' r ws ≡ some c
        → follow t r ws ≡ some c
    follow-old r [] c l m e = e
    follow-old r (w ∷ ws) c l m e =
        let (x, a, b) = follow-child t' r c w ws e in
        let n = follow-le t' x c ws s.valid b in
        let k : x < t.next = omega (arith, n, m) in
        follow-cons t r x w ws (s.old r w x l k a) ∙ follow-old x ws c k m b

  Extends-step :
      (t u t' : Nodes D) (p x q : ℕ) (v : Text) (vs : List Text)
      → Valid t
      → p < t.next
      → Step t p v u x
      → Extends u.next (follow u) x vs (follow t') q
      → Extends t.next (follow t) p (v ∷ vs) (follow t') q
  Extends-step t u t' p x q v vs g h s e = record {
    reached =
        let m = e.kept p (v ∷ []) x (omega (arith, h, s.from)) (follow-cons u p x v [] s.reached) in
        let (y, a, b) = follow-child t' p x v [] m in follow-cons t' p x v vs (a ∙ b) ∙ e.reached;
    kept = λ r ws c l m.
        e.kept r ws c (omega (arith, l, s.from)) (follow-kept t u p x v g s r ws c l m);
    old = λ r ws c l m n.
        follow-old t u p x v g s r ws c l m
          (e.old r ws c (omega (arith, l, s.from)) (omega (arith, m, s.from)) n);
  }

  -- The loop of insert.
  insert_values-Extends :
      (d : D) (t : Nodes D) (p i : ℕ) (vs : List Text)
      → Valid t
      → p < t.next
      → t.next + length vs ≤ 2 ^ 32
      → (t' : Nodes D) × (q : ℕ) × (insert_values d t p i vs ≡ some (t', q))
        × Valid t'
        × (q < t'.next)
        × (t'.next ≤ t.next + length vs)
        × Extends t.next (follow t) p vs (follow t') q
  unfolding insert_values
  insert_values-Extends d t p i [] g h b = (
    t,
    p,
    refl,
    g,
    h,
    omega arith,
    record { reached = refl; kept = λ r ws c l e. e; old = λ r ws c l m e. e },
  )
  insert_values-Extends d t p i (v ∷ vs) g h b =
      let (u, x, e, s) = create_child-Step d t p v i h g (omega (arith, b)) in
      let (t', q, f, g', l, n, k) =
        insert_values-Extends d u x (i + 1) vs s.valid s.allocated_node (omega (arith, b, s.to)) in
      (
        t',
        q,
        rw (insert_values, e) f,
        g',
        l,
        omega (arith, n, s.to),
        Extends-step t u t' p x q v vs g h s k,
      )

  insert_values-again :
      (d : D) (t : Nodes D) (p i : ℕ) (vs : List Text) (q : ℕ)
      → Valid t
      → p < t.next
      → follow t p vs ≡ some q
      → insert_values d t p i vs ≡ some (t, q)
  unfolding insert_values
  insert_values-again d t p i [] q g h e = let r : p ≡ q = cc e in rw r
  insert_values-again d t p i (v ∷ vs) q g h e =
      let (x, a, b) = follow-child t p q v vs e in
      let k = named-below _ v t.next (t.node p).children.items x (g.every p).below a in
      rw (insert_values, create_child-known d t p v i h (g.every p) x a)
        (insert_values-again d t x (i + 1) vs q g k b)

  -- A tree with only its root is valid.
  pub create-Valid : (d : D) (v : Text) → Valid (create d v)
  unfolding IndexedSet.create
  create-Valid d v = record { every = λ k. create-WellFormed 1; upward = λ k w c e. absurd (cc e) }

  -- In a valid tree insert gives a node for any values, from the root or from an allocated node,
  -- when the tree stays below 2^32 nodes: the values lead to that node, and at most one node is
  -- added for each of them. The tree is valid after. A path of values between two nodes that were
  -- there before is there after just when it was before.
  pub insert-Extends :
      (d : D) (t : Nodes D) (p : Option ℕ) (vs : List Text)
      → Valid t
      → (start_of t p).0 < t.next
      → t.next + length vs ≤ 2 ^ 32
      → (t' : Nodes D) × (q : ℕ) × (insert d t p vs ≡ some (t', q))
        × Valid t'
        × (q < t'.next)
        × (t'.next ≤ t.next + length vs)
        × Extends t.next (follow t) (start_of t p).0 vs (follow t') q
  unfolding insert
  insert-Extends d t p vs g h b =
      insert_values-Extends d t (start_of t p).0 (start_of t p).1 vs g h b

  -- In a valid tree insert of values that already lead from the start to a node gives that node and
  -- changes nothing.
  pub insert-again :
      (d : D) (t : Nodes D) (p : Option ℕ) (vs : List Text) (q : ℕ)
      → Valid t
      → (start_of t p).0 < t.next
      → follow t (start_of t p).0 vs ≡ some q
      → insert d t p vs ≡ some (t, q)
  unfolding insert
  insert-again d t p vs q g h e =
      insert_values-again d t (start_of t p).0 (start_of t p).1 vs q g h e

  same_store : (a b : Nodes D × ℕ) → some a ≡ some b → a.0 ≡ b.0
  same_store a b e = let r : a ≡ b = cc e in ap (λ x. x.0) r

  pub insert-Valid :
      (d : D) (t : Nodes D) (p : Option ℕ) (vs : List Text) (t' : Nodes D) (q : ℕ)
      → Valid t
      → (start_of t p).0 < t.next
      → t.next + length vs ≤ 2 ^ 32
      → insert d t p vs ≡ some (t', q)
      → Valid t'
  insert-Valid d t p vs t' q g h b e =
      let (u, r, f, v, l, n, k) = insert-Extends d t p vs g h b in
      subst Valid (same_store (u, r) (t', q) (sym f ∙ e)) v
