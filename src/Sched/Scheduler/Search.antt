-- ===== src/Sched/Scheduler/Search.antt =====
-- sched/Scheduler.cpp: what select_best_child leaves, where children come after their parent.
use oodles.Prelude.{
  ap, sym, subst, ◌∙◌, ℕ, zero, suc, ◌+◌, ◌<◌, ◌≤◌, ◌≡◌, ◌≢◌, refl, Bool, true, false, not, ◌&&◌,
  Option, none, some, ◌==◌, if◌then◌else◌, arith, Bool-cases, inl, inr,
}
use oodles.Utility.Tree.{Nodes, red, amber, is_some}
use oodles.Sched.Node.{Double, Extra, page_of, eligible, weight, weigh_against}
use oodles.Sched.Node.Edits.{edit_self, edit_ne, edit_field}
use oodles.Sched.Scheduler.{
  parent_of, child, size, is_red, painted, paint, more_visited, visit_more, consider,
  search_children, chosen, exhaust, exhaust_parent, select_best_child,
}

abbrev pub red_at {ℓ} : {R : Type ℓ} → Nodes (Extra R) → ℕ → Bool
red_at t k = is_red (t.node k).visit_state

-- Children come after their parent in the store, and parents before.
pub record Shaped {ℓ} {R : Type ℓ} (t : Nodes (Extra R)) : Type ℓ where
  pub child_above :
      (k i : ℕ) → i < size t k → (c : ℕ) × (child t k i ≡ some c) × (k < c) × (c < t.next)
  pub parent_below : (k p : ℕ) → parent_of t k ≡ some p → p < k

-- The same links between the nodes.
pub record SameLinks {ℓ} {R : Type ℓ} (t t' : Nodes (Extra R)) : Type ℓ where
  pub next : t'.next ≡ t.next
  pub parent : (k : ℕ) → parent_of t' k ≡ parent_of t k
  pub children : (k : ℕ) → (t'.node k).children ≡ (t.node k).children

module _ {ℓ} {R : Type ℓ} where
  pub SameLinks-refl : (t : Nodes (Extra R)) → SameLinks t t
  SameLinks-refl t = record { next = refl; parent = λ k. refl; children = λ k. refl }

  pub SameLinks-trans : (a b c : Nodes (Extra R)) → SameLinks a b → SameLinks b c → SameLinks a c
  SameLinks-trans a b c p q = record {
    next = q.next ∙ p.next;
    parent = λ k. q.parent k ∙ p.parent k;
    children = λ k. q.children k ∙ p.children k;
  }

  pub SameLinks-Shaped : (t t' : Nodes (Extra R)) → SameLinks t t' → Shaped t → Shaped t'
  SameLinks-Shaped t t' s g = record {
    child_above = λ k i h.
        let (c, e, a, b) = g.child_above k i (rw (← s.children k) h) in
        (c, rw (s.children k) e, a, omega (arith, b, s.next));
    parent_below = λ k p e. g.parent_below k p (sym (s.parent k) ∙ e);
  }

  -- The nodes below `m` that are not Red.
  abbrev pub live : Nodes (Extra R) → ℕ → ℕ
  live t zero = 0
  live t (suc m) = (if red_at t m then 0 else 1) + live t m

  pub live-same :
      (t t' : Nodes (Extra R)) (m : ℕ)
      → ((k : ℕ) → k < m → red_at t' k ≡ red_at t k)
      → live t' m ≡ live t m
  live-same t t' zero h = refl
  live-same t t' (suc m) h =
      rw (h m (omega arith), live-same t t' m (λ k l. h k (omega (arith, l))))

  pub live-less :
      (t t' : Nodes (Extra R)) (n m : ℕ)
      → n < m
      → red_at t n ≡ false
      → red_at t' n ≡ true
      → ((k : ℕ) → k ≢ n → red_at t' k ≡ red_at t k)
      → suc (live t' m) ≡ live t m
  live-less t t' n zero l a b h = absurd (omega (arith, l))
  live-less t t' n (suc m) l a b h = elim (Bool-cases (n == m)) [
    | inl e ↦
        let q : n ≡ m = ground arith in
        let r = live-same t t' m (λ k j. h k (λ d. omega (arith, j, d, q))) in
        rw (← q, a, b, q) (omega (arith, r))
    | inr e ↦
        let q : n < m = ground arith in
        let i = live-less t t' n m q a b h in rw (h m (λ d. omega (arith, d, q))) (omega (arith, i))
  ]

  paint-SameLinks : (t : Nodes (Extra R)) (n : ℕ) (v : _) → SameLinks t (paint t n v)
  paint-SameLinks t n v = record {
    next = refl;
    parent = λ k. edit_field t n (painted v) (λ x. x.parent) k (λ x. refl);
    children = λ k. edit_field t n (painted v) (λ x. x.children) k (λ x. refl);
  }

  visit_more-SameLinks : (t : Nodes (Extra R)) (n : ℕ) → SameLinks t (visit_more t n)
  visit_more-SameLinks t n = record {
    next = refl;
    parent = λ k. edit_field t n more_visited (λ x. x.parent) k (λ x. refl);
    children = λ k. edit_field t n more_visited (λ x. x.children) k (λ x. refl);
  }

  exhaust_parent-SameLinks : (t : Nodes (Extra R)) (o : Option ℕ) → SameLinks t (exhaust_parent t o)
  exhaust_parent-SameLinks t none = SameLinks-refl t
  exhaust_parent-SameLinks t (some p) = visit_more-SameLinks t p

  exhaust_parent-red_at :
      (t : Nodes (Extra R)) (o : Option ℕ) (k : ℕ) → red_at (exhaust_parent t o) k ≡ red_at t k
  exhaust_parent-red_at t none k = refl
  exhaust_parent-red_at t (some p) k =
      edit_field t p more_visited (λ x. is_red x.visit_state) k (λ x. refl)

  exhaust-SameLinks : (t : Nodes (Extra R)) (n : ℕ) → SameLinks t (exhaust t n)
  exhaust-SameLinks t n =
      SameLinks-trans t (paint t n red) (exhaust t n) (paint-SameLinks t n red)
        (exhaust_parent-SameLinks (paint t n red) _)

  exhaust-red_at : (t : Nodes (Extra R)) (n : ℕ) → red_at (exhaust t n) n ≡ true
  exhaust-red_at t n =
      exhaust_parent-red_at (paint t n red) _ n
      ∙ ap (λ x. is_red x.visit_state) (edit_self t n (painted red))

  exhaust-red_at_ne : (t : Nodes (Extra R)) (n k : ℕ) → k ≢ n → red_at (exhaust t n) k ≡ red_at t k
  exhaust-red_at_ne t n k h =
      exhaust_parent-red_at (paint t n red) _ k
      ∙ ap (λ x. is_red x.visit_state) (edit_ne t n (painted red) k (λ e. h (sym e)))

  paint_amber-red_at :
      (t : Nodes (Extra R)) (n k : ℕ) → red_at t n ≡ false → red_at (paint t n amber) k ≡ red_at t k
  paint_amber-red_at t n k h = elim (Bool-cases (n == k)) [
    | inl e ↦
        let q : n ≡ k = ground arith in
        subst (λ j. red_at (paint t n amber) j ≡ red_at t j) q
          (ap (λ x. is_red x.visit_state) (edit_self t n (painted amber)) ∙ sym h)
    | inr e ↦ ap (λ x. is_red x.visit_state) (edit_ne t n (painted amber) k (λ q. ground arith))
  ]

  -- A node that can be the choice among the children of `parent`.
  abbrev pub Candidate : Nodes (Extra R) → ℕ → ℕ → Type 0
  Candidate t parent c = (red_at t c ≡ false) × (parent < c) × (c < t.next)

  abbrev pub AllCandidates : Nodes (Extra R) → ℕ → Option ℕ → Type 0
  AllCandidates t parent none = Unit
  AllCandidates t parent (some c) = Candidate t parent c

  Candidate-if :
      (t : Nodes (Extra R)) (parent : ℕ) (b : Bool) (x y : ℕ)
      → Candidate t parent x
      → Candidate t parent y
      → Candidate t parent (if b then x else y)
  Candidate-if t parent true x y a c = a
  Candidate-if t parent false x y a c = c

  AllCandidates-same :
      (t u : Nodes (Extra R)) (parent : ℕ) (n : Option ℕ)
      → SameLinks t u
      → ((k : ℕ) → red_at u k ≡ red_at t k)
      → AllCandidates t parent n
      → AllCandidates u parent n
  AllCandidates-same t u parent none s q h = tt
  AllCandidates-same t u parent (some c) s q h = (q c ∙ h.0, h.1, omega (arith, h.2, s.next))

  -- What the search among the children of `parent` leaves.
  abbrev Searched : Nodes (Extra R) → ℕ → Nodes (Extra R) × Option ℕ → Type ℓ
  Searched t parent r =
      SameLinks t r.0 × ((k : ℕ) → red_at r.0 k ≡ red_at t k) × AllCandidates r.0 parent r.1

module _ {ℓ} {R : Type ℓ} (real : Double R) where
  weigh_against-Candidate :
      (t u : Nodes (Extra R)) (parent c : ℕ) (n : Option ℕ)
      → Candidate t parent c
      → AllCandidates t parent n
      → Candidate t parent (weigh_against real u c n)
  unfolding weigh_against
  weigh_against-Candidate t u parent c none a b = a
  weigh_against-Candidate t u parent c (some n) a b =
      Candidate-if t parent (real.less (weight real u c) (weight real u n)) n c b a

  consider-Searched :
      (t : Nodes (Extra R)) (parent c : ℕ) (n : Option ℕ)
      → parent < c
      → c < t.next
      → AllCandidates t parent n
      → Searched t parent (consider real t c n)
  unfolding consider
  consider-Searched t parent c n a b h = elim (Bool-cases (red_at t c)) [
    | inl e ↦ rw (consider, e) (SameLinks-refl t, λ k. refl, h)
    | inr e ↦
        let u = paint t c amber in
        let s = paint-SameLinks t c amber in
        let q : (k : ℕ) → red_at u k ≡ red_at t k = λ k. paint_amber-red_at t c k e in
        let w = weigh_against-Candidate t u parent c n (e, a, b) h in
        elim (Bool-cases (is_some (page_of u c) && not (eligible u c))) [
          | inl f ↦ rw (consider, e, f) (s, q, AllCandidates-same t u parent n s q h)
          | inr f ↦ rw (consider, e, f) (s, q, AllCandidates-same t u parent (some _) s q w)
        ]
  ]

  search_children-Searched :
      (t : Nodes (Extra R)) (parent i k : ℕ) (n : Option ℕ)
      → Shaped t
      → i + k ≤ size t parent
      → AllCandidates t parent n
      → (r : Nodes (Extra R) × Option ℕ) × (search_children real t parent i k n ≡ some r)
        × Searched t parent r
  unfolding search_children
  search_children-Searched t parent i zero n g b h =
      ((t, n), refl, (SameLinks-refl t, λ k. refl, h))
  search_children-Searched t parent i (suc k) n g b h =
      let (c, e, l, m) = g.child_above parent i (omega (arith, b)) in
      let u = (consider real t c n).0 in
      let (s, q, a) = consider-Searched t parent c n l m h in
      let (r, f, (s', q', a')) =
        search_children-Searched u parent (i + 1) k (consider real t c n).1
          (SameLinks-Shaped t u s g) (rw (s.children parent) (omega (arith, b))) a in
      (r, rw (search_children, e) f, (SameLinks-trans t u r.0 s s', λ k. q' k ∙ q k, a'))

module _ {ℓ} {R : Type ℓ} where
  -- What select_best_child leaves, at the node `n`.
  abbrev pub Selected : Nodes (Extra R) → ℕ → Nodes (Extra R) × Option ℕ → Type ℓ
  Selected t n (u, none) =
      SameLinks t u × (red_at u n ≡ true) × ((k : ℕ) → k ≢ n → red_at u k ≡ red_at t k)
  Selected t n (u, some c) = SameLinks t u × ((k : ℕ) → red_at u k ≡ red_at t k) × Candidate u n c

  chosen-Selected :
      (t : Nodes (Extra R)) (n : ℕ) (r : Nodes (Extra R) × Option ℕ)
      → Searched t n r
      → (r' : Nodes (Extra R) × Option ℕ) × (chosen n (some r) ≡ some r') × Selected t n r'
  chosen-Selected t n (u, none) (s, q, h) = (
    (exhaust u n, none),
    refl,
    (
      SameLinks-trans t u (exhaust u n) s (exhaust-SameLinks u n),
      exhaust-red_at u n,
      λ k d. exhaust-red_at_ne u n k d ∙ q k,
    ),
  )
  chosen-Selected t n (u, some c) (s, q, h) = ((u, some c), refl, (s, q, h))

  -- In a tree of that shape the search finds each child, and keeps the links.
  pub select_best_child-Selected :
      (real : Double R) (t : Nodes (Extra R)) (n : ℕ)
      → Shaped t
      → (r : Nodes (Extra R) × Option ℕ) × (select_best_child real t n ≡ some r) × Selected t n r
  unfolding select_best_child
  select_best_child-Selected real t n g =
      let (r, e, s) = search_children-Searched real t n 0 (size t n) none g (omega arith) tt in
      let (r', f, w) = chosen-Selected t n r s in (r', rw (select_best_child, e) f, w)
