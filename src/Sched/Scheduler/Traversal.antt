-- ===== src/Sched/Scheduler/Traversal.antt =====
-- sched/Scheduler.cpp: traverse_branch ends, with an eligible node or with the tree used up.
use oodles.Prelude.{
  sym, subst, ◌==◌, ◌∙◌, ℕ, zero, suc, ◌+◌, ◌-◌, ◌*◌, ◌<◌, ◌≤◌, ◌≡◌, ◌≢◌, Bool, true, false, Option,
  none, some, if◌then◌else◌, arith, Bool-cases, Option-cases, inl, inr,
}
use oodles.Utility.BreadCrumbTrail.{BreadCrumbTrail}
use oodles.Utility.Tree.{Nodes}
use oodles.Sched.Node.{Double, Extra, eligible}
use oodles.Sched.Scheduler.{parent_of, turn, traverse_branch, dropped}
use oodles.Sched.Scheduler.Search.{
  red_at, Shaped, SameLinks, SameLinks-trans, SameLinks-Shaped, live, live-same, live-less,
  Candidate, Selected, select_best_child-Selected,
}

-- `k` times `m`.
abbrev pub times : ℕ → ℕ → ℕ
times zero m = 0
times (suc k) m = m + times k m

short :
    (x m n p : ℕ) (b : Bool)
    → p < n
    → n < m
    → x + (if b then m + 1 + p else m - p) < x + (m + 1 + n)
short x m n p true h l = omega (arith, h)
short x m n p false h l = omega (arith, h, l)

long :
    (x m n p : ℕ) (b : Bool)
    → p < n
    → n < m
    → x + (if b then m + 1 + p else m - p) < 2 * m + 2 + x + (m - n)
long x m n p true h l = omega (arith, h, l)
long x m n p false h l = omega (arith, h, l)

module _ {ℓ} {R : Type ℓ} where
  -- A bound on the number of calls: for each node that is not Red a way up and a way down, and what
  -- is left of the way from `n`.
  abbrev pub calls : Nodes (Extra R) → ℕ → ℕ
  calls t n =
      times (live t t.next) (2 * t.next + 2) + (if red_at t n then t.next + 1 + n else t.next - n)

  abbrev pub Returned :
      Nodes (Extra R) → Nodes (Extra R) × Option BreadCrumbTrail × Option ℕ → Type ℓ
  Returned t (u, trail, some q) = SameLinks t u × (eligible u q ≡ true)
  Returned t (u, trail, none) =
      SameLinks t u × ((k : ℕ) × (parent_of u k ≡ none) × (red_at u k ≡ true))

  Returned-trans :
      (t u : Nodes (Extra R)) (r : Nodes (Extra R) × Option BreadCrumbTrail × Option ℕ)
      → SameLinks t u
      → Returned u r
      → Returned t r
  Returned-trans t u (v, trail, some q) s (s', e) = (SameLinks-trans t u v s s', e)
  Returned-trans t u (v, trail, none) s (s', e) = (SameLinks-trans t u v s s', e)

  calls_down :
      (t u : Nodes (Extra R)) (n c : ℕ)
      → SameLinks t u
      → ((k : ℕ) → red_at u k ≡ red_at t k)
      → Candidate u n c
      → calls u c < calls t n
  calls_down t u n c s q (a, b, l) =
      let e = live-same t u u.next (λ k h. q k) in
      elim (Bool-cases (red_at t n)) [
        | inl f ↦ rw (a, e, s.next, f) (omega (arith, b, l, s.next))
        | inr f ↦ rw (a, e, s.next, f) (omega (arith, b, l, s.next))
      ]

  all_same :
      (t u : Nodes (Extra R)) (n k : ℕ)
      → red_at u n ≡ red_at t n
      → (k ≢ n → red_at u k ≡ red_at t k)
      → red_at u k ≡ red_at t k
  all_same t u n k a q = elim (Bool-cases (n == k)) [
    | inl e ↦ let d : n ≡ k = ground arith in subst (λ j. red_at u j ≡ red_at t j) d a
    | inr e ↦ q (λ d. ground arith)
  ]

  calls_up :
      (t u : Nodes (Extra R)) (n p : ℕ)
      → SameLinks t u
      → red_at u n ≡ true
      → ((k : ℕ) → k ≢ n → red_at u k ≡ red_at t k)
      → p < n
      → n < t.next
      → calls u p < calls t n
  calls_up t u n p s a q l m = elim (Bool-cases (red_at t n)) [
    | inl e ↦
        let d = live-same t u t.next (λ k h. all_same t u n k (a ∙ sym e) (q k)) in
        rw (s.next, d, e)
          (short (times (live t t.next) (2 * t.next + 2)) t.next n p (red_at u p) l m)
    | inr e ↦
        let d = live-less t u n t.next m e a q in
        rw (s.next, ← d, e)
          (long (times (live u t.next) (2 * t.next + 2)) t.next n p (red_at u p) l m)
  ]

module _ {ℓ} {R : Type ℓ} (real : Double R) where
  abbrev after :
      ℕ
      → Option BreadCrumbTrail
      → ℕ
      → Nodes (Extra R) × Option ℕ
      → Option (Nodes (Extra R) × Option BreadCrumbTrail × Option ℕ)
  unfolding traverse_branch
  after f trail n (u, p) = elim (turn u n p) [
    | inl q ↦ traverse_branch real f u trail q
    | inr r ↦ some (u, trail, r)
  ]

  -- What `traverse_branch` does with fuel `f`, on trees with the links of `t`.
  abbrev Again : ℕ → Nodes (Extra R) → Option BreadCrumbTrail → Type ℓ
  unfolding traverse_branch
  Again f t trail =
      (u : Nodes (Extra R)) (q : ℕ)
      → SameLinks t u
      → q < u.next
      → calls u q < f
      → (r : Nodes (Extra R) × Option BreadCrumbTrail × Option ℕ) × (traverse_branch real f u trail
            q
          ≡ some r)
        × Returned u r

  after-Returned :
      (f : ℕ) (t : Nodes (Extra R)) (trail : Option BreadCrumbTrail) (n : ℕ)
      (r : Nodes (Extra R) × Option ℕ)
      → Shaped t
      → n < t.next
      → calls t n ≤ f
      → Again f t trail
      → Selected t n r
      → (x : Nodes (Extra R) × Option BreadCrumbTrail × Option ℕ) × (after f trail n r ≡ some x)
        × Returned t x
  unfolding after
  after-Returned f t trail n (u, some c) g l b again (s, q, a) =
      let d = calls_down t u n c s q a in
      let (x, e, w) = again u c s a.2 (omega (arith, b, d)) in (x, e, Returned-trans t u x s w)
  after-Returned f t trail n (u, none) g l b again (s, a, q) = elim (Bool-cases (eligible u n)) [
    | inl e ↦
        let v : turn u n none ≡ inr (some n) = rw e in ((u, trail, some n), rw (after, v), (s, e))
    | inr e ↦ elim (Option-cases (parent_of u n)) [
      | inl h ↦
          let v : turn u n none ≡ inr none = rw (e, h) in
          ((u, trail, none), rw (after, v), (s, (n, h, a)))
      | inr (p, h) ↦
          let k = g.parent_below n p (sym (s.parent n) ∙ h) in
          let d = calls_up t u n p s a q k l in
          let (x, i, w) = again u p s (omega (arith, k, l, s.next)) (omega (arith, b, d)) in
          let v : turn u n none ≡ inl p = rw (e, h) in
          (x, rw (after, v) i, Returned-trans t u x s w)
    ]
  ]

  -- In a tree where children come after their parent and parents before, traverse_branch from a
  -- node of the tree returns when its fuel exceeds `calls`. It keeps the links of the tree. Either
  -- it returns an eligible node, or it ends at a node that has no parent and is Red.
  pub traverse_branch-Returned :
      (f : ℕ) (t : Nodes (Extra R)) (trail : Option BreadCrumbTrail) (n : ℕ)
      → Shaped t
      → n < t.next
      → calls t n < f
      → (r : Nodes (Extra R) × Option BreadCrumbTrail × Option ℕ) × (traverse_branch real f t trail
            n
          ≡ some r)
        × Returned t r
  unfolding traverse_branch
  traverse_branch-Returned zero t trail n g l b = absurd (omega (arith, b))
  traverse_branch-Returned (suc f) t trail n g l b =
      let trail' = dropped trail (t.node n).path_idx (t.node n).child_idx in
      let (r, e, s) = select_best_child-Selected real t n g in
      let again : Again f t trail' =
        λ u q s h c. traverse_branch-Returned f u trail' q (SameLinks-Shaped t u s g) h c in
      let (x, i, w) = after-Returned f t trail' n r g l (omega (arith, b)) again s in
      (x, rw (traverse_branch, e) i, w)
