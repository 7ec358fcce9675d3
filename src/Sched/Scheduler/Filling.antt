-- ===== src/Sched/Scheduler/Filling.antt =====
-- sched/Scheduler.cpp: fill_crawler ends, and its last step marks nothing.
use oodles.Prelude.{
  ap, subst, ℕ, zero, suc, ◌+◌, ◌<◌, ◌≤◌, ◌≡◌, refl, Bool, true, false, Option, none, some,
  if◌then◌else◌, arith, Bool-cases, inl, inr,
}
use oodles.Utility.BreadCrumbTrail.{BreadCrumbTrail}
use oodles.Utility.Tree.{Nodes}
use oodles.Sched.Crawler.{full}
use oodles.Sched.Node.{Double, Extra, eligible}
use oodles.Sched.Scheduler.{Scheduler, traverse_branch}
use oodles.Sched.Scheduler.Search.{
  red_at, Shaped, SameLinks, SameLinks-refl, SameLinks-trans, SameLinks-Shaped,
}
use oodles.Sched.Scheduler.Traversal.{calls, Returned, traverse_branch-Returned}
use oodles.Sched.Scheduler.Work.{
  start, finished, fill_crawler, Filling, root, step, place, finish, fill_round, fill_loop,
}
use oodles.Sched.Scheduler.Rounds.{
  Rooted, SameLinks-Rooted, Standing, root-Standing, parent-Standing, Filled, Round, place-Round,
  room, enough, calls-enough,
}

found {ℓ} :
    {R : Type ℓ} (u v : Nodes (Extra R)) (trail : Option BreadCrumbTrail) (o : Option ℕ)
    → Returned u (v, trail, o)
    → SameLinks u v × ((n : ℕ) → o ≡ some n → eligible v n ≡ true)
found u v trail none w = (w.0, λ n e. absurd (cc e))
found u v trail (some q) w = (w.0, λ n e. let d : q ≡ n = cc e in rw (← d) w.1)

module _ {ℓ} {R Q : Type ℓ} (real : Double R) (t : Nodes (Extra R)) (f c : ℕ) where
  abbrev traversed_tree : Filling R Q → Nodes (Extra R) → Option BreadCrumbTrail → Filling R Q
  traversed_tree s v trail = record s { scheduler = record s.scheduler { tree = v; trail = trail } }

  fill_round_lem :
      (s : Filling R Q) (p : ℕ) (v : Nodes (Extra R)) (trail : Option BreadCrumbTrail)
      (o : Option ℕ) (a : Option (Filling R Q))
      → s.position ≡ some p
      → full (s.scheduler.crawler c) ≡ false
      → traverse_branch real f s.scheduler.tree s.scheduler.trail p ≡ some (v, trail, o)
      → place (traversed_tree s v trail) c p o ≡ a
      → fill_round real f s c ≡ a
  unfolding fill_round
  fill_round_lem s p v trail o a e i j k = rw (fill_round, e, i, j) k

  fill_round-Round :
      (s : Filling R Q) (o : Option ℕ)
      → Shaped t
      → Rooted t
      → enough t.next < f
      → s.exhausted ≡ false
      → s.position ≡ o
      → Filled t s
      → (s' : Filling R Q) × (fill_round real f s c ≡ some s') × Round t c s s'
  unfolding fill_round
  fill_round-Round s none g h b x e w = (
    record s { exhausted = true; position = some root },
    rw (fill_round, e),
    (
      record {
        links = w.links;
        standing = root-Standing s.scheduler.tree (SameLinks-Rooted t s.scheduler.tree w.links h);
      },
      inl refl,
    ),
  )
  fill_round-Round s (some p) g h b x e w =
      let u = s.scheduler.tree in
      let r = SameLinks-Rooted t u w.links h in
      elim (Bool-cases (full (s.scheduler.crawler c))) [
        | inl i ↦ (
          record s { exhausted = true; position = step u (some p) },
          rw (fill_round, e, i),
          (record { links = w.links; standing = parent-Standing u p _ r refl }, inl refl),
        )
        | inr i ↦
            let d : p < u.next = (subst (Standing u) e w.standing).1 in
            let l : calls u p ≤ enough t.next = rw (← w.links.next) (calls-enough u p d) in
            let (q, j, y) =
              traverse_branch-Returned real f u s.scheduler.trail p (SameLinks-Shaped t u w.links g)
                d (omega (arith, b, l)) in
            let (m, a) = found u q.0 q.1 q.2 y in
            let s1 = traversed_tree s q.0 q.1 in
            let (s', k, z) = place-Round t s1 c p q.2 h (SameLinks-trans t u q.0 w.links m) x i a in
            (s', fill_round_lem s p q.0 q.1 q.2 (some s') e i j k, z)
      ]

  fill_loop-exhausted :
      (k : ℕ) (s : Filling R Q) → s.exhausted ≡ true → fill_loop real (suc k) f s c ≡ some s
  unfolding fill_loop
  fill_loop-exhausted k s e =
      ap
        (λ (b : Bool). elim b [
          | true ↦ some s
          | false ↦ elim (fill_round real f s c) [ none ↦ none | some s' ↦ fill_loop real k f s' c ]
        ])
        e

  pub fill_loop-Filled :
      (k : ℕ) (s : Filling R Q)
      → Shaped t
      → Rooted t
      → enough t.next < f
      → (if s.exhausted then 1 else room (s.scheduler.crawler c) + 2) ≤ k
      → Filled t s
      → (s' : Filling R Q) × (fill_loop real k f s c ≡ some s') × Filled t s'
  unfolding fill_loop
  fill_loop-Filled zero s g h b l w = elim (Bool-cases s.exhausted) [
    | inl e ↦ absurd (omega (arith, rw e at l))
    | inr e ↦ absurd (omega (arith, rw e at l))
  ]
  fill_loop-Filled (suc k) s g h b l w = elim (Bool-cases s.exhausted) [
    | inl e ↦ (s, fill_loop-exhausted k s e, w)
    | inr e ↦
        let (u, i, (v, o)) = fill_round-Round s s.position g h b e refl w in
        let m : room (s.scheduler.crawler c) + 2 ≤ suc k = rw e at l in
        let n : (if u.exhausted then 1 else room (u.scheduler.crawler c) + 2) ≤ k = elim o [
          | inl x ↦ rw x (omega (arith, m))
          | inr (x, y) ↦ rw x (omega (arith, m, y))
        ] in
        let (s', j, z) = fill_loop-Filled k u g h b n v in (s', rw (fill_loop, e, i) j, z)
  ]

rounds_le : (b : Bool) (n k : ℕ) → n + 2 ≤ k → (if b then 1 else n + 2) ≤ k
rounds_le true n k h = omega (arith, h)
rounds_le false n k h = h

start-Standing {ℓ} :
    {R : Type ℓ} (t : Nodes (Extra R)) (n : Option ℕ)
    → Rooted t
    → Standing t n
    → Standing t (start n)
start-Standing t none g w = root-Standing t g
start-Standing t (some n) g w = w

module _ {ℓ} {R Q : Type ℓ} where
  -- The variables at the start of the loop.
  abbrev pub started : Scheduler R Q → Option ℕ → Filling R Q
  started s n = record {
    scheduler = s;
    position = start n;
    count = 0;
    exhausted = red_at s.tree root;
  }

  finish-Standing :
      (f : ℕ) (s : Scheduler R Q) (n : Option ℕ) → Standing s.tree n → finish f s n ≡ some (s, n)
  unfolding finish
  finish-Standing f s none w = refl
  finish-Standing f s (some n) w = rw (finish, w.0)

  -- Take a tree where children come after their parent, the root has no parent, every parent is a
  -- node of the tree and has children, and start fill_crawler at no node or at one that is not a
  -- leaf. With fuel for the traversal and for a round per URL that the crawler has room for,
  -- fill_crawler returns just what its loop leaves: the last step never marks an ancestor. The
  -- links of the tree are kept, and the node where it stops is none or not a leaf.
  pub fill_crawler_lem :
      (real : Double R) (k f : ℕ) (s : Scheduler R Q) (c : ℕ) (n : Option ℕ)
      → Shaped s.tree
      → Rooted s.tree
      → Standing s.tree n
      → enough s.tree.next < f
      → room (s.crawler c) + 2 ≤ k
      → (s' : Filling R Q) × (fill_loop real k f (started s n) c ≡ some s')
        × (fill_crawler real k f s c n ≡ some (s'.scheduler, s'.position, s'.count))
        × SameLinks s.tree s'.scheduler.tree
        × Standing s'.scheduler.tree s'.position
  unfolding fill_crawler finished
  fill_crawler_lem real k f s c n g h w b l =
      let i : Filled s.tree (started s n) = record {
        links = SameLinks-refl s.tree;
        standing = start-Standing s.tree n h w;
      } in
      let (s', e, v) =
        fill_loop-Filled real s.tree f c k (started s n) g h b
          (rounds_le (red_at s.tree root) (room (s.crawler c)) k l) i in
      let q = finish-Standing f s'.scheduler s'.position v.standing in
      (s', e, rw (fill_crawler, e, finished, q), v.links, v.standing)
