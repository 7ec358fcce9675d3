-- ===== src/Sched/Scheduler/Rounds.antt =====
-- sched/Scheduler.cpp: a node's place in fill_crawler, and what follows traverse_branch there.
use oodles.Prelude.{
  ap, sym, ◌∙◌, ℕ, zero, suc, ◌+◌, ◌-◌, ◌*◌, ◌%◌, ◌^◌, ◌<◌, ◌≤◌, ◌≡◌, ◌≢◌, refl, Bool, true, false,
  ◌&&◌, Option, none, some, ◌==◌, length, arith, Bool-cases, Option-cases, ◌⊎◌, inl, inr,
}
use oodles.Utility.Tree.{Nodes, write, leaf, is_some}
use oodles.Sched.Crawler
use oodles.Sched.Crawler.{Crawler, full, add_url, lower_bound, insert}
use oodles.Sched.Crawler.WorkUnit.{length-add_url}
use oodles.Sched.Node.{Extra, PageData, edit, page_of, eligible, eligible_page}
use oodles.Utility.Tree.Children.{write_self}
use oodles.Sched.Node.Edits.{edit_field}
use oodles.Sched.Scheduler.{parent_of, size}
use oodles.Sched.Scheduler.Search.{red_at, SameLinks, SameLinks-trans, live}
use oodles.Sched.Scheduler.Traversal.{times, calls}
use oodles.Sched.Scheduler.Work.{
  with_crawler, with_work, filled, Filling, root, step, assign_crawler, assign_node, place,
}

-- The root has no parent, and a parent has children.
pub record Rooted {ℓ} {R : Type ℓ} (t : Nodes (Extra R)) : Type ℓ where
  pub top : parent_of t root ≡ none
  pub children : (k p : ℕ) → parent_of t k ≡ some p → (size t p == 0) ≡ false
  pub allocated : (k p : ℕ) → parent_of t k ≡ some p → p < t.next
  pub root_allocated : root < t.next

-- A bound on `calls` for every node of a tree with `n` nodes.
abbrev pub enough : ℕ → ℕ
enough n = times n (2 * n + 2) + 2 * n + 1

times-le : (a b m : ℕ) → a ≤ b → times a m ≤ times b m
times-le zero b m h = omega arith
times-le (suc a) zero m h = absurd (omega (arith, h))
times-le (suc a) (suc b) m h = omega (arith, times-le a b m (omega (arith, h)))

and_false : (a b : Bool) → b ≡ false → (a && b) ≡ false
and_false true b e = e
and_false false b e = refl

module _ {ℓ} {R : Type ℓ} where
  live-le : (t : Nodes (Extra R)) (m : ℕ) → live t m ≤ m
  live-le t zero = omega arith
  live-le t (suc m) = elim (Bool-cases (red_at t m)) [
    | inl e ↦ rw e (omega (arith, live-le t m))
    | inr e ↦ rw e (omega (arith, live-le t m))
  ]

  pub calls-enough : (t : Nodes (Extra R)) (n : ℕ) → n < t.next → calls t n ≤ enough t.next
  calls-enough t n h =
      let l = times-le (live t t.next) t.next (2 * t.next + 2) (live-le t t.next) in
      elim (Bool-cases (red_at t n)) [
        | inl e ↦ rw e (omega (arith, h, l))
        | inr e ↦ rw e (omega (arith, h, l))
      ]

  pub SameLinks-Rooted : (t t' : Nodes (Extra R)) → SameLinks t t' → Rooted t → Rooted t'
  SameLinks-Rooted t t' s g = record {
    top = s.parent root ∙ g.top;
    children = λ k p e. rw (s.children p) (g.children k p (sym (s.parent k) ∙ e));
    allocated = λ k p e. omega (arith, g.allocated k p (sym (s.parent k) ∙ e), s.next);
    root_allocated = omega (arith, g.root_allocated, s.next);
  }

  -- A node where fill_crawler can stand: none, or one that is not a leaf.
  abbrev pub Standing : Nodes (Extra R) → Option ℕ → Type 0
  Standing t none = Unit
  Standing t (some n) = (leaf t n ≡ false) × (n < t.next)

  pub root-Standing : (t : Nodes (Extra R)) → Rooted t → Standing t (some root)
  root-Standing t g = (rw g.top, g.root_allocated)

  pub parent-Standing :
      (t : Nodes (Extra R)) (k : ℕ) (o : Option ℕ) → Rooted t → parent_of t k ≡ o → Standing t o
  parent-Standing t k none g e = tt
  parent-Standing t k (some p) g e =
      (and_false (is_some (parent_of t p)) (size t p == 0) (g.children k p e), g.allocated k p e)

  -- What holds between the rounds of fill_crawler for the crawler `c`, from the tree `t` on.
  pub record Filled {Q : Type ℓ} (t : Nodes (Extra R)) (s : Filling R Q) : Type ℓ where
    pub links : SameLinks t s.scheduler.tree
    pub standing : Standing s.scheduler.tree s.position

-- The rounds until a crawler is full.
abbrev pub room : Crawler → ℕ
room c = (Crawler.max_unit_size c + (2 ^ 16 - Crawler.assigned c)) % 2 ^ 16

room_suc :
    (m a : ℕ)
    → a % 2 ^ 16 ≢ m % 2 ^ 16
    → suc ((m % 2 ^ 16 + (2 ^ 16 - suc a % 2 ^ 16)) % 2 ^ 16)
      ≡ (m % 2 ^ 16 + (2 ^ 16 - a % 2 ^ 16)) % 2 ^ 16
room_suc m a h = omega (arith, h)

room-add_url : (c : Crawler) (url : ℕ) → full c ≡ false → suc (room (add_url c url).0) ≡ room c
unfolding full add_url
room-add_url c url h =
    let l = length-add_url c url in
    let d : Crawler.assigned c ≢ Crawler.max_unit_size c = λ e. ground arith in
    rw l (room_suc (32 * c.cores) (length c.work_unit) d)

eligible-page :
    (o : Option PageData)
    → eligible_page o ≡ true
    → (d : PageData) × (o ≡ some d) × (d.crawler ≡ none)
eligible-page none h = absurd (cc h)
eligible-page (some d) h = elim (Option-cases d.crawler) [
  | inl e ↦ (d, refl, e)
  | inr (b, e) ↦ let q : false ≡ true = rw (← h, e) in absurd (cc q)
]

module _ {ℓ} {R Q : Type ℓ} where
  -- What one round comes to for the crawler `c`: the loop ends, or there is less room.
  abbrev pub Round : Nodes (Extra R) → ℕ → Filling R Q → Filling R Q → Type ℓ
  Round t c s s' =
      Filled t s'
      × ((s'.exhausted ≡ true)
          ⊎ ((s'.exhausted ≡ false)
              × (suc (room (s'.scheduler.crawler c)) ≡ room (s.scheduler.crawler c))))

  abbrev after_assignment : Filling R Q → ℕ → ℕ → PageData → Filling R Q
  after_assignment s c n d =
      let table = write s.scheduler.page_table d.page_id (some n) in
      let s' = with_work (record s.scheduler { page_table = table }) n d c in
      record s { scheduler = s'; count = (s.count + 1) % 2 ^ 16; position = step s'.tree (some n) }

  after_assignment-Round :
      (t : Nodes (Extra R)) (s : Filling R Q) (c n : ℕ) (d : PageData)
      → Rooted t
      → SameLinks t s.scheduler.tree
      → s.exhausted ≡ false
      → full (s.scheduler.crawler c) ≡ false
      → Round t c s (after_assignment s c n d)
  after_assignment-Round t s c n d g l x h =
      let u = s.scheduler.tree in
      let v = edit u n (with_crawler d c) in
      let k : SameLinks u v = record {
        next = refl;
        parent = λ k. edit_field u n (with_crawler d c) (λ x. x.parent) k (λ x. refl);
        children = λ k. edit_field u n (with_crawler d c) (λ x. x.children) k (λ x. refl);
      } in
      let m = SameLinks-trans t u v l k in
      let w = write_self s.scheduler.crawler c (add_url (s.scheduler.crawler c) d.url).0 in
      (
        record {
          links = m;
          standing = parent-Standing v n (parent_of v n) (SameLinks-Rooted t v m g) refl;
        },
        inr (x, ap (λ y. suc (room y)) w ∙ room-add_url (s.scheduler.crawler c) d.url h),
      )

  assign_node_lem :
      (s : Filling R Q) (c n : ℕ) (d : PageData)
      → d.crawler ≡ none
      → assign_node s c n (some d) ≡ some (after_assignment s c n d)
  unfolding assign_crawler
  assign_node_lem s c n d e =
      let table = write s.scheduler.page_table d.page_id (some n) in
      let s' = record s.scheduler { page_table = table } in
      ap
        (λ (o : Option ℕ). filled s (elim o [ none ↦ some (with_work s' n d c) | some b ↦ none ]) n)
        e

  pub place-Round :
      (t : Nodes (Extra R)) (s : Filling R Q) (c p : ℕ) (o : Option ℕ)
      → Rooted t
      → SameLinks t s.scheduler.tree
      → s.exhausted ≡ false
      → full (s.scheduler.crawler c) ≡ false
      → ((n : ℕ) → o ≡ some n → eligible s.scheduler.tree n ≡ true)
      → (s' : Filling R Q) × (place s c p o ≡ some s') × Round t c s s'
  place-Round t s c p none g l x h a = (
    record s { exhausted = true; position = some root },
    refl,
    (
      record {
        links = l;
        standing = root-Standing s.scheduler.tree (SameLinks-Rooted t s.scheduler.tree l g);
      },
      inl refl,
    ),
  )
  place-Round t s c p (some n) g l x h a =
      let e = a n refl in
      let (d, i, j) = eligible-page (page_of s.scheduler.tree n) e in
      (
        after_assignment s c n d,
        rw (e, i) (assign_node_lem s c n d j),
        after_assignment-Round t s c n d g l x h,
      )
