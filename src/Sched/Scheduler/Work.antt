-- ===== src/Sched/Scheduler/Work.antt =====
-- sched/Scheduler.cpp: fill_crawler, which gives a crawler its work, and run, which does so for each.
-- The queue of crawlers is a `std::priority_queue`, whose operations are parameters.
use oodles.Prelude.{
  ℕ, zero, suc, ◌+◌, ◌%◌, ◌^◌, Bool, true, false, ◌&&◌, List, [], ◌∷◌, ◌++◌, Option, none, some,
  ◌==◌, if◌then◌else◌,
}
use oodles.Utility.BreadCrumbTrail.{BreadCrumbTrail}
use oodles.Utility.Tree.{Nodes, TreeNode, write, leaf}
use oodles.Sched.Crawler.{Crawler, online, full, add_url, begin_crawl, rank}
use oodles.Sched.Node.{Double, Extra, PageData, edit, page_of, eligible, assigned}
use oodles.Sched.Scheduler.{Scheduler, parent_of, is_red, mark_ancestors, traverse_branch}

abbrev pub root : ℕ
root = 0

-- The queue is ordered by what `rank` says of two crawlers.
pub record Queue {ℓ} (Q : Type ℓ) : Type ℓ where
  pub size : Q → ℕ
  pub top : Q → ℕ
  pub pop : (ℕ → ℕ → Bool) → Q → Q
  pub push : (ℕ → ℕ → Bool) → ℕ → Q → Q

-- The variables of fill_crawler.
pub record Filling {ℓ} (R Q : Type ℓ) : Type ℓ where
  pub scheduler : Scheduler R Q
  pub position : Option ℕ
  pub count : ℕ
  pub exhausted : Bool

-- `n = !n ? root : parent_of(*n)` and `n = !n ? root : n`.
abbrev pub step {ℓ} : {R : Type ℓ} → Nodes (Extra R) → Option ℕ → Option ℕ
step t none = some root
step t (some n) = parent_of t n

abbrev pub start : Option ℕ → Option ℕ
start none = some root
start (some n) = some n

abbrev pub with_crawler {ℓ} : {R : Type ℓ} → PageData → ℕ → TreeNode (Extra R) → TreeNode (Extra R)
with_crawler d c x = record x {
  extra = record x.extra { page = some (record d { crawler = some c }) };
}

module _ {ℓ} {R Q : Type ℓ} where
  -- PageData::assign_crawler, of the page of node `n`.
  abbrev pub with_work : Scheduler R Q → ℕ → PageData → ℕ → Scheduler R Q
  with_work s n d c = record s {
    crawler = write s.crawler c (add_url (s.crawler c) d.url).0;
    tree = edit s.tree n (with_crawler d c);
  }

  unfoldable pub assign_crawler : Scheduler R Q → ℕ → PageData → ℕ → Option (Scheduler R Q)
  assign_crawler s n d c = elim d.crawler [ none ↦ some (with_work s n d c) | some b ↦ none ]

  abbrev pub filled : Filling R Q → Option (Scheduler R Q) → ℕ → Option (Filling R Q)
  filled s none n = none
  filled s (some s') n = some (record s {
    scheduler = s';
    count = (s.count + 1) % 2 ^ 16;
    position = step s'.tree (some n);
  })

  -- An eligible node has a page: it is cached and assigned.
  abbrev pub assign_node : Filling R Q → ℕ → ℕ → Option PageData → Option (Filling R Q)
  assign_node s c n none = none
  assign_node s c n (some d) =
      let table = write s.scheduler.page_table d.page_id (some n) in
      filled s (assign_crawler (record s.scheduler { page_table = table }) n d c) n

  -- What follows traverse_branch from `p`, and the step to the next node.
  abbrev pub place : Filling R Q → ℕ → ℕ → Option ℕ → Option (Filling R Q)
  place s c p none = some (record s { exhausted = true; position = some root })
  place s c p (some n) =
      if eligible s.scheduler.tree n
      then assign_node s c n (page_of s.scheduler.tree n)
      else some (record s { position = step s.scheduler.tree (some p) })

  abbrev pub mark_parents :
      ℕ → Scheduler R Q → Option ℕ → Option ℕ → Option (Scheduler R Q × Option ℕ)
  mark_parents f s p position = elim (mark_ancestors f s.tree p) [
    | none ↦ none
    | some t ↦ some (record s { tree = t }, position)
  ]

  -- The end of fill_crawler.
  unfoldable pub finish : ℕ → Scheduler R Q → Option ℕ → Option (Scheduler R Q × Option ℕ)
  finish f s none = some (s, none)
  finish f s (some n) =
      if leaf s.tree n && assigned s.tree n
      then mark_parents f s (parent_of s.tree n) (some n)
      else some (s, some n)

module _ {ℓ} {R Q : Type ℓ} (real : Double R) where
  -- One round of the loop, with the step to the next node; `f` is the fuel of the traversal.
  abbrev pub traversed :
      Filling R Q
      → ℕ
      → ℕ
      → Option (Nodes (Extra R) × Option BreadCrumbTrail × Option ℕ)
      → Option (Filling R Q)
  traversed s c p none = none
  traversed s c p (some (t, trail, r)) =
      place (record s { scheduler = record s.scheduler { tree = t; trail = trail } }) c p r

  unfoldable pub fill_round : ℕ → Filling R Q → ℕ → Option (Filling R Q)
  fill_round f s c = elim s.position [
    | none ↦ some (record s { exhausted = true; position = some root })
    | some p ↦
        if full (s.scheduler.crawler c)
        then some (record s { exhausted = true; position = step s.scheduler.tree (some p) })
        else traversed s c p (traverse_branch real f s.scheduler.tree s.scheduler.trail p)
  ]

  unfoldable pub fill_loop : ℕ → ℕ → Filling R Q → ℕ → Option (Filling R Q)
  unfolding fill_round
  fill_loop zero f s c = none
  fill_loop (suc k) f s c = elim s.exhausted [
    | true ↦ some s
    | false ↦ elim (fill_round f s c) [ none ↦ none | some s' ↦ fill_loop k f s' c ]
  ]

  abbrev pub counted : ℕ → Option (Scheduler R Q × Option ℕ) → Option (Scheduler R Q × Option ℕ × ℕ)
  counted k none = none
  counted k (some (s, n)) = some (s, n, k)

  unfoldable pub finished : ℕ → Option (Filling R Q) → Option (Scheduler R Q × Option ℕ × ℕ)
  unfolding finish
  finished f none = none
  finished f (some s) = counted s.count (finish f s.scheduler s.position)

  -- fill_crawler: the scheduler, the node where it stopped and how many URLs it assigned.
  unfoldable pub fill_crawler :
      ℕ → ℕ → Scheduler R Q → ℕ → Option ℕ → Option (Scheduler R Q × Option ℕ × ℕ)
  unfolding fill_loop finished
  fill_crawler k f s c n = finished f (
      fill_loop k f
        (record {
          scheduler = s;
          position = start n;
          count = 0;
          exhausted = is_red (s.tree.node root).visit_state;
        })
        c)

  module _ (queue : Queue Q) where
    abbrev pub requeue : Scheduler R Q → ℕ → Scheduler R Q
    requeue s c =
        let less : ℕ → ℕ → Bool = λ l r. rank (s.crawler l) (s.crawler r) in
        record s { crawlers = queue.push less c (queue.pop less s.crawlers) }

    -- The body of the loop of run: the scheduler, the position, the number assigned so far and the
    -- crawlers that have been given work.
    abbrev pub deferred :
        ℕ
        → List ℕ
        → ℕ
        → Option (Scheduler R Q × Option ℕ × ℕ)
        → Option (Scheduler R Q × Option ℕ × ℕ × List ℕ)
    deferred total cs c none = none
    deferred total cs c (some (s, n, l)) = some (
      requeue s c,
      n,
      (if l == 0 then total else (total + l) % 2 ^ 32),
      (if l == 0 then cs else cs ++ c ∷ []),
    )

    abbrev pub run_crawler :
        ℕ
        → ℕ
        → Scheduler R Q
        → Option ℕ
        → ℕ
        → List ℕ
        → ℕ
        → Option (Scheduler R Q × Option ℕ × ℕ × List ℕ)
    unfolding fill_crawler
    run_crawler k f s n total cs c =
        if online (s.crawler c)
        then deferred total cs c (fill_crawler k f s c n)
        else some (requeue s c, n, total, cs)

    unfoldable pub run_loop :
        ℕ → ℕ → ℕ → Scheduler R Q → Option ℕ → ℕ → List ℕ → Option (Scheduler R Q × ℕ × List ℕ)
    run_loop zero k f s n total cs = some (s, total, cs)
    run_loop (suc i) k f s n total cs = elim (run_crawler k f s n total cs (queue.top s.crawlers)) [
      | none ↦ none
      | some (s', n', total', cs') ↦ run_loop i k f s' n' total' cs'
    ]

    -- The URLs that each begin_crawl sends.
    unfoldable pub begin_crawls : (ℕ → Crawler) → List ℕ → Option (List (ℕ × List ℕ))
    begin_crawls crawler [] = some []
    begin_crawls crawler (c ∷ cs) =
        let rest = begin_crawls crawler cs in
        elim (begin_crawl (crawler c)) [
          | none ↦ none
          | some us ↦ elim rest [ none ↦ none | some ms ↦ some ((c, us) ∷ ms) ]
        ]

    abbrev pub sent :
        Scheduler R Q
        → ℕ
        → Option (List (ℕ × List ℕ))
        → Option (Scheduler R Q × ℕ × List (ℕ × List ℕ))
    sent s total none = none
    sent s total (some ms) = some (record s { trail = none }, total, ms)

    abbrev pub run_end :
        Option (Scheduler R Q × ℕ × List ℕ) → Option (Scheduler R Q × ℕ × List (ℕ × List ℕ))
    unfolding begin_crawls
    run_end none = none
    run_end (some (s, total, cs)) = sent s total (begin_crawls s.crawler cs)

    -- run, with the fuel of fill_crawler.
    unfoldable pub run :
        ℕ
        → ℕ
        → Scheduler R Q
        → Option BreadCrumbTrail
        → Option (Scheduler R Q × ℕ × List (ℕ × List ℕ))
    unfolding run_loop
    run k f s trail =
        if queue.size s.crawlers == 0
        then some (s, 0, [])
        else run_end (run_loop (queue.size s.crawlers) k f (record s { trail = trail }) none 0 [])
