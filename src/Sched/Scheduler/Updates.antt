-- ===== src/Sched/Scheduler/Updates.antt =====
-- sched/Scheduler.cpp: the making of a scheduler, schedule and update_node. A URL is given by its
-- attributes; `at_address` is where `new` puts the page's URL, and `time` is the C library's clock. A
-- run is `aborted` by a failed assertion, `undefined` where it reads through a null pointer or out of
-- range, and `exhausted` when the fuel for the way to the root does not suffice.
use oodles.Prelude.{ℕ, ◌+◌, ◌%◌, ◌^◌, Bool, true, false, List, Option, none, some, map, length}
use oodles.Url.Attributes.{Attributes, Text, at, begin}
use oodles.Url.Ids.{ids}
use oodles.Url.Parser.Scan.{Outcome, done, aborted, undefined, exhausted}
use oodles.Url.TreeIterator
use oodles.Url.TreeIterator.Forward.{visit}
use oodles.Utility.Tree
use oodles.Utility.Tree.{Nodes, write}
use oodles.Sched.Crawler.{Crawler, remove_url, rank}
use oodles.Sched.Node.{Double, Extra, PageData, new_page, new_extra, edit_extra, page_of}
use oodles.Sched.Scheduler.{Scheduler, weigh_tree_branch, clean_tree_branch}
use oodles.Sched.Scheduler.Work.{Queue}

abbrev pub set_page {ℓ} : {R : Type ℓ} → Nodes (Extra R) → ℕ → PageData → Nodes (Extra R)
set_page t n d = edit_extra t n (λ x. record x { page = some d })

abbrev pub count_link : Bool → PageData → PageData
count_link true d = d
count_link false d = record d { links = (d.links + 1) % 2 ^ 32 }

-- What a loop from begin_tree() to end_tree() reads.
abbrev pub tree_values : Attributes → Option (List Text)
tree_values a =
    elim (visit a (length a.domain + length a.path + 2) (some (TreeIterator.create a begin))) [
      | none ↦ none
      | some places ↦ some (map (at a) places)
    ]

module _ {ℓ} {R Q : Type ℓ} where
  -- register_crawler
  abbrev pub register_crawler : Queue Q → Scheduler R Q → ℕ → Scheduler R Q
  register_crawler queue s c =
      let less : ℕ → ℕ → Bool = λ l r. rank (s.crawler l) (s.crawler r) in
      record s { crawlers = queue.push less c s.crawlers }

  -- remove_url asserts that it finds the URL.
  abbrev pub released :
      Scheduler R Q → ℕ → ℕ → PageData → Option (Crawler × ℕ) → Outcome (Scheduler R Q)
  released s n b d none = aborted
  released s n b d (some (c, k)) = done (record s {
    crawler = write s.crawler b c;
    tree = set_page s.tree n (record d { crawler = none });
  })

  -- PageData::unassign_crawler, of the page of node `n`; it asserts that there is a crawler.
  unfoldable pub unassign_crawler : Scheduler R Q → ℕ → PageData → Outcome (Scheduler R Q)
  unassign_crawler s n d = elim d.crawler [
    | none ↦ aborted
    | some b ↦ released s n b d (remove_url (s.crawler b) d.url)
  ]

  -- `page->last_crawl = time` and `page->crawl_count++`.
  abbrev pub crawled : Scheduler R Q → ℕ → ℕ → Option PageData → Outcome (Scheduler R Q)
  crawled s n time none = undefined
  crawled s n time (some d) = done (record s {
    tree =
        set_page s.tree n
          (record d { last_crawl = time; crawl_count = (d.crawl_count + 1) % 2 ^ 32 });
  })

  -- The tree after a walk to the root, if the fuel sufficed.
  abbrev pub with_tree : Scheduler R Q → Option (Nodes (Extra R)) → Outcome (Scheduler R Q)
  with_tree s none = exhausted
  with_tree s (some t) = done (record s { tree = t })

  -- Scheduler::Scheduler
  abbrev pub create : Double R → Q → (ℕ → Crawler) → Text → Scheduler R Q
  create real q crawler root = record {
    leaves = 0;
    trail = none;
    tree = Tree.create (new_extra real) root;
    crawlers = q;
    crawler = crawler;
    page_table = λ h. none;
  }

module _ {ℓ} {R Q : Type ℓ} (real : Double R) where
  abbrev pub reweigh : ℕ → Scheduler R Q → ℕ → Outcome (Scheduler R Q)
  reweigh f s n = with_tree s (weigh_tree_branch real f s.tree n)

  abbrev pub reclean : ℕ → ℕ → Outcome (Scheduler R Q) → Outcome (Scheduler R Q)
  reclean f n aborted = aborted
  reclean f n undefined = undefined
  reclean f n exhausted = exhausted
  reclean f n (done s) = with_tree s (clean_tree_branch f s.tree n)

  abbrev pub updated : ℕ → ℕ → Outcome (Scheduler R Q) → Outcome (Scheduler R Q)
  updated f n aborted = aborted
  updated f n undefined = undefined
  updated f n exhausted = exhausted
  updated f n (done s) = reclean f n (reweigh f s n)

  abbrev pub update_released : ℕ → ℕ → ℕ → Outcome (Scheduler R Q) → Outcome (Scheduler R Q)
  update_released f n time aborted = aborted
  update_released f n time undefined = undefined
  update_released f n time exhausted = exhausted
  update_released f n time (done s) = updated f n (crawled s n time (page_of s.tree n))

  -- A node without a page gives a null pointer.
  abbrev pub update_page : ℕ → Scheduler R Q → ℕ → ℕ → Option PageData → Outcome (Scheduler R Q)
  unfolding unassign_crawler
  update_page f s n time none = undefined
  update_page f s n time (some d) = update_released f n time (unassign_crawler s n d)

  -- update_node. A missing id gives a null pointer, whose page is read.
  unfoldable pub update_node : ℕ → Scheduler R Q → ℕ → ℕ → Outcome (Scheduler R Q)
  update_node f s id time = elim (s.page_table id) [
    | none ↦ undefined
    | some n ↦ update_page f s n time (page_of s.tree n)
  ]

  abbrev pub with_id : ℕ → Outcome (Scheduler R Q) → Outcome (Scheduler R Q × ℕ)
  with_id id aborted = aborted
  with_id id undefined = undefined
  with_id id exhausted = exhausted
  with_id id (done s) = done (s, id)

  -- schedule after the insertion at node `n`, with the page that stands there or the new one.
  abbrev pub scheduled : ℕ → Scheduler R Q → ℕ → Bool → PageData → Outcome (Scheduler R Q × ℕ)
  scheduled f s n from_seed d =
      let s' = record s { tree = set_page s.tree n (count_link from_seed d) } in
      with_id d.page_id (reweigh f s' n)

  abbrev pub schedule_page :
      ℕ → Scheduler R Q → ℕ → Bool → PageData → Option PageData → Outcome (Scheduler R Q × ℕ)
  schedule_page f s n from_seed new none =
      scheduled f (record s { leaves = (s.leaves + 1) % 2 ^ 64 }) n from_seed new
  schedule_page f s n from_seed new (some d) = scheduled f s n from_seed d

  -- `none` is a child that is out of range.
  abbrev pub schedule_at :
      ℕ
      → Scheduler R Q
      → Bool
      → PageData
      → Option (Nodes (Extra R) × ℕ)
      → Outcome (Scheduler R Q × ℕ)
  schedule_at f s from_seed new none = undefined
  schedule_at f s from_seed new (some (t, n)) =
      schedule_page f (record s { tree = t }) n from_seed new (page_of t n)

  -- `none` is fuel of the iteration that did not suffice.
  abbrev pub schedule_values :
      ℕ → Scheduler R Q → Bool → PageData → Option (List Text) → Outcome (Scheduler R Q × ℕ)
  schedule_values f s from_seed new none = exhausted
  schedule_values f s from_seed new (some values) =
      schedule_at f s from_seed new (Tree.insert (new_extra real) s.tree none values)

  -- schedule: the scheduler and the page's id.
  unfoldable pub schedule :
      ℕ → Scheduler R Q → Attributes → Bool → ℕ → ℕ → Outcome (Scheduler R Q × ℕ)
  schedule f s a from_seed at_address time =
      schedule_values f s from_seed (new_page at_address (ids a).page time) (tree_values a)

  unfoldable pub schedule_from_seed :
      ℕ → Scheduler R Q → Attributes → ℕ → ℕ → Outcome (Scheduler R Q × ℕ)
  unfolding schedule
  schedule_from_seed f s a at_address time = schedule f s a true at_address time

  unfoldable pub schedule_from_crawl :
      ℕ → Scheduler R Q → Attributes → ℕ → ℕ → Outcome (Scheduler R Q × ℕ)
  unfolding schedule
  schedule_from_crawl f s a at_address time = schedule f s a false at_address time
