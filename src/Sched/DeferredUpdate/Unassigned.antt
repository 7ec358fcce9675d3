-- ===== src/Sched/DeferredUpdate/Unassigned.antt =====
-- sched/DeferredUpdate.cpp: only fill_crawler enters a page in the page table, and update needs it
-- there.
use oodles.Prelude.{
  ap, ◌∙◌, ℕ, ◌+◌, ◌%◌, ◌^◌, ◌≡◌, refl, Bool, true, false, List, [], ◌∷◌, ◌++◌, Option, none, some,
}
use oodles.Url.Attributes.{Attributes, Text}
use oodles.Url.Ids.{ids}
use oodles.Url.Parser.Scan.{Outcome, done, aborted, undefined, exhausted}
use oodles.Url.Parser.Machine.{parse}
use oodles.Url.Parser.Machine.RoundTrip.{no_attributes}
use oodles.Utility.Tree
use oodles.Utility.Tree.{Nodes}
use oodles.Sched.Crawler.{Crawler, remove_url}
use oodles.Sched.Session.{Deferable}
use oodles.Sched.Node.{Double, Extra, PageData, new_page, new_extra, page_of}
use oodles.Sched.Scheduler.{Scheduler, weigh_tree_branch, clean_tree_branch}
use oodles.Sched.Scheduler.Updates.{
  set_page, count_link, released, unassign_crawler, crawled, with_tree, with_id, reweigh, reclean,
  updated, update_released, update_page, update_node, scheduled, schedule_page, schedule_at,
  schedule_values, schedule, schedule_from_crawl, tree_values,
}
use oodles.Sched.DeferredUpdate.{
  DeferredUpdate, schedule_url, update_new, update_new_urls, update_scheduled, update_all, finish,
  update,
}

module _ {ℓ} {R Q : Type ℓ} (real : Double R) where
  -- The same page table, in a result if there is one.
  abbrev Table : Scheduler R Q → Outcome (Scheduler R Q) → Type 0
  Table s aborted = Unit
  Table s undefined = Unit
  Table s exhausted = Unit
  Table s (done s') = s'.page_table ≡ s.page_table

  abbrev TableId : Scheduler R Q → Outcome (Scheduler R Q × ℕ) → Type 0
  TableId s aborted = Unit
  TableId s undefined = Unit
  TableId s exhausted = Unit
  TableId s (done (s', id)) = s'.page_table ≡ s.page_table

  with_tree-Table : (s : Scheduler R Q) (o : Option (Nodes (Extra R))) → Table s (with_tree s o)
  with_tree-Table s none = tt
  with_tree-Table s (some t) = refl

  with_id-Table :
      (s : Scheduler R Q) (id : ℕ) (o : Outcome (Scheduler R Q))
      → Table s o
      → TableId s (with_id real id o)
  with_id-Table s id aborted h = tt
  with_id-Table s id undefined h = tt
  with_id-Table s id exhausted h = tt
  with_id-Table s id (done s') h = h

  scheduled-Table :
      (f : ℕ) (s : Scheduler R Q) (n : ℕ) (b : Bool) (d : PageData)
      → TableId s (scheduled real f s n b d)
  scheduled-Table f s n b d =
      let s' : Scheduler R Q = record s { tree = set_page s.tree n (count_link b d) } in
      with_id-Table s d.page_id (reweigh real f s' n)
        (with_tree-Table s' (weigh_tree_branch real f s'.tree n))

  schedule_page-Table :
      (f : ℕ) (s : Scheduler R Q) (n : ℕ) (b : Bool) (new : PageData) (o : Option PageData)
      → TableId s (schedule_page real f s n b new o)
  schedule_page-Table f s n b new none =
      scheduled-Table f (record s { leaves = (s.leaves + 1) % 2 ^ 64 }) n b new
  schedule_page-Table f s n b new (some d) = scheduled-Table f s n b d

  schedule_at-Table :
      (f : ℕ) (s : Scheduler R Q) (b : Bool) (new : PageData) (o : Option (Nodes (Extra R) × ℕ))
      → TableId s (schedule_at real f s b new o)
  schedule_at-Table f s b new none = tt
  schedule_at-Table f s b new (some (t, n)) =
      schedule_page-Table f (record s { tree = t }) n b new (page_of t n)

  schedule_values-Table :
      (f : ℕ) (s : Scheduler R Q) (b : Bool) (new : PageData) (o : Option (List Text))
      → TableId s (schedule_values real f s b new o)
  schedule_values-Table f s b new none = tt
  schedule_values-Table f s b new (some vs) =
      schedule_at-Table f s b new (Tree.insert (new_extra real) s.tree none vs)

  schedule-Table :
      (f : ℕ) (s : Scheduler R Q) (a : Attributes) (b : Bool) (u now : ℕ)
      → TableId s (schedule real f s a b u now)
  unfolding schedule
  schedule-Table f s a b u now =
      schedule_values-Table f s b (new_page u (ids a).page now) (tree_values a)

  released-Table :
      (s : Scheduler R Q) (n b : ℕ) (d : PageData) (o : Option (Crawler × ℕ))
      → Table s (released s n b d o)
  released-Table s n b d none = tt
  released-Table s n b d (some (c, k)) = refl

  unassign-Table :
      (s : Scheduler R Q) (n : ℕ) (d : PageData) (o : Option ℕ)
      → Table s
          (elim o [ none ↦ aborted | some b ↦ released s n b d (remove_url (s.crawler b) d.url) ])
  unassign-Table s n d none = tt
  unassign-Table s n d (some b) = released-Table s n b d (remove_url (s.crawler b) d.url)

  crawled-Table :
      (s : Scheduler R Q) (n time : ℕ) (o : Option PageData) → Table s (crawled s n time o)
  crawled-Table s n time none = tt
  crawled-Table s n time (some d) = refl

  reclean-Table :
      (f : ℕ) (s : Scheduler R Q) (n : ℕ) (o : Outcome (Scheduler R Q))
      → Table s o
      → Table s (reclean real f n o)
  reclean-Table f s n aborted h = tt
  reclean-Table f s n undefined h = tt
  reclean-Table f s n exhausted h = tt
  reclean-Table f s n (done s') h = rw (← h) (with_tree-Table s' (clean_tree_branch f s'.tree n))

  updated-Table :
      (f : ℕ) (s : Scheduler R Q) (n : ℕ) (o : Outcome (Scheduler R Q))
      → Table s o
      → Table s (updated real f n o)
  updated-Table f s n aborted h = tt
  updated-Table f s n undefined h = tt
  updated-Table f s n exhausted h = tt
  updated-Table f s n (done s') h = rw (← h) (
      reclean-Table f s' n (reweigh real f s' n)
        (with_tree-Table s' (weigh_tree_branch real f s'.tree n)))

  update_released-Table :
      (f : ℕ) (s : Scheduler R Q) (n time : ℕ) (o : Outcome (Scheduler R Q))
      → Table s o
      → Table s (update_released real f n time o)
  update_released-Table f s n time aborted h = tt
  update_released-Table f s n time undefined h = tt
  update_released-Table f s n time exhausted h = tt
  update_released-Table f s n time (done s') h =
      let c = crawled s' n time (page_of s'.tree n) in
      rw (← h) (updated-Table f s' n c (crawled-Table s' n time (page_of s'.tree n)))

  update_page-Table :
      (f : ℕ) (s : Scheduler R Q) (n time : ℕ) (o : Option PageData)
      → Table s (update_page real f s n time o)
  unfolding unassign_crawler
  update_page-Table f s n time none = tt
  update_page-Table f s n time (some d) =
      update_released-Table f s n time (unassign_crawler s n d) (unassign-Table s n d d.crawler)

  node-Table :
      (f : ℕ) (s : Scheduler R Q) (time : ℕ) (o : Option ℕ)
      → Table s
          (elim o [ none ↦ undefined | some n ↦ update_page real f s n time (page_of s.tree n) ])
  node-Table f s time none = tt
  node-Table f s time (some n) = update_page-Table f s n time (page_of s.tree n)

  update_node-Table :
      (f : ℕ) (s : Scheduler R Q) (id time : ℕ) → Table s (update_node real f s id time)
  unfolding update_node
  update_node-Table f s id time = node-Table f s time (s.page_table id)

  update_node-missing :
      (f : ℕ) (s : Scheduler R Q) (id time : ℕ)
      → s.page_table id ≡ none
      → update_node real f s id time ≡ undefined
  unfolding update_node
  update_node-missing f s id time h = rw (update_node, h)

  kept_entries :
      (s s' : Scheduler R Q) (o : Outcome (Scheduler R Q))
      → Table s o
      → o ≡ done s'
      → s'.page_table ≡ s.page_table
  kept_entries s s' o a e = rw e at a

  kept_entries_id :
      (s s' : Scheduler R Q) (id : ℕ) (o : Outcome (Scheduler R Q × ℕ))
      → TableId s o
      → o ≡ done (s', id)
      → s'.page_table ≡ s.page_table
  kept_entries_id s s' id o a e = rw e at a

  module _ (at_address : ℕ → ℕ) where
    schedule_url-Table :
        (f now : ℕ) (s : Scheduler R Q) (n : ℕ) (o : Outcome Attributes)
        → TableId s (schedule_url real at_address f now s n o)
    unfolding schedule_from_crawl schedule
    schedule_url-Table f now s n aborted = tt
    schedule_url-Table f now s n undefined = tt
    schedule_url-Table f now s n exhausted = tt
    schedule_url-Table f now s n (done a) = schedule-Table f s a false (at_address n) now

    update_new-Table :
        (f now : ℕ) (s : Scheduler R Q) (crawled : Bool) (o : Outcome (Scheduler R Q × ℕ))
        → TableId s o
        → Table s (update_new real at_address f now crawled o)
    unfolding update_new
    update_new-Table f now s c aborted h = tt
    update_new-Table f now s c undefined h = tt
    update_new-Table f now s c exhausted h = tt
    update_new-Table f now s true (done (s', id)) h = rw (← h) (update_node-Table f s' id now)
    update_new-Table f now s false (done (s', id)) h = h

    first_url-Table :
        (f now : ℕ) (s : Scheduler R Q) (n : ℕ) (crawled : Bool) (o : Outcome Attributes)
        → Table s
            (update_new real at_address f now crawled (schedule_url real at_address f now s n o))
    first_url-Table f now s n c o =
        update_new-Table f now s c (schedule_url real at_address f now s n o)
          (schedule_url-Table f now s n o)

    new_urls-done :
        (f now n : ℕ) (us : List (Text × Bool)) (o : Outcome (Scheduler R Q))
        (r : Scheduler R Q × ℕ)
        → (elim o as (λ c. Outcome (Scheduler R Q × ℕ)) [
          | aborted ↦ aborted
          | undefined ↦ undefined
          | exhausted ↦ exhausted
          | done s' ↦ update_new_urls real at_address f now s' n us
        ])
          ≡ done r
        → (s' : Scheduler R Q) × (o ≡ done s')
          × (update_new_urls real at_address f now s' n us ≡ done r)
    new_urls-done f now n us aborted r h = absurd (cc h)
    new_urls-done f now n us undefined r h = absurd (cc h)
    new_urls-done f now n us exhausted r h = absurd (cc h)
    new_urls-done f now n us (done s') r h = (s', refl, h)

    new_urls-undefined :
        (f now n n1 id : ℕ) (s s1 s2 : Scheduler R Q) (xs ys : List (Text × Bool)) (url : Text)
        → update_new_urls real at_address f now s n xs ≡ done (s1, n1)
        → schedule_url real at_address f now s1 n1 (parse url no_attributes) ≡ done (s2, id)
        → s.page_table id ≡ none
        → update_new_urls real at_address f now s n (xs ++ (url, true) ∷ ys) ≡ undefined
    unfolding update_new_urls update_new
    new_urls-undefined f now n n1 id s s1 s2 [] ys url a b m =
        let q : s ≡ s1 = cc a in
        let p : n ≡ n1 = cc a in
        let g : schedule_url real at_address f now s n (parse url no_attributes) ≡ done (s2, id) =
          rw (q, p) b in
        let same =
          kept_entries_id s s2 id (schedule_url real at_address f now s n (parse url no_attributes))
            (schedule_url-Table f now s n (parse url no_attributes)) g in
        let z : update_node real f s2 id now ≡ undefined =
          update_node-missing f s2 id now (ap (λ t. t id) same ∙ m) in
        rw (update_new_urls, g, z)
    new_urls-undefined f now n n1 id s s1 s2 ((u, c) ∷ xs) ys url a b m =
        let o =
          update_new real at_address f now c
            (schedule_url real at_address f now s n (parse u no_attributes)) in
        let (s', d, rest) = new_urls-done f now (n + 1) xs o (s1, n1) a in
        let same = kept_entries s s' o (first_url-Table f now s n c (parse u no_attributes)) d in
        rw (update_new_urls, d)
          (new_urls-undefined f now (n + 1) n1 id s' s1 s2 xs ys url rest b
            (ap (λ t. t id) same ∙ m))

    -- When the first deferred update has a new URL that was crawled already, those in front of it are
    -- done and it is scheduled, update reads the page of a null node if the page table had no node
    -- for its id at the start: scheduling a URL, or updating a node, enters none.
    pub update-unassigned :
        (f now n1 id : ℕ) (s s1 s2 : Scheduler R Q) (xs ys : List (Text × Bool)) (url : Text)
        (w : DeferredUpdate) (d : Deferable) (e : ℕ) (us : List (Deferable × ℕ))
        → w.updates ≡ (d, e) ∷ us
        → d.new_urls ≡ xs ++ (url, true) ∷ ys
        → update_new_urls real at_address f now s 0 xs ≡ done (s1, n1)
        → schedule_url real at_address f now s1 n1 (parse url no_attributes) ≡ done (s2, id)
        → s.page_table id ≡ none
        → update real at_address f now s w ≡ undefined
    unfolding update update_all finish update_scheduled
    update-unassigned f now n1 id s s1 s2 xs ys url w d e us h g a b m =
        let z = new_urls-undefined f now 0 n1 id s s1 s2 xs ys url a b m in
        rw (update, h, update_all, g, z)
