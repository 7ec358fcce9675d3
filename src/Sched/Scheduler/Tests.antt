-- ===== src/Sched/Scheduler/Tests.antt =====
-- sched/Scheduler.cpp: a root, a domain and two pages, with natural numbers for the weights.
use oodles.Prelude.{
  ℕ, zero, suc, ◌+◌, ◌-◌, ◌*◌, ◌/◌, ◌<◌, ◌≡◌, refl, true, false, List, [], ◌∷◌, Option, none, some,
  ltb, ◌==◌, arith, bytes,
}
use oodles.Utility.IndexedSet
use oodles.Utility.IndexedSet.{IndexedSet}
use oodles.Utility.BreadCrumbTrail.{BreadCrumbTrail}
use oodles.Utility.Tree.{TreeNode, Nodes, green}
use oodles.Sched.Crawler
use oodles.Sched.Crawler.{Crawler}
use oodles.Sched.Node.{Double, Extra, PageData, new_page, new_extra}
use oodles.Sched.Scheduler.{Scheduler, parent_of, traverse_branch, clean_tree_branch}
use oodles.Sched.Scheduler.Cleaning.{Cleaned, clean_tree_branch-Cleaned}
use oodles.Sched.Scheduler.Search.{Shaped, SameLinks}
use oodles.Sched.Scheduler.Traversal.{Returned, traverse_branch-Returned}
use oodles.Sched.Scheduler.Rounds.{Rooted, Standing}
use oodles.Sched.Scheduler.Work.{Filling, fill_loop, fill_crawler}
use oodles.Sched.Scheduler.Filling.{started, fill_crawler_lem}

abbrev naturals : Double ℕ
naturals = record {
  of_nat = λ n. n;
  half = 1;
  add = λ a b. a + b;
  sub = λ a b. a - b;
  mul = λ a b. a * b;
  div = λ a b. a / b;
  less = ltb;
  equal = λ a b. a == b;
  fabs = λ a. a;
  sqrt = λ a. a;
  pow = λ a b. a * a;
}

abbrev children_of : List ℕ → List (ℕ × ℕ) → List ℕ → IndexedSet ℕ
children_of is items ls = record { unique = true; items = items; indicies = is; locations = ls }

abbrev placed : Option ℕ → Option PageData → IndexedSet ℕ → TreeNode (Extra ℕ)
placed p d cs = record {
  value = bytes "x";
  visit_state = green;
  parent = p;
  path_idx = 0;
  child_idx = 0;
  children = cs;
  extra = record (new_extra naturals) { page = d };
}

abbrev no_children : IndexedSet ℕ
no_children = children_of [] [] []

abbrev node_at : ℕ → TreeNode (Extra ℕ)
node_at zero = placed none none (children_of (0 ∷ []) ((1, 0) ∷ []) (1 ∷ []))
node_at (suc zero) =
    placed (some 0) none (children_of (0 ∷ 1 ∷ []) ((3, 1) ∷ (2, 0) ∷ []) (2 ∷ 3 ∷ []))
node_at (suc (suc zero)) = placed (some 1) (some (new_page 50 7 9)) no_children
node_at (suc (suc (suc zero))) = placed (some 1) (some (new_page 60 8 9)) no_children
node_at (suc (suc (suc (suc k)))) = placed none none no_children

abbrev four : Nodes (Extra ℕ)
four = record { node = node_at; next = 4 }

parent_below : (k p : ℕ) → parent_of four k ≡ some p → p < k
parent_below zero p e = absurd (cc e)
parent_below (suc zero) p e = let q : 0 ≡ p = cc e in omega (arith, q)
parent_below (suc (suc zero)) p e = let q : 1 ≡ p = cc e in omega (arith, q)
parent_below (suc (suc (suc zero))) p e = let q : 1 ≡ p = cc e in omega (arith, q)
parent_below (suc (suc (suc (suc k)))) p e = absurd (cc e)

clean_tree_branch-Cleaned_example :
    (t' : Nodes (Extra ℕ)) × (clean_tree_branch 3 four 2 ≡ some t') × Cleaned four 2 (1 ∷ 0 ∷ []) t'
clean_tree_branch-Cleaned_example =
    clean_tree_branch-Cleaned four 2 (1 ∷ 0 ∷ []) parent_below (refl, (refl, refl))

child_above :
    (k i : ℕ)
    → i < IndexedSet.size (node_at k).children
    → (c : ℕ) × (IndexedSet.item (node_at k).children i ≡ some c) × (k < c) × (c < 4)
unfolding IndexedSet.item
child_above zero zero h = (1, refl, omega arith, omega arith)
child_above zero (suc i) h = absurd (omega (arith, h))
child_above (suc zero) zero h = (2, refl, omega arith, omega arith)
child_above (suc zero) (suc zero) h = (3, refl, omega arith, omega arith)
child_above (suc zero) (suc (suc i)) h = absurd (omega (arith, h))
child_above (suc (suc zero)) i h = absurd (omega (arith, h))
child_above (suc (suc (suc zero))) i h = absurd (omega (arith, h))
child_above (suc (suc (suc (suc k)))) i h = absurd (omega (arith, h))

four-Shaped : Shaped four
four-Shaped = record { child_above = child_above; parent_below = parent_below }

traverse_branch-Returned_example :
    (r : Nodes (Extra ℕ) × Option BreadCrumbTrail × Option ℕ) × (traverse_branch naturals 60 four
        none 1
      ≡ some r)
    × Returned four r
traverse_branch-Returned_example =
    traverse_branch-Returned naturals 60 four none 1 four-Shaped (omega arith) (omega arith)

has_children :
    (k p : ℕ) → parent_of four k ≡ some p → (IndexedSet.size (node_at p).children == 0) ≡ false
has_children zero p e = absurd (cc e)
has_children (suc zero) p e = let q : 0 ≡ p = cc e in rw (← q)
has_children (suc (suc zero)) p e = let q : 1 ≡ p = cc e in rw (← q)
has_children (suc (suc (suc zero))) p e = let q : 1 ≡ p = cc e in rw (← q)
has_children (suc (suc (suc (suc k)))) p e = absurd (cc e)

in_tree : (k p : ℕ) → parent_of four k ≡ some p → p < 4
in_tree zero p e = absurd (cc e)
in_tree (suc zero) p e = let q : 0 ≡ p = cc e in omega (arith, q)
in_tree (suc (suc zero)) p e = let q : 1 ≡ p = cc e in omega (arith, q)
in_tree (suc (suc (suc zero))) p e = let q : 1 ≡ p = cc e in omega (arith, q)
in_tree (suc (suc (suc (suc k)))) p e = absurd (cc e)

four-Rooted : Rooted four
four-Rooted = record {
  top = refl;
  children = has_children;
  allocated = in_tree;
  root_allocated = omega arith;
}

abbrev one_crawler : Crawler
unfolding Crawler.create
one_crawler = record (Crawler.create (bytes "c") 1) { session = some true }

abbrev before : Scheduler ℕ ℕ
unfolding one_crawler
before = record {
  leaves = 2;
  trail = none;
  tree = four;
  crawlers = 0;
  crawler = λ c. one_crawler;
  page_table = λ h. none;
}

fill_crawler_lem_example :
    (s' : Filling ℕ ℕ) × (fill_loop naturals 40 60 (started before none) 0 ≡ some s')
    × (fill_crawler naturals 40 60 before 0 none ≡ some (s'.scheduler, s'.position, s'.count))
    × SameLinks before.tree s'.scheduler.tree
    × Standing s'.scheduler.tree s'.position
unfolding before one_crawler Crawler.create
fill_crawler_lem_example =
    fill_crawler_lem naturals 40 60 before 0 none four-Shaped four-Rooted tt (omega arith)
      (omega arith)

abbrev count_of : Option (Scheduler ℕ ℕ × Option ℕ × ℕ) → Option ℕ
count_of none = none
count_of (some (s, n, k)) = some k

-- Both pages are assigned.
fill_crawler-four : count_of (fill_crawler naturals 40 60 before 0 none) ≡ some 2
unfolding before one_crawler Crawler.create fill_crawler Crawler.full traverse_branch
    IndexedSet.item oodles.Sched.Node.weigh_against oodles.Sched.Scheduler.Work.assign_crawler
    Crawler.add_url
fill_crawler-four = refl
