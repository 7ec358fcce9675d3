-- ===== src/Sched/Scheduler.antt =====
-- sched/Scheduler.cpp: the traversal of the tree of URLs, and what the scheduler keeps. The root is
-- node 0. `none` stands for undefined behaviour, a failed assertion or spent fuel.
use oodles.Prelude.{
  ℕ, zero, suc, ◌+◌, ◌-◌, ◌%◌, ◌^◌, Bool, true, false, not, ◌&&◌, List, Option, none, some, ◌==◌,
  ltb, if◌then◌else◌, ◌⊎◌, inl, inr,
}
use oodles.Url.Attributes.{Text}
use oodles.Utility.BreadCrumbTrail.{BreadCrumbTrail, drop_crumb}
use oodles.Utility.IndexedSet
use oodles.Utility.Tree.{Nodes, TreeNode, VisitState, red, green, amber, is_some, leaf, create}
use oodles.Sched.Crawler.{Crawler}
use oodles.Sched.Node.{
  Double, Extra, edit, page_of, eligible, new_extra, calculate_weight, weigh_against,
}
pub mod Cleaning
pub mod Filling
pub mod Rounds
pub mod Search
pub mod Traversal
pub mod Updates
pub mod Work
mod Tests

-- The crawlers by their number, the queue `Q` of those registered, the nodes by the hash of a URL,
-- and the trail, if any.
pub record Scheduler {ℓ} (R : Type ℓ) (Q : Type ℓ) : Type ℓ where
  pub leaves : ℕ
  pub trail : Option BreadCrumbTrail
  pub tree : Nodes (Extra R)
  pub crawlers : Q
  pub crawler : ℕ → Crawler
  pub page_table : ℕ → Option ℕ

abbrev pub is_red : VisitState → Bool
is_red red = true
is_red green = false
is_red amber = false

abbrev pub dropped : Option BreadCrumbTrail → ℕ → ℕ → Option BreadCrumbTrail
dropped none x y = none
dropped (some t) x y = some (drop_crumb t x y)

-- Where traverse_branch goes from `n`: on to a node, or back to its caller with a result.
abbrev pub backtrack : Option ℕ → ℕ ⊎ Option ℕ
backtrack none = inr none
backtrack (some p) = inl p

module _ {ℓ} {R : Type ℓ} where
  abbrev pub parent_of : Nodes (Extra R) → ℕ → Option ℕ
  parent_of t n = (t.node n).parent

  abbrev pub child : Nodes (Extra R) → ℕ → ℕ → Option ℕ
  child t n i = IndexedSet.item (t.node n).children i

  abbrev pub size : Nodes (Extra R) → ℕ → ℕ
  size t n = IndexedSet.size (t.node n).children

  abbrev pub painted : VisitState → TreeNode (Extra R) → TreeNode (Extra R)
  painted v x = record x { visit_state = v }

  abbrev pub paint : Nodes (Extra R) → ℕ → VisitState → Nodes (Extra R)
  paint t n v = edit t n (painted v)

  -- `++n->visited` and `--n->visited` of a size_t.
  abbrev pub more_visited : TreeNode (Extra R) → TreeNode (Extra R)
  more_visited x = record x { extra = record x.extra { visited = (x.extra.visited + 1) % 2 ^ 64 } }

  abbrev pub less_visited : TreeNode (Extra R) → TreeNode (Extra R)
  less_visited x = record x {
    extra = record x.extra { visited = (x.extra.visited + (2 ^ 64 - 1)) % 2 ^ 64 };
  }

  abbrev pub visit_more : Nodes (Extra R) → ℕ → Nodes (Extra R)
  visit_more t n = edit t n more_visited

  abbrev pub visit_less : Nodes (Extra R) → ℕ → Nodes (Extra R)
  visit_less t n = edit t n less_visited

  -- The end of select_best_child.
  abbrev pub exhaust_parent : Nodes (Extra R) → Option ℕ → Nodes (Extra R)
  exhaust_parent t none = t
  exhaust_parent t (some p) = visit_more t p

  abbrev pub exhaust : Nodes (Extra R) → ℕ → Nodes (Extra R)
  exhaust t n = exhaust_parent (paint t n red) (parent_of (paint t n red) n)

  abbrev pub chosen : ℕ → Option (Nodes (Extra R) × Option ℕ) → Option (Nodes (Extra R) × Option ℕ)
  chosen parent none = none
  chosen parent (some (t, none)) = some (exhaust t parent, none)
  chosen parent (some (t, some n)) = some (t, some n)

  abbrev pub turn : Nodes (Extra R) → ℕ → Option ℕ → ℕ ⊎ Option ℕ
  turn t n (some p) = inl p
  turn t n none = if eligible t n then inr (some n) else backtrack (parent_of t n)

  -- clean_tree_branch
  unfoldable pub clean_tree_branch : ℕ → Nodes (Extra R) → ℕ → Option (Nodes (Extra R))
  clean_tree_branch zero t n = none
  clean_tree_branch (suc f) t n = elim (parent_of t n) [
    | none ↦ some (paint t n amber)
    | some p ↦ clean_tree_branch f (visit_less (paint t n (if leaf t n then green else amber)) p) p
  ]

  -- The marking of ancestors at the end of fill_crawler, from `p` on.
  unfoldable pub mark_ancestors : ℕ → Nodes (Extra R) → Option ℕ → Option (Nodes (Extra R))
  mark_ancestors zero t p = none
  mark_ancestors (suc f) t none = some t
  mark_ancestors (suc f) t (some p) =
      let t' = paint t p red in
      let go_on = mark_ancestors f in
      elim (ltb (t.node p).extra.visited (size t p)) [
        | true ↦ some t
        | false ↦ elim (parent_of t' p) [
          | none ↦ go_on t' none
          | some q ↦ go_on (visit_more t' q) (some q)
        ]
      ]

module _ {ℓ} {R : Type ℓ} (real : Double R) where
  -- weigh_tree_branch
  unfoldable pub weigh_tree_branch : ℕ → Nodes (Extra R) → ℕ → Option (Nodes (Extra R))
  weigh_tree_branch zero t n = none
  weigh_tree_branch (suc f) t n =
      let t' = calculate_weight real t n in
      elim (parent_of t' n) [ none ↦ some t' | some p ↦ weigh_tree_branch f t' p ]

  -- The body of the loop of select_best_child, at the child `c` with the choice `n`.
  abbrev pub consider_eligible : Nodes (Extra R) → ℕ → Option ℕ → Nodes (Extra R) × Option ℕ
  consider_eligible t c n =
      if is_some (page_of t c) && not (eligible t c)
      then (t, n)
      else (t, some (weigh_against real t c n))

  unfoldable pub consider : Nodes (Extra R) → ℕ → Option ℕ → Nodes (Extra R) × Option ℕ
  consider t c n =
      if is_red (t.node c).visit_state then (t, n) else consider_eligible (paint t c amber) c n

  unfoldable pub search_children :
      Nodes (Extra R) → ℕ → ℕ → ℕ → Option ℕ → Option (Nodes (Extra R) × Option ℕ)
  unfolding consider
  search_children t parent i zero n = some (t, n)
  search_children t parent i (suc k) n = elim (child t parent i) [
    | none ↦ none
    | some c ↦ let r = consider t c n in search_children r.0 parent (i + 1) k r.1
  ]

  unfoldable pub select_best_child : Nodes (Extra R) → ℕ → Option (Nodes (Extra R) × Option ℕ)
  unfolding search_children
  select_best_child t parent = chosen parent (search_children t parent 0 (size t parent) none)

  unfoldable pub traverse_branch :
      ℕ
      → Nodes (Extra R)
      → Option BreadCrumbTrail
      → ℕ
      → Option (Nodes (Extra R) × Option BreadCrumbTrail × Option ℕ)
  unfolding select_best_child
  traverse_branch zero t trail n = none
  traverse_branch (suc f) t trail n = elim (select_best_child t n) [
    | none ↦ none
    | some (t', p) ↦
        let trail' = dropped trail (t.node n).path_idx (t.node n).child_idx in
        elim (turn t' n p) [ inl q ↦ traverse_branch f t' trail' q | inr r ↦ some (t', trail', r) ]
  ]
