-- ===== src/Sched/Node.antt =====
-- sched/Node.cpp, Node.hpp and PageData.cpp: the scheduler's nodes of the tree, their pages and their
-- weights. A `double` and the functions of the C library on it are parameters; the pointer to a
-- measure is the number of the node that has it.
use oodles.Prelude.{
  ℕ, ◌+◌, ◌%◌, ◌^◌, Bool, true, false, not, ◌&&◌, Option, none, some, List, [], ◌∷◌, ◌==◌,
  if◌then◌else◌,
}
use oodles.Url.Attributes.{Text}
use oodles.Utility.IndexedSet
use oodles.Utility.Tree.{TreeNode, Nodes, write, is_some, leaf}
pub mod Edits

-- The arithmetic of `double`, and the literals that the code has.
pub record Double {ℓ} (R : Type ℓ) : Type ℓ where
  pub of_nat : ℕ → R
  pub half : R
  pub add : R → R → R
  pub sub : R → R → R
  pub mul : R → R → R
  pub div : R → R → R
  pub less : R → R → Bool
  pub equal : R → R → Bool
  pub fabs : R → R
  pub sqrt : R → R
  pub pow : R → R → R

-- `url` is the address of the URL, `page_id` what it answers.
pub record PageData : Type 0 where
  pub url : ℕ
  pub page_id : ℕ
  pub crawler : Option ℕ
  pub referrer : Option ℕ
  pub last_crawl : ℕ
  pub epoch : ℕ
  pub links : ℕ
  pub crawl_count : ℕ

abbrev pub new_page : ℕ → ℕ → ℕ → PageData
new_page url page_id time = record {
  url = url;
  page_id = page_id;
  crawler = none;
  referrer = none;
  last_crawl = 0;
  epoch = time;
  links = 0;
  crawl_count = 0;
}

pub record Measure {ℓ} (R : Type ℓ) : Type ℓ where
  pub minimum : R
  pub previous : R
  pub current : R

pub record Extra {ℓ} (R : Type ℓ) : Type ℓ where
  pub page : Option PageData
  pub visited : ℕ
  pub measure : Measure R
  pub reviser : Option ℕ

abbrev pub eligible_page : Option PageData → Bool
eligible_page none = false
eligible_page (some p) = not (is_some p.crawler)

abbrev pub assigned_page : Option PageData → Bool
assigned_page none = false
assigned_page (some p) = is_some p.crawler

module _ {ℓ} {R : Type ℓ} where
  -- A change of one node, of what the scheduler adds to it, and of its measure.
  abbrev pub edit :
      Nodes (Extra R) → ℕ → (TreeNode (Extra R) → TreeNode (Extra R)) → Nodes (Extra R)
  edit t n f = record t { node = write t.node n (f (t.node n)) }

  abbrev pub edit_extra : Nodes (Extra R) → ℕ → (Extra R → Extra R) → Nodes (Extra R)
  edit_extra t n f = edit t n (λ x. record x { extra = f x.extra })

  abbrev pub edit_measure : Nodes (Extra R) → ℕ → (Measure R → Measure R) → Nodes (Extra R)
  edit_measure t n f = edit_extra t n (λ x. record x { measure = f x.measure })

  abbrev pub page_of : Nodes (Extra R) → ℕ → Option PageData
  page_of t n = (t.node n).extra.page

  abbrev pub measure_of : Nodes (Extra R) → ℕ → Measure R
  measure_of t n = (t.node n).extra.measure

  abbrev pub eligible : Nodes (Extra R) → ℕ → Bool
  eligible t n = eligible_page (page_of t n)

  abbrev pub assigned : Nodes (Extra R) → ℕ → Bool
  assigned t n = assigned_page (page_of t n)

module _ {ℓ} {R : Type ℓ} (real : Double R) where
  -- Node::Node
  abbrev pub new_extra : Extra R
  new_extra = record {
    page = none;
    visited = 0;
    measure = record { minimum = real.of_nat 0; previous = real.of_nat 0; current = real.of_nat 0 };
    reviser = none;
  }

  abbrev pub positive : R → R → R
  positive weight minimum =
      if real.less minimum (real.of_nat 0) then real.add weight (real.fabs minimum) else weight

  unfoldable pub normalise : R → R → R
  normalise weight minimum =
      let w = positive weight minimum in
      real.mul real.half (
        real.sub (real.of_nat 1)
          (real.div w (real.sqrt (real.add (real.pow w (real.of_nat 2)) (real.of_nat 1000)))))

  unfoldable pub weight : Nodes (Extra R) → ℕ → R
  unfolding normalise
  weight t n =
      let m = measure_of t n in
      normalise (real.div m.current (real.of_nat (IndexedSet.size (t.node n).children + 1)))
        m.minimum

  -- calculate_weight where there is a page, and where there is none. The counts are uint32_t.
  abbrev pub page_weight : PageData → R
  page_weight d =
      real.mul (real.div (real.of_nat d.epoch) (real.of_nat ((d.crawl_count + 1) % 2 ^ 32)))
        (real.of_nat ((d.links + 1) % 2 ^ 32))

  abbrev pub weigh_page : Nodes (Extra R) → ℕ → ℕ → PageData → Nodes (Extra R)
  weigh_page t n p d =
      let old = (measure_of t n).current in
      let new = real.add (page_weight d) (if leaf t n then real.of_nat 0 else old) in
      edit_extra (edit_measure t n (λ m. record m { current = new; previous = old })) p
        (λ x. record x { reviser = if real.equal old new then none else some n })

  abbrev pub revise : Nodes (Extra R) → ℕ → Option ℕ → Nodes (Extra R)
  revise t n none = t
  revise t n (some r) =
      let t' =
        edit_measure t n
          (λ m. record m { current = real.add m.current (measure_of t r).current }) in
      edit_measure t' n (λ m. record m { current = real.sub m.current (measure_of t' r).previous })

  abbrev pub weigh_path : Nodes (Extra R) → ℕ → ℕ → Nodes (Extra R)
  weigh_path t n p =
      let r = (t.node n).extra.reviser in
      revise (edit_extra t p (λ x. record x { reviser = r })) n r

  abbrev pub weigh_from : Nodes (Extra R) → ℕ → ℕ → Option PageData → Nodes (Extra R)
  weigh_from t n p none = weigh_path t n p
  weigh_from t n p (some d) = weigh_page t n p d

  -- The end of calculate_weight, which keeps the minimum measure.
  abbrev pub keep_minimum : Nodes (Extra R) → ℕ → ℕ → Nodes (Extra R)
  keep_minimum t n p =
      let t' = edit_measure t n (λ m. record m {
        minimum = if real.less m.current m.minimum then m.current else m.minimum;
      }) in
      let m = (measure_of t' n).minimum in
      edit_measure t' p (λ q. record q { minimum = if real.less m q.minimum then m else q.minimum })

  unfoldable pub calculate_weight : Nodes (Extra R) → ℕ → Nodes (Extra R)
  calculate_weight t n = elim (t.node n).parent [
    | none ↦ t
    | some p ↦ keep_minimum (weigh_from t n p (page_of t n)) n p
  ]

  unfoldable pub weigh_against : Nodes (Extra R) → ℕ → Option ℕ → ℕ
  unfolding weight
  weigh_against t this none = this
  weigh_against t this (some n) = if real.less (weight t this) (weight t n) then n else this
