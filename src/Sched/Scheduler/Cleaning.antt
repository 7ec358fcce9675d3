-- ===== src/Sched/Scheduler/Cleaning.antt =====
-- sched/Scheduler.cpp: clean_tree_branch, from an updated node to the root.
use oodles.Prelude.{
  ap, sym, ◌∙◌, ℕ, suc, ◌+◌, ◌-◌, ◌%◌, ◌^◌, ◌<◌, ◌≡◌, ◌≢◌, refl, Bool, true, false, List, [], ◌∷◌,
  Option, none, some, if◌then◌else◌, length, arith,
}
use oodles.Utility.Tree.{Nodes, TreeNode, green, amber, leaf}
use oodles.Sched.Node.{Extra}
use oodles.Sched.Node.Edits.{edit_self, edit_ne, edit_field}
use oodles.Sched.Scheduler.{
  parent_of, painted, less_visited, is_red, paint, visit_less, clean_tree_branch,
}

-- The ancestors of a node, its parent first.
abbrev pub Chain : (ℕ → Option ℕ) → ℕ → List ℕ → Type 0
Chain up n [] = up n ≡ none
Chain up n (p ∷ ps) = (up n ≡ some p) × Chain up p ps

abbrev pub Every : (ℕ → Type 0) → List ℕ → Type 0
Every P [] = Unit
Every P (k ∷ ks) = P k × Every P ks

Every-map :
    (P : ℕ → Type 0) (Q : ℕ → Type 0) (ks : List ℕ)
    → ((k : ℕ) → P k → Q k)
    → Every P ks
    → Every Q ks
Every-map P Q [] g a = tt
Every-map P Q (k ∷ ks) g a = (g k a.0, Every-map P Q ks g a.1)

Chain-same :
    (f g : ℕ → Option ℕ) (n : ℕ) (ks : List ℕ) → ((k : ℕ) → f k ≡ g k) → Chain f n ks → Chain g n ks
Chain-same f g n [] same c = sym (same n) ∙ c
Chain-same f g n (p ∷ ps) same c = (sym (same n) ∙ c.0, Chain-same f g p ps same c.1)

Chain-below :
    (f : ℕ → Option ℕ) (n : ℕ) (ks : List ℕ)
    → ((k p : ℕ) → f k ≡ some p → p < k)
    → Chain f n ks
    → Every (λ k. k < n) ks
Chain-below f n [] below c = tt
Chain-below f n (p ∷ ps) below c =
    let l = below n p c.0 in
    (
      l,
      Every-map (λ k. k < p) (λ k. k < n) ps (λ k h. omega (arith, h, l))
          (Chain-below f p ps below c.1),
    )

abbrev pub visited {ℓ} : {R : Type ℓ} → Nodes (Extra R) → ℕ → ℕ
visited t k = (t.node k).extra.visited

-- One less, of a size_t.
abbrev pub one_less : ℕ → ℕ
one_less k = (k + (2 ^ 64 - 1)) % 2 ^ 64

pub record Cleaned {ℓ} {R : Type ℓ} (t : Nodes (Extra R)) (n : ℕ) (ks : List ℕ)
    (t' : Nodes (Extra R)) : Type ℓ where
  pub state : is_red (t'.node n).visit_state ≡ false
  pub states : Every (λ k. is_red (t'.node k).visit_state ≡ false) ks
  pub same : visited t' n ≡ visited t n
  pub less : Every (λ k. visited t' k ≡ one_less (visited t k)) ks
  pub others : (k : ℕ) → n < k → t'.node k ≡ t.node k

not_red : (b : Bool) → is_red (if b then green else amber) ≡ false
not_red true = refl
not_red false = refl

module _ {ℓ} {R : Type ℓ} where
  -- The step to the parent `p`.
  abbrev coloured : Nodes (Extra R) → ℕ → TreeNode (Extra R) → TreeNode (Extra R)
  coloured t n = painted (if leaf t n then green else amber)

  abbrev halfway : Nodes (Extra R) → ℕ → Nodes (Extra R)
  halfway t n = paint t n (if leaf t n then green else amber)

  abbrev stepped : Nodes (Extra R) → ℕ → ℕ → Nodes (Extra R)
  stepped t n p = visit_less (halfway t n) p

  parents_same : (t : Nodes (Extra R)) (n p k : ℕ) → parent_of (stepped t n p) k ≡ parent_of t k
  parents_same t n p k =
      edit_field (halfway t n) p less_visited (λ x. x.parent) k (λ x. refl)
      ∙ edit_field t n (coloured t n) (λ x. x.parent) k (λ x. refl)

  visited_same : (t : Nodes (Extra R)) (n p k : ℕ) → p ≢ k → visited (stepped t n p) k ≡ visited t k
  visited_same t n p k h =
      ap (λ x. x.extra.visited) (edit_ne (halfway t n) p less_visited k h)
      ∙ edit_field t n (coloured t n) (λ x. x.extra.visited) k (λ x. refl)

  visited_parent :
      (t : Nodes (Extra R)) (n p : ℕ) → visited (stepped t n p) p ≡ one_less (visited t p)
  visited_parent t n p =
      ap (λ x. x.extra.visited) (edit_self (halfway t n) p less_visited)
      ∙ ap one_less (edit_field t n (coloured t n) (λ x. x.extra.visited) p (λ x. refl))

  state_same : (t : Nodes (Extra R)) (n p : ℕ) → is_red ((stepped t n p).node n).visit_state ≡ false
  state_same t n p =
      ap is_red (
        edit_field (halfway t n) p less_visited (λ x. x.visit_state) n (λ x. refl)
        ∙ ap (λ x. x.visit_state) (edit_self t n (coloured t n)))
      ∙ not_red (leaf t n)

  others_same :
      (t : Nodes (Extra R)) (n p k : ℕ) → n ≢ k → p ≢ k → (stepped t n p).node k ≡ t.node k
  others_same t n p k a b =
      edit_ne (halfway t n) p less_visited k b ∙ edit_ne t n (coloured t n) k a

  less_again :
      (t : Nodes (Extra R)) (n p : ℕ) (ks : List ℕ) (t' : Nodes (Extra R))
      → Every (λ k. k < p) ks
      → Every (λ k. visited t' k ≡ one_less (visited (stepped t n p) k)) ks
      → Every (λ k. visited t' k ≡ one_less (visited t k)) ks
  less_again t n p [] t' b a = tt
  less_again t n p (k ∷ ks) t' b a = (
    a.0 ∙ ap one_less (visited_same t n p k (λ e. omega (arith, b.0, e))),
    less_again t n p ks t' b.1 a.1,
  )

  Cleaned-step :
      (t : Nodes (Extra R)) (n p : ℕ) (ks : List ℕ) (t' : Nodes (Extra R))
      → p < n
      → Every (λ k. k < p) ks
      → Cleaned (stepped t n p) p ks t'
      → Cleaned t n (p ∷ ks) t'
  Cleaned-step t n p ks t' l below c = record {
    state = ap (λ x. is_red x.visit_state) (c.others n l) ∙ state_same t n p;
    states = (c.state, c.states);
    same = ap (λ x. x.extra.visited) (c.others n l) ∙ visited_same t n p n (λ e. omega arith);
    less = (c.same ∙ visited_parent t n p, less_again t n p ks t' below c.less);
    others =
        λ k h. c.others k (omega arith) ∙ others_same t n p k (λ e. omega arith) (λ e. omega arith);
  }

  abbrev clean_branch : ℕ → Nodes (Extra R) → ℕ → Option ℕ → Option (Nodes (Extra R))
  clean_branch f t n none = some (paint t n amber)
  clean_branch f t n (some p) = clean_tree_branch f (stepped t n p) p

  branch_same :
      (f : ℕ) (t : Nodes (Extra R)) (n : ℕ) (o : Option ℕ)
      → elim o [ none ↦ some (paint t n amber) | some p ↦ clean_tree_branch f (stepped t n p) p ]
        ≡ clean_branch f t n o
  branch_same f t n none = refl
  branch_same f t n (some p) = refl

  clean_tree_branch-suc :
      (f : ℕ) (t : Nodes (Extra R)) (n : ℕ) (o : Option ℕ)
      → parent_of t n ≡ o
      → clean_tree_branch (suc f) t n ≡ clean_branch f t n o
  unfolding clean_tree_branch
  clean_tree_branch-suc f t n o e =
      ap
        (λ (q : Option ℕ). elim q [
          | none ↦ some (paint t n amber)
          | some p ↦ clean_tree_branch f (stepped t n p) p
        ])
        e
      ∙ branch_same f t n o

  -- Where the ancestors of a node are `ks` and every parent comes before its children,
  -- clean_tree_branch gives a tree: neither the node nor an ancestor is Red in it, each ancestor's
  -- `visited` is one less, also where it was 0, and the nodes after the node are as they were.
  pub clean_tree_branch-Cleaned :
      (t : Nodes (Extra R)) (n : ℕ) (ks : List ℕ)
      → ((k p : ℕ) → parent_of t k ≡ some p → p < k)
      → Chain (parent_of t) n ks
      → (t' : Nodes (Extra R)) × (clean_tree_branch (suc (length ks)) t n ≡ some t')
        × Cleaned t n ks t'
  unfolding clean_tree_branch
  clean_tree_branch-Cleaned t n [] below c = (
    paint t n amber,
    clean_tree_branch-suc 0 t n none c,
    record {
      state = ap (λ x. is_red x.visit_state) (edit_self t n (painted amber));
      states = tt;
      same = edit_field t n (painted amber) (λ x. x.extra.visited) n (λ x. refl);
      less = tt;
      others = λ k h. edit_ne t n (painted amber) k (λ e. omega arith);
    },
  )
  clean_tree_branch-Cleaned t n (p ∷ ps) below c =
      let u = stepped t n p in
      let b : (k q : ℕ) → parent_of u k ≡ some q → q < k =
        λ k q e. below k q (sym (parents_same t n p k) ∙ e) in
      let d = Chain-same (parent_of t) (parent_of u) p ps (λ k. sym (parents_same t n p k)) c.1 in
      let (t', e, g) = clean_tree_branch-Cleaned u p ps b d in
      let l = below n p c.0 in
      (
        t',
        clean_tree_branch-suc (suc (length ps)) t n (some p) c.0 ∙ e,
        Cleaned-step t n p ps t' l (Chain-below (parent_of t) p ps below c.1) g,
      )
