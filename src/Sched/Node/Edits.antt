-- ===== src/Sched/Node/Edits.antt =====
-- sched/Node.hpp: a change of one node keeps the others, and the fields that it does not touch.
use oodles.Prelude.{ap, subst, ◌∙◌, ℕ, ◌≡◌, ◌≢◌, ◌==◌, Bool-cases, inl, inr, arith}
use oodles.Utility.Tree.{Nodes, TreeNode}
use oodles.Utility.Tree.Children.{write_self, write_ne}
use oodles.Sched.Node.{Extra, edit}

module _ {ℓ} {R : Type ℓ} (t : Nodes (Extra R)) (n : ℕ)
    (f : TreeNode (Extra R) → TreeNode (Extra R)) where
  pub edit_self : (edit t n f).node n ≡ f (t.node n)
  edit_self = write_self t.node n (f (t.node n))

  pub edit_ne : (k : ℕ) → n ≢ k → (edit t n f).node k ≡ t.node k
  edit_ne k h = write_ne t.node n (f (t.node n)) k h

  pub edit_field {ℓ₂} :
      {A : Type ℓ₂} (field : TreeNode (Extra R) → A) (k : ℕ)
      → ((x : TreeNode (Extra R)) → field (f x) ≡ field x)
      → field ((edit t n f).node k) ≡ field (t.node k)
  edit_field field k h = elim (Bool-cases (n == k)) [
    | inl e ↦
        let q : n ≡ k = ground arith in
        subst (λ j. field ((edit t n f).node j) ≡ field (t.node j)) q
          (ap field edit_self ∙ h (t.node n))
    | inr e ↦ ap field (edit_ne k (λ q. ground arith))
  ]
