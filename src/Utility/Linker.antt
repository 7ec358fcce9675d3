-- ===== src/Utility/Linker.antt =====
-- utility/Linker.cpp: linkers, each of which owns its copy of the link that it is an end of. A
-- linker is a number, and the store has each one's `coupling`.
use oodles.Prelude.{
  ap, sym, ◌∙◌, ℕ, ◌≡◌, ◌≢◌, refl, Bool, true, false, not, ◌||◌, Option, none, some, ◌==◌, ==_refl,
  if◌then◌else◌, arith,
}
use oodles.Utility.Tree.{write}
use oodles.Utility.Tree.Children.{write_self, write_ne}
mod Tests

pub record Link : Type 0 where
  pub left : Option ℕ
  pub right : Option ℕ

abbrev pub Couplings : Type 0
Couplings = ℕ → Option Link

abbrev pub points_to : Option ℕ → ℕ → Bool
points_to none n = false
points_to (some m) n = m == n

-- Link::complement_of
unfoldable pub complement_of : Link → ℕ → Option ℕ
complement_of l source =
    if points_to l.left source then l.right else if points_to l.right source then l.left else none

-- Linker::unlink, which only deletes its own copy, and Linker::link.
abbrev pub unlink : Couplings → ℕ → Couplings
unlink w n = write w n none

abbrev pub link : Couplings → ℕ → Link → Couplings
link w n l = write (unlink w n) n (some l)

-- Link::Link. `none` for a null end, which is dereferenced.
abbrev pub create_link : Couplings → Option ℕ → Option ℕ → Option Couplings
create_link w none right = none
create_link w (some l) none = none
create_link w (some l) (some r) =
    let k : Link = record { left = some l; right = some r } in some (link (link w l k) r k)

abbrev pub linked : Option Couplings → Option (Couplings × Bool)
linked none = none
linked (some w) = some (w, true)

abbrev pub extend_coupled : Couplings → ℕ → ℕ → Option Link → Option (Couplings × Bool)
unfolding complement_of
extend_coupled w this l none = some (w, false)
extend_coupled w this l (some k) =
    if l == this then some (w, false) else linked (create_link w (some l) (complement_of k this))

-- Linker::extend_link_to
unfoldable pub extend_link_to : Couplings → ℕ → Option ℕ → Option (Couplings × Bool)
unfolding extend_coupled
extend_link_to w this l = elim l [
  | none ↦ some (w, false)
  | some m ↦ extend_coupled w this m (w this)
]

-- The other end of a linker's link, if it has one.
abbrev pub other_end : Option Link → ℕ → Option ℕ
unfolding complement_of
other_end none n = none
other_end (some k) n = complement_of k n

left_end : (l r : ℕ) → complement_of (record { left = some l; right = some r }) l ≡ some r
unfolding complement_of
left_end l r = rw (complement_of, ==_refl l)

right_end : (l r : ℕ) → l ≢ r → complement_of (record { left = some l; right = some r }) r ≡ some l
unfolding complement_of
right_end l r h = let e : (l == r) ≡ false = ground arith in rw (complement_of, e, ==_refl r)

-- A linker coupled with `p` that extends its link to another linker `l`, which is not `p`, leaves
-- `l` and `p` as each other's ends. Every linker but those two keeps its coupling, so that the one
-- that extended, if it is not `p`, still has `p` as its other end.
pub extend_link_to_lem :
    (w : Couplings) (this l p : ℕ) (k : Link)
    → w this ≡ some k
    → complement_of k this ≡ some p
    → l ≢ this
    → l ≢ p
    → (w' : Couplings) × (extend_link_to w this (some l) ≡ some (w', true))
      × (other_end (w' l) l ≡ some p)
      × (other_end (w' p) p ≡ some l)
      × ((n : ℕ) → l ≢ n → p ≢ n → w' n ≡ w n)
unfolding extend_link_to extend_coupled other_end
extend_link_to_lem w this l p k c e h d =
    let j : Link = record { left = some l; right = some p } in
    let w1 = link w l j in
    let w' = link w1 p j in
    let x : (l == this) ≡ false = ground arith in
    let at_l : w' l ≡ some j =
      write_ne (unlink w1 p) p (some j) l (λ q. d (sym q))
      ∙ (write_ne w1 p none l (λ q. d (sym q)) ∙ write_self (unlink w l) l (some j)) in
    let at_p : w' p ≡ some j = write_self (unlink w1 p) p (some j) in
    (
      w',
      rw (extend_link_to, c, extend_coupled, x, e),
      ap (λ o. other_end o l) at_l ∙ left_end l p,
      ap (λ o. other_end o p) at_p ∙ right_end l p d,
      λ n a b.
          write_ne (unlink w1 p) p (some j) n b
          ∙ (write_ne w1 p none n b
              ∙ (write_ne (unlink w l) l (some j) n a ∙ write_ne w l none n a)),
    )
