-- ===== src/Utility/BreadCrumbTrail.antt =====
-- utility/BreadCrumbTrail.hpp: the points that a traversal drops, gathered in the order of dropping.
use oodles.Prelude.{
  ℕ, ◌+◌, ◌%◌, ◌^◌, Bool, true, false, List, [], ◌∷◌, ◌++◌, Option, none, some, length,
}

pub record BreadCrumbTrail : Type 0 where
  pub crumbs : ℕ
  pub trail : List (ℕ × ℕ)

abbrev pub create : BreadCrumbTrail
create = record { crumbs = 0; trail = [] }

abbrev pub gathered : BreadCrumbTrail → ℕ
gathered t = t.crumbs

abbrev pub empty : BreadCrumbTrail → Bool
empty t = elim t.trail [ [] ↦ true | p ∷ ps ↦ false ]

-- `coord_t` is int32_t; its bits.
abbrev pub size : BreadCrumbTrail → ℕ
size t = length t.trail % 2 ^ 32

abbrev pub clear : BreadCrumbTrail → BreadCrumbTrail
clear t = record { crumbs = 0; trail = [] }

unfoldable pub drop_crumb : BreadCrumbTrail → ℕ → ℕ → BreadCrumbTrail
drop_crumb t x y = record t { trail = t.trail ++ (x, y) ∷ [] }

-- `none` on an empty trail, whose front is undefined.
unfoldable pub gather_crumb : BreadCrumbTrail → Option (BreadCrumbTrail × (ℕ × ℕ))
gather_crumb t = elim t.trail [
  | [] ↦ none
  | p ∷ ps ↦ some (record { crumbs = (t.crumbs + 1) % 2 ^ 64; trail = ps }, p)
]
