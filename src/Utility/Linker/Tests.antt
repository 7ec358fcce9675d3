-- ===== src/Utility/Linker/Tests.antt =====
-- utility/Linker.cpp: linker 2 takes over one end of the link between 0 and 1.
use oodles.Prelude.{ℕ, ◌≡◌, ◌≢◌, refl, true, none, some, arith, ◌==◌, if◌then◌else◌}
use oodles.Utility.Linker.{
  Link, Couplings, complement_of, extend_link_to, other_end, extend_link_to_lem,
}

abbrev ends : Link
ends = record { left = some 0; right = some 1 }

abbrev coupled : Couplings
coupled n = if n == 0 then some ends else if n == 1 then some ends else none

extend_link_to_lem_example :
    (w' : Couplings) × (extend_link_to coupled 0 (some 2) ≡ some (w', true))
    × (other_end (w' 2) 2 ≡ some 1)
    × (other_end (w' 1) 1 ≡ some 2)
    × ((n : ℕ) → 2 ≢ n → 1 ≢ n → w' n ≡ coupled n)
unfolding complement_of
extend_link_to_lem_example =
    extend_link_to_lem coupled 0 2 1 ends refl refl (λ e. omega (arith, e)) (λ e. omega (arith, e))
