-- ===== src/Utility/IndexedSet/Tests.antt =====
-- utility/IndexedSet.ipp: 4 goes into the set of 7 and 4.
use oodles.Prelude.{ℕ, ◌≡◌, refl, true, false, not, ◌&&◌, some, [], ◌∷◌, arith, ltb}
use oodles.Utility.IndexedSet.{
  IndexedSet, insert, item, size, Placed, insert-item_kept, insert-item_last,
}

abbrev two_items : IndexedSet ℕ
two_items = record {
  unique = false;
  items = (4, 1) ∷ (7, 0) ∷ [];
  indicies = 0 ∷ 1 ∷ [];
  locations = 7 ∷ 4 ∷ [];
}

insert-item_kept_run : item (insert ltb two_items 4).0 0 ≡ some 7
unfolding item
insert-item_kept_run =
    insert-item_kept ltb two_items 4 0 7 (λ a. ground arith) refl (omega arith) (refl, (refl, tt))
      refl

insert-item_last_example :
    (y : ℕ) × (item (insert ltb two_items 4).0 (size two_items) ≡ some y)
    × ((not (ltb y 4) && not (ltb 4 y)) ≡ true)
    × Placed (insert ltb two_items 4).0.locations (insert ltb two_items 4).0.items
insert-item_last_example =
    insert-item_last ltb two_items 4 (λ a. ground arith) refl (omega arith) (refl, (refl, tt))
