-- ===== src/Utility/Tree/Tests.antt =====
-- utility/Tree.ipp: insertions into a small tree.
use oodles.Prelude.{ℕ, ◌+◌, ◌<◌, ◌≤◌, ◌≡◌, refl, List, [], ◌∷◌, Option, none, some, arith, bytes}
use oodles.Url.Attributes.{Text}
use oodles.Url.Parser.Scan.{text_less, same_text}
use oodles.Utility.IndexedSet
use oodles.Utility.Tree.{Nodes, create_child, insert_values, insert, create}
use oodles.Utility.Tree.Paths.{follow, Valid}
use oodles.Utility.Tree.Insertion.{
  Extends, create-Valid, insert-Extends, insert-again, insert-Valid,
}

abbrev root_only : Nodes ℕ
root_only = create 7 (bytes "/")

abbrev values : List Text
values = bytes "www" ∷ bytes "index" ∷ []

abbrev nodes_of : Option (Nodes ℕ × ℕ) → Nodes ℕ
nodes_of none = root_only
nodes_of (some (t, q)) = t

abbrev three : Nodes ℕ
unfolding insert
three = nodes_of (insert 7 root_only none values)

three_lem : insert 7 root_only none values ≡ some (three, 2)
unfolding insert three create_child IndexedSet.insert IndexedSet.create insert_values
three_lem = refl

three-Valid : Valid three
three-Valid =
    insert-Valid 7 root_only none values three 2 (create-Valid 7 (bytes "/")) (omega arith)
      (omega arith) three_lem

abbrev last_of : Option (Nodes ℕ × ℕ) → Option ℕ
last_of none = none
last_of (some (t, q)) = some q

-- A second path shares the first node of the first.
insert-shared : last_of (insert 7 three none (bytes "www" ∷ bytes "page" ∷ [])) ≡ some 3
unfolding insert three create_child IndexedSet.insert IndexedSet.create insert_values
    IndexedSet.find IndexedSet.item text_less
insert-shared = refl

insert-Extends_example :
    (t' : Nodes ℕ) × (q : ℕ) × (insert 7 three (some 1) values ≡ some (t', q))
    × Valid t'
    × (q < t'.next)
    × (t'.next ≤ three.next + 2)
    × Extends three.next (follow three) 1 values (follow t') q
unfolding three create_child IndexedSet.insert IndexedSet.create
insert-Extends_example =
    insert-Extends 7 three (some 1) values three-Valid (omega arith) (omega arith)

insert-again_example : insert 7 three none values ≡ some (three, 2)
unfolding three create_child IndexedSet.insert IndexedSet.create same_text
insert-again_example = insert-again 7 three none values 2 three-Valid (omega arith) refl
