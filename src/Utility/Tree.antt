-- ===== src/Utility/Tree.antt =====
-- utility/Node.ipp, Tree.ipp and NodeBase.hpp: the tree of nodes. A node is a number, the store says
-- what stands at it, and new nodes take the next number; 0 is the root. What a class derived from
-- Node adds to each node is the parameter `D`.
use oodles.Prelude.{
  ℕ, zero, suc, ◌+◌, ◌-◌, ◌%◌, ◌^◌, Bool, true, false, not, ◌&&◌, List, [], ◌∷◌, Option, none, some,
  ◌==◌, if◌then◌else◌,
}
use oodles.Url.Attributes.{Text}
use oodles.Url.Parser.Scan.{text_less, same_text}
use oodles.Utility.IndexedSet
use oodles.Utility.IndexedSet.{IndexedSet, item}
pub mod Children
pub mod Insertion
pub mod Paths
mod Tests

pub data VisitState : Type 0 where
  red green amber : VisitState

pub record TreeNode {ℓ} (D : Type ℓ) : Type ℓ where
  pub value : Text
  pub visit_state : VisitState
  pub parent : Option ℕ
  pub path_idx : ℕ
  pub child_idx : ℕ
  pub children : IndexedSet ℕ
  pub extra : D

pub record Nodes {ℓ} (D : Type ℓ) : Type ℓ where
  pub node : ℕ → TreeNode D
  pub next : ℕ

abbrev pub write {ℓ} : {A : Type ℓ} → (ℕ → A) → ℕ → A → ℕ → A
write f k v j = if k == j then v else f j

-- Node::Node and NodeBase::NodeBase.
abbrev pub new_node {ℓ} : {D : Type ℓ} → D → Text → TreeNode D
new_node d v = record {
  value = v;
  visit_state = green;
  parent = none;
  path_idx = 0;
  child_idx = 0;
  children = IndexedSet.create true;
  extra = d;
}

abbrev pub allocated {ℓ} : {D : Type ℓ} → D → Nodes D → Text → Nodes D
allocated d t v = record { node = write t.node t.next (new_node d v); next = t.next + 1 }

-- KeyCmp
abbrev pub key_less {ℓ} : {D : Type ℓ} → Nodes D → ℕ → ℕ → Bool
key_less t l r = text_less (t.node l).value (t.node r).value

-- `leaf`
abbrev pub is_some {ℓ} : {A : Type ℓ} → Option A → Bool
is_some none = false
is_some (some a) = true

abbrev pub leaf {ℓ} : {D : Type ℓ} → Nodes D → ℕ → Bool
leaf t n = is_some (t.node n).parent && IndexedSet.size (t.node n).children == 0

-- The two ends of create_child, with the store before and after `new_node` and what `insert` gave.
-- The numbers in a node are an int16_t and an int32_t, of which only the bits count here.
abbrev pub child_known {ℓ} :
    {D : Type ℓ} → Nodes D → ℕ → IndexedSet ℕ → Option ℕ → Option (Nodes D × ℕ)
child_known t p set none = none
child_known t p set (some r) =
    some (record t { node = write t.node p (record (t.node p) { children = set }) }, r)

abbrev pub child_new {ℓ} :
    {D : Type ℓ} → Nodes D → ℕ → ℕ → ℕ → IndexedSet ℕ → ℕ → Option (Nodes D × ℕ)
child_new t p n i set index = some (
  record t {
    node =
        write (write t.node p (record (t.node p) { children = set })) n (record (t.node n) {
          path_idx = i % 2 ^ 16;
          parent = some p;
          child_idx = index % 2 ^ 32;
        });
  },
  n,
)

abbrev pub child_inserted {ℓ} :
    {D : Type ℓ} → Nodes D → Nodes D → ℕ → ℕ → IndexedSet ℕ × ℕ × Bool → Option (Nodes D × ℕ)
child_inserted t t' p i (set, index, true) = child_new t' p t.next i set index
child_inserted t t' p i (set, index, false) = child_known t p set (item set index)

-- create_child: the store and the node, or `none` where `child` is out of range.
unfoldable pub create_child {ℓ} : {D : Type ℓ} → D → Nodes D → ℕ → Text → ℕ → Option (Nodes D × ℕ)
create_child d t p v i =
    let t' = allocated d t v in
    child_inserted t t' p i (IndexedSet.insert (key_less t') (t'.node p).children t.next)

-- The loop of Tree::insert over the values from `b` to `e`.
unfoldable pub insert_values {ℓ} :
    {D : Type ℓ} → D → Nodes D → ℕ → ℕ → List Text → Option (Nodes D × ℕ)
insert_values d t p i [] = some (t, p)
insert_values d t p i (v ∷ vs) = elim (create_child d t p v i) [
  | none ↦ none
  | some (t', q) ↦ insert_values d t' q (i + 1) vs
]

abbrev pub start_of {ℓ} : {D : Type ℓ} → Nodes D → Option ℕ → ℕ × ℕ
start_of t none = (0, 0)
start_of t (some p) = (p, (t.node p).path_idx + 1)

-- Tree::insert
unfoldable pub insert {ℓ} : {D : Type ℓ} → D → Nodes D → Option ℕ → List Text → Option (Nodes D × ℕ)
unfolding insert_values
insert d t p vs = let (q, i) = start_of t p in insert_values d t q i vs

-- Tree::Tree, with a root that has the value `v`; its indices are made invalid.
abbrev pub create {ℓ} : {D : Type ℓ} → D → Text → Nodes D
create d v = record {
  node = λ n. record (new_node d v) { path_idx = 2 ^ 16 - 1; child_idx = 2 ^ 32 - 1 };
  next = 1;
}
