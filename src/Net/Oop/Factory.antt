-- ===== src/Net/Oop/Factory.antt =====
-- net/oop/Factory.cpp, Factory.hpp and id_t.hpp: the registry from which an incoming header makes a
-- message. The messages' virtual functions `id()` and `create()` are the section's parameters.
pub mod Laws
mod Tests
use oodles.Prelude.{
  ℕ, ◌+◌, ◌-◌, ◌^◌, Bool, true, false, not, List, [], ◌∷◌, ◌++◌, Option, none, some, ltb, ◌==◌,
  if◌then◌else◌, length, get_elem?, set,
}
use oodles.Utility.BitSet.{BitSet, set_bits, index_of, minus_one, size_of_int32}
use oodles.Utility.BitSet

-- id_t.hpp.
abbrev pub invalid_id : ℕ
invalid_id = 0

abbrev pub register_crawler : ℕ
register_crawler = 10

abbrev pub begin_crawl : ℕ
begin_crawl = register_crawler + 1

abbrev pub end_crawl : ℕ
end_crawl = begin_crawl + 1

abbrev pub max_message_id : ℕ
max_message_id = end_crawl + 1

-- What `lookup` returns: NULL, an entry (itself a pointer that may be NULL), or an undefined read
-- behind the end of the vector.
pub data Lookup {ℓ} (M : Type ℓ) : Type ℓ where
  null : Lookup M
  entry : Option M → Lookup M
  out_of_range : Lookup M

-- What `create` returns: NULL, a new message, or an undefined call through a NULL entry or behind
-- the end of the vector.
pub data Created {ℓ} (M : Type ℓ) : Type ℓ where
  none_made : Created M
  made : M → Created M
  undefined : Created M

pub record Factory {ℓ} (M : Type ℓ) : Type ℓ where
  pub index : BitSet
  pub registry : List (Option M)

module _ {ℓ} {M : Type ℓ} where
  pub entry_at : Option (Option M) → Lookup M
  entry_at none = out_of_range
  entry_at (some e) = entry e

  -- Factory::Factory()
  unfoldable pub empty : Factory M
  empty = record { index = BitSet.create max_message_id; registry = [] }

  pub size : Factory M → ℕ
  size f = length f.registry

  unfoldable pub lookup : Factory M → ℕ → Lookup M
  lookup f subscript =
      if ltb (length f.registry) subscript then null else entry_at (get_elem? f.registry subscript)

  -- `registry.resize(s, NULL)` with `s` one above the size.
  unfoldable pub grown : List (Option M) → ℕ → List (Option M)
  grown r i = if ltb i (length r + 1) then r ++ none ∷ [] else r

  module _ (id : M → ℕ) (make : M → ℕ → M) where
    unfoldable pub enroll : Factory M → M → Factory M × Bool
    enroll f m =
        let (b, done) = set_bits f.index (id m) in
        let i = size_of_int32 (index_of b (id m)) in
        if not done
        then (f, false)
        else (record { index = b; registry = set (grown f.registry i) i (some m) }, true)

    abbrev pub create_entry : Option (Option M) → ℕ → Created M
    create_entry (some (some m)) body_size = made (make m body_size)
    create_entry (some none) body_size = undefined
    create_entry none body_size = undefined

    unfoldable pub create : Factory M → ℕ → ℕ → Created M
    create f message_id body_size =
        let i = index_of f.index message_id in
        if i == minus_one
        then none_made
        else create_entry (get_elem? f.registry (size_of_int32 i)) body_size

    -- The messages enrolled in order, as the static initialisers of Messages.cpp do.
    unfoldable pub enroll_all : Factory M → List M → Factory M
    enroll_all f [] = f
    enroll_all f (m ∷ ms) = enroll_all (enroll f m).0 ms
