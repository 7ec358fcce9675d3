-- ===== src/Net/Http/ResponseCodes/Laws.antt =====
-- ResponseCodes.cpp: the constructor passes its assertions, and `operator[]` answers from its table.
use Prim.Native.String.{String}
use native.Mathlib.Nat.{mod-eq_of_lt}
use mathlib.Core.List.{append-nil, append_assoc}
use oodles.Prelude.{
  ℕ, ◌+◌, ◌^◌, ◌≤◌, ◌<◌, ◌≡◌, refl, true, false, List, [], ◌∷◌, ◌++◌, Option, none, some, arith,
  length, set-append_length, get_elem?-lt, Option-cases, inl, inr,
}
use oodles.Utility.BitSet
use oodles.Utility.BitSet.{set_bits, has_value, index_of}
use oodles.Utility.BitSet.Members.{IsValid, set_bits_lem}
use oodles.Utility.BitSet.Rank.{
  count_below, index_of-count_below, index_of-set_bits, small_size, count_below-le, has_value-le,
}
use oodles.Utility.BitSet.Registry.{
  entry_of, KeysBelow, KeysBelow-append, KeysBelow-mono, Stores, create-Stores, set_bits-Stores,
  rank_of_new,
}
use oodles.Net.Http.ResponseCodes.{
  ResponseCodes, Phrase, phrase, range_error, at, add_message, add_messages, phrases, create,
}

-- The codes rise from `n` on, up to the largest that the index holds.
abbrev Ascending : ℕ → List (ℕ × String) → Type 0
Ascending n [] = Unit {0}
Ascending n ((c, s) ∷ t) = (n ≤ c) × (c ≤ 505) × Ascending (c + 1) t

-- The phrase of a table's entry, if it has one.
abbrev pub expected : Option String → Phrase
expected (some s) = phrase s
expected none = range_error

add_message_new :
    (r : ResponseCodes) (c : ℕ) (s : String)
    → IsValid r.index
    → c ≤ r.index.max
    → r.index.max < 2 ^ 31
    → has_value r.index c ≡ false
    → count_below r.index c ≡ length r.messages
    → add_message r c s
      ≡ some (record { index = (set_bits r.index c).0; messages = r.messages ++ s ∷ [] })
unfolding add_message
add_message_new r c s h p l e q =
    let done : (set_bits r.index c).1 ≡ true = ground (arith, set_bits_lem r.index c 0 h) in
    rw
      (
        index_of-set_bits r.index c h p l e,
        small_size (count_below r.index c) (omega (arith, count_below-le r.index c)),
        q,
      )
      (ground (arith, done, set-append_length r.messages "" s []))

add_messages-Stores :
    (r : ResponseCodes) (t : List (ℕ × String)) (n : ℕ) (u : List (ℕ × String))
    → Stores r.index r.messages t
    → r.index.max ≡ 505
    → KeysBelow t n
    → Ascending n u
    → (q : ResponseCodes) × (add_messages r u ≡ some q)
      × Stores q.index q.messages (t ++ u)
      × (q.index.max ≡ 505)
unfolding add_messages
add_messages-Stores r t n [] s e k h = (r, refl, rw append-nil s, e)
add_messages-Stores r t n ((c, x) ∷ u) s e k h =
    let i = rank_of_new c s (KeysBelow-mono t n c h.0 k) (omega arith) in
    let new = set_bits-Stores c s (KeysBelow-mono t n c h.0 k) (omega arith) x in
    let step = add_message_new r c x s.valid (omega arith) (omega arith) i.1 i.0 in
    let b = (set_bits r.index c).0 in
    let (q, made, all, m) =
      add_messages-Stores (record { index = b; messages = r.messages ++ x ∷ [] }) (t ++ (c, x) ∷ [])
        (c + 1) u new.0 (ground (arith, set_bits_lem r.index c 0 s.valid))
        (KeysBelow-append t n (c + 1) c x k h.0 (omega arith)) h.2 in
    (q, rw (step, add_messages) made, rw (append_assoc t ((c, x) ∷ []) u) at all, m)

at-entry_of :
    (r : ResponseCodes) (t : List (ℕ × String)) (c : ℕ)
    → Stores r.index r.messages t
    → r.index.max < 2 ^ 31
    → c < 2 ^ 32
    → at r c ≡ expected (entry_of t c)
unfolding at
at-entry_of r t c s m h = elim (Option-cases (entry_of t c)) [
  | inl e ↦ rw (e, mod-eq_of_lt h, index_of-count_below r.index c s.valid h, s.absent c e) refl
  | inr (x, e) ↦
      let f = s.present c x e in
      rw (e, mod-eq_of_lt h, index_of-count_below r.index c s.valid h, f.0)
        (ground (
          arith,
          f.1,
          get_elem?-lt r.messages (count_below r.index c) x f.1,
          small_size (count_below r.index c),
          has_value-le r.index c f.0,
          count_below-le r.index c,
        ))
]

-- The constructor passes its assertions. Then for a code of its table `operator[]` returns the
-- phrase beside it, and throws a RangeError for every other 32-bit code.
pub at-create :
    (c : ℕ)
    → c < 2 ^ 32
    → (r : ResponseCodes) × (create ≡ some r) × (at r c ≡ expected (entry_of phrases c))
unfolding create BitSet.create
at-create c h =
    let (r, made, s, m) =
      add_messages-Stores (record { index = BitSet.create 505; messages = [] }) [] 0 phrases
        (create-Stores 505) refl tt (omega arith) in
    (r, made, at-entry_of r phrases c s (omega arith) h)
