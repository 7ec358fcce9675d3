-- ===== src/Url/TreeIterator/Moves.antt =====
-- TreeIterator.cpp: the moves of the pointer, one at a time.
use oodles.Prelude.{
  ℕ, suc, ◌+◌, ◌-◌, ◌^◌, ◌≤◌, ◌<◌, ◌≡◌, refl, true, false, List, [], ◌∷◌, Option, none, some, arith,
  ltb, ◌==◌, length,
}
use oodles.Url.Attributes.{
  Attributes, Part, domain_part, path_part, page_part, no_part, transient, end, Place, page_place,
  domain_place, path_place, is_nil,
}
use oodles.Url.TreeIterator.{
  TreeIterator, next, less_one, more_one, repeat, move_pointer_forward, forward_from,
}

abbrev pub at_part : Part → Option Place → ℕ → TreeIterator
at_part e v i = record { internal_state = transient; external_state = e; value = v; index = i }

abbrev pub past_end : TreeIterator
past_end = record { internal_state = end; external_state = no_part; value = none; index = 0 }

pub more_one_small : (i : ℕ) → i + 1 < 2 ^ 64 → more_one i ≡ i + 1
more_one_small i h = omega arith

pub less_one_small : (n : ℕ) → suc n < 2 ^ 64 → less_one (suc n) ≡ n
less_one_small n h = omega arith

-- One move is enough.
pub next-move :
    (a : Attributes) (e : Part) (v : Option Place) (i : ℕ) (it' : TreeIterator)
    → move_pointer_forward a (at_part e v i) ≡ (it', false)
    → next a (at_part e v i) ≡ some it'
unfolding next repeat
next-move a e v i it' f = rw f

-- The first move asks for another.
pub next-move_move :
    (a : Attributes) (e : Part) (v : Option Place) (i : ℕ) (it' it'' : TreeIterator)
    → move_pointer_forward a (at_part e v i) ≡ (it', true)
    → move_pointer_forward a it' ≡ (it'', false)
    → next a (at_part e v i) ≡ some it''
unfolding next repeat
next-move_move a e v i it' it'' f g = rw (f, g)

pub next-move_move_move :
    (a : Attributes) (e : Part) (v : Option Place) (i : ℕ) (it' it'' last : TreeIterator)
    → move_pointer_forward a (at_part e v i) ≡ (it', true)
    → move_pointer_forward a it' ≡ (it'', true)
    → move_pointer_forward a it'' ≡ (last, false)
    → next a (at_part e v i) ≡ some last
unfolding next repeat
next-move_move_move a e v i it' it'' last f g h = rw (f, g, h)

pub inhabited {ℓ} : {A : Type ℓ} (i : ℕ) (xs : List A) → i < length xs → is_nil xs ≡ false
inhabited i [] h = ground arith
inhabited i (x ∷ xs) h = refl

pub eqb_same : (i : ℕ) → (i == i) ≡ true
eqb_same i = ground arith

pub eqb_less : (i j : ℕ) → i < j → (i == j) ≡ false
eqb_less i j h = ground arith

pub address_more :
    (a : Attributes) (v : Option Place) (i : ℕ)
    → a.ip ≡ true
    → i + 1 < length a.domain
    → length a.domain < 2 ^ 64
    → move_pointer_forward a (at_part domain_part v i)
      ≡ (at_part domain_part (some (domain_place i)) (i + 1), false)
unfolding move_pointer_forward forward_from
address_more a v i e h b = rw (
  e,
  inhabited i a.domain (omega arith),
  eqb_less i (less_one (length a.domain)) (omega arith),
  more_one_small i (omega arith),
)

pub address_last :
    (a : Attributes) (v : Option Place) (i : ℕ)
    → a.ip ≡ true
    → i + 1 ≡ length a.domain
    → length a.domain < 2 ^ 64
    → move_pointer_forward a (at_part domain_part v i)
      ≡ (at_part path_part (some (domain_place i)) 0, false)
unfolding move_pointer_forward forward_from
address_last a v i e h b =
    let f : less_one (length a.domain) ≡ i = omega arith in
    rw (e, inhabited i a.domain (omega arith), f, eqb_same i)

pub name_more :
    (a : Attributes) (v : Option Place) (i : ℕ)
    → a.ip ≡ false
    → suc i < length a.domain
    → move_pointer_forward a (at_part domain_part v (suc i))
      ≡ (at_part domain_part (some (domain_place (suc i))) i, false)
unfolding move_pointer_forward forward_from
name_more a v i e h =
    let f : (suc i == 0) ≡ false = ground arith in
    let g : suc i - 1 ≡ i = omega arith in rw (e, inhabited (suc i) a.domain h, f, g)

pub name_last :
    (a : Attributes) (v : Option Place)
    → a.ip ≡ false
    → 0 < length a.domain
    → move_pointer_forward a (at_part domain_part v 0)
      ≡ (at_part path_part (some (domain_place 0)) 0, false)
unfolding move_pointer_forward forward_from
name_last a v e h = rw (e, inhabited 0 a.domain h)

pub path_more :
    (a : Attributes) (v : Option Place) (i : ℕ)
    → i < length a.path
    → length a.path < 2 ^ 64
    → move_pointer_forward a (at_part path_part v i)
      ≡ (at_part path_part (some (path_place i)) (i + 1), false)
unfolding move_pointer_forward forward_from
path_more a v i h b =
    let e : ltb i (length a.path) ≡ true = ground arith in
    rw (inhabited i a.path h, e, more_one_small i (omega arith))

pub path_done :
    (a : Attributes) (v : Option Place) (i : ℕ)
    → length a.path ≤ i
    → move_pointer_forward a (at_part path_part v i) ≡ (at_part page_part v 0, true)
unfolding move_pointer_forward forward_from
path_done a v i h = let e : ltb i (length a.path) ≡ false = ground arith in rw e (ground arith)

pub page_shown :
    (a : Attributes) (v : Option Place)
    → is_nil a.page ≡ false
    → move_pointer_forward a (at_part page_part v 0) ≡ (at_part no_part (some page_place) 0, false)
unfolding move_pointer_forward forward_from
page_shown a v e = rw e

pub page_absent :
    (a : Attributes) (v : Option Place)
    → is_nil a.page ≡ true
    → move_pointer_forward a (at_part page_part v 0) ≡ (at_part no_part v 0, true)
unfolding move_pointer_forward forward_from
page_absent a v e = rw e

pub finish :
    (a : Attributes) (v : Option Place)
    → move_pointer_forward a (at_part no_part v 0) ≡ (past_end, false)
unfolding move_pointer_forward forward_from
finish a v = refl
