-- ===== src/Url/TreeIterator.antt =====
-- url/TreeIterator.cpp and TreeIterator.hpp: the iterator by which a URL goes into the scheduler's
-- tree, from the top-level domain (from the first octet, for an address) to the page.
pub mod Moves
pub mod Forward
pub mod Backward
mod Tests
use oodles.Prelude.{
  ℕ, zero, suc, ◌+◌, ◌-◌, ◌%◌, ◌^◌, Bool, true, false, not, List, [], ◌∷◌, Option, none, some, ltb,
  ◌==◌, ◌&&◌, ◌||◌, if◌then◌else◌, length,
}
use oodles.Url.Attributes.{
  Attributes, Part, scheme_part, username_part, password_part, domain_part, port_part, path_part,
  page_part, query_part, no_part, Stage, invalid, begin, transient, end, Place, page_place,
  domain_place, path_place, is_nil,
}

pub record TreeIterator : Type 0 where
  pub internal_state : Stage
  pub external_state : Part
  pub value : Option Place
  pub index : ℕ

-- `size_t` addition and subtraction of one.
abbrev pub less_one : ℕ → ℕ
less_one n = (n + 2 ^ 64 - 1) % 2 ^ 64

abbrev pub more_one : ℕ → ℕ
more_one n = (n + 1) % 2 ^ 64

-- The switch of `move_pointer_forward`: the new iterator and `recall`.
unfoldable pub forward_from : Attributes → Part → TreeIterator → TreeIterator × Bool
forward_from a domain_part it =
    let it' = record it { value = some (domain_place it.index) } in
    let last = if a.ip then it.index == less_one (length a.domain) else it.index == 0 in
    if is_nil a.domain
    then (record it { external_state = path_part; index = 0 }, true)
    else if last
    then (record it' { external_state = path_part; index = 0 }, false)
    else (record it' { index = if a.ip then more_one it.index else it.index - 1 }, false)
forward_from a path_part it =
    if not (is_nil a.path) && ltb it.index (length a.path)
    then (record it { value = some (path_place it.index); index = more_one it.index }, false)
    else (record it { external_state = page_part; index = 0 }, true)
forward_from a page_part it =
    if not (is_nil a.page)
    then (record it { value = some page_place; external_state = no_part }, false)
    else (record it { external_state = no_part }, true)
forward_from a _ it = (record it { value = none; internal_state = end }, false)

abbrev pub started : Attributes → Stage → TreeIterator → TreeIterator
started a begin it = record it {
  internal_state = transient;
  external_state = domain_part;
  index = if a.ip then 0 else less_one (length a.domain);
}
started a _ it = it

unfoldable pub move_pointer_forward : Attributes → TreeIterator → TreeIterator × Bool
unfolding forward_from
move_pointer_forward a it =
    let it' = started a it.internal_state it in forward_from a it'.external_state it'

unfoldable pub backward_from : Attributes → Part → TreeIterator → TreeIterator × Bool
backward_from a domain_part it =
    let it' = record it { value = some (domain_place it.index) } in
    if not (is_nil a.domain) && ltb it.index (length a.domain)
    then (
      if a.ip
          then (if it.index == 0
              then record it' { internal_state = end }
              else record it' { index = it.index - 1 })
          else record it' { index = more_one it.index },
      false,
    )
    else (record it { external_state = no_part; index = 0 }, true)
backward_from a path_part it =
    let it' = record it { value = some (path_place it.index) } in
    if is_nil a.path
    then (record it { external_state = domain_part }, true)
    else if it.index == 0
    then (
      record it' {
        external_state = domain_part;
        index = if a.ip then less_one (length a.domain) else it.index;
      },
      false,
    )
    else (record it' { index = it.index - 1 }, false)
backward_from a page_part it =
    if not (is_nil a.page)
    then (record it { value = some page_place; external_state = path_part }, false)
    else (record it { external_state = path_part }, true)
backward_from a _ it = (record it { value = none; internal_state = end }, false)

abbrev pub restarted : Attributes → Stage → TreeIterator → TreeIterator
restarted a end it = record it {
  internal_state = transient;
  external_state = page_part;
  index = less_one (length a.path);
}
restarted a _ it = it

unfoldable pub move_pointer_backward : Attributes → TreeIterator → TreeIterator × Bool
unfolding backward_from
move_pointer_backward a it =
    let it' = restarted a it.internal_state it in backward_from a it'.external_state it'

-- `while (move());` with fuel; `none` when the fuel runs out.
unfoldable pub repeat :
    (TreeIterator → TreeIterator × Bool) → ℕ → TreeIterator → Option TreeIterator
repeat move zero it = none
repeat move (suc n) it =
    let (it', recall) = move it in let rest = repeat move n it' in if recall then rest else some it'

-- A move asks for another at most three times.
abbrev pub recalls : ℕ
recalls = 4

abbrev pub next_from : Attributes → Stage → TreeIterator → Option TreeIterator
next_from a invalid it = some (record it { value = none })
next_from a end it = some it
next_from a _ it = repeat (move_pointer_forward a) recalls it

-- TreeIterator::operator++
unfoldable pub next : Attributes → TreeIterator → Option TreeIterator
unfolding repeat move_pointer_forward
next a it = next_from a it.internal_state it

abbrev pub previous_from : Attributes → Stage → TreeIterator → Option TreeIterator
previous_from a invalid it = some (record it { value = none })
previous_from a begin it = some it
previous_from a _ it = repeat (move_pointer_backward a) recalls it

-- TreeIterator::operator--
unfoldable pub previous : Attributes → TreeIterator → Option TreeIterator
unfolding repeat move_pointer_backward
previous a it = previous_from a it.internal_state it

-- The constructor, as URL::begin_tree() and URL::end_tree() call it.
unfoldable pub create : Attributes → Stage → TreeIterator
unfolding move_pointer_forward
create a state =
    (move_pointer_forward a
      (record { internal_state = state; external_state = no_part; value = none; index = 0 })).0
