-- ===== src/Url/Iterator.antt =====
-- url/Iterator.cpp and Iterator.hpp: the iterator over the parts of a URL, scheme first.
pub mod Forward
mod Tests
use oodles.Prelude.{
  ℕ, zero, suc, ◌+◌, ◌-◌, ◌%◌, ◌^◌, Bool, true, false, not, List, [], ◌∷◌, Option, none, some, ltb,
  ◌==◌, ◌&&◌, ◌||◌, if◌then◌else◌, length,
}
use oodles.Url.Attributes.{
  Attributes, Part, scheme_part, username_part, password_part, domain_part, port_part, path_part,
  page_part, query_part, no_part, Stage, invalid, begin, transient, end, Place, scheme_place,
  username_place, password_place, port_place, page_place, domain_place, path_place, is_nil,
}

pub record Iterator : Type 0 where
  pub internal_state : Stage
  pub external_state : Part
  pub value : Option Place
  pub index : ℕ

-- `size_t` subtraction of one.
abbrev pub less_one : ℕ → ℕ
less_one n = (n + 2 ^ 64 - 1) % 2 ^ 64

-- The switch of `move_pointer_forward`: the new iterator and `recall`.
unfoldable pub forward_from : Attributes → Part → Iterator → Iterator × Bool
forward_from a scheme_part it =
    (record it { value = some scheme_place; external_state = username_part }, false)
forward_from a username_part it =
    (record it { value = some username_place; external_state = password_part }, false)
forward_from a password_part it =
    (record it { value = some password_place; external_state = domain_part }, false)
forward_from a domain_part it =
    if not (is_nil a.domain) && ltb it.index (length a.domain)
    then (record it { value = some (domain_place it.index); index = it.index + 1 }, false)
    else (record it { external_state = port_part; index = 0 }, true)
forward_from a port_part it =
    (record it { value = some port_place; external_state = path_part }, false)
forward_from a path_part it =
    if not (is_nil a.path) && ltb it.index (length a.path)
    then (record it { value = some (path_place it.index); index = it.index + 1 }, false)
    else (record it { external_state = page_part; index = 0 }, true)
forward_from a page_part it =
    if not (is_nil a.page)
    then (record it { value = some page_place; external_state = no_part }, false)
    else (record it { external_state = no_part }, true)
forward_from a query_part it = (record it { value = none; internal_state = end }, false)
forward_from a no_part it = (record it { value = none; internal_state = end }, false)

abbrev pub started : Stage → Iterator → Iterator
started begin it = record it { internal_state = transient; external_state = scheme_part }
started _ it = it

unfoldable pub move_pointer_forward : Attributes → Iterator → Iterator × Bool
unfolding forward_from
move_pointer_forward a it =
    let it' = started it.internal_state it in forward_from a it'.external_state it'

unfoldable pub backward_from : Attributes → Part → Iterator → Iterator × Bool
backward_from a scheme_part it =
    (record it { value = some scheme_place; external_state = no_part }, false)
backward_from a username_part it =
    (record it { value = some username_place; external_state = scheme_part }, false)
backward_from a password_part it =
    (record it { value = some password_place; external_state = username_part }, false)
backward_from a domain_part it =
    if is_nil a.domain
    then (record it { external_state = password_part }, true)
    else if it.index == 0
    then (record it { value = some (domain_place it.index); external_state = password_part }, false)
    else (record it { value = some (domain_place it.index); index = it.index - 1 }, false)
backward_from a port_part it = (
  record it {
    value = some port_place;
    external_state = domain_part;
    index = less_one (length a.domain);
  },
  false,
)
backward_from a path_part it =
    if is_nil a.path
    then (record it { external_state = port_part }, true)
    else if it.index == 0
    then (record it { value = some (path_place it.index); external_state = port_part }, false)
    else (record it { value = some (path_place it.index); index = it.index - 1 }, false)
backward_from a page_part it =
    if not (is_nil a.page)
    then (record it { value = some page_place; external_state = path_part }, false)
    else (record it { external_state = path_part }, true)
backward_from a query_part it = (record it { value = none; internal_state = end }, false)
backward_from a no_part it = (record it { value = none; internal_state = end }, false)

abbrev pub restarted : Attributes → Stage → Iterator → Iterator
restarted a end it = record it {
  internal_state = transient;
  external_state = page_part;
  index = less_one (length a.path);
}
restarted a _ it = it

unfoldable pub move_pointer_backward : Attributes → Iterator → Iterator × Bool
unfolding backward_from
move_pointer_backward a it =
    let it' = restarted a it.internal_state it in backward_from a it'.external_state it'

-- `while (move());` with fuel; `none` when the fuel runs out.
unfoldable pub repeat : (Iterator → Iterator × Bool) → ℕ → Iterator → Option Iterator
repeat move zero it = none
repeat move (suc n) it =
    let (it', recall) = move it in let rest = repeat move n it' in if recall then rest else some it'

-- A move asks for another at most three times.
abbrev pub recalls : ℕ
recalls = 4

abbrev pub next_from : Attributes → Stage → Iterator → Option Iterator
next_from a invalid it = some (record it { value = none })
next_from a end it = some it
next_from a _ it = repeat (move_pointer_forward a) recalls it

-- Iterator::operator++
unfoldable pub next : Attributes → Iterator → Option Iterator
unfolding repeat move_pointer_forward
next a it = next_from a it.internal_state it

abbrev pub previous_from : Attributes → Stage → Iterator → Option Iterator
previous_from a invalid it = some (record it { value = none })
previous_from a begin it = some it
previous_from a _ it = repeat (move_pointer_backward a) recalls it

-- Iterator::operator--
unfoldable pub previous : Attributes → Iterator → Option Iterator
unfolding repeat move_pointer_backward
previous a it = previous_from a it.internal_state it

-- The constructor, as URL::begin() and URL::end() call it.
unfoldable pub create : Attributes → Stage → Iterator
unfolding move_pointer_forward
create a state =
    (move_pointer_forward a
      (record { internal_state = state; external_state = no_part; value = none; index = 0 })).0
