-- ===== src/Utility/Events.antt =====
-- utility/Event.cpp, Subscriber.cpp and Publisher.cpp: events and their subscribers. Both kinds of
-- object are numbers, and the store says which each has in its container. A Locator is the
-- iterator at the subscriber's own entry in the event's set: it is valid while that entry stands.
use oodles.Prelude.{
  ℕ, ◌+◌, ◌≡◌, Bool, true, false, not, ◌&&◌, ◌||◌, List, [], ◌∷◌, Option, none, some, ◌==◌,
  if◌then◌else◌, map,
}
pub mod Laws
mod Tests

pub record Store : Type 0 where
  pub subscribers : ℕ → List ℕ
  pub events : ℕ → List ℕ

unfoldable pub contains : ℕ → List ℕ → Bool
contains k [] = false
contains k (x ∷ xs) = x == k || contains k xs

-- `std::set::insert` and `erase` of an element.
abbrev pub add : ℕ → List ℕ → List ℕ
add k xs = if contains k xs then xs else k ∷ xs

unfoldable pub remove : ℕ → List ℕ → List ℕ
remove k [] = []
remove k (x ∷ xs) = let rest = remove k xs in if x == k then xs else x ∷ rest

abbrev pub put : (ℕ → List ℕ) → ℕ → List ℕ → ℕ → List ℕ
put f k v j = if k == j then v else f j

-- Subscriber::subscribe_to
unfoldable pub subscribe_to : Store → ℕ → ℕ → Store × Bool
subscribe_to w s e = if contains e (w.events s) then (w, false) else (
  record w {
    events = put w.events s (e ∷ w.events s);
    subscribers = put w.subscribers e (add s (w.subscribers e));
  },
  true,
)

-- `e.subscribers.erase(i->second)`; `none` for an iterator that is not valid.
unfoldable pub erase_locator : Store → ℕ → ℕ → Option Store
erase_locator w s e =
    if contains s (w.subscribers e)
    then some (record w { subscribers = put w.subscribers e (remove s (w.subscribers e)) })
    else none

abbrev pub answered : Bool → Option Store → Option (Store × Bool)
answered b none = none
answered b (some w) = some (w, b)

-- Subscriber::unsubscribe_from
unfoldable pub unsubscribe_from : Store → ℕ → ℕ → Option (Store × Bool)
unfolding erase_locator
unsubscribe_from w s e =
    if contains e (w.events s) then answered true (erase_locator w s e) else some (w, false)

-- The loop of ~Subscriber over the events that are left.
unfoldable pub leave : Store → ℕ → List ℕ → Option Store
leave w s [] = some w
leave w s (e ∷ es) = elim (erase_locator w s e) [ none ↦ none | some w' ↦ leave w' s es ]

unfoldable pub destroy_subscriber : Store → ℕ → Option Store
unfolding leave
destroy_subscriber w s = leave w s (w.events s)

-- The loop of ~Event from the iterator at the head of `i`: `++i` needs the entry to stand.
unfoldable pub drop_subscribers : Store → ℕ → List ℕ → Option Store
drop_subscribers w e [] = some w
drop_subscribers w e (s ∷ i) = elim (unsubscribe_from w s e) [
  | none ↦ none
  | some (w', found) ↦
      let rest = drop_subscribers w' e i in if contains s (w'.subscribers e) then rest else none
]

unfoldable pub destroy_event : Store → ℕ → Option Store
unfolding drop_subscribers
destroy_event w e = drop_subscribers w e (w.subscribers e)

-- Publisher::broadcast: who receives the event, or has its receipt posted to the dispatcher.
unfoldable pub broadcast : Store → ℕ → List ℕ
broadcast w e = w.subscribers e
