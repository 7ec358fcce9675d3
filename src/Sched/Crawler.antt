-- ===== src/Sched/Crawler.antt =====
-- sched/Crawler.cpp and Crawler.hpp: a crawler's work unit, which is sorted by the address of the
-- URL, and the order of the scheduler's queue of crawlers.
use oodles.Prelude.{
  ℕ, zero, suc, ◌+◌, ◌-◌, ◌*◌, ◌%◌, ◌^◌, ◌≤◌, ◌<◌, ◌≡◌, ◌≢◌, ◌⊎◌, refl, sym, ap, ◌∙◌, Bool, true,
  false, not, ◌&&◌, ◌||◌, List, [], ◌∷◌, ◌++◌, Option, none, some, arith, ltb, ◌==◌, if◌then◌else◌,
  Bool-cases, inl, inr, length, get_elem?,
}
pub mod WorkUnit
mod Rank
mod Tests

-- `session` holds whether the session is online.
pub record Crawler : Type 0 where
  pub session : Option Bool
  pub cores : ℕ
  pub name : List ℕ
  pub work_unit : List ℕ

unfoldable pub create : List ℕ → ℕ → Crawler
create name cores = record { session = none; cores = cores; name = name; work_unit = [] }

abbrev pub online : Crawler → Bool
online c = elim c.session [ none ↦ false | some b ↦ b ]

-- `unit_t` is uint16_t.
abbrev pub max_unit_size : Crawler → ℕ
max_unit_size c = 32 * c.cores % 2 ^ 16

abbrev pub assigned : Crawler → ℕ
assigned c = length c.work_unit % 2 ^ 16

unfoldable pub full : Crawler → Bool
full c = assigned c == max_unit_size c

-- `std::lower_bound` on a sorted vector: the first position with no smaller address.
unfoldable pub lower_bound : List ℕ → ℕ → ℕ
lower_bound [] url = 0
lower_bound (u ∷ us) url = let rest = lower_bound us url in if ltb u url then suc rest else 0

-- `std::vector::insert` and `erase` at a position.
unfoldable pub insert : List ℕ → ℕ → ℕ → List ℕ
insert us zero url = url ∷ us
insert [] (suc i) url = url ∷ []
insert (u ∷ us) (suc i) url = u ∷ insert us i url

unfoldable pub erase : List ℕ → ℕ → List ℕ
erase [] i = []
erase (u ∷ us) zero = us
erase (u ∷ us) (suc i) = u ∷ erase us i

unfoldable pub add_url : Crawler → ℕ → Crawler × ℕ
unfolding lower_bound insert
add_url c url =
    let c' = record c { work_unit = insert c.work_unit (lower_bound c.work_unit url) url } in
    (c', assigned c')

abbrev pub points_to : Option ℕ → ℕ → Bool
points_to none url = false
points_to (some u) url = u == url

-- `none` where the assertion fails.
unfoldable pub remove_url : Crawler → ℕ → Option (Crawler × ℕ)
unfolding lower_bound erase
remove_url c url =
    let i = lower_bound c.work_unit url in
    let c' = record c { work_unit = erase c.work_unit i } in
    if points_to (get_elem? c.work_unit i) url then some (c', assigned c') else none

unfoldable pub set_session : Crawler → Bool → Option Crawler
set_session c s = elim c.session [ none ↦ some (record c { session = some s }) | some t ↦ none ]

-- begin_crawl: the URLs that it sends. `none` where the assertion fails.
unfoldable pub begin_crawl : Crawler → Option (List ℕ)
begin_crawl c = if online c then some c.work_unit else none

-- RankCrawler::operator().
unfoldable pub rank : Crawler → Crawler → Bool
rank lhs rhs =
    if online lhs && online rhs
    then (if assigned lhs == assigned rhs then false else ltb (assigned rhs) (assigned lhs))
    else if not (online lhs) && not (online rhs)
    then false
    else if not (online lhs)
    then true
    else false
