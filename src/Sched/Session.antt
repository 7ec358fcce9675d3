-- ===== src/Sched/Session.antt =====
-- sched/Session.cpp and Session.hpp: the scheduler's end of a connection. A key is the address of a
-- message, which is not 0. What the handlers ask of the context and the scheduler is recorded: the
-- crawlers created, registered and given this session, and the updates that it was asked to defer.
use oodles.Prelude.{
  ℕ, zero, suc, Bool, true, false, not, List, [], ◌∷◌, ◌++◌, Option, none, some, ◌==◌, ◌&&◌, ◌||◌,
  if◌then◌else◌, map,
}
use oodles.Net.Oop.Factory.{invalid_id, register_crawler, begin_crawl, end_crawl}
use oodles.Net.Oop.Messages.{
  Message, RegisterCrawler, BeginCrawl, EndCrawl, register_crawler_message, begin_crawl_message,
  end_crawl_message, id,
}
mod Account
mod Counts
mod Handling
mod Garbage
mod Steps
mod Tests

-- DeferredUpdate.hpp, struct Deferable.
pub record Deferable : Type 0 where
  pub key : ℕ
  pub new_urls : List (List ℕ × Bool)
  pub scheduled_urls : List (ℕ × Bool)

-- The session, its garbage collector's map, and what it has done to its surroundings: the messages
-- pushed for sending, oldest first, and the keys of the messages deleted, latest first.
pub record Session : Type 0 where
  pub inbound : ℕ
  pub outbound : ℕ
  pub garbage : List (ℕ × Message)
  pub crawlers : List RegisterCrawler
  pub updates : List Deferable
  pub pushed : List Message
  pub deleted : List ℕ

abbrev pub create : Session
create = record {
  inbound = invalid_id;
  outbound = invalid_id;
  garbage = [];
  crawlers = [];
  updates = [];
  pushed = [];
  deleted = [];
}

-- `std::map<key_t, Message*>`: `find` with `erase`, and `operator[]` with an assignment.
unfoldable pub find : ℕ → List (ℕ × Message) → Option Message
find k [] = none
find k ((j, m) ∷ ms) = let rest = find k ms in if j == k then some m else rest

unfoldable pub erase : ℕ → List (ℕ × Message) → List (ℕ × Message)
erase k [] = []
erase k ((j, m) ∷ ms) = let rest = erase k ms in if j == k then ms else (j, m) ∷ rest

unfoldable pub assign : ℕ → Message → List (ℕ × Message) → List (ℕ × Message)
assign k m [] = (k, m) ∷ []
assign k m ((j, n) ∷ ms) = let rest = assign k m ms in if j == k then (j, m) ∷ ms else (j, n) ∷ rest

-- GarbageCollector::receive, for an event with key `k`. `none` where the assertion fails.
unfoldable pub receive : Session → ℕ → Option Session
receive s k = elim (find k s.garbage) [
  | none ↦ none
  | some m ↦ some (record s { garbage = erase k s.garbage; deleted = k ∷ s.deleted })
]

-- GarbageCollector::trash, of the message at address `a`.
unfoldable pub trash : Session → ℕ → Message → ℕ → Session
trash s a m k =
    if not (k == 0)
    then record s { garbage = assign k m s.garbage }
    else record s { deleted = a ∷ s.deleted }

-- The two handlers of messages.
abbrev pub continue_dialog_register : Session → RegisterCrawler → Session × ℕ
continue_dialog_register s m = (record s { crawlers = s.crawlers ++ m ∷ [] }, 0)

abbrev pub continue_dialog_end : Session → ℕ → EndCrawl → Session × ℕ
continue_dialog_end s a m = (
  record s {
    updates =
        s.updates
        ++ (record { key = a; new_urls = m.new_urls; scheduled_urls = m.scheduled_urls }) ∷ [];
  },
  a,
)

abbrev accepted : ℕ → Session × ℕ → Session × Option ℕ
accepted i (s, k) = (record s { inbound = i }, some k)

-- continue_dialog of the message at address `a`: the key, or `none` for a DialogError.
unfoldable pub continue_dialog : Session → ℕ → Message → Session × Option ℕ
continue_dialog s a (register_crawler_message m) =
    if not (s.inbound == invalid_id)
    then (s, none)
    else if not (s.outbound == invalid_id)
    then (s, none)
    else accepted register_crawler (continue_dialog_register s m)
continue_dialog s a (end_crawl_message m) =
    if not (s.inbound == end_crawl) && not (s.inbound == register_crawler)
    then (s, none)
    else if not (s.outbound == invalid_id) && not (s.outbound == begin_crawl)
    then (s, none)
    else accepted end_crawl (continue_dialog_end s a m)
continue_dialog s a (begin_crawl_message m) = (s, none)

-- What handle_message does with the result: `true` where it throws.
unfoldable pub conclude : ℕ → Message → Session × Option ℕ → Session × Bool
unfolding trash
conclude a m (s, none) = (record s { deleted = a ∷ s.deleted }, true)
conclude a m (s, some k) = (trash s a m k, false)

-- handle_message of the message at address `a`.
unfoldable pub handle_message : Session → ℕ → Message → Session × Bool
unfolding conclude continue_dialog
handle_message s a m = conclude a m (continue_dialog s a m)

unfoldable pub send : Session → Message → Session
send s m = record s { outbound = id m; pushed = s.pushed ++ m ∷ [] }

unfoldable pub send_begin_crawl : Session → List ℕ → Session
unfolding send
send_begin_crawl s urls = send s (begin_crawl_message (record { urls = urls }))
