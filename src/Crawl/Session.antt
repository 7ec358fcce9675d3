-- ===== src/Crawl/Session.antt =====
-- crawl/Session.cpp and Session.hpp: the crawler's end of the connection. The crawler's `fetch` is
-- recorded by the URLs asked for.
use oodles.Prelude.{
  ℕ, zero, suc, Bool, true, false, not, List, [], ◌∷◌, ◌++◌, Option, none, some, ◌==◌, ◌&&◌, ◌||◌,
  if◌then◌else◌, map,
}
use oodles.Net.Oop.Factory.{invalid_id, register_crawler, begin_crawl, end_crawl}
use oodles.Net.Oop.Messages.{
  Message, RegisterCrawler, BeginCrawl, EndCrawl, register_crawler_message, begin_crawl_message,
  end_crawl_message, id,
}
mod Fetching
mod Tests

pub record Session : Type 0 where
  pub inbound : ℕ
  pub outbound : ℕ
  pub fetched : List ℕ
  pub pushed : List Message

abbrev pub create : Session
create = record { inbound = invalid_id; outbound = invalid_id; fetched = []; pushed = [] }

-- The loop of continue_dialog for BeginCrawl, from iterator `i` on, with fuel. Its body leaves `i`
-- as it is. `none` when the fuel runs out.
unfoldable pub fetch_loop : ℕ → Session → List ℕ → Option Session
fetch_loop zero s i = none
fetch_loop (suc n) s [] = some s
fetch_loop (suc n) s (u ∷ us) = fetch_loop n (record s { fetched = s.fetched ++ u ∷ [] }) (u ∷ us)

-- The result of a handler.
pub data Outcome : Type 0 where
  handled : Session → Outcome
  dialog_error : Session → Outcome
  out_of_fuel : Outcome

abbrev received : ℕ → Option Session → Outcome
received i none = out_of_fuel
received i (some s) = handled (record s { inbound = i })

-- The guards of continue_dialog.
unfoldable pub welcome : Session → Message → Bool
welcome s (begin_crawl_message m) =
    if not (s.inbound == invalid_id) && not (s.inbound == begin_crawl)
    then false
    else if not (s.outbound == end_crawl) && not (s.outbound == register_crawler)
    then false
    else true
welcome s _ = false

abbrev continue_dialog_begin : ℕ → Session → Message → Option Session
continue_dialog_begin n s (begin_crawl_message m) = fetch_loop n s m.urls
continue_dialog_begin n s _ = some s

-- continue_dialog, with fuel for the handler's loop.
unfoldable pub continue_dialog : ℕ → Session → Message → Outcome
unfolding welcome fetch_loop
continue_dialog n s m =
    if welcome s m then received (id m) (continue_dialog_begin n s m) else dialog_error s

unfoldable pub send : Session → Message → Session
send s m = record s { outbound = id m; pushed = s.pushed ++ m ∷ [] }

-- register_crawler(), with the crawler's cores and name.
unfoldable pub send_register_crawler : Session → ℕ → List ℕ → Session
unfolding send
send_register_crawler s cores name =
    send s (register_crawler_message (record { cores = cores; name = name }))

-- end_crawl(), with the page ids of its URLs.
unfoldable pub send_end_crawl : Session → List ℕ → Session
unfolding send
send_end_crawl s page_ids =
    send s
      (end_crawl_message (record { new_urls = []; scheduled_urls = map (λ i. (i, true)) page_ids }))
