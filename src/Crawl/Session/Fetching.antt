-- ===== src/Crawl/Session/Fetching.antt =====
-- crawl/Session.cpp: the loop over the URLs of a BeginCrawl message.
use oodles.Prelude.{ℕ, zero, suc, ◌≡◌, refl, true, List, [], ◌∷◌, none}
use oodles.Net.Oop.Messages.{begin_crawl_message}
use oodles.Net.Oop.Factory.{begin_crawl}
use oodles.Crawl.Session.{Session, out_of_fuel, handled, fetch_loop, welcome, continue_dialog}

fetch_loop-stuck : (n : ℕ) (s : Session) (u : ℕ) (us : List ℕ) → fetch_loop n s (u ∷ us) ≡ none
unfolding fetch_loop
fetch_loop-stuck zero s u us = refl
fetch_loop-stuck (suc n) s u us = fetch_loop-stuck n _ u us

-- A BeginCrawl message with no URL, in a context that passes the guards, is handled, and the context
-- is then this message's; with a URL, the loop does not end, whatever the fuel.
pub continue_dialog-begin :
    (n : ℕ) (s : Session) (u : ℕ) (us : List ℕ)
    → welcome s (begin_crawl_message (record { urls = [] })) ≡ true
    → (continue_dialog (suc n) s (begin_crawl_message (record { urls = [] }))
        ≡ handled (record s { inbound = begin_crawl }))
      × (continue_dialog n s (begin_crawl_message (record { urls = u ∷ us })) ≡ out_of_fuel)
unfolding continue_dialog fetch_loop welcome
continue_dialog-begin n s u us w =
    (rw (continue_dialog, w), rw (continue_dialog, w, fetch_loop-stuck n s u us))
