-- ===== src/Net/Oop/Messages.antt =====
-- net/oop/Messages.hpp: the messages between crawler and scheduler. A `url::URL*` is the number of
-- its object, a `hash_t` its value, a string the list of its bytes.
use oodles.Prelude.{ℕ, Bool, List}
use oodles.Net.Oop.Factory.{register_crawler, begin_crawl, end_crawl}

pub record RegisterCrawler : Type 0 where
  pub cores : ℕ
  pub name : List ℕ

pub record BeginCrawl : Type 0 where
  pub urls : List ℕ

pub record EndCrawl : Type 0 where
  pub new_urls : List (List ℕ × Bool)
  pub scheduled_urls : List (ℕ × Bool)

pub data Message : Type 0 where
  register_crawler_message : RegisterCrawler → Message
  begin_crawl_message : BeginCrawl → Message
  end_crawl_message : EndCrawl → Message

-- `id()` of each.
abbrev pub id : Message → ℕ
id (register_crawler_message m) = register_crawler
id (begin_crawl_message m) = begin_crawl
id (end_crawl_message m) = end_crawl
