-- ===== src/Dialogue.antt =====
-- sched/Session.cpp and crawl/Session.cpp together: one connection between a crawler and the
-- scheduler, whose two streams keep the order of the messages.
use oodles.Prelude.{
  ℕ, zero, suc, ◌+◌, ◌≡◌, ◌≢◌, ◌⊎◌, inl, inr, refl, ap, sym, ◌∙◌, subst, Bool, true, false, List,
  [], ◌∷◌, ◌++◌, Option, none, some, arith, ◌==◌,
}
use oodles.Net.Oop.Factory.{invalid_id, register_crawler, begin_crawl, end_crawl}
use oodles.Net.Oop.Messages.{
  Message, RegisterCrawler, BeginCrawl, EndCrawl, register_crawler_message, begin_crawl_message,
  end_crawl_message, id,
}
use oodles.Sched.Session as Sched
use oodles.Crawl.Session as Crawl
mod Guards
mod Accepts
mod Tests

-- Both ends, and what is under way in each direction, oldest first.
pub record Connection : Type 0 where
  pub scheduler : Sched.Session
  pub crawler : Crawl.Session
  pub to_scheduler : List Message
  pub to_crawler : List Message

abbrev pub opened : Connection
opened = record {
  scheduler = Sched.create;
  crawler = Crawl.create;
  to_scheduler = [];
  to_crawler = [];
}

-- What can happen. The crawler registers once, before all else, and sends
-- EndCrawl messages after that. The
-- scheduler begins crawls with a crawler that has registered, since the session is set there. A
-- message that is delivered is handled with fuel `n`.
pub data Step : Connection → Connection → Type 0 where
  registers :
      (c : Connection) (cores : ℕ) (name : List ℕ)
      → c.crawler.outbound ≡ invalid_id
      → Step c (record c {
        crawler = Crawl.send_register_crawler c.crawler cores name;
        to_scheduler =
            c.to_scheduler ++ register_crawler_message (record { cores = cores; name = name }) ∷ [];
      })
  ends :
      (c : Connection) (m : EndCrawl)
      → c.crawler.outbound ≢ invalid_id
      → Step c (record c {
        crawler = Crawl.send c.crawler (end_crawl_message m);
        to_scheduler = c.to_scheduler ++ end_crawl_message m ∷ [];
      })
  begins :
      (c : Connection) (urls : List ℕ)
      → c.scheduler.crawlers ≢ []
      → Step c (record c {
        scheduler = Sched.send_begin_crawl c.scheduler urls;
        to_crawler = c.to_crawler ++ begin_crawl_message (record { urls = urls }) ∷ [];
      })
  scheduler_handles :
      (c : Connection) (a : ℕ) (m : Message) (ms : List Message)
      → c.to_scheduler ≡ m ∷ ms
      → Step c
          (record c { scheduler = (Sched.handle_message c.scheduler a m).0; to_scheduler = ms })
  crawler_handles :
      (c : Connection) (n : ℕ) (s : Crawl.Session) (m : Message) (ms : List Message)
      → c.to_crawler ≡ m ∷ ms
      → Crawl.continue_dialog n c.crawler m ≡ Crawl.Outcome.handled s
      → Step c (record c { crawler = s; to_crawler = ms })

pub data Reach : Connection → Type 0 where
  start : Reach opened
  step : (c d : Connection) → Reach c → Step c d → Reach d
