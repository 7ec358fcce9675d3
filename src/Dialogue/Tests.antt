-- ===== src/Dialogue/Tests.antt =====
-- A connection on which the crawler's registration is under way.
use oodles.Prelude.{◌≡◌, refl, true, false, [], ◌∷◌}
use oodles.Net.Oop.Messages.{Message, register_crawler_message, begin_crawl_message}
use oodles.Sched.Session as Sched
use oodles.Crawl.Session as Crawl
use oodles.Dialogue.{Connection, opened, registers, begins, scheduler_handles, Reach, start, step}
use oodles.Dialogue.Accepts.{Reach-scheduler_accepts, Reach-crawler_accepts}

abbrev registration : Message
registration = register_crawler_message (record { cores = 2; name = b'a' ∷ [] })

abbrev greeted : Connection
greeted = record opened {
  crawler = Crawl.send_register_crawler opened.crawler 2 (b'a' ∷ []);
  to_scheduler = registration ∷ [];
}

greeted-Reach : Reach greeted
greeted-Reach = step opened greeted start (registers opened 2 (b'a' ∷ []) refl)

Reach-scheduler_accepts_example : (Sched.handle_message greeted.scheduler 8 registration).1 ≡ false
Reach-scheduler_accepts_example =
    Reach-scheduler_accepts greeted 8 registration [] greeted-Reach refl

-- The registration is handled, and the scheduler begins a crawl of one URL.
abbrev answered : Connection
answered = record greeted {
  scheduler = (Sched.handle_message greeted.scheduler 8 registration).0;
  to_scheduler = [];
}

abbrev crawling : Connection
crawling = record answered {
  scheduler = Sched.send_begin_crawl answered.scheduler (7 ∷ []);
  to_crawler = begin_crawl_message (record { urls = 7 ∷ [] }) ∷ [];
}

crawling-Reach : Reach crawling
unfolding Sched.handle_message
crawling-Reach =
    step answered crawling
      (step greeted answered greeted-Reach (scheduler_handles greeted 8 registration [] refl))
      (begins answered (7 ∷ []) (λ e. cc e))

Reach-crawler_accepts_example :
    Crawl.welcome crawling.crawler (begin_crawl_message (record { urls = 7 ∷ [] })) ≡ true
Reach-crawler_accepts_example =
    Reach-crawler_accepts crawling (begin_crawl_message (record { urls = 7 ∷ [] })) []
      crawling-Reach refl
