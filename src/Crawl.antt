-- ===== src/Crawl.antt =====
-- crawl/: the crawler's side of the dialogue with the scheduler.
pub mod Session
