-- ===== src/Dialogue/Accepts.antt =====
-- sched/Session.cpp and crawl/Session.cpp: neither end refuses what the other sends.
use oodles.Prelude.{
  ℕ, ◌≡◌, ◌≢◌, ◌⊎◌, inl, inr, refl, sym, ◌∙◌, subst, true, false, List, [], ◌∷◌, ◌++◌, arith,
}
use oodles.Net.Oop.Factory.{invalid_id, register_crawler, begin_crawl, end_crawl}
use oodles.Net.Oop.Messages.{
  Message, EndCrawl, register_crawler_message, begin_crawl_message, end_crawl_message, id,
}
use oodles.Sched.Session as Sched
use oodles.Crawl.Session as Crawl
use oodles.Dialogue.{
  Connection, opened, Step, registers, ends, begins, scheduler_handles, crawler_handles, Reach,
  start, step,
}
use oodles.Dialogue.Guards.{handle-register, handle-end, welcome-begin, continue-begin}

abbrev All : ℕ → List Message → Type 0
All i [] = Unit
All i (m ∷ ms) = (id m ≡ i) × All i ms

All-append : (i : ℕ) (ms : List Message) (m : Message) → All i ms → id m ≡ i → All i (ms ++ m ∷ [])
All-append i [] m h e = (e, tt)
All-append i (n ∷ ms) m h e = (h.0, All-append i ms m h.1 e)

apart : {m : Message} {ms : List Message} → [] ≢ m ∷ ms
apart e = cc e

-- The contexts of the two ends, and what is under way, before the crawler registers, while that
-- message is under way, and after.
data Phase : Connection → Type 0 where
  unregistered :
      (c : Connection)
      → c.crawler.outbound ≡ invalid_id
      → c.crawler.inbound ≡ invalid_id
      → c.scheduler.inbound ≡ invalid_id
      → c.scheduler.outbound ≡ invalid_id
      → c.scheduler.crawlers ≡ []
      → c.to_scheduler ≡ []
      → c.to_crawler ≡ []
      → Phase c
  registering :
      (c : Connection) (m : Message) (ms : List Message)
      → (c.crawler.outbound ≡ register_crawler) ⊎ (c.crawler.outbound ≡ end_crawl)
      → c.crawler.inbound ≡ invalid_id
      → c.scheduler.inbound ≡ invalid_id
      → c.scheduler.outbound ≡ invalid_id
      → c.scheduler.crawlers ≡ []
      → c.to_scheduler ≡ m ∷ ms
      → id m ≡ register_crawler
      → All end_crawl ms
      → c.to_crawler ≡ []
      → Phase c
  registered :
      (c : Connection)
      → (c.crawler.outbound ≡ register_crawler) ⊎ (c.crawler.outbound ≡ end_crawl)
      → (c.crawler.inbound ≡ invalid_id) ⊎ (c.crawler.inbound ≡ begin_crawl)
      → (c.scheduler.inbound ≡ register_crawler) ⊎ (c.scheduler.inbound ≡ end_crawl)
      → (c.scheduler.outbound ≡ invalid_id) ⊎ (c.scheduler.outbound ≡ begin_crawl)
      → All end_crawl c.to_scheduler
      → All begin_crawl c.to_crawler
      → Phase c

-- Each step keeps to the phases.
Phase-registers :
    (c : Connection) (cores : ℕ) (name : List ℕ)
    → Phase c
    → c.crawler.outbound ≡ invalid_id
    → Phase (record c {
      crawler = Crawl.send_register_crawler c.crawler cores name;
      to_scheduler =
          c.to_scheduler ++ register_crawler_message (record { cores = cores; name = name }) ∷ [];
    })
unfolding Crawl.send_register_crawler Crawl.send
Phase-registers c cores name (unregistered _ o i si so k ts tc) e =
    registering _ (register_crawler_message (record { cores = cores; name = name })) [] (inl refl) i
      si so k (rw ts) refl tt tc
Phase-registers c cores name (registering _ m ms o _ _ _ _ _ _ _ _) e = ground arith
Phase-registers c cores name (registered _ o _ _ _ _ _) e = ground arith

Phase-ends :
    (c : Connection) (m : EndCrawl)
    → Phase c
    → c.crawler.outbound ≢ invalid_id
    → Phase (record c {
      crawler = Crawl.send c.crawler (end_crawl_message m);
      to_scheduler = c.to_scheduler ++ end_crawl_message m ∷ [];
    })
unfolding Crawl.send
Phase-ends c m (unregistered _ o i si so k ts tc) e = absurd (e o)
Phase-ends c m (registering _ n ms o i si so k ts r h tc) e =
    registering _ n (ms ++ end_crawl_message m ∷ []) (inr refl) i si so k (rw ts) r
      (All-append end_crawl ms (end_crawl_message m) h refl) tc
Phase-ends c m (registered _ o i si so h g) e =
    registered _ (inr refl) i si so
      (All-append end_crawl c.to_scheduler (end_crawl_message m) h refl) g

Phase-begins :
    (c : Connection) (urls : List ℕ)
    → Phase c
    → c.scheduler.crawlers ≢ []
    → Phase (record c {
      scheduler = Sched.send_begin_crawl c.scheduler urls;
      to_crawler = c.to_crawler ++ begin_crawl_message (record { urls = urls }) ∷ [];
    })
unfolding Sched.send_begin_crawl Sched.send
Phase-begins c urls (unregistered _ o i si so k ts tc) e = absurd (e k)
Phase-begins c urls (registering _ n ms o i si so k ts r h tc) e = absurd (e k)
Phase-begins c urls (registered _ o i si so h g) e =
    registered _ o i si (inr refl) h
      (All-append begin_crawl c.to_crawler (begin_crawl_message (record { urls = urls })) g refl)

Phase-scheduler_handles :
    (c : Connection) (a : ℕ) (m : Message) (ms : List Message)
    → Phase c
    → c.to_scheduler ≡ m ∷ ms
    → Phase (record c { scheduler = (Sched.handle_message c.scheduler a m).0; to_scheduler = ms })
Phase-scheduler_handles c a m ms (unregistered _ o i si so k ts tc) e = absurd (apart (sym ts ∙ e))
Phase-scheduler_handles c a m ms (registering _ n ns o i si so k ts r h tc) e =
    let em : n ≡ m = cc (e, ts) in
    let es : ns ≡ ms = cc (e, ts) in
    let q = handle-register c.scheduler a m (rw (← em) r) si so in
    registered _ o (inl i) (inl q.0) (inl q.1.0) (subst (All end_crawl) es h) (rw tc tt)
Phase-scheduler_handles c a m ms (registered _ o i si so h g) e =
    let l : All end_crawl (m ∷ ms) = subst (All end_crawl) e h in
    let q = handle-end c.scheduler a m l.0 si so in
    registered _ o i (inr q.0) (subst (λ x. (x ≡ invalid_id) ⊎ (x ≡ begin_crawl)) (sym q.1.0) so)
      l.1 g

Phase-crawler_handles :
    (c : Connection) (n : ℕ) (s : Crawl.Session) (m : Message) (ms : List Message)
    → Phase c
    → c.to_crawler ≡ m ∷ ms
    → Crawl.continue_dialog n c.crawler m ≡ Crawl.handled s
    → Phase (record c { crawler = s; to_crawler = ms })
Phase-crawler_handles c n s m ms (unregistered _ o i si so k ts tc) e f =
    absurd (apart (sym tc ∙ e))
Phase-crawler_handles c n s m ms (registering _ _ ns o i si so k ts r h tc) e f =
    absurd (apart (sym tc ∙ e))
Phase-crawler_handles c n s m ms (registered _ o i si so h g) e f =
    let l : All begin_crawl (m ∷ ms) = subst (All begin_crawl) e g in
    let q = continue-begin n c.crawler s m l.0 f in
    registered _ (subst (λ x. (x ≡ register_crawler) ⊎ (x ≡ end_crawl)) (sym q.1) o) (inr q.0) si so
      h l.1

Phase-Step : (c d : Connection) → Phase c → Step c d → Phase d
Phase-Step c _ p (registers _ cores name e) = Phase-registers c cores name p e
Phase-Step c _ p (ends _ m e) = Phase-ends c m p e
Phase-Step c _ p (begins _ urls e) = Phase-begins c urls p e
Phase-Step c _ p (scheduler_handles _ a m ms e) = Phase-scheduler_handles c a m ms p e
Phase-Step c _ p (crawler_handles _ n s m ms e h) = Phase-crawler_handles c n s m ms p e h

Phase-Reach : (c : Connection) → Reach c → Phase c
Phase-Reach _ start = unregistered opened refl refl refl refl refl refl refl
Phase-Reach _ (step c d r s) = Phase-Step c d (Phase-Reach c r) s

scheduler_accepts :
    (c : Connection) (a : ℕ) (m : Message) (ms : List Message)
    → Phase c
    → c.to_scheduler ≡ m ∷ ms
    → (Sched.handle_message c.scheduler a m).1 ≡ false
scheduler_accepts c a m ms (unregistered _ o i si so k ts tc) e = absurd (apart (sym ts ∙ e))
scheduler_accepts c a m ms (registering _ n ns o i si so k ts r h tc) e =
    let em : n ≡ m = cc (e, ts) in (handle-register c.scheduler a m (rw (← em) r) si so).1.1
scheduler_accepts c a m ms (registered _ o i si so h g) e =
    (handle-end c.scheduler a m (subst (All end_crawl) e h).0 si so).1.1

crawler_accepts :
    (c : Connection) (m : Message) (ms : List Message)
    → Phase c
    → c.to_crawler ≡ m ∷ ms
    → Crawl.welcome c.crawler m ≡ true
crawler_accepts c m ms (unregistered _ o i si so k ts tc) e = absurd (apart (sym tc ∙ e))
crawler_accepts c m ms (registering _ n ns o i si so k ts r h tc) e = absurd (apart (sym tc ∙ e))
crawler_accepts c m ms (registered _ o i si so h g) e =
    welcome-begin c.crawler m (subst (All begin_crawl) e g).0 i o

-- In each state that a connection reaches, the scheduler's session handles the next message from the
-- crawler without a DialogError.
pub Reach-scheduler_accepts :
    (c : Connection) (a : ℕ) (m : Message) (ms : List Message)
    → Reach c
    → c.to_scheduler ≡ m ∷ ms
    → (Sched.handle_message c.scheduler a m).1 ≡ false
Reach-scheduler_accepts c a m ms r = scheduler_accepts c a m ms (Phase-Reach c r)

-- In each state that a connection reaches, the next message from the scheduler passes the guards of
-- the crawler's session.
pub Reach-crawler_accepts :
    (c : Connection) (m : Message) (ms : List Message)
    → Reach c
    → c.to_crawler ≡ m ∷ ms
    → Crawl.welcome c.crawler m ≡ true
Reach-crawler_accepts c m ms r = crawler_accepts c m ms (Phase-Reach c r)
