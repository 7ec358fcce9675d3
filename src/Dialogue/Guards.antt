-- ===== src/Dialogue/Guards.antt =====
-- sched/Session.cpp and crawl/Session.cpp: the messages that pass the guards.
use oodles.Prelude.{
  ℕ, zero, suc, ◌≡◌, ◌⊎◌, inl, inr, refl, ap, ◌∙◌, true, false, not, List, [], ◌∷◌, ◌++◌, some,
  arith, ◌==◌, ◌&&◌, Bool-cases, Option-cases,
}
use oodles.Net.Oop.Factory.{invalid_id, register_crawler, begin_crawl, end_crawl}
use oodles.Net.Oop.Messages.{
  Message, RegisterCrawler, EndCrawl, register_crawler_message, begin_crawl_message,
  end_crawl_message, id,
}
use oodles.Sched.Session as Sched
use oodles.Crawl.Session as Crawl

-- The scheduler's guards.
same : (a b : ℕ) → a ≡ b → (a == b) ≡ true
same a b e = ground arith

continue-register :
    (s : Sched.Session) (a : ℕ) (m : RegisterCrawler)
    → s.inbound ≡ invalid_id
    → s.outbound ≡ invalid_id
    → Sched.continue_dialog s a (register_crawler_message m)
      ≡ (record s { inbound = register_crawler; crawlers = s.crawlers ++ m ∷ [] }, some 0)
unfolding Sched.continue_dialog
continue-register s a m e f = rw (same s.inbound invalid_id e, same s.outbound invalid_id f)

continue-end :
    (s : Sched.Session) (a : ℕ) (m : EndCrawl)
    → (s.inbound ≡ register_crawler) ⊎ (s.inbound ≡ end_crawl)
    → (s.outbound ≡ invalid_id) ⊎ (s.outbound ≡ begin_crawl)
    → Sched.continue_dialog s a (end_crawl_message m) ≡ (
      record s {
        inbound = end_crawl;
        updates =
            s.updates
            ++ (record { key = a; new_urls = m.new_urls; scheduled_urls = m.scheduled_urls }) ∷ [];
      },
      some a,
    )
unfolding Sched.continue_dialog
continue-end s a m e f =
    let i : (not (s.inbound == end_crawl) && not (s.inbound == register_crawler)) ≡ false =
      ground arith in
    let o : (not (s.outbound == invalid_id) && not (s.outbound == begin_crawl)) ≡ false =
      ground arith in
    rw (i, o)

trash-inbound :
    (s : Sched.Session) (a : ℕ) (m : Message) (k : ℕ)
    → ((Sched.trash s a m k).inbound ≡ s.inbound) × ((Sched.trash s a m k).outbound ≡ s.outbound)
unfolding Sched.trash
trash-inbound s a m k = elim (Bool-cases (k == 0)) [
  | inl e ↦ rw (Sched.trash, e) (refl, refl)
  | inr e ↦ rw (Sched.trash, e) (refl, refl)
]

pub handle-register :
    (s : Sched.Session) (a : ℕ) (m : Message)
    → id m ≡ register_crawler
    → s.inbound ≡ invalid_id
    → s.outbound ≡ invalid_id
    → ((Sched.handle_message s a m).0.inbound ≡ register_crawler)
      × (((Sched.handle_message s a m).0.outbound ≡ invalid_id)
          × ((Sched.handle_message s a m).1 ≡ false))
unfolding Sched.handle_message Sched.conclude Sched.trash
handle-register s a (register_crawler_message m) i e f =
    let h = ap (Sched.conclude a (register_crawler_message m)) (continue-register s a m e f) in
    (ap (λ r. r.0.inbound) h, (ap (λ r. r.0.outbound) h ∙ f, ap (λ r. r.1) h))
handle-register s a (begin_crawl_message m) i e f = ground arith
handle-register s a (end_crawl_message m) i e f = ground arith

pub handle-end :
    (s : Sched.Session) (a : ℕ) (m : Message)
    → id m ≡ end_crawl
    → (s.inbound ≡ register_crawler) ⊎ (s.inbound ≡ end_crawl)
    → (s.outbound ≡ invalid_id) ⊎ (s.outbound ≡ begin_crawl)
    → ((Sched.handle_message s a m).0.inbound ≡ end_crawl)
      × (((Sched.handle_message s a m).0.outbound ≡ s.outbound)
          × ((Sched.handle_message s a m).1 ≡ false))
unfolding Sched.handle_message Sched.conclude Sched.trash
handle-end s a (end_crawl_message m) i e f =
    let h = ap (Sched.conclude a (end_crawl_message m)) (continue-end s a m e f) in
    let t = trash-inbound _ a (end_crawl_message m) a in
    (ap (λ r. r.0.inbound) h ∙ t.0, (ap (λ r. r.0.outbound) h ∙ t.1, ap (λ r. r.1) h))
handle-end s a (begin_crawl_message m) i e f = ground arith
handle-end s a (register_crawler_message m) i e f = ground arith

-- The crawler's guards.
pub welcome-begin :
    (s : Crawl.Session) (m : Message)
    → id m ≡ begin_crawl
    → (s.inbound ≡ invalid_id) ⊎ (s.inbound ≡ begin_crawl)
    → (s.outbound ≡ register_crawler) ⊎ (s.outbound ≡ end_crawl)
    → Crawl.welcome s m ≡ true
unfolding Crawl.welcome
welcome-begin s (begin_crawl_message m) i e f = ground arith
welcome-begin s (register_crawler_message m) i e f = ground arith
welcome-begin s (end_crawl_message m) i e f = ground arith

fetch_loop-inbound :
    (n : ℕ) (s t : Crawl.Session) (i : List ℕ)
    → Crawl.fetch_loop n s i ≡ some t
    → (t.inbound ≡ s.inbound) × (t.outbound ≡ s.outbound)
unfolding Crawl.fetch_loop
fetch_loop-inbound zero s t i e = ground arith
fetch_loop-inbound (suc n) s t [] e = (cc e, cc e)
fetch_loop-inbound (suc n) s t (u ∷ us) e = fetch_loop-inbound n _ t (u ∷ us) e

pub continue-begin :
    (n : ℕ) (s t : Crawl.Session) (m : Message)
    → id m ≡ begin_crawl
    → Crawl.continue_dialog n s m ≡ Crawl.Outcome.handled t
    → (t.inbound ≡ begin_crawl) × (t.outbound ≡ s.outbound)
unfolding Crawl.continue_dialog
continue-begin n s t (begin_crawl_message m) i e =
    elim (Bool-cases (Crawl.welcome s (begin_crawl_message m))) [
      | inl w ↦ elim (Option-cases (Crawl.fetch_loop n s m.urls)) [
        | inl o ↦
            let q : Crawl.out_of_fuel ≡ Crawl.handled t = rw (← e, Crawl.continue_dialog, w, o) in
            cc q
        | inr (t', o) ↦
            let q : Crawl.handled (record t' { inbound = begin_crawl }) ≡ Crawl.handled t =
              rw (← e, Crawl.continue_dialog, w, o) in
            (cc q, cc (q, (fetch_loop-inbound n s t' m.urls o).1))
      ]
      | inr w ↦
          let q : Crawl.dialog_error s ≡ Crawl.handled t = rw (← e, Crawl.continue_dialog, w) in
          cc q
    ]
continue-begin n s t (register_crawler_message m) i e = ground arith
continue-begin n s t (end_crawl_message m) i e = ground arith
