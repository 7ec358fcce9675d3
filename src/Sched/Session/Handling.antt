-- ===== src/Sched/Session/Handling.antt =====
-- sched/Session.cpp: handling a message deletes it or keeps it for an update.
use oodles.Prelude.{
  ℕ, ◌≡◌, ◌≢◌, ◌⊎◌, inl, inr, refl, ap, ◌∙◌, false, not, [], ◌∷◌, ◌++◌, none, some, arith, ◌==◌,
  ◌&&◌, Bool-cases,
}
use oodles.Net.Oop.Factory.{invalid_id, register_crawler, begin_crawl, end_crawl}
use oodles.Net.Oop.Messages.{
  Message, RegisterCrawler, EndCrawl, register_crawler_message, begin_crawl_message,
  end_crawl_message,
}
use oodles.Sched.Session.{
  Session, Deferable, assign, trash, continue_dialog, conclude, handle_message,
}

-- What handling comes to: the message is deleted, or it is kept and its update is to be deferred.
unfoldable pub Deletes : Session → ℕ → Session → Type 0
Deletes s a t = (t.garbage ≡ s.garbage) × ((t.updates ≡ s.updates) × (t.deleted ≡ a ∷ s.deleted))

unfoldable pub Keeps : Session → ℕ → Message → Session → Type 0
Keeps s a m t =
    (t.garbage ≡ assign a m s.garbage)
    × ((d : Deferable) × (d.key ≡ a) × (t.updates ≡ s.updates ++ d ∷ []) × (t.deleted ≡ s.deleted))

conclude-none :
    (s : Session) (a : ℕ) (m : Message)
    → continue_dialog s a m ≡ (s, none)
    → Deletes s a (handle_message s a m).0
unfolding Deletes handle_message conclude
conclude-none s a m e =
    let h = ap (conclude a m) e in
    (ap (λ r. r.0.garbage) h, (ap (λ r. r.0.updates) h, ap (λ r. r.0.deleted) h))

handle-register :
    (s : Session) (a : ℕ) (m : RegisterCrawler)
    → Deletes s a (handle_message s a (register_crawler_message m)).0
unfolding Deletes handle_message conclude trash continue_dialog
handle-register s a m = elim (Bool-cases (not (s.inbound == invalid_id))) [
  | inl e ↦ conclude-none s a (register_crawler_message m) (rw (continue_dialog, e))
  | inr e ↦ elim (Bool-cases (not (s.outbound == invalid_id))) [
    | inl f ↦ conclude-none s a (register_crawler_message m) (rw (continue_dialog, e, f))
    | inr f ↦
        let c : continue_dialog s a (register_crawler_message m)
            ≡ (record s { inbound = register_crawler; crawlers = s.crawlers ++ m ∷ [] }, some 0) =
          rw (continue_dialog, e, f) in
        let h = ap (conclude a (register_crawler_message m)) c in
        (ap (λ r. r.0.garbage) h, (ap (λ r. r.0.updates) h, ap (λ r. r.0.deleted) h))
  ]
]

abbrev deferred : Session → ℕ → EndCrawl → Session
deferred s a m = record s {
  inbound = end_crawl;
  updates =
      s.updates
      ++ (record { key = a; new_urls = m.new_urls; scheduled_urls = m.scheduled_urls }) ∷ [];
}

trash-kept :
    (s : Session) (a : ℕ) (m : Message)
    → a ≢ 0
    → trash s a m a ≡ record s { garbage = assign a m s.garbage }
unfolding trash
trash-kept s a m n = let e : (a == 0) ≡ false = ground arith in rw e

Keeps-end :
    (s : Session) (a : ℕ) (m : EndCrawl)
    → a ≢ 0
    → continue_dialog s a (end_crawl_message m) ≡ (deferred s a m, some a)
    → Keeps s a (end_crawl_message m) (handle_message s a (end_crawl_message m)).0
unfolding Keeps handle_message conclude
Keeps-end s a m n e =
    let h : (conclude a (end_crawl_message m) (continue_dialog s a (end_crawl_message m))).0
        ≡ record (deferred s a m) { garbage = assign a (end_crawl_message m) s.garbage } =
      ap (λ r. (conclude a (end_crawl_message m) r).0) e
      ∙ trash-kept (deferred s a m) a (end_crawl_message m) n in
    let d : Deferable = record {
      key = a;
      new_urls = m.new_urls;
      scheduled_urls = m.scheduled_urls;
    } in
    (ap (λ r. r.garbage) h, (d, refl, ap (λ r. r.updates) h, ap (λ r. r.deleted) h))

handle-end :
    (s : Session) (a : ℕ) (m : EndCrawl)
    → a ≢ 0
    → Deletes s a (handle_message s a (end_crawl_message m)).0
      ⊎ Keeps s a (end_crawl_message m) (handle_message s a (end_crawl_message m)).0
unfolding continue_dialog
handle-end s a m n =
    elim (Bool-cases (not (s.inbound == end_crawl) && not (s.inbound == register_crawler))) [
      | inl e ↦ inl (conclude-none s a (end_crawl_message m) (rw (continue_dialog, e)))
      | inr e ↦
          elim (Bool-cases (not (s.outbound == invalid_id) && not (s.outbound == begin_crawl))) [
            | inl f ↦ inl (conclude-none s a (end_crawl_message m) (rw (continue_dialog, e, f)))
            | inr f ↦ inr (Keeps-end s a m n (rw (continue_dialog, e, f)))
          ]
    ]

pub handle_cases :
    (s : Session) (a : ℕ) (m : Message)
    → a ≢ 0
    → Deletes s a (handle_message s a m).0 ⊎ Keeps s a m (handle_message s a m).0
unfolding continue_dialog
handle_cases s a (register_crawler_message m) n = inl (handle-register s a m)
handle_cases s a (begin_crawl_message m) n = inl (conclude-none s a (begin_crawl_message m) refl)
handle_cases s a (end_crawl_message m) n = handle-end s a m n
