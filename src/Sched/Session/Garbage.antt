-- ===== src/Sched/Session/Garbage.antt =====
-- sched/Session.cpp and DeferredUpdate.cpp: who deletes the messages that a session is handed.
use oodles.Prelude.{
  ℕ, ◌+◌, ◌≤◌, ◌≡◌, ◌≢◌, inl, inr, refl, ap, ◌∙◌, List, [], ◌∷◌, ◌++◌, none, some, arith,
  Option-cases, map,
}
use oodles.Url.Parser.Scan.{done, undefined}
use oodles.Utility.Events.{contains}
use oodles.Sched.Session.{Session, Deferable, find, erase, receive, send}
use oodles.Sched.Session.Counts.{once, once_self, times, keys, times-erase, find-counted}
use oodles.Sched.Session.Steps.{
  State, Step, Reach, start, step, handles, sends, publishes, receives, clears, collector,
  nothing_deferred,
}
use oodles.Sched.DeferredUpdate.{DeferredUpdate, clear, update}
use oodles.Sched.Node.{Double}
use oodles.Sched.Scheduler.{Scheduler}
use oodles.Sched.DeferredUpdate.Publishing.{posted_keys, Tidy, clear-undefined, update-deferred}
use oodles.Sched.Session.Account.{
  Accounted, Accounted-handles, Accounted-publishes, Accounted-clears, Tidy-same,
}

posted_times :
    (b k : ℕ) (xs ys : List (ℕ × ℕ))
    → times b (map (λ r. r.0) (xs ++ (k, collector) ∷ ys))
      ≡ times b (map (λ r. r.0) (xs ++ ys)) + once b k
posted_times b k [] ys = omega arith
posted_times b k (x ∷ xs) ys = omega (arith, posted_times b k xs ys)

key_times :
    (s : State) (b k : ℕ) (xs ys : List (ℕ × ℕ))
    → s.deferred.posted ≡ xs ++ (k, collector) ∷ ys
    → times b (posted_keys s.deferred) ≡ times b (map (λ r. r.0) (xs ++ ys)) + once b k
key_times s b k xs ys e = ap (λ l. times b (map (λ (r : ℕ × ℕ). r.0) l)) e ∙ posted_times b k xs ys

awaited_key :
    (s : State) (k : ℕ) (xs ys : List (ℕ × ℕ))
    → s.deferred.posted ≡ xs ++ (k, collector) ∷ ys
    → Accounted s
    → 1 ≤ times k (keys s.session.garbage)
awaited_key s k xs ys e p = omega (arith, p.awaited k, key_times s k k xs ys e, once_self k)

receive-effect :
    (s t : Session) (k : ℕ)
    → receive s k ≡ some t
    → (t.garbage ≡ erase k s.garbage) × (t.deleted ≡ k ∷ s.deleted)
unfolding receive
receive-effect s t k e = elim (Option-cases (find k s.garbage)) [
  | inl o ↦ let q : none ≡ some t = rw (← e, receive, o) in cc q
  | inr (m, o) ↦
      let q : some (record s { garbage = erase k s.garbage; deleted = k ∷ s.deleted }) ≡ some t =
        rw (← e, receive, o) in
      (cc q, cc q)
]

receive-held : (s : Session) (k : ℕ) → 1 ≤ times k (keys s.garbage) → receive s k ≢ none
unfolding receive
receive-held s k h e = elim (Option-cases (find k s.garbage)) [
  | inl o ↦ find-counted k s.garbage h o
  | inr (m, o) ↦
      let q : some (record s { garbage = erase k s.garbage; deleted = k ∷ s.deleted }) ≡ none =
        rw (← e, receive, o) in
      cc q
]

Accounted-receives :
    (s : State) (t : Session) (k : ℕ) (xs ys : List (ℕ × ℕ))
    → s.deferred.posted ≡ xs ++ (k, collector) ∷ ys
    → receive s.session k ≡ some t
    → Accounted s
    → Accounted (record s { session = t; deferred = record s.deferred { posted = xs ++ ys } })
Accounted-receives s t k xs ys e f p =
    let held : 1 ≤ times k (keys s.session.garbage) = awaited_key s k xs ys e p in
    let r = receive-effect s.session t k f in
    let c = λ (b : ℕ). times-erase b k s.session.garbage held in
    record {
      awaited = λ b. rw r.0 (omega (arith, c b, p.awaited b, key_times s b k xs ys e));
      single = λ b. rw r.0 (omega (arith, c b, p.single b));
      freed = λ b. rw (r.0, r.1) (omega (arith, c b, p.freed b));
      tidy = Tidy-same s.deferred (record s.deferred { posted = xs ++ ys }) refl refl p.tidy;
    }

Accounted-Step : (s t : State) → Accounted s → Step s t → Accounted t
unfolding send
Accounted-Step s _ p (handles _ a m e n f o h) = Accounted-handles s a m e n f o h p
Accounted-Step s _ p (sends _ m) = record {
  awaited = p.awaited;
  single = p.single;
  freed = p.freed;
  tidy = p.tidy;
}
Accounted-Step s _ p (publishes _ h) = Accounted-publishes s h p
Accounted-Step s _ p (receives _ t k xs ys e f) = Accounted-receives s t k xs ys e f p
Accounted-Step s _ p (clears _ u h e) = Accounted-clears s u h e p

Tidy-nothing : Tidy collector nothing_deferred
unfolding contains
Tidy-nothing = record {
  linked = record { distinct = λ e. tt; known = λ s e h. cc h };
  known = λ e. refl;
  told = tt;
}

Accounted-Reach : (s : State) → Reach s → Accounted s
Accounted-Reach _ start = record {
  awaited = λ a. refl;
  single = λ a. omega arith;
  freed = λ a. refl;
  tidy = Tidy-nothing;
}
Accounted-Reach _ (step s t r h) = Accounted-Step s t (Accounted-Reach s r) h

-- In each state that a session reaches, the assertion of GarbageCollector::receive holds for each
-- receipt of the collector that the dispatcher has still to run.
pub Reach-receives :
    (s : State) (k : ℕ) (xs ys : List (ℕ × ℕ))
    → Reach s
    → s.deferred.posted ≡ xs ++ (k, collector) ∷ ys
    → receive s.session k ≢ none
Reach-receives s k xs ys r e =
    receive-held s.session k (awaited_key s k xs ys e (Accounted-Reach s r))

-- In each state that a session reaches, the number of messages with a given address that were handed
-- over is the number deleted and the number kept, which is at most one.
pub Reach-accounted :
    (s : State) (a : ℕ)
    → Reach s
    → (times a s.taken ≡ times a s.session.deleted + times a (keys s.session.garbage))
      × (times a (keys s.session.garbage) ≤ 1)
Reach-accounted s a r = let p = Accounted-Reach s r in (p.freed a, p.single a)

-- In each state that a session reaches in which an update is deferred, clearing the updates is
-- undefined, since the update's event has the garbage collector for a subscriber, and a run of
-- DeferredUpdate::update on any scheduler never comes to a result, whatever its fuel.
pub Reach-update {ℓ} :
    {R Q : Type ℓ} (real : Double R) (at_address : ℕ → ℕ) (f now : ℕ) (t : Scheduler R Q)
    (r : Scheduler R Q × ℕ × DeferredUpdate) (s : State) (d : Deferable) (e : ℕ)
    (us : List (Deferable × ℕ))
    → Reach s
    → s.deferred.updates ≡ (d, e) ∷ us
    → (clear s.deferred ≡ undefined) × (update real at_address f now t s.deferred ≢ done r)
Reach-update real at_address f now t r s d e us h q =
    let p = (Accounted-Reach s h).tidy in
    (
      clear-undefined collector s.deferred d e us p.linked p.told q,
      update-deferred real at_address collector f now t s.deferred d e us r p q,
    )
