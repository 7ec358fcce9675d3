-- ===== src/Sched/Session/Account.antt =====
-- sched/Session.cpp and DeferredUpdate.cpp: the account of the messages that a session is handed, and
-- that handling, publishing and clearing keep it.
use oodles.Prelude.{
  ℕ, ◌+◌, ◌≤◌, ◌≡◌, ◌≢◌, inl, inr, refl, sym, ap, ◌∙◌, subst, true, false, List, [], ◌∷◌, ◌++◌,
  arith, ◌==◌, Bool-cases, if◌then◌else◌, map, length, drop,
}
use oodles.Net.Oop.Messages.{Message}
use oodles.Url.Parser.Scan.{done, undefined}
use oodles.Utility.Events.{contains}
use oodles.Sched.Session.{Session, Deferable, assign, handle_message}
use oodles.Sched.Session.Counts.{once, times, times-append, keys, times-assign}
use oodles.Sched.Session.Handling.{Deletes, Keeps, handle_cases}
use oodles.Sched.Session.Steps.{State, collector, defer_first, handled}
use oodles.Sched.DeferredUpdate.{DeferredUpdate, defer, publish_all, destroy_events, clear}
use oodles.Sched.DeferredUpdate.Publishing.{
  addresses, update_keys, posted_keys, Tidy, defer-Tidy, publish_all-same, publish_all-keys,
  clear-undefined,
}

-- The keys of the updates that are not yet published.
abbrev pub unpublished : State → List ℕ
unpublished s = if s.published then [] else update_keys s.deferred.updates

-- Each message handed over was deleted once or is kept, each that is kept awaits one receipt, and no
-- key is kept twice.
pub record Accounted (s : State) : Type 0 where
  pub awaited :
      (a : ℕ)
      → times a (keys s.session.garbage)
        ≡ times a (posted_keys s.deferred) + times a (unpublished s)
  pub single : (a : ℕ) → times a (keys s.session.garbage) ≤ 1
  pub freed :
      (a : ℕ) → times a s.taken ≡ times a s.session.deleted + times a (keys s.session.garbage)
  pub tidy : Tidy collector s.deferred

-- Each step keeps the account.
single_assign :
    (a b : ℕ) (m : Message) (g : List (ℕ × Message))
    → times a (keys g) ≡ 0
    → times b (keys g) ≤ 1
    → times b (keys (assign a m g)) ≤ 1
single_assign a b m g f h =
    let c = times-assign b a m g f in
    elim (Bool-cases (b == a)) [
      | inl e ↦
          let z : times b (keys g) ≡ 0 = subst (λ x. times x (keys g) ≡ 0) (ground arith) f in
          let o : once b a ≡ 1 = rw e in omega (arith, c, z, o)
      | inr e ↦ let o : once b a ≡ 0 = rw e in omega (arith, c, h, o)
    ]

drop_all : (xs : List Deferable) → drop (length xs) xs ≡ []
drop_all [] = refl
drop_all (x ∷ xs) = drop_all xs

drop_old : (xs : List Deferable) (d : Deferable) → drop (length xs) (xs ++ d ∷ []) ≡ d ∷ []
drop_old [] d = refl
drop_old (x ∷ xs) d = drop_old xs d

update_keys-append :
    (us : List (Deferable × ℕ)) (d : Deferable) (e : ℕ)
    → update_keys (us ++ (d, e) ∷ []) ≡ update_keys us ++ d.key ∷ []
update_keys-append [] d e = refl
update_keys-append (u ∷ us) d e = ap (λ l. u.0.key ∷ l) (update_keys-append us d e)

Accounted-Deletes :
    (s : State) (a : ℕ) (t : Session)
    → Deletes s.session a t
    → Accounted s
    → Accounted (record s { session = t; taken = a ∷ s.taken })
unfolding Deletes
Accounted-Deletes s a t d p = record {
  awaited = λ b. rw d.0 (p.awaited b);
  single = λ b. rw d.0 (p.single b);
  freed = λ b. rw (d.0, d.1.1) (omega (arith, p.freed b));
  tidy = p.tidy;
}

-- What awaits a receipt when one more update is deferred.
unpublished-defer :
    (s : State) (d : Deferable) (e b : ℕ)
    → s.published ≡ false
    → times b (unpublished (record s { deferred = defer s.deferred d collector e }))
      ≡ times b (unpublished s) + once b d.key
unfolding defer
unpublished-defer s d e b h =
    rw (h, update_keys-append s.deferred.updates d e)
      (omega (arith, times-append b (update_keys s.deferred.updates) (d.key ∷ [])))

posted-defer :
    (u : DeferredUpdate) (d : Deferable) (e : ℕ)
    → posted_keys (defer u d collector e) ≡ posted_keys u
unfolding defer
posted-defer u d e = refl

Accounted-Keeps :
    (s : State) (a e : ℕ) (m : Message) (t : Session) (d : Deferable)
    → t.garbage ≡ assign a m s.session.garbage
    → t.deleted ≡ s.session.deleted
    → d.key ≡ a
    → times a (keys s.session.garbage) ≡ 0
    → contains e (addresses s.deferred.updates) ≡ false
    → s.published ≡ false
    → Accounted s
    → Accounted
        (record s { session = t; deferred = defer s.deferred d collector e; taken = a ∷ s.taken })
Accounted-Keeps s a e m t d g l k f n h p =
    let c = λ (b : ℕ). times-assign b a m s.session.garbage f in
    record {
      awaited = λ b.
          let q = unpublished-defer s d e b h in
          let o : once b d.key ≡ once b a = ap (once b) k in
          rw (g, posted-defer s.deferred d e) (omega (arith, c b, p.awaited b, q, o));
      single = λ b. rw g (single_assign a b m s.session.garbage f (p.single b));
      freed = λ b. rw (g, l) (omega (arith, p.freed b, c b));
      tidy = defer-Tidy collector s.deferred d e p.tidy n;
    }

pub Accounted-handles :
    (s : State) (a : ℕ) (m : Message) (e : ℕ)
    → a ≢ 0
    → times a (keys s.session.garbage) ≡ 0
    → contains e (addresses s.deferred.updates) ≡ false
    → s.published ≡ false
    → Accounted s
    → Accounted (handled s a m e)
unfolding Deletes Keeps defer_first
Accounted-handles s a m e n f o h p =
    let t = (handle_message s.session a m).0 in
    let family = λ (ds : List Deferable).
      Accounted
        (record s { session = t; deferred = defer_first s.deferred ds e; taken = a ∷ s.taken }) in
    elim (handle_cases s.session a m n) [
      | inl d ↦
          let x : drop (length s.session.updates) t.updates ≡ [] =
            ap (drop (length s.session.updates)) d.1.0 ∙ drop_all s.session.updates in
          subst family (sym x) (Accounted-Deletes s a t d p)
      | inr (g, (d, k, u, l)) ↦
          let x : drop (length s.session.updates) t.updates ≡ d ∷ [] =
            ap (drop (length s.session.updates)) u ∙ drop_old s.session.updates d in
          subst family (sym x) (Accounted-Keeps s a e m t d g l k f o h p)
    ]

pub Tidy-same :
    (u v : DeferredUpdate)
    → v.updates ≡ u.updates
    → v.events ≡ u.events
    → Tidy collector u
    → Tidy collector v
Tidy-same u v a b t = record {
  linked = rw b t.linked;
  known = λ e. rw (a, b) (t.known e);
  told = rw (a, b) t.told;
}

pub Accounted-publishes :
    (s : State)
    → s.published ≡ false
    → Accounted s
    → Accounted
        (record s { deferred = publish_all s.deferred s.deferred.updates; published = true })
Accounted-publishes s h p =
    let us = s.deferred.updates in
    let q = publish_all-keys collector s.deferred us p.tidy.told in
    let same = publish_all-same s.deferred us in
    record {
      awaited = λ b.
          let w : times b (unpublished s) ≡ times b (update_keys us) = rw h in
          rw q (
            omega
              (arith, p.awaited b, w, times-append b (posted_keys s.deferred) (update_keys us)));
      single = p.single;
      freed = p.freed;
      tidy = Tidy-same s.deferred (publish_all s.deferred us) same.0 same.1 p.tidy;
    }

clear-nothing :
    (u v : DeferredUpdate)
    → u.updates ≡ []
    → clear u ≡ done v
    → (v.updates ≡ u.updates) × (v.events ≡ u.events) × (v.posted ≡ u.posted)
unfolding clear destroy_events
clear-nothing u v e h =
    let q : done (record u { updates = []; events = u.events }) ≡ done v =
      rw (← h, clear, e, destroy_events) in
    (cc (q, e), cc q, cc q)

clear-empty :
    (u v : DeferredUpdate) (us : List (Deferable × ℕ))
    → Tidy collector u
    → u.updates ≡ us
    → clear u ≡ done v
    → u.updates ≡ []
clear-empty u v [] t e h = e
clear-empty u v ((d, f) ∷ us) t e h =
    let z = clear-undefined collector u d f us t.linked t.told e in
    let q : undefined ≡ done v = sym z ∙ h in absurd (cc q)

pub Accounted-clears :
    (s : State) (u : DeferredUpdate)
    → s.published ≡ true
    → clear s.deferred ≡ done u
    → Accounted s
    → Accounted (record s { deferred = u; published = false })
Accounted-clears s u h e p =
    let z = clear-empty s.deferred u s.deferred.updates p.tidy refl e in
    let (a, b, c) = clear-nothing s.deferred u z e in
    record {
      awaited = λ x.
          let w : times x (unpublished s) ≡ 0 = rw h in
          let k : posted_keys u ≡ posted_keys s.deferred = ap (λ l. map (λ (r : ℕ × ℕ). r.0) l) c in
          let v : times x (update_keys u.updates) ≡ 0 = ap (λ l. times x (update_keys l)) (a ∙ z) in
          rw k (omega (arith, p.awaited x, w, v));
      single = p.single;
      freed = p.freed;
      tidy = Tidy-same s.deferred u a b p.tidy;
    }
