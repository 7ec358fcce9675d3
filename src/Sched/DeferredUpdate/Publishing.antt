-- ===== src/Sched/DeferredUpdate/Publishing.antt =====
-- sched/DeferredUpdate.cpp: the events of deferred updates, with one subscriber `c` for all of them.
use oodles.Prelude.{
  ℕ, ◌≡◌, ◌≢◌, refl, sym, ap, ◌∙◌, true, false, ◌||◌, List, [], ◌∷◌, ◌++◌, ◌==◌, ==_refl, map,
  arith, Bool, subst,
}
use oodles.Url.Parser.Scan.{Outcome, done, aborted, undefined, exhausted}
use oodles.Utility.Events.{Store, contains, add, put, broadcast}
use oodles.Utility.Events.Laws.{
  Linked, subscribe-new, subscribe_to-Linked, destroy_event-subscribed,
}
use oodles.Sched.Session.{Deferable}
use oodles.Sched.Node.{Double}
use oodles.Sched.Scheduler.{Scheduler}
use oodles.Sched.DeferredUpdate.{
  DeferredUpdate, constructed, defer, publish, publish_all, destroy_events, cleared, clear,
  update_new_urls, update_scheduled, update_all, with_update, finish, update,
}

abbrev pub addresses : List (Deferable × ℕ) → List ℕ
addresses us = map (λ u. u.1) us

abbrev pub update_keys : List (Deferable × ℕ) → List ℕ
update_keys us = map (λ u. u.0.key) us

abbrev pub posted_keys : DeferredUpdate → List ℕ
posted_keys u = map (λ r. r.0) u.posted

-- Each update has the subscriber `c` and no other.
abbrev pub Told : ℕ → Store → List (Deferable × ℕ) → Type 0
Told c w [] = Unit
Told c w ((d, e) ∷ us) = (w.subscribers e ≡ c ∷ []) × Told c w us

-- The events of `c` are those of the updates in the list.
pub record Tidy (c : ℕ) (u : DeferredUpdate) : Type 0 where
  pub linked : Linked u.events
  pub known : (e : ℕ) → contains e (u.events.events c) ≡ contains e (addresses u.updates)
  pub told : Told c u.events u.updates

no_subscribers :
    (s : ℕ) (w : Store) (e f : ℕ)
    → contains s (put w.subscribers e [] f) ≡ true
    → contains s (w.subscribers f) ≡ true
unfolding contains
no_subscribers s w e f h = ground arith

Linked-constructed : (w : Store) (e : ℕ) → Linked w → Linked (constructed w e)
Linked-constructed w e l = record {
  distinct = λ f. ground (arith, l.distinct f);
  known = λ s f h. l.known s f (no_subscribers s w e f h);
}

-- The store after a new update at `e`.
abbrev deferred : ℕ → Store → ℕ → Store
deferred c w e = record {
  subscribers = put (put w.subscribers e []) e (add c (put w.subscribers e [] e));
  events = put w.events c (e ∷ w.events c);
}

defer-new :
    (c : ℕ) (u : DeferredUpdate) (d : Deferable) (e : ℕ)
    → contains e (u.events.events c) ≡ false
    → defer u d c e
      ≡ record u { updates = u.updates ++ (d, e) ∷ []; events = deferred c u.events e }
unfolding defer
defer-new c u d e h =
    ap (λ (r : Store × Bool). record u { updates = u.updates ++ (d, e) ∷ []; events = r.0 })
      (subscribe-new (constructed u.events e) c e h)

Linked-deferred :
    (c : ℕ) (w : Store) (e : ℕ)
    → Linked w
    → contains e (w.events c) ≡ false
    → Linked (deferred c w e)
Linked-deferred c w e l h =
    let n = subscribe-new (constructed w e) c e h in
    subst (λ (r : Store × Bool). Linked r.0) n
      (subscribe_to-Linked (constructed w e) c e (Linked-constructed w e l)).3

contains-address :
    (f e : ℕ) (d : Deferable) (us : List (Deferable × ℕ))
    → contains f (addresses (us ++ (d, e) ∷ [])) ≡ (e == f || contains f (addresses us))
unfolding contains
contains-address f e d [] = ground arith
contains-address f e d (u ∷ us) = ground (arith, contains-address f e d us)

Told-others :
    (c : ℕ) (w : Store) (e : ℕ) (us : List (Deferable × ℕ))
    → contains e (addresses us) ≡ false
    → Told c w us
    → Told c (deferred c w e) us
unfolding contains
Told-others c w e [] h t = tt
Told-others c w e ((d, f) ∷ us) h t =
    let n : (e == f) ≡ false = ground arith in (rw n t.0, Told-others c w e us (ground arith) t.1)

Told-append :
    (c : ℕ) (w : Store) (e : ℕ) (d : Deferable) (us : List (Deferable × ℕ))
    → Told c w us
    → w.subscribers e ≡ c ∷ []
    → Told c w (us ++ (d, e) ∷ [])
Told-append c w e d [] t h = (h, tt)
Told-append c w e d (u ∷ us) t h = (t.0, Told-append c w e d us t.1 h)

told_itself : (c : ℕ) (w : Store) (e : ℕ) → (deferred c w e).subscribers e ≡ c ∷ []
unfolding contains
told_itself c w e = rw (==_refl e)

known_itself :
    (c f : ℕ) (w : Store) (e : ℕ)
    → contains f ((deferred c w e).events c) ≡ (e == f || contains f (w.events c))
unfolding contains
known_itself c f w e = rw (==_refl c)

-- A new update, at an address that none in the list has, keeps this.
pub defer-Tidy :
    (c : ℕ) (u : DeferredUpdate) (d : Deferable) (e : ℕ)
    → Tidy c u
    → contains e (addresses u.updates) ≡ false
    → Tidy c (defer u d c e)
defer-Tidy c u d e t h =
    let fresh = t.known e ∙ h in
    rw (defer-new c u d e fresh) (record {
      linked = Linked-deferred c u.events e t.linked fresh;
      known = λ f.
          known_itself c f u.events e
          ∙ ap (λ b. e == f || b) (t.known f)
          ∙ sym (contains-address f e d u.updates);
      told =
          Told-append c (deferred c u.events e) e d u.updates
            (Told-others c u.events e u.updates h t.told) (told_itself c u.events e);
    })

-- Publishing changes nothing but what is posted.
pub publish_all-same :
    (u : DeferredUpdate) (us : List (Deferable × ℕ))
    → ((publish_all u us).updates ≡ u.updates) × ((publish_all u us).events ≡ u.events)
unfolding publish_all publish
publish_all-same u [] = (refl, refl)
publish_all-same u ((d, e) ∷ us) = publish_all-same (publish u d e) us

keys-append :
    (xs ys : List (ℕ × ℕ)) → map (λ r. r.0) (xs ++ ys) ≡ map (λ r. r.0) xs ++ map (λ r. r.0) ys
keys-append [] ys = refl
keys-append (x ∷ xs) ys = ap (λ l. x.0 ∷ l) (keys-append xs ys)

append_one : (xs : List ℕ) (y : ℕ) (zs : List ℕ) → (xs ++ y ∷ []) ++ zs ≡ xs ++ y ∷ zs
append_one [] y zs = refl
append_one (x ∷ xs) y zs = ap (λ l. x ∷ l) (append_one xs y zs)

append_nil : (xs : List ℕ) → xs ++ [] ≡ xs
append_nil [] = refl
append_nil (x ∷ xs) = ap (λ l. x ∷ l) (append_nil xs)

publish-keys :
    (c : ℕ) (u : DeferredUpdate) (d : Deferable) (e : ℕ)
    → u.events.subscribers e ≡ c ∷ []
    → posted_keys (publish u d e) ≡ posted_keys u ++ d.key ∷ []
unfolding publish broadcast
publish-keys c u d e h =
    keys-append u.posted (map (λ r. (d.key, r)) (u.events.subscribers e))
    ∙ ap (λ l. posted_keys u ++ map (λ (r : ℕ × ℕ). r.0) (map (λ (r : ℕ). (d.key, r)) l)) h

-- Where each update has one subscriber, its key is posted once, in the order of the list.
pub publish_all-keys :
    (c : ℕ) (u : DeferredUpdate) (us : List (Deferable × ℕ))
    → Told c u.events us
    → posted_keys (publish_all u us) ≡ posted_keys u ++ update_keys us
unfolding publish_all publish
publish_all-keys c u [] t = sym (append_nil (posted_keys u))
publish_all-keys c u ((d, e) ∷ us) t =
    publish_all-keys c (publish u d e) us t.1
    ∙ ap (λ l. l ++ update_keys us) (publish-keys c u d e t.0)
    ∙ append_one (posted_keys u) d.key (update_keys us)

-- An update that has its subscriber cannot be destroyed.
pub clear-undefined :
    (c : ℕ) (u : DeferredUpdate) (d : Deferable) (e : ℕ) (us : List (Deferable × ℕ))
    → Linked u.events
    → Told c u.events u.updates
    → u.updates ≡ (d, e) ∷ us
    → clear u ≡ undefined
unfolding clear destroy_events
clear-undefined c u d e us l t h =
    let t' : Told c u.events ((d, e) ∷ us) = subst (λ x. Told c u.events x) h t in
    let n : u.events.subscribers e ≢ [] = λ z. (let q : c ∷ [] ≡ [] = sym t'.0 ∙ z in cc q) in
    let z = destroy_event-subscribed u.events e l n in
    ap (λ x. cleared u (destroy_events u.events x)) h ∙ rw (cleared, destroy_events, z)

module _ {ℓ} {R Q : Type ℓ} (real : Double R) (at_address : ℕ → ℕ) where
  published :
      (f now : ℕ) (s s' : Scheduler R Q) (n x x' : ℕ) (d : Deferable) (e : ℕ)
      (ds : List (Deferable × ℕ)) (u u' : DeferredUpdate) (o : Outcome (Scheduler R Q × ℕ × ℕ))
      → (elim o as (λ c. Outcome (Scheduler R Q × ℕ × DeferredUpdate)) [
        | aborted ↦ aborted
        | undefined ↦ undefined
        | exhausted ↦ exhausted
        | done (s', n', x') ↦ update_all real at_address f now s' n' x' ds (publish u d e)
      ])
        ≡ done (s', x', u')
      → (t : Scheduler R Q) × (m : ℕ) × (y : ℕ) × (update_all real at_address f now t m y ds
            (publish u d e)
          ≡ done (s', x', u'))
  published f now s s' n x x' d e ds u u' aborted h = absurd (cc h)
  published f now s s' n x x' d e ds u u' undefined h = absurd (cc h)
  published f now s s' n x x' d e ds u u' exhausted h = absurd (cc h)
  published f now s s' n x x' d e ds u u' (done (t, m, y)) h = (t, m, y, h)

  -- Whatever the work on the tree, the outer loop of update publishes each update when it is done.
  pub update_all-publish_all :
      (f now : ℕ) (s s' : Scheduler R Q) (n x x' : ℕ) (ds : List (Deferable × ℕ))
      (u u' : DeferredUpdate)
      → update_all real at_address f now s n x ds u ≡ done (s', x', u')
      → u' ≡ publish_all u ds
  unfolding update_all publish_all
  update_all-publish_all f now s s' n x x' [] u u' h = sym (cc h)
  update_all-publish_all f now s s' n x x' ((d, e) ∷ ds) u u' h =
      let o =
        update_scheduled real at_address f now x d
          (update_new_urls real at_address f now s n d.new_urls) in
      let (t, m, y, r) = published f now s s' n x x' d e ds u u' o h in
      update_all-publish_all f now t s' m y x' ds (publish u d e) u' r

  with_update-done :
      (s : Scheduler R Q) (x : ℕ) (o : Outcome DeferredUpdate)
      (r : Scheduler R Q × ℕ × DeferredUpdate)
      → with_update real at_address s x o ≡ done r
      → (v : DeferredUpdate) × (o ≡ done v)
  with_update-done s x aborted r h = absurd (cc h)
  with_update-done s x undefined r h = absurd (cc h)
  with_update-done s x exhausted r h = absurd (cc h)
  with_update-done s x (done v) r h = (v, refl)

  finish-done :
      (o : Outcome (Scheduler R Q × ℕ × DeferredUpdate)) (q : Scheduler R Q × ℕ × DeferredUpdate)
      → finish real at_address o ≡ done q
      → (s : Scheduler R Q) × (x : ℕ) × (u : DeferredUpdate) × (v : DeferredUpdate) × (o
          ≡ done (s, x, u))
        × (clear u ≡ done v)
  unfolding finish
  finish-done aborted q h = absurd (cc h)
  finish-done undefined q h = absurd (cc h)
  finish-done exhausted q h = absurd (cc h)
  finish-done (done (s, x, u)) q h =
      let (v, e) = with_update-done s x (clear u) q h in (s, x, u, v, refl, e)

  -- While an update is in the list and has its subscriber, update does not come to a result.
  pub update-deferred :
      (c f now : ℕ) (s : Scheduler R Q) (w : DeferredUpdate) (d : Deferable) (e : ℕ)
      (us : List (Deferable × ℕ)) (r : Scheduler R Q × ℕ × DeferredUpdate)
      → Tidy c w
      → w.updates ≡ (d, e) ∷ us
      → update real at_address f now s w ≢ done r
  unfolding update
  update-deferred c f now s w d e us r t h z =
      let (s', x, u, v, a, b) =
        finish-done (update_all real at_address f now s 0 0 w.updates w) r z in
      let p = update_all-publish_all f now s s' 0 0 x w.updates w u a in
      let same = publish_all-same w w.updates in
      let eu : u.updates ≡ w.updates = ap (λ i. i.updates) p ∙ same.0 in
      let ee : u.events ≡ w.events = ap (λ i. i.events) p ∙ same.1 in
      let l : Linked u.events = rw ee t.linked in
      let told : Told c u.events u.updates = rw (ee, eu) t.told in
      let q : undefined ≡ done v = sym (clear-undefined c u d e us l told (eu ∙ h)) ∙ b in
      absurd (cc q)
